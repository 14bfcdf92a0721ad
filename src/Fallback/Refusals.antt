-- ===== src/Fallback/Refusals.antt =====
-- src/fallback.rs: a provider that its policy limits is left alone for the rest of the call.
use llmshim.Common.{
  ℕ, zero, suc, ◌+◌, ◌*◌, String, Bool, true, false, ◌&&◌, ◌||◌, Option, none, some, List, ◌∷◌, ◌≡◌,
  refl, if◌then◌else◌, if_cases, subst, ◌∙◌, Option-cases, Bool-cases, inl, inr, ◌⊎◌, arith,
  string_key, ◌==◌,
}
use mathlib.Core.List.{[]}
use llmshim.Error.{ShimError, Result, ok, err}
use llmshim.Fallback.{
  FallbackConfig, Dispatch, DispatchResult, success, upstream, local_failure, local_timeout,
  logical_timeout, policy_refusal, policy_observation, provider_limit, tenant_limit, budget,
  unpriceable, coordinator_unavailable, other, Ended, answered, returned, moved_on, limited,
  chain_of, on_chain, client_for, with_client, Progress, no_progress, attempt_once, conclude,
  retry_error, attempts, tell, breaker_outcome, after_ended, try_provider, try_resolved, try_models,
  on_with, completion_with_fallback_inner, has, is_retryable,
}

-- The policy refused the attempt because the provider is limited.
abbrev pub is_limit : {V : Type 0} → DispatchResult V → Bool
is_limit (policy_refusal provider_limit r) = true
is_limit (policy_refusal tenant_limit r) = false
is_limit (policy_refusal budget r) = false
is_limit (policy_refusal unpriceable r) = false
is_limit (policy_refusal coordinator_unavailable r) = false
is_limit (policy_refusal other r) = false
is_limit (success v) = false
is_limit (upstream e) = false
is_limit (local_failure e) = false
is_limit (local_timeout e) = false
is_limit (logical_timeout e) = false
is_limit (policy_observation e) = false

-- A log that the world keeps of the dispatches to `n`: whether one was refused because the
-- provider is limited, and how many were made after that. No other call writes to it.
pub record Log (W Q P V : Type 0) (d : Dispatch W Q P V) (n : String) : Type 1 where
  pub refused : W → Bool
  pub afterwards : W → ℕ
  pub refused-dispatch :
      (w : W) (p : P) (m : String) (q : Q)
      → refused (d.completion_dispatch w p m q).1
        ≡ (refused w || (d.name p == n && is_limit (d.completion_dispatch w p m q).0))
  pub afterwards-dispatch :
      (w : W) (p : P) (m : String) (q : Q)
      → afterwards (d.completion_dispatch w p m q).1
        ≡ (if refused w && d.name p == n then 1 else 0) + afterwards w
  pub log-admit :
      (w : W) (a : String)
      → (refused (d.admit w a).1 ≡ refused w) × (afterwards (d.admit w a).1 ≡ afterwards w)
  pub log-observe :
      (w : W) (p : P) (o : Option ShimError)
      → (refused (d.observe w p o) ≡ refused w) × (afterwards (d.observe w p o) ≡ afterwards w)
  pub log-sleep :
      (w : W) (t : ℕ)
      → (refused (d.sleep w t) ≡ refused w) × (afterwards (d.sleep w t) ≡ afterwards w)

module _ {W Q P V : Type 0} (d : Dispatch W Q P V) (c : FallbackConfig) (n : String)
    (log : Log W Q P V d n) where
  log-tell :
      (w : W) (p : P) (o : Option (Option ShimError))
      → (log.refused (tell d c w p o) ≡ log.refused w)
        × (log.afterwards (tell d c w p o) ≡ log.afterwards w)
  unfolding tell
  log-tell w p none = (refl, refl)
  log-tell w p (some o) = log.log-observe w p o

  -- Whether an attempt was refused because the provider is limited.
  abbrev ended_limit : Option (DispatchResult V) → Bool
  ended_limit none = false
  ended_limit (some r) = is_limit r

  log-attempt_once :
      (w : W) (p : P) (m : String) (q : Q)
      → let o = attempt_once d c w p m q in
        (log.refused w && d.name p == n) ≡ false
        → (log.refused o.1 ≡ (log.refused w || (d.name p == n && ended_limit o.0)))
          × (log.afterwards o.1 ≡ log.afterwards w)
  unfolding attempt_once
  log-attempt_once w p m q h =
      if_cases
        (λ (x : Option (DispatchResult V) × W).
          (log.refused x.1 ≡ (log.refused w || (d.name p == n && ended_limit x.0)))
          × (log.afterwards x.1 ≡ log.afterwards w))
        (d.admit w (d.name p)).0 _ _
        (λ _.
          let w1 : W = (d.admit w (d.name p)).1 in
          let w2 : W = (d.completion_dispatch w1 p m q).1 in
          let told = log-tell w2 p (breaker_outcome (d.completion_dispatch w1 p m q).0) in
          ground (
            arith,
            h,
            told,
            log.refused-dispatch w1 p m q,
            log.afterwards-dispatch w1 p m q,
            log.log-admit w (d.name p),
          ))
        (λ _. ground (arith, log.log-admit w (d.name p)))

  abbrev is_limited : Ended V → Bool
  is_limited (answered v) = false
  is_limited (returned e) = false
  is_limited moved_on = false
  is_limited (limited e) = true

  conclude-limit :
      (label : String) (p : P) (r : Option (DispatchResult V))
      → is_limited (conclude d c label p r).0 ≡ ended_limit r
  unfolding conclude
  conclude-limit label p none = refl
  conclude-limit label p (some (success v)) = refl
  conclude-limit label p (some (upstream e)) = refl
  conclude-limit label p (some (local_failure e)) = refl
  conclude-limit label p (some (local_timeout e)) =
      if_cases (λ (x : Ended V × List String). is_limited x.0 ≡ false)
        (is_retryable e c.retryable_statuses) _ _ (λ _. refl) (λ _. refl)
  conclude-limit label p (some (logical_timeout e)) = refl
  conclude-limit label p (some (policy_refusal provider_limit r)) = refl
  conclude-limit label p (some (policy_refusal tenant_limit r)) = refl
  conclude-limit label p (some (policy_refusal budget r)) = refl
  conclude-limit label p (some (policy_refusal unpriceable r)) = refl
  conclude-limit label p (some (policy_refusal coordinator_unavailable r)) = refl
  conclude-limit label p (some (policy_refusal other r)) = refl
  conclude-limit label p (some (policy_observation e)) = refl

  -- An attempt that may be made again was not refused by the policy.
  retry_error-limit :
      (r : Option (DispatchResult V)) (e : ShimError)
      → retry_error d c r ≡ some e
      → ended_limit r ≡ false
  unfolding retry_error
  retry_error-limit none e h = refl
  retry_error-limit (some (success v)) e h = refl
  retry_error-limit (some (upstream e')) e h = refl
  retry_error-limit (some (local_failure e')) e h = refl
  retry_error-limit (some (local_timeout e')) e h = refl
  retry_error-limit (some (logical_timeout e')) e h = refl
  retry_error-limit (some (policy_refusal k r)) e h = cc
  retry_error-limit (some (policy_observation e')) e h = refl

  -- What the attempts on one model leave in the log, unless `n` is dispatched after its refusal.
  abbrev Logged : W → P → (Ended V × List String) × W → Type 0
  Logged w p o =
      (log.refused o.1 ≡ (log.refused w || (d.name p == n && is_limited o.0.0)))
      × (log.afterwards o.1 ≡ log.afterwards w)

  log-attempts :
      (left attempt backoff : ℕ) (label : String) (p : P) (m : String) (q : Q) (w : W)
      → (log.refused w && d.name p == n) ≡ false
      → Logged w p (attempts d c left attempt backoff label p m q w)
  unfolding attempts
  log-attempts zero attempt backoff label p m q w h =
      rw (conclude-limit label p (attempt_once d c w p m q).0) (log-attempt_once w p m q h)
  log-attempts (suc left) attempt backoff label p m q w h =
      let once = log-attempt_once w p m q h in
      elim (Option-cases (retry_error d c (attempt_once d c w p m q).0)) [
        | inl over ↦
            rw (over, attempts) (rw (conclude-limit label p (attempt_once d c w p m q).0) once)
        | inr (e, again) ↦
            let w' : W = (attempt_once d c w p m q).1 in
            let no_limit = retry_error-limit (attempt_once d c w p m q).0 e again in
            let slept = log.log-sleep w' backoff in
            let same : log.refused (d.sleep w' backoff) ≡ log.refused w =
              ground (arith, once, no_limit, slept) in
            let later =
              log-attempts left (attempt + 1) (backoff * 2) label p m q (d.sleep w' backoff)
                (rw same h) in
            rw (again, attempts) (ground (arith, later, same, slept, once))
      ]

  -- A provider whose refusal is in the log is on the list of the call.
  abbrev IsListed : Progress → W → Type 0
  IsListed s w = log.refused w ≡ true → has s.policy_limited_providers n ≡ true

  abbrev StaysListed : ((Result V) ⊎ Progress) × W → Type 0
  StaysListed (inl result, w) = Unit
  StaysListed (inr s, w) = IsListed s w

  after_ended-StaysListed :
      (s : Progress) (p : P) (e : Ended V × List String) (w w' : W)
      → IsListed s w
      → log.refused w' ≡ (log.refused w || (d.name p == n && is_limited e.0))
      → StaysListed (after_ended d c s p e, w')
  unfolding after_ended has
  after_ended-StaysListed s p (answered v, messages) w w' h l = tt
  after_ended-StaysListed s p (returned e, messages) w w' h l = tt
  after_ended-StaysListed s p (moved_on, messages) w w' h l = λ r. h (ground (arith, l, r))
  after_ended-StaysListed s p (limited e, messages) w w' h l = λ r. ground (arith, h, l, r)

  abbrev Outcome : Type 0
  Outcome = ((Result V) ⊎ Progress) × W

  -- Nothing is dispatched to `n` after its refusal, and a refusal is remembered.
  abbrev IsSpared : W → Outcome → Type 0
  IsSpared w o = (log.afterwards o.1 ≡ log.afterwards w) × StaysListed o

  -- A provider that is not on the list has no refusal in the log.
  unlisted :
      (s : Progress) (p : P) (w : W)
      → IsListed s w
      → has s.policy_limited_providers (d.name p) ≡ false
      → (log.refused w && d.name p == n) ≡ false
  unlisted s p w h free = elim (Bool-cases (d.name p == n)) [
    | inr distinct ↦ rw distinct (ground arith)
    | inl same ↦
        let same' : d.name p ≡ n = (string_key.same_key_iff (d.name p) n).0 same in
        let free' : has s.policy_limited_providers n ≡ false =
          subst (λ a. has s.policy_limited_providers a ≡ false) same' free in
        ground (arith, h, free')
  ]

  try_resolved-IsSpared :
      (s : Progress) (label : String) (req : Result Q) (target : Result (P × String)) (w : W)
      → IsListed s w
      → IsSpared w (try_resolved d c s label req target w)
  unfolding try_resolved try_provider
  try_resolved-IsSpared s label (err e) target w h = (refl, h)
  try_resolved-IsSpared s label (ok req) (err e) w h = (refl, h)
  try_resolved-IsSpared s label (ok req) (ok (p, m)) w h =
      if_cases (IsSpared w) (has s.policy_limited_providers (d.name p)) _ _ (λ _. (refl, h))
        (λ free.
          let logged =
            log-attempts c.max_retries 0 c.initial_backoff label p m req w
              (unlisted s p w h free) in
          (logged.1, after_ended-StaysListed _ p _ w _ h logged.0))

  on_with-IsSpared :
      (w : W) (o : Outcome) (rest : Progress → W → Outcome)
      → IsSpared w o
      → ((s : Progress) (w' : W) → IsListed s w' → log.afterwards (rest s w').1 ≡ log.afterwards w')
      → log.afterwards (on_with d c o rest).1 ≡ log.afterwards w
  on_with-IsSpared w (inl result, w') rest h r = h.0
  on_with-IsSpared w (inr s, w') rest h r = r s w' h.1 ∙ h.0

  afterwards-try_models :
      (models : List String) (request : Q) (s : Progress) (w : W)
      → IsListed s w
      → log.afterwards (try_models d c models request s w).1 ≡ log.afterwards w
  unfolding try_models
  afterwards-try_models [] request s w h = refl
  afterwards-try_models (m ∷ ms) request s w h =
      on_with-IsSpared w
        (try_resolved d c s m (d.expand_route (d.with_model request m)) (d.resolve m) w)
        (λ s' w'. try_models d c ms request s' w')
        (try_resolved-IsSpared s m (d.expand_route (d.with_model request m)) (d.resolve m) w h)
        (λ s' w'. afterwards-try_models ms request s' w')

  Result-cases :
      (r : Result (Unit {0}))
      → ((e : ShimError) × (r ≡ err e)) ⊎ ((client : Unit {0}) × (r ≡ ok client))
  Result-cases (ok client) = inr (client, refl)
  Result-cases (err e) = inl (e, refl)

  afterwards-on_chain :
      (models : Result (List String)) (client_override : Bool) (request : Q) (w : W)
      → log.refused w ≡ false
      → log.afterwards (on_chain d c models client_override request w).1 ≡ log.afterwards w
  unfolding on_chain with_client
  afterwards-on_chain (err e) client_override request w h = refl
  afterwards-on_chain (ok models) client_override request w h =
      elim (Result-cases (client_for d c client_override)) [
        | inl (e, failed) ↦ rw failed refl
        | inr (client, made) ↦
            rw made (afterwards-try_models models request no_progress w (λ r. ground (arith, h, r)))
      ]

  -- Once the attempt policy has refused a dispatch because the provider `n` is limited, the call
  -- makes no further dispatch to `n`: in a log that marks the first such refusal of `n` and
  -- counts the dispatches to `n` after it, a call that starts before any refusal counts none.
  pub afterwards-completion_with_fallback_inner :
      (request : Q) (client_override : Bool) (w : W)
      → log.refused w ≡ false
      → log.afterwards (completion_with_fallback_inner d c request client_override w).1
        ≡ log.afterwards w
  unfolding completion_with_fallback_inner
  afterwards-completion_with_fallback_inner request client_override w h =
      afterwards-on_chain (chain_of d c c.models (d.model_of request)) client_override request w h
