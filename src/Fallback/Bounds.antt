-- ===== src/Fallback/Bounds.antt =====
-- src/fallback.rs: how often the chain dispatches, and to whom.
use llmshim.Common.{
  ℕ, zero, suc, ◌+◌, ◌*◌, ◌≤◌, String, Bool, Option, none, some, List, ◌∷◌, max, ◌≡◌, refl,
  if_cases, Option-cases, inl, inr, ◌⊎◌, arith, length, string_key,
}
use mathlib.Core.List.{[]}
use llmshim.Error.{ShimError, Result, ok, err}
use llmshim.Fallback.{
  FallbackConfig, Dispatch, DispatchResult, chain_of, on_chain, Progress, no_progress, attempt_once,
  client_for, with_client, retry_error, attempts, tell, breaker_outcome, try_provider, try_resolved,
  try_models, on_with, completion_with_fallback_inner, has,
}

-- Something that the world counts: a dispatch to `p` adds `worth p`, and nothing else adds.
pub record Counts (W Q P V : Type 0) (d : Dispatch W Q P V) : Type 1 where
  pub count : W → ℕ
  pub worth : P → ℕ
  pub count-admit : (w : W) (n : String) → count (d.admit w n).1 ≡ count w
  pub count-dispatch :
      (w : W) (p : P) (m : String) (q : Q)
      → count (d.completion_dispatch w p m q).1 ≡ worth p + count w
  pub count-observe : (w : W) (p : P) (o : Option ShimError) → count (d.observe w p o) ≡ count w
  pub count-sleep : (w : W) (t : ℕ) → count (d.sleep w t) ≡ count w

module _ {W Q P V : Type 0} (d : Dispatch W Q P V) (c : FallbackConfig) (k : Counts W Q P V d) where
  count-tell :
      (w : W) (p : P) (o : Option (Option ShimError)) → k.count (tell d c w p o) ≡ k.count w
  unfolding tell
  count-tell w p none = refl
  count-tell w p (some o) = k.count-observe w p o

  -- An attempt dispatches at most once, to its provider.
  count-attempt_once :
      (w : W) (p : P) (m : String) (q : Q)
      → k.count (attempt_once d c w p m q).1 ≤ k.worth p + k.count w
  unfolding attempt_once
  count-attempt_once w p m q =
      if_cases (λ (x : Option (DispatchResult V) × W). k.count x.1 ≤ k.worth p + k.count w)
        (d.admit w (d.name p)).0 _ _
        (λ _. omega (
          arith,
          count-tell (d.completion_dispatch (d.admit w (d.name p)).1 p m q).1 p
              (breaker_outcome (d.completion_dispatch (d.admit w (d.name p)).1 p m q).0),
          k.count-dispatch (d.admit w (d.name p)).1 p m q,
          k.count-admit w (d.name p),
        ))
        (λ _. omega (arith, k.count-admit w (d.name p)))

  times_suc : (n x : ℕ) → suc n * x ≡ x + n * x
  times_suc n x = omega arith

  at_most_once : (n x : ℕ) → x ≤ 1 → n * x ≤ n
  at_most_once zero x h = omega arith
  at_most_once (suc n) x h = omega (arith, at_most_once n x h, times_suc n x)

  -- A model is dispatched at most once more than it may be retried.
  pub count-attempts :
      (left attempt backoff : ℕ) (label : String) (p : P) (m : String) (q : Q) (w : W)
      → k.count (attempts d c left attempt backoff label p m q w).1
        ≤ suc left * k.worth p + k.count w
  unfolding attempts
  count-attempts zero attempt backoff label p m q w = omega (arith, count-attempt_once w p m q)
  count-attempts (suc left) attempt backoff label p m q w =
      elim (Option-cases (retry_error d c (attempt_once d c w p m q).0)) [
        | inl over ↦
            rw (over, attempts)
              (omega (arith, count-attempt_once w p m q, times_suc (suc left) (k.worth p)))
        | inr (e, again) ↦
            rw (again, attempts)
              (omega (
                arith,
                count-attempts left (attempt + 1) (backoff * 2) label p m q
                    (d.sleep (attempt_once d c w p m q).1 backoff),
                k.count-sleep (attempt_once d c w p m q).1 backoff,
                count-attempt_once w p m q,
                times_suc (suc left) (k.worth p),
              ))
      ]

  abbrev Outcome : Type 0
  Outcome = ((Result V) ⊎ Progress) × W

  -- One model of the chain, whatever it comes to.
  count-try_resolved :
      (s : Progress) (label : String) (req : Result Q) (target : Result (P × String)) (w : W)
      → ((p : P) → k.worth p ≤ 1)
      → k.count (try_resolved d c s label req target w).1 ≤ suc c.max_retries + k.count w
  unfolding try_resolved try_provider
  count-try_resolved s label (err e) target w h = omega arith
  count-try_resolved s label (ok req) (err e) w h = omega arith
  count-try_resolved s label (ok req) (ok (p, m)) w h =
      if_cases (λ (o : Outcome). k.count o.1 ≤ suc c.max_retries + k.count w)
        (has s.policy_limited_providers (d.name p)) _ _ (λ _. omega arith)
        (λ _. omega (
          arith,
          count-attempts c.max_retries 0 c.initial_backoff label p m req w,
          at_most_once (suc c.max_retries) (k.worth p) (h p),
        ))

  count-on_with :
      (o : Outcome) (rest : Progress → W → Outcome) (more bound : ℕ)
      → k.count o.1 ≤ bound
      → ((s : Progress) (w : W) → k.count (rest s w).1 ≤ more + k.count w)
      → k.count (on_with d c o rest).1 ≤ more + bound
  count-on_with (inl result, w) rest more bound h r = omega (arith, h)
  count-on_with (inr s, w) rest more bound h r = omega (arith, h, r s w)

  -- A chain dispatches at most `max_retries + 1` times for each of its models.
  pub count-try_models :
      (models : List String) (request : Q) (s : Progress) (w : W)
      → ((p : P) → k.worth p ≤ 1)
      → k.count (try_models d c models request s w).1
        ≤ length models * suc c.max_retries + k.count w
  unfolding try_models
  count-try_models [] request s w h = omega arith
  count-try_models (m ∷ ms) request s w h = omega (
    arith,
    times_suc (length ms) (suc c.max_retries),
    count-on_with (try_resolved d c s m (d.expand_route (d.with_model request m)) (d.resolve m) w)
        (λ s' w'. try_models d c ms request s' w') (length ms * suc c.max_retries)
        (suc c.max_retries + k.count w)
        (count-try_resolved s m (d.expand_route (d.with_model request m)) (d.resolve m) w h)
        (λ s' w'. count-try_models ms request s' w' h),
  )

  count-with_client :
      (client : Result (Unit {0})) (models : List String) (request : Q) (w : W)
      → ((p : P) → k.worth p ≤ 1)
      → k.count (with_client d c client models request w).1
        ≤ length models * suc c.max_retries + k.count w
  unfolding with_client
  count-with_client (err e) models request w h = omega arith
  count-with_client (ok client) models request w h = count-try_models models request no_progress w h

  count-on_chain :
      (models : List String) (own : Option String) (client_override : Bool) (request : Q) (w : W)
      → ((p : P) → k.worth p ≤ 1)
      → k.count (on_chain d c (chain_of d c models own) client_override request w).1
        ≤ max (length models) 1 * suc c.max_retries + k.count w
  unfolding chain_of on_chain
  count-on_chain [] none client_override request w h = omega arith
  count-on_chain [] (some m) client_override request w h =
      omega (arith, count-with_client (client_for d c client_override) (m ∷ []) request w h)
  count-on_chain (m ∷ ms) own client_override request w h =
      let longer : max (length (m ∷ ms)) 1 ≡ length (m ∷ ms) = omega arith in
      rw longer (count-with_client (client_for d c client_override) (m ∷ ms) request w h)

  -- A call makes at most `max_retries + 1` dispatches for each model of the chain, or for the
  -- one model of a request without a chain: whatever counts dispatches, each as at most one, and
  -- nothing else, grows by no more.
  pub count-completion_with_fallback_inner :
      (request : Q) (client_override : Bool) (w : W)
      → ((p : P) → k.worth p ≤ 1)
      → k.count (completion_with_fallback_inner d c request client_override w).1
        ≤ max (length c.models) 1 * suc c.max_retries + k.count w
  unfolding completion_with_fallback_inner
  count-completion_with_fallback_inner request client_override w h =
      count-on_chain c.models (d.model_of request) client_override request w h
