-- ===== src/Fallback/Answers.antt =====
-- src/fallback.rs: what the caller is told.
use llmshim.Common.{
  ℕ, zero, suc, ◌+◌, ◌*◌, ◌≤◌, String, Option, none, some, List, ◌∷◌, ◌++◌, if_cases, Option-cases,
  inl, inr, ◌⊎◌, arith, length, length-append, subst,
}
use mathlib.Core.List.{[]}
use llmshim.Error.{Result, ok, err}
use llmshim.Fallback.{
  FallbackConfig, Dispatch, DispatchResult, success, upstream, local_failure, local_timeout,
  logical_timeout, policy_refusal, policy_observation, provider_limit, tenant_limit, budget,
  unpriceable, coordinator_unavailable, other, Ended, answered, returned, moved_on, limited,
  Progress, attempt_once, conclude, retry_error, attempts, after_ended, try_provider, try_resolved,
  try_models, on_with, has, is_retryable,
}

module _ {W Q P V : Type 0} (d : Dispatch W Q P V) (c : FallbackConfig) where
  -- A model that is passed over leaves a message.
  abbrev Says : Ended V × List String → Type 0
  Says (answered v, messages) = Unit
  Says (returned e, messages) = Unit
  Says (moved_on, messages) = 1 ≤ length messages
  Says (limited e, messages) = 1 ≤ length messages

  conclude-Says :
      (label : String) (p : P) (r : Option (DispatchResult V)) → Says (conclude d c label p r)
  unfolding conclude
  conclude-Says label p none = omega arith
  conclude-Says label p (some (success v)) = tt
  conclude-Says label p (some (upstream e)) = omega arith
  conclude-Says label p (some (local_failure e)) = omega arith
  conclude-Says label p (some (local_timeout e)) =
      if_cases Says (is_retryable e c.retryable_statuses) _ _ (λ _. omega arith) (λ _. tt)
  conclude-Says label p (some (logical_timeout e)) = tt
  conclude-Says label p (some (policy_refusal provider_limit r)) = omega arith
  conclude-Says label p (some (policy_refusal tenant_limit r)) = tt
  conclude-Says label p (some (policy_refusal budget r)) = tt
  conclude-Says label p (some (policy_refusal unpriceable r)) = tt
  conclude-Says label p (some (policy_refusal coordinator_unavailable r)) = tt
  conclude-Says label p (some (policy_refusal other r)) = tt
  conclude-Says label p (some (policy_observation e)) = tt

  Says-longer :
      (e : Ended V) (message : String) (messages : List String)
      → Says (e, messages)
      → Says (e, message ∷ messages)
  Says-longer (answered v) message messages h = tt
  Says-longer (returned e) message messages h = tt
  Says-longer moved_on message messages h = omega arith
  Says-longer (limited e) message messages h = omega arith

  attempts-Says :
      (left attempt backoff : ℕ) (label : String) (p : P) (m : String) (q : Q) (w : W)
      → Says (attempts d c left attempt backoff label p m q w).0
  unfolding attempts
  attempts-Says zero attempt backoff label p m q w =
      conclude-Says label p (attempt_once d c w p m q).0
  attempts-Says (suc left) attempt backoff label p m q w =
      elim (Option-cases (retry_error d c (attempt_once d c w p m q).0)) [
        | inl over ↦ rw (over, attempts) (conclude-Says label p (attempt_once d c w p m q).0)
        | inr (e, again) ↦
            rw (again, attempts)
              (Says-longer _ _ _ (
                attempts-Says left (attempt + 1) (backoff * 2) label p m q
                  (d.sleep (attempt_once d c w p m q).1 backoff)))
      ]

  -- At least so many messages, if no result ends the loop.
  abbrev pub Tells : ℕ → (Result V) ⊎ Progress → Type 0
  Tells n (inl result) = Unit
  Tells n (inr s) = n ≤ length s.errors

  after_ended-Tells :
      (s : Progress) (p : P) (e : Ended V × List String)
      → Says e
      → Tells (suc (length s.errors)) (after_ended d c s p e)
  unfolding after_ended
  after_ended-Tells s p (answered v, messages) h = tt
  after_ended-Tells s p (returned e, messages) h = tt
  after_ended-Tells s p (moved_on, messages) h = omega (arith, length-append s.errors messages)
  after_ended-Tells s p (limited e, messages) h = omega (arith, length-append s.errors messages)

  one_more : (errors : List String) (m : String) → suc (length errors) ≤ length (errors ++ m ∷ [])
  one_more errors m = omega (arith, length-append errors (m ∷ []))

  try_resolved-Tells :
      (s : Progress) (label : String) (req : Result Q) (target : Result (P × String)) (w : W)
      → Tells (suc (length s.errors)) (try_resolved d c s label req target w).0
  unfolding try_resolved try_provider
  try_resolved-Tells s label (err e) target w = one_more s.errors _
  try_resolved-Tells s label (ok req) (err e) w = one_more s.errors _
  try_resolved-Tells s label (ok req) (ok (p, m)) w =
      if_cases (λ (o : ((Result V) ⊎ Progress) × W). Tells (suc (length s.errors)) o.0)
        (has s.policy_limited_providers (d.name p)) _ _ (λ _. one_more s.errors _)
        (λ _.
          after_ended-Tells _ p _ (attempts-Says c.max_retries 0 c.initial_backoff label p m req w))

  on_with-Tells :
      (n more : ℕ) (o : ((Result V) ⊎ Progress) × W)
      (rest : Progress → W → ((Result V) ⊎ Progress) × W)
      → Tells n o.0
      → ((s : Progress) (w : W) → Tells (more + length s.errors) (rest s w).0)
      → Tells (more + n) (on_with d c o rest).0
  on_with-Tells n more (inl result, w) rest h r = tt
  on_with-Tells n more (inr s, w) rest h r =
      weaker (more + length s.errors) (more + n) (rest s w).0 (omega (arith, h)) (r s w)
    where
      weaker : (a b : ℕ) (x : (Result V) ⊎ Progress) → b ≤ a → Tells a x → Tells b x
      weaker a b (inl result) le h = tt
      weaker a b (inr s) le h = omega (arith, le, h)

  -- A chain that ends without an answer or an error for the caller leaves at least one message
  -- for each of its models.
  pub try_models-Tells :
      (models : List String) (request : Q) (s : Progress) (w : W)
      → Tells (length models + length s.errors) (try_models d c models request s w).0
  unfolding try_models
  try_models-Tells [] request s w = omega arith
  try_models-Tells (m ∷ ms) request s w =
      subst
        (λ n.
          Tells n
            (on_with d c
              (try_resolved d c s m (d.expand_route (d.with_model request m)) (d.resolve m) w)
              (λ s' w'. try_models d c ms request s' w')).0)
        (omega arith)
        (on_with-Tells (suc (length s.errors)) (length ms)
          (try_resolved d c s m (d.expand_route (d.with_model request m)) (d.resolve m) w)
          (λ s' w'. try_models d c ms request s' w')
          (try_resolved-Tells s m (d.expand_route (d.with_model request m)) (d.resolve m) w)
          (λ s' w'. try_models-Tells ms request s' w'))
