-- ===== src/Fallback.antt =====
-- src/fallback.rs: one request tried on a chain of models, with retries. The router, the client,
-- the breaker and the clock are the interface `Dispatch`; what they keep is the world `W`. The
-- entries for the logger are left out, and a doubled pause does not overflow.
pub mod Bounds
pub mod Refusals
pub mod Answers
mod Examples
use llmshim.Common.{
  ℕ, zero, suc, ◌+◌, ◌*◌, String, Bool, true, false, ◌&&◌, Option, none, some, List, ◌∷◌, ◌++◌, eqb,
  if◌then◌else◌, string_key, ◌==◌, ◌<>◌, ◌⊎◌, inl, inr,
}
use mathlib.Core.List.{[]}
use llmshim.Error.{ShimError, provider_error, http, missing_model, all_failed, Result, ok, err}

pub record FallbackConfig : Type 0 where
  pub models : List String
  pub max_retries : ℕ
  pub initial_backoff : ℕ
  pub retryable_statuses : List ℕ

abbrev pub default_config : FallbackConfig
default_config = record {
  models = [];
  max_retries = 2;
  initial_backoff = 500000000;
  retryable_statuses = 429 ∷ 500 ∷ 502 ∷ 503 ∷ 529 ∷ [];
}

unfoldable pub contains : List ℕ → ℕ → Bool
contains [] status = false
contains (s ∷ rest) status =
    let later = contains rest status in if eqb s status then true else later

unfoldable pub is_retryable : ShimError → List ℕ → Bool
is_retryable (provider_error status body retry_after) statuses = contains statuses status
is_retryable (http e) statuses = true
is_retryable e statuses = false

pub data AttemptPolicyRefusalKind : Type 0 where
  provider_limit tenant_limit budget unpriceable coordinator_unavailable other :
      AttemptPolicyRefusalKind

-- AttemptPolicyRefusal::into_shim_error
unfoldable pub into_shim_error : AttemptPolicyRefusalKind → (retry_after : Option ℕ) → ShimError
into_shim_error provider_limit r = provider_error 429 "provider attempt limit exceeded" r
into_shim_error tenant_limit r = provider_error 429 "tenant attempt limit exceeded" r
into_shim_error budget r = provider_error 429 "attempt budget exhausted" r
into_shim_error unpriceable r =
    provider_error 400 "attempt cannot be admitted under the active policy" r
into_shim_error coordinator_unavailable r =
    provider_error 503 "attempt policy coordinator unavailable" r
into_shim_error other r = provider_error 429 "attempt refused by policy" r

-- DispatchResult<T>. A policy's failure to observe comes as the error that it turns into.
pub data DispatchResult (V : Type 0) : Type 0 where
  success : V → DispatchResult V
  upstream : ShimError → DispatchResult V
  local_failure : ShimError → DispatchResult V
  local_timeout : ShimError → DispatchResult V
  logical_timeout : ShimError → DispatchResult V
  policy_refusal : AttemptPolicyRefusalKind → (retry_after : Option ℕ) → DispatchResult V
  policy_observation : ShimError → DispatchResult V

-- What the breaker is told: the outcome, of which `none` is `Ok(())`.
unfoldable pub breaker_outcome : {V : Type 0} → DispatchResult V → Option (Option ShimError)
breaker_outcome (success v) = some none
breaker_outcome (upstream e) = some (some e)
breaker_outcome r = none

pub record Dispatch (W Q P V : Type 0) : Type 1 where
  -- req["model"], read and set
  pub model_of : Q → Option String
  pub with_model : Q → String → Q
  -- Router::expand_route and Router::resolve
  pub expand_route : Q → Result Q
  pub resolve : String → Result (P × String)
  pub name : P → String
  -- crate::bound_client(router): a client for the router, or the error of making one. Whichever
  -- client the call uses, what it does is the fields below.
  pub bound_client : Result (Unit {0})
  -- ProviderBreaker::admit, ShimClient::completion_dispatch and ShimClient::observe
  pub admit : W → String → Bool × W
  pub completion_dispatch : W → P → String → Q → DispatchResult V × W
  pub observe : W → P → Option ShimError → W
  pub sleep : W → ℕ → W
  -- Display of an error and of a number
  pub display : ShimError → String
  pub display_count : ℕ → String

-- What comes of one model: an answer, an error for the caller, or on to the next model, for a
-- provider that its policy limits with the error of the limit.
pub data Ended (V : Type 0) : Type 0 where
  answered : V → Ended V
  returned : ShimError → Ended V
  moved_on : Ended V
  limited : ShimError → Ended V

-- What is carried from model to model.
pub record Progress : Type 0 where
  pub errors : List String
  pub policy_limited_providers : List String
  pub provider_limit_error : Option ShimError
  pub attempted_distinct_provider_after_limit : Bool

abbrev pub no_progress : Progress
no_progress = record {
  errors = [];
  policy_limited_providers = [];
  provider_limit_error = none;
  attempted_distinct_provider_after_limit = false;
}

unfoldable pub has : List String → String → Bool
has [] name = false
has (n ∷ rest) name = let later = has rest name in if n == name then true else later

module _ {W Q P V : Type 0} (d : Dispatch W Q P V) (c : FallbackConfig) where
  unfoldable pub tell : W → P → Option (Option ShimError) → W
  tell w p none = w
  tell w p (some outcome) = d.observe w p outcome

  -- One attempt: `none` if the breaker does not admit it.
  unfoldable pub attempt_once : W → P → (model : String) → Q → Option (DispatchResult V) × W
  unfolding breaker_outcome tell
  attempt_once w p model req =
      let (granted, w1) = d.admit w (d.name p) in
      if granted
      then (let (result, w2) = d.completion_dispatch w1 p model req in
          (some result, tell w2 p (breaker_outcome result)))
      else (none, w1)

  -- What the attempt comes to if it is not made again, and the message it leaves.
  unfoldable pub conclude : (label : String) → P → Option (DispatchResult V) → Ended V × List String
  unfolding is_retryable into_shim_error
  conclude label p none = (moved_on, (label <> ": circuit open for provider " <> d.name p) ∷ [])
  conclude label p (some (success v)) = (answered v, [])
  conclude label p (some (upstream e)) = (moved_on, (label <> ": " <> d.display e) ∷ [])
  conclude label p (some (local_failure e)) = (moved_on, (label <> ": " <> d.display e) ∷ [])
  conclude label p (some (local_timeout e)) =
      if is_retryable e c.retryable_statuses
      then (moved_on, (label <> ": " <> d.display e) ∷ [])
      else (returned e, [])
  conclude label p (some (logical_timeout e)) = (returned e, [])
  conclude label p (some (policy_refusal provider_limit r)) =
      let e = into_shim_error provider_limit r in (limited e, (label <> ": " <> d.display e) ∷ [])
  conclude label p (some (policy_refusal k r)) = (returned (into_shim_error k r), [])
  conclude label p (some (policy_observation e)) = (returned e, [])

  -- The error after which the attempt may be made again.
  unfoldable pub retry_error : Option (DispatchResult V) → Option ShimError
  unfolding is_retryable
  retry_error (some (upstream e)) = if is_retryable e c.retryable_statuses then some e else none
  retry_error result = none

  -- The attempts on one model, with `left` more allowed after this one.
  unfoldable pub attempts :
      (left attempt backoff : ℕ)
      → (label : String) → P
      → (model : String) → Q
      → W
      → (Ended V × List String) × W
  unfolding attempt_once conclude retry_error
  attempts zero attempt backoff label p model req w =
      let (result, w') = attempt_once w p model req in (conclude label p result, w')
  attempts (suc left) attempt backoff label p model req w =
      let (result, w') = attempt_once w p model req in
      elim (retry_error result) [
        | none ↦ (conclude label p result, w')
        | some e ↦
            let ((ended, messages), w'') =
              attempts left (attempt + 1) (backoff * 2) label p model req (d.sleep w' backoff) in
            (
              (
                ended,
                (label <> " (attempt " <> d.display_count (attempt + 1) <> "): " <> d.display e)
                    ∷ messages,
              ),
              w'',
            )
      ]

  -- Once a model has ended, the loop goes on with the rest or stops.
  unfoldable pub after_ended : Progress → P → Ended V × List String → (Result V) ⊎ Progress
  after_ended s p (answered v, messages) = inl (ok v)
  after_ended s p (returned e, messages) = inl (err e)
  after_ended s p (moved_on, messages) = inr (record s { errors = s.errors ++ messages })
  after_ended s p (limited e, messages) = inr (record s {
    errors = s.errors ++ messages;
    policy_limited_providers = d.name p ∷ s.policy_limited_providers;
    provider_limit_error = some e;
    attempted_distinct_provider_after_limit = false;
  })

  is_empty : List String → Bool
  is_empty [] = true
  is_empty (x ∷ xs) = false

  -- A model that is resolved, unless its provider is limited.
  unfoldable pub try_provider :
      Progress → (label : String) → Q → P → (model : String) → W → ((Result V) ⊎ Progress) × W
  unfolding has attempts after_ended is_empty
  try_provider s label req p model w =
      if has s.policy_limited_providers (d.name p)
      then (
        inr (record s {
          errors =
              s.errors
              ++ (label <> ": skipped provider " <> d.name p <> " after attempt policy refusal")
                ∷ [];
        }),
        w,
      )
      else (let s' = record s {
        attempted_distinct_provider_after_limit =
            if is_empty s.policy_limited_providers
            then s.attempted_distinct_provider_after_limit
            else true;
      } in
          let (ended, w') = attempts c.max_retries 0 c.initial_backoff label p model req w in
          (after_ended s' p ended, w'))

  unfoldable pub try_resolved :
      Progress → (label : String) → Result Q → Result (P × String) → W → ((Result V) ⊎ Progress) × W
  unfolding try_provider
  try_resolved s label (err e) r w =
      (inr (record s { errors = s.errors ++ (label <> ": " <> d.display e) ∷ [] }), w)
  try_resolved s label (ok req) (err e) w =
      (inr (record s { errors = s.errors ++ (label <> ": " <> d.display e) ∷ [] }), w)
  try_resolved s label (ok req) (ok (p, model)) w = try_provider s label req p model w

  -- A result ends the loop.
  abbrev pub on_with :
      ((Result V) ⊎ Progress) × W
      → (Progress → W → ((Result V) ⊎ Progress) × W)
      → ((Result V) ⊎ Progress) × W
  on_with (inl result, w) rest = (inl result, w)
  on_with (inr s, w) rest = rest s w

  unfoldable pub try_models : List String → Q → Progress → W → ((Result V) ⊎ Progress) × W
  unfolding try_resolved
  try_models [] request s w = (inr s, w)
  try_models (m ∷ ms) request s w =
      on_with (try_resolved s m (d.expand_route (d.with_model request m)) (d.resolve m) w)
        (λ s' w'. try_models ms request s' w')

  limit_or_all_failed : Progress → Option ShimError → Result V
  limit_or_all_failed s none = err (all_failed s.errors)
  limit_or_all_failed s (some e) =
      if s.attempted_distinct_provider_after_limit then err (all_failed s.errors) else err e

  unfoldable pub finish : (Result V) ⊎ Progress → Result V
  unfolding limit_or_all_failed
  finish (inl result) = result
  finish (inr s) = limit_or_all_failed s s.provider_limit_error

  -- No chain: the model of the request.
  unfoldable pub chain_of : List String → Option String → Result (List String)
  chain_of [] none = err missing_model
  chain_of [] (some m) = ok (m ∷ [])
  chain_of (m ∷ ms) own = ok (m ∷ ms)

  -- The caller's own client if it hands one, else one that is made for the router.
  unfoldable pub client_for : (client_override : Bool) → Result (Unit {0})
  client_for true = ok tt
  client_for false = d.bound_client

  unfoldable pub with_client : Result (Unit {0}) → List String → Q → W → Result V × W
  unfolding try_models finish
  with_client (err e) models request w = (err e, w)
  with_client (ok client) models request w =
      let (next, w') = try_models models request no_progress w in (finish next, w')

  unfoldable pub on_chain : Result (List String) → (client_override : Bool) → Q → W → Result V × W
  unfolding client_for with_client
  on_chain (err e) own_client request w = (err e, w)
  on_chain (ok models) own_client request w = with_client (client_for own_client) models request w

  unfoldable pub completion_with_fallback_inner : Q → (client_override : Bool) → W → Result V × W
  unfolding chain_of on_chain
  completion_with_fallback_inner request own_client w =
      on_chain (chain_of c.models (d.model_of request)) own_client request w
