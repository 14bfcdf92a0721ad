-- ===== src/Fallback/Examples.antt =====
-- src/fallback.rs: a chain of three models of two providers, of which one limits its callers.
use llmshim.Common.{
  ℕ, ◌+◌, ◌*◌, ◌≤◌, String, Bool, ◌||◌, ◌&&◌, if_cases, true, false, none, some, ◌∷◌, ◌≡◌, refl,
  if◌then◌else◌, string_key, ◌==◌, arith, length, max,
}
use mathlib.Core.List.{[]}
use llmshim.Error.{provider_error, Result, ok, err, unknown_provider}
use llmshim.Fallback.{
  FallbackConfig, Dispatch, DispatchResult, upstream, policy_refusal, provider_limit, no_progress,
  try_models, completion_with_fallback_inner,
}
use llmshim.Fallback.Bounds.{Counts, count-completion_with_fallback_inner}
use llmshim.Fallback.Refusals.{Log, is_limit, afterwards-completion_with_fallback_inner}
use llmshim.Fallback.Answers.{Tells, try_models-Tells}

abbrev provider_of : String → Result (String × String)
provider_of model =
    if model == "gpt"
    then ok ("openai", model)
    else if model == "grok"
    then ok ("xai", model)
    else err (unknown_provider model)

-- The world counts the dispatches to xAI, which fail.
abbrev shim : Dispatch ℕ String String ℕ
shim = record {
  model_of = λ q. some q;
  with_model = λ q m. m;
  expand_route = λ q. ok q;
  resolve = provider_of;
  name = λ p. p;
  bound_client = ok tt;
  admit = λ w n. (true, w);
  completion_dispatch = λ w p m q.
      if p == "xai"
      then (upstream (provider_error 503 "busy" none), 1 + w)
      else (policy_refusal provider_limit none, w);
  observe = λ w p o. w;
  sleep = λ w t. w;
  display = λ e. "failed";
  display_count = λ n. "again";
}

abbrev chain : FallbackConfig
chain = record {
  models = "gpt" ∷ "grok" ∷ "gpt" ∷ [];
  max_retries = 2;
  initial_backoff = 500000000;
  retryable_statuses = 503 ∷ [];
}

abbrev to_xai : String → ℕ
to_xai p = if p == "xai" then 1 else 0

counted_dispatch : (w : ℕ) (p m q : String) → (shim.completion_dispatch w p m q).1 ≡ to_xai p + w
counted_dispatch w p m q = ground arith

abbrev xai_calls : Counts ℕ String String ℕ shim
xai_calls = record {
  count = λ w. w;
  worth = to_xai;
  count-admit = λ w n. refl;
  count-dispatch = counted_dispatch;
  count-observe = λ w p o. refl;
  count-sleep = λ w t. refl;
}

at_most_one : (p : String) → to_xai p ≤ 1
at_most_one p = ground arith

count-completion_with_fallback_inner_example :
    (completion_with_fallback_inner shim chain "gpt" false 0).1
    ≤ max (length chain.models) 1 * 3 + 0
count-completion_with_fallback_inner_example =
    count-completion_with_fallback_inner shim chain xai_calls "gpt" false 0 at_most_one

try_models-Tells_example :
    Tells shim chain 3 (try_models shim chain chain.models "gpt" no_progress 0).0
try_models-Tells_example = try_models-Tells shim chain chain.models "gpt" no_progress 0

-- The world remembers whether OpenAI was refused, and counts the dispatches to it after that.
abbrev limiting_shim : Dispatch (Bool × ℕ) String String ℕ
limiting_shim = record {
  model_of = λ q. some q;
  with_model = λ q m. m;
  expand_route = λ q. ok q;
  resolve = provider_of;
  name = λ p. p;
  bound_client = ok tt;
  admit = λ w n. (true, w);
  completion_dispatch = λ w p m q.
      if p == "openai"
      then (policy_refusal provider_limit none, (true, (if w.0 then 1 else 0) + w.1))
      else (upstream (provider_error 503 "busy" none), w);
  observe = λ w p o. w;
  sleep = λ w t. w;
  display = λ e. "failed";
  display_count = λ n. "again";
}

openai_refused :
    (w : Bool × ℕ) (p m q : String)
    → (limiting_shim.completion_dispatch w p m q).1.0
      ≡ (w.0 || (p == "openai" && is_limit (limiting_shim.completion_dispatch w p m q).0))
openai_refused w p m q =
    if_cases
      (λ (x : DispatchResult ℕ × (Bool × ℕ)). x.1.0 ≡ (w.0 || (p == "openai" && is_limit x.0)))
      (p == "openai") _ _ (λ h. ground (arith, h)) (λ h. ground (arith, h))

openai_afterwards :
    (w : Bool × ℕ) (p m q : String)
    → (limiting_shim.completion_dispatch w p m q).1.1
      ≡ (if w.0 && p == "openai" then 1 else 0) + w.1
openai_afterwards w p m q = ground arith

abbrev openai_log : Log (Bool × ℕ) String String ℕ limiting_shim "openai"
openai_log = record {
  refused = λ w. w.0;
  afterwards = λ w. w.1;
  refused-dispatch = openai_refused;
  afterwards-dispatch = openai_afterwards;
  log-admit = λ w a. (refl, refl);
  log-observe = λ w p o. (refl, refl);
  log-sleep = λ w t. (refl, refl);
}

afterwards-completion_with_fallback_inner_example :
    (completion_with_fallback_inner limiting_shim chain "gpt" false (false, 0)).1.1 ≡ 0
afterwards-completion_with_fallback_inner_example =
    afterwards-completion_with_fallback_inner limiting_shim chain "openai" openai_log "gpt" false
      (false, 0) refl
