-- ===== src/Breaker/Examples.antt =====
-- src/breaker.rs: runs of the breaker at concrete inputs.
use llmshim.Common.{ℕ, ◌+◌, inl, inr, Bool, true, false, ◌≡◌, refl, none, some, [], ◌∷◌, arith}
use llmshim.Common.Map.{get}
use llmshim.Error.{ShimError, provider_error}
use llmshim.Breaker.{
  BreakerConfig, opened, half_open, ProviderBreaker, with_config, is_disabled, should_skip,
  try_admit_probe, record_failure, counts_toward_health, SharedHealth, admit, observe,
}
use llmshim.Breaker.History.{probe, success, failure, run}
use llmshim.Breaker.Threshold.{IsWellFormed, run-with_config-IsWellFormed}
use llmshim.Breaker.Window.{after, should_skip-after}
use llmshim.Breaker.Probe.{try_admit_probe_iff, single_probe, probe_outcome}
use llmshim.Breaker.Shared.{observe_ineligible, admit_iff}

abbrev config : BreakerConfig
config = record { window = 10; trip_threshold = 3; cooldown = 5 }

config_on : is_disabled config ≡ false
unfolding is_disabled
config_on = refl

-- Three failures within the window trip the target; spread out they do not.
trips : should_skip (after config "anthropic" (12 ∷ 6 ∷ 4 ∷ [])) "anthropic" ≡ true
trips = should_skip-after config "anthropic" config_on (12 ∷ 6 ∷ 4 ∷ []) (omega arith)

does_not_trip : should_skip (after config "anthropic" (18 ∷ 7 ∷ 0 ∷ [])) "anthropic" ≡ false
does_not_trip = should_skip-after config "anthropic" config_on (18 ∷ 7 ∷ 0 ∷ []) (omega arith)

run-with_config-IsWellFormed_example :
    IsWellFormed (run (with_config config) (failure "a" true 1 ∷ failure "a" true 2 ∷ []))
run-with_config-IsWellFormed_example =
    run-with_config-IsWellFormed config (failure "a" true 1 ∷ failure "a" true 2 ∷ [])

-- A registry with one open target.
abbrev down : ProviderBreaker
down = record { cfg = config; targets = ("openai", opened 20) ∷ [] }

abbrev probing : ProviderBreaker
probing = record { cfg = config; targets = ("openai", half_open 20) ∷ [] }

down_due : (try_admit_probe down "openai" 25).0 ≡ true
unfolding try_admit_probe get
down_due = refl

try_admit_probe_iff_example : (try_admit_probe down "openai" 25).0 ≡ true
unfolding get
try_admit_probe_iff_example = (try_admit_probe_iff down "openai" 25).1 (20, refl, omega arith)

single_probe_example :
    (try_admit_probe
      (run
        (try_admit_probe down "openai" 25).1
        (success "xai" ∷ probe "openai" 40 ∷ failure "xai" true 41 ∷ []))
      "openai"
      60).0
    ≡ false
single_probe_example =
    (single_probe down "openai" 25 (success "xai" ∷ probe "openai" 40 ∷ failure "xai" true 41 ∷ [])
      60 down_due (refl, (refl, (refl, tt)))).0

probe_outcome_example :
    (try_admit_probe
      (record_failure
        (run (try_admit_probe down "openai" 25).1 (success "xai" ∷ probe "openai" 26 ∷ []))
        "openai"
        false
        30)
      "openai"
      (25 + 6)).0
    ≡ true
probe_outcome_example =
    (probe_outcome down "openai" 25 (success "xai" ∷ probe "openai" 26 ∷ []) 30 0 6 config_on
      down_due (refl, (refl, tt))).1.1

-- A backend that holds one target open and counts what it is told.
abbrev fleet : SharedHealth (Bool × ℕ)
fleet = record {
  is_open = λ s target. s.0;
  try_admit_probe = λ s target. (false, s);
  observe = λ s target healthy. (s.0, s.1);
}

abbrev bad_request : ShimError
bad_request = provider_error 400 "bad request" none

bad_request_ineligible : counts_toward_health bad_request ≡ false
unfolding counts_toward_health
bad_request_ineligible = refl

observe_ineligible_example :
    (observe fleet probing (some (true, 0)) "openai" (some bad_request) 30).1
    ≡ (observe fleet probing (some (true, 0)) "openai" none 30).1
observe_ineligible_example =
    (observe_ineligible fleet probing (some (true, 0)) "openai" bad_request 30 "openai"
      bad_request_ineligible).1

admit_iff_example : (admit fleet down (some (true, 0)) "openai" 25).0 ≡ true
unfolding get
admit_iff_example =
    (admit_iff fleet down (some (true, 0)) "openai" 25).1 (inr (inl (20, refl, omega arith)))
