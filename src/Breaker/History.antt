-- ===== src/Breaker/History.antt =====
-- src/breaker.rs: histories of calls on one registry, as the threads that share it make them.
use llmshim.Common.{ℕ, String, Bool, false, List, [], ◌∷◌, ◌==◌, string_key}
use llmshim.Breaker.{ProviderBreaker, try_admit_probe, record_success, record_failure}

pub data Event : Type 0 where
  probe : (target : String) (now : ℕ) → Event
  success : (target : String) → Event
  failure : (target : String) (counts : Bool) (now : ℕ) → Event

unfoldable pub step : ProviderBreaker → Event → ProviderBreaker
step b (probe target now) = (try_admit_probe b target now).1
step b (success target) = record_success b target
step b (failure target counts now) = record_failure b target counts now

unfoldable pub run : ProviderBreaker → List Event → ProviderBreaker
run b [] = b
run b (e ∷ es) = run (step b e) es

-- The event reports an outcome for `t`.
abbrev pub settles : String → Event → Bool
settles t (probe target now) = false
settles t (success target) = target == t
settles t (failure target counts now) = target == t
