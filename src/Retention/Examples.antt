-- ===== src/Retention/Examples.antt =====
-- src/stream_retention.rs: a budget of 100 bytes and 3 entries.
use llmshim.Common.{List, [], ◌∷◌, ◌≡◌, refl, arith, if◌then◌else◌}
use llmshim.Error.{ok, err}
use llmshim.Retention.{RetainedFootprint, BudgetState, new, replace, retention_error}
use llmshim.Retention.Held.{
  IsExact, has_room, recounted, replace-recounted, Call, reserves, replaces, releases, run,
  run-IsExact,
}

abbrev small : RetainedFootprint
small = record { bytes = 30; entries = 1 }

abbrev large : RetainedFootprint
large = record { bytes = 80; entries = 2 }

abbrev budget : BudgetState
budget = record { retained = record { bytes = 60; entries = 2 }; max_bytes = 100; max_entries = 3 }

replace-recounted_example : replace budget small large ≡ (
    if has_room budget (large ∷ small ∷ [])
    then ok (recounted budget (large ∷ small ∷ []))
    else err retention_error)
replace-recounted_example =
    replace-recounted budget small large (small ∷ [])
      (record { bytes = refl; entries = refl; bytes_fit = omega arith; entries_fit = omega arith })
      (omega arith) (omega arith)

abbrev calls : List Call
calls = reserves small ∷ reserves large ∷ replaces 0 large ∷ reserves small ∷ releases 1 ∷ []

run-IsExact_example :
    let s = run (new 100 3, []) calls in
    IsExact s.0 s.1 × ((s.0.max_bytes ≡ 100) × (s.0.max_entries ≡ 3))
run-IsExact_example = run-IsExact 100 3 (omega arith) (omega arith) calls
