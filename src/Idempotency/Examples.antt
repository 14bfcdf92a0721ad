-- ===== src/Idempotency/Examples.antt =====
-- src/gateway/idempotency.rs: a cache for two entries.
use llmshim.Common.{
  ℕ, String, Option, none, some, List, ◌∷◌, ◌≡◌, refl, ◌<◌, arith, false, string_key, ◌==◌,
}
use mathlib.Core.List.{[]}
use llmshim.Common.Map.{get}
use llmshim.Idempotency.Footprint.{RetainedFootprint, CacheLimits}
use llmshim.Idempotency.{
  IdempotencyContext, IdempotencyCacheState, no_entries, store, refuses, purge_expired,
  footprint_of,
}
use llmshim.Idempotency.Removal.{IsWithin}
use llmshim.Idempotency.Replay.{Answers, store-Answers}
use llmshim.Idempotency.History.{Call, stores, looks_up, puts, gets, run, run-IsWithin}

abbrev limits : CacheLimits
limits = record {
  max_entries = 2;
  max_entry_retained_bytes = 100;
  max_retained_bytes = 150;
  max_entry_retained_nodes = 10;
  max_retained_nodes = 15;
}

abbrev request : IdempotencyContext
request = record { storage_key = "k1"; request_fingerprint = "f1" }

abbrev size_of : {K : Type 0} → K → ℕ → Option RetainedFootprint
size_of k n = some (record { bytes = n; nodes = 5 })

abbrev calls : List (Call ℕ)
calls =
    stores request 80 0
    ∷ looks_up request 10
    ∷ puts "k2" 60 20
    ∷ stores request 70 30
    ∷ gets "k2" 90
    ∷ puts "k3" 40 100
    ∷ []

run-IsWithin_example :
    (s : IdempotencyCacheState ℕ) × ((run limits 60 size_of size_of no_entries calls ≡ some s)
      × IsWithin limits s)
run-IsWithin_example = run-IsWithin limits 60 size_of size_of calls

empty-IsWithin : IsWithin {V = ℕ} limits no_entries
empty-IsWithin = record {
  unique_scoped = tt;
  unique_generic = tt;
  bytes = refl;
  nodes = refl;
  bytes_fit = omega arith;
  nodes_fit = omega arith;
  entries_fit = omega arith;
}

taken :
    refuses {V = ℕ}
      (purge_expired no_entries 0)
      (record { bytes = 80; nodes = 5 })
      (footprint_of (get (purge_expired {V = ℕ} no_entries 0).scoped_entries "k1"))
      limits
    ≡ false
unfolding refuses purge_expired get llmshim.Idempotency.purge_rounds llmshim.Idempotency.entry_count
    llmshim.Idempotency.can_retain llmshim.Idempotency.Footprint.checked_add
    llmshim.Idempotency.Footprint.both llmshim.Idempotency.Footprint.without
    llmshim.Common.Word.checked_add llmshim.Idempotency.Footprint.fits_within
taken = refl

store-Answers_example :
    (s : IdempotencyCacheState ℕ) × ((store limits 60 size_of no_entries request 80 0 ≡ some s)
      × Answers {V = ℕ} limits request 80 60 s)
store-Answers_example =
    store-Answers limits 60 size_of no_entries request 80 0 (record { bytes = 80; nodes = 5 })
      empty-IsWithin refl taken
