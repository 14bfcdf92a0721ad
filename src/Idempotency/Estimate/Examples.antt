-- ===== src/Idempotency/Estimate/Examples.antt =====
-- src/gateway/idempotency.rs: the footprint of `{"id": "a"}`, and the bytes of a digest.
use llmshim.Common.{ℕ, ◌+◌, ◌&&◌, leb, if◌then◌else◌, some, none, List, [], ◌∷◌, ◌≡◌, refl, arith}
use llmshim.Json.{Layout, Value, text, object, end, field, total, one}
use llmshim.Idempotency.Footprint.{CacheLimits}
use llmshim.Idempotency.Digest.{storage_key_inj}
use llmshim.Idempotency.Estimate.{entry_footprint, scoped_entry_footprint}
use llmshim.Idempotency.Estimate.Total.{own_bytes, sum, entry_footprint-total}

abbrev layout : Layout
layout = record { value_size = 32; string_size = 24; vec_size = 24; usize_size = 8 }

abbrev limits : CacheLimits
limits = record {
  max_entries = 2;
  max_entry_retained_bytes = 1000;
  max_retained_bytes = 1500;
  max_entry_retained_nodes = 10;
  max_retained_nodes = 15;
}

abbrev response : Value
response = object (field "id" 2 (text "a" 1) end)

abbrev beside : List ℕ
beside = 100 ∷ 24 ∷ 48 ∷ 64 ∷ 64 ∷ 64 ∷ 64 ∷ []

entry_footprint-total_example :
    let bytes = total (own_bytes layout) response + sum beside in
    entry_footprint layout response beside limits ≡ (
      if leb (total one response) limits.max_entry_retained_nodes
        && leb bytes limits.max_entry_retained_bytes
      then some (record { bytes = bytes; nodes = total one response })
      else none)
entry_footprint-total_example =
    entry_footprint-total layout limits (omega arith) (omega arith) response beside

scoped :
    scoped_entry_footprint layout 100 48 64 64 response limits
    ≡ some (record { bytes = 559; nodes = 2 })
unfolding scoped_entry_footprint total
scoped = refl

abbrev tenant : List ℕ
tenant = 97 ∷ 98 ∷ []

abbrev route : List ℕ
route = 99 ∷ []

abbrev no_credential : List ℕ
no_credential = []

storage_key_inj_example :
    ((tenant ≡ tenant) × (no_credential ≡ no_credential)) × ((route ≡ route) × (tenant ≡ tenant))
storage_key_inj_example =
    storage_key_inj tenant no_credential route tenant tenant no_credential route tenant
      (omega arith, (omega arith, (omega arith, (omega arith, tt))))
      (omega arith, (omega arith, (omega arith, (omega arith, tt)))) refl
