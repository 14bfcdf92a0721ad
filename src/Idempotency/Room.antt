-- ===== src/Idempotency/Room.antt =====
-- src/gateway/idempotency.rs: what is not refused has room.
use llmshim.Common.{
  suc, ◌+◌, ◌<◌, String, true, false, Option, some, ◌≡◌, ap, Option-cases, inl, inr, arith, length,
  string_key,
}
use llmshim.Common.Map.{Map, get, insert}
use llmshim.Common.MapSum.{IsUnique, worth, sum-insert}
use llmshim.Common.Word
use llmshim.Idempotency.Footprint.{
  RetainedFootprint, CacheLimits, nothing, checked_add, both, without, fits_within,
}
use llmshim.Idempotency.{
  IdempotencyCacheState, or_nothing, is_within, is_absent, refuses, can_retain, entry_count,
}
use llmshim.Idempotency.Removal.{length-sum}

-- Two footprints that can be added are added bytes to bytes and nodes to nodes.
pub checked_add-eq_some :
    (a b t : RetainedFootprint)
    → checked_add a b ≡ some t
    → (t.bytes ≡ a.bytes + b.bytes) × (t.nodes ≡ a.nodes + b.nodes)
unfolding checked_add both Word.checked_add
checked_add-eq_some a b t h = ground arith

pub without-nothing : (a : RetainedFootprint) → without a nothing ≡ a
unfolding without
without-nothing a = ground arith

pub length-insert :
    {T : Type 0} (m : Map String T) (key : String) (e : T)
    → IsUnique m
    → length (insert m key e) + worth (λ x. 1) (get m key) ≡ suc (length m)
length-insert m key e u =
    omega (arith, length-sum m, length-sum (insert m key e), sum-insert (λ x. 1) m key e u)

module _ {V : Type 0} (limits : CacheLimits) where
  -- What is not refused can be added within the limits, and a new entry is not one too many.
  pub room :
      (s : IdempotencyCacheState V) (f : RetainedFootprint) (replaced : Option RetainedFootprint)
      → refuses s f replaced limits ≡ false
      → (t : RetainedFootprint) × ((checked_add
              (without s.retained_footprint (or_nothing replaced))
              f
            ≡ some t)
          × ((fits_within t limits ≡ true)
              × (is_absent replaced ≡ true → entry_count s < limits.max_entries)))
  unfolding refuses can_retain
  room s f replaced h =
      elim (Option-cases (checked_add (without s.retained_footprint (or_nothing replaced)) f)) [
        | inl over ↦ absurd (ground (arith, h, over))
        | inr (t, fits) ↦ (
          t,
          (fits, (ground (arith, h, ap (is_within limits) fits), λ new. ground (arith, h, new))),
        )
      ]
