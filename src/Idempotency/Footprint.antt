-- ===== src/Idempotency/Footprint.antt =====
-- src/gateway/idempotency.rs: what a value retains, and the limits of the cache.
use llmshim.Common.{ℕ, ◌-◌, Bool, ◌&&◌, Option, none, some, leb}
use llmshim.Common.Word
use llmshim.Common.Word.{usize_max}

pub record RetainedFootprint : Type 0 where
  pub bytes : ℕ
  pub nodes : ℕ

abbrev pub nothing : RetainedFootprint
nothing = record { bytes = 0; nodes = 0 }

pub record CacheLimits : Type 0 where
  pub max_entries : ℕ
  pub max_entry_retained_bytes : ℕ
  pub max_retained_bytes : ℕ
  pub max_entry_retained_nodes : ℕ
  pub max_retained_nodes : ℕ

unfoldable pub both : Option ℕ → Option ℕ → Option RetainedFootprint
both none nodes = none
both (some bytes) none = none
both (some bytes) (some nodes) = some (record { bytes = bytes; nodes = nodes })

unfoldable pub checked_add : RetainedFootprint → RetainedFootprint → Option RetainedFootprint
unfolding both Word.checked_add
checked_add a b = both (Word.checked_add a.bytes b.bytes) (Word.checked_add a.nodes b.nodes)

unfoldable pub without : RetainedFootprint → RetainedFootprint → RetainedFootprint
without a b = record { bytes = a.bytes - b.bytes; nodes = a.nodes - b.nodes }

unfoldable pub fits_within : RetainedFootprint → CacheLimits → Bool
fits_within f limits =
    leb f.bytes limits.max_retained_bytes && leb f.nodes limits.max_retained_nodes
