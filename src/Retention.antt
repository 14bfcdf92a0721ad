-- ===== src/Retention.antt =====
-- src/stream_retention.rs: the budget of what a stream may retain, which its holders share. The
-- mutex is not poisoned: no holder panics with it.
pub mod Held
mod Examples
use llmshim.Common.{ℕ, ◌-◌, Bool, ◌||◌, Option, none, some, eqb, ltb, if◌then◌else◌}
use llmshim.Common.Word.{checked_add, checked_sub, saturating_add}
use llmshim.Error.{ShimError, stream, Result, ok, err}

abbrev pub retention_error : ShimError
retention_error = stream "upstream stream retained state exceeds limit"

pub record StreamRetentionLimits : Type 0 where
  pub normalizer_bytes : ℕ
  pub normalizer_entries : ℕ
  pub native_usage_bytes : ℕ
  pub native_usage_entries : ℕ

abbrev pub default_limits : StreamRetentionLimits
default_limits = record {
  normalizer_bytes = 16777216;
  normalizer_entries = 4096;
  native_usage_bytes = 4194304;
  native_usage_entries = 4096;
}

-- MAX_BYTES and MAX_ENTRIES
abbrev pub max_bytes_allowed : ℕ
max_bytes_allowed = 67108864

abbrev pub max_entries_allowed : ℕ
max_entries_allowed = 65536

out_of_range : (limit most : ℕ) → Bool
out_of_range limit most = eqb limit 0 || ltb most limit

unfoldable pub new_limits :
    (normalizer_bytes normalizer_entries native_usage_bytes native_usage_entries : ℕ)
    → Result StreamRetentionLimits
unfolding out_of_range
new_limits nb ne ub ue =
    if (out_of_range nb max_bytes_allowed || out_of_range ub max_bytes_allowed)
      || (out_of_range ne max_entries_allowed || out_of_range ue max_entries_allowed)
    then err retention_error
    else ok (record {
      normalizer_bytes = nb;
      normalizer_entries = ne;
      native_usage_bytes = ub;
      native_usage_entries = ue;
    })

pub record RetainedFootprint : Type 0 where
  pub bytes : ℕ
  pub entries : ℕ

abbrev pub nothing : RetainedFootprint
nothing = record { bytes = 0; entries = 0 }

-- RetainedFootprint::record
unfoldable pub of_record : (bytes : ℕ) → RetainedFootprint
of_record bytes = record { bytes = saturating_add bytes 64; entries = 1 }

pub record BudgetState : Type 0 where
  pub retained : RetainedFootprint
  pub max_bytes : ℕ
  pub max_entries : ℕ

unfoldable pub new : (max_bytes max_entries : ℕ) → BudgetState
new max_bytes max_entries = record {
  retained = nothing;
  max_bytes = max_bytes;
  max_entries = max_entries;
}

-- value.checked_sub(previous).and_then(|value| value.checked_add(replacement))
moved : Option ℕ → ℕ → Option ℕ
moved none replacement = none
moved (some value) replacement = checked_add value replacement

keep : BudgetState → (bytes entries : Option ℕ) → Result BudgetState
keep b none entries = err retention_error
keep b (some bytes) none = err retention_error
keep b (some bytes) (some entries) =
    if ltb b.max_bytes bytes || ltb b.max_entries entries
    then err retention_error
    else ok (record b { retained = record { bytes = bytes; entries = entries } })

-- An error leaves the state as it was.
unfoldable pub replace :
    BudgetState → (previous replacement : RetainedFootprint) → Result BudgetState
unfolding moved keep checked_add checked_sub
replace b previous replacement =
    keep b (moved (checked_sub b.retained.bytes previous.bytes) replacement.bytes)
      (moved (checked_sub b.retained.entries previous.entries) replacement.entries)

unfoldable pub reserve : BudgetState → RetainedFootprint → Result BudgetState
unfolding replace
reserve b footprint = replace b nothing footprint

unfoldable pub release : BudgetState → RetainedFootprint → BudgetState
release b footprint = record b {
  retained = record {
    bytes = b.retained.bytes - footprint.bytes;
    entries = b.retained.entries - footprint.entries;
  };
}

unfoldable pub reset : BudgetState → BudgetState
reset b = record b { retained = nothing }
