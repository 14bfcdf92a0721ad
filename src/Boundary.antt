-- ===== src/Boundary.antt =====
-- src/proxy/lifetime.rs: `SseBoundary`, which knows whether an event could begin at this point of
-- a stream that another writer makes.
pub mod Lines
mod Examples
use llmshim.Common.{ℕ, Bool, true, false, not, ◌&&◌, ◌||◌, List, ◌∷◌, eqb, if◌then◌else◌}
use mathlib.Core.List.{[]}

pub record SseBoundary : Type 0 where
  pub at_line_start : Bool
  pub after_carriage_return : Bool
  pub safe : Bool
  pub observed_anything : Bool

abbrev pub new : SseBoundary
new = record {
  at_line_start = true;
  after_carriage_return = false;
  safe = true;
  observed_anything = false;
}

-- One byte.
unfoldable pub observe_byte : SseBoundary → (byte : ℕ) → SseBoundary
observe_byte s byte =
    if s.after_carriage_return && eqb byte 10
    then record s { observed_anything = true; after_carriage_return = false }
    else if eqb byte 13 || eqb byte 10
    then record {
      at_line_start = true;
      after_carriage_return = eqb byte 13;
      safe = s.at_line_start;
      observed_anything = true;
    }
    else record {
      at_line_start = false;
      after_carriage_return = false;
      safe = false;
      observed_anything = true;
    }

unfoldable pub observe : SseBoundary → (bytes : List ℕ) → SseBoundary
unfolding observe_byte
observe s [] = s
observe s (byte ∷ bytes) = observe (observe_byte s byte) bytes

unfoldable pub is_safe : SseBoundary → Bool
is_safe s = not s.observed_anything || s.safe
