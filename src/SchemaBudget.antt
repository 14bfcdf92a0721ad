-- ===== src/SchemaBudget.antt =====
-- src/schema/budget.rs: the measure of a schema, and the budget of a request for schemas.
pub mod Measure
pub mod Request
pub mod Locations
pub mod Reservations
pub mod Within
mod Examples
use llmshim.Common.{
  ℕ, ◌+◌, Bool, true, false, ◌||◌, String, Option, none, some, List, [], ◌∷◌, ltb, if◌then◌else◌,
  ◌>>=◌,
}
use llmshim.Common.Word.{checked_add, saturating_add}
use llmshim.Json.{
  Value, null, boolean, number, text, array, object, Items, nil, cons, Fields, end, field,
  items_length, fields_length, total, one,
}
use llmshim.Json.Stack.{walk, push, children}
use Prim.Native.String.{len}

abbrev pub max_measure_nodes : ℕ
max_measure_nodes = 524288

abbrev pub max_measure_literal_bytes : ℕ
max_measure_literal_bytes = 67108864

abbrev pub max_measure_owned_bytes : ℕ
max_measure_owned_bytes = 67108864

-- BudgetLimits, and the Usage of the same fields.
pub record Amounts : Type 0 where
  pub schema_copies : ℕ
  pub retained_nodes : ℕ
  pub retained_literal_bytes : ℕ
  pub retained_owned_bytes : ℕ
  pub work_passes : ℕ
  pub work_nodes : ℕ
  pub work_literal_bytes : ℕ
  pub validators : ℕ
  pub prompt_bytes : ℕ

abbrev pub default_limits : Amounts
default_limits = record {
  schema_copies = 1024;
  retained_nodes = 262144;
  retained_literal_bytes = 33554432;
  retained_owned_bytes = 67108864;
  work_passes = 512;
  work_nodes = 524288;
  work_literal_bytes = 67108864;
  validators = 128;
  prompt_bytes = 33554432;
}

abbrev pub no_amounts : Amounts
no_amounts = record {
  schema_copies = 0;
  retained_nodes = 0;
  retained_literal_bytes = 0;
  retained_owned_bytes = 0;
  work_passes = 0;
  work_nodes = 0;
  work_literal_bytes = 0;
  validators = 0;
  prompt_bytes = 0;
}

pub record Footprint : Type 0 where
  pub nodes : ℕ
  pub literal_bytes : ℕ
  pub owned_bytes : ℕ

abbrev pub no_footprint : Footprint
no_footprint = record { nodes = 0; literal_bytes = 0; owned_bytes = 0 }

pub record RequestBudget : Type 0 where
  pub limits : Amounts
  pub used : Amounts

abbrev pub with_limits : Amounts → RequestBudget
with_limits limits = record { limits = limits; used = no_amounts }

-- The error of the measure, `none` here, is `exhausted()`.
unfoldable pub has_room : Footprint → (pending count : ℕ) → Option Footprint
unfolding saturating_add
has_room f pending count =
    if ltb max_measure_nodes (saturating_add (saturating_add f.nodes pending) count)
    then none
    else some f

unfoldable pub bytes_within : Footprint → Option Footprint
bytes_within f =
    if ltb max_measure_literal_bytes f.literal_bytes || ltb max_measure_owned_bytes f.owned_bytes
    then none
    else some f

-- A text, or the key of a member.
unfoldable pub add_text : Footprint → ℕ → Option Footprint
unfolding checked_add
add_text f bytes = do
  literal ← checked_add f.literal_bytes bytes
  b ← checked_add f.owned_bytes bytes
  b' ← checked_add b 32
  some (record f { literal_bytes = literal; owned_bytes = b' })

unfoldable pub add_fields : Footprint → Fields → Option Footprint
unfolding add_text bytes_within
add_fields f end = some f
add_fields f (field k c v fs) = do f1 ← add_text f (len k); f2 ← bytes_within f1; add_fields f2 fs

unfoldable pub add_content : Footprint → (pending : ℕ) → Value → Option Footprint
unfolding has_room add_text add_fields checked_add
add_content f pending (object fs) = do
  f1 ← has_room f pending (fields_length fs)
  b ← checked_add f1.owned_bytes 576
  add_fields (record f1 { owned_bytes = b }) fs
add_content f pending (array c xs) = has_room f pending (items_length xs)
add_content f pending (text s c) = add_text f (len s)
add_content f pending (null) = some f
add_content f pending (boolean b) = some f
add_content f pending (number n) = some f

-- The test at the end of a round, with the values that wait then.
unfoldable pub settle : (waiting : ℕ) → Footprint → Option Footprint
unfolding saturating_add bytes_within
settle waiting f =
    if ltb max_measure_nodes (saturating_add f.nodes waiting) then none else bytes_within f

unfoldable pub visit : Footprint → (pending : ℕ) → Value → Option Footprint
unfolding checked_add add_content settle
visit f pending v = do
  n ← checked_add f.nodes 1
  b ← checked_add f.owned_bytes 64
  f1 ← add_content (record f { nodes = n; owned_bytes = b }) pending v
  settle (pending + children v) f1

-- The walk takes a round for each value.
unfoldable pub measure : Value → Option Footprint
unfolding walk visit
measure v = walk visit push (total one v) no_footprint (v ∷ [])

unfoldable pub reserve : (used amount limit : ℕ) → Option ℕ
unfolding checked_add
reserve used amount limit =
    checked_add used amount >>= λ next. if ltb limit next then none else some next
