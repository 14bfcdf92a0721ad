-- ===== src/Bounded.antt =====
-- crates/llmshim-catalog/src/bounded_json.rs: JSON within limits on depth, nodes and bytes.
pub mod Visit
pub mod Measure
pub mod Parse
mod Examples
use llmshim.Common.{
  ℕ, suc, ◌+◌, ◌*◌, Bool, ◌||◌, Option, none, some, List, [], ◌∷◌, ltb, if◌then◌else◌, ◌>>=◌,
}
use llmshim.Common.Word.{checked_add, checked_sub, checked_mul}
use llmshim.Json.{
  Layout, Value, null, boolean, number, text, array, object, Items, nil, cons, Fields, end, field,
  items_length, fields_length, total, one,
}
use llmshim.Json.Stack.{walk}

pub record Limits : Type 0 where
  pub max_depth : ℕ
  pub max_nodes : ℕ
  pub max_owned_bytes : ℕ

abbrev pub unary : Limits
unary = record { max_depth = 128; max_nodes = 65536; max_owned_bytes = 41943040 }

abbrev pub sse : Limits
sse = record { max_depth = 128; max_nodes = 16384; max_owned_bytes = 16777216 }

abbrev pub inbound : Limits
inbound = record { max_depth = 128; max_nodes = 32768; max_owned_bytes = 8388608 }

abbrev pub oauth : Limits
oauth = record { max_depth = 64; max_nodes = 4096; max_owned_bytes = 1048576 }

abbrev pub catalog : Limits
catalog = record { max_depth = 128; max_nodes = 262144; max_owned_bytes = 134217728 }

pub record Usage : Type 0 where
  pub nodes : ℕ
  pub owned_bytes : ℕ

abbrev pub no_usage : Usage
no_usage = record { nodes = 0; owned_bytes = 0 }

-- A value that waits to be measured, with its depth.
abbrev pub Pending : Type 0
Pending = Value × ℕ

abbrev pub push_items : Items → (depth : ℕ) → List Pending → List Pending
push_items nil depth pending = pending
push_items (cons x xs) depth pending = push_items xs depth ((x, depth) ∷ pending)

abbrev pub push_fields : Fields → (depth : ℕ) → List Pending → List Pending
push_fields end depth pending = pending
push_fields (field k c v fs) depth pending = push_fields fs depth ((v, depth) ∷ pending)

abbrev pub push : Pending → List Pending → List Pending
push (array c xs, depth) pending = push_items xs (depth + 1) pending
push (object fs, depth) pending = push_fields fs (depth + 1) pending
push (null, depth) pending = pending
push (boolean b, depth) pending = pending
push (number n, depth) pending = pending
push (text s c, depth) pending = pending

module _ (l : Layout) (limits : Limits) where
  -- size_of::<String>() + size_of::<Value>() + 3 * size_of::<usize>()
  abbrev pub entry_size : ℕ
  entry_size = l.string_size + l.value_size + 3 * l.usize_size

  -- The test of the nodes and the bytes against the limits; `none` is `ParseError::Complexity`.
  unfoldable pub within : Usage → Option Usage
  within u =
      if ltb limits.max_nodes u.nodes || ltb limits.max_owned_bytes u.owned_bytes
      then none
      else some u

  unfoldable pub add_bytes : Usage → ℕ → Option Usage
  unfolding checked_add
  add_bytes u bytes = checked_add u.owned_bytes bytes >>= λ b. some (record u { owned_bytes = b })

  unfoldable pub bytes_within : Usage → Option Usage
  bytes_within u = if ltb limits.max_owned_bytes u.owned_bytes then none else some u

  unfoldable pub charge_node : Usage → Option Usage
  unfolding within add_bytes checked_add
  charge_node u = do
    n ← checked_add u.nodes 1
    u' ← add_bytes (record u { nodes = n }) l.value_size
    within u'

  -- There is room for as many values as are to be pushed.
  unfoldable pub has_room : Usage → (pending count : ℕ) → Option Usage
  unfolding checked_sub
  has_room u pending count = do
    left ← checked_sub limits.max_nodes u.nodes
    remaining ← checked_sub left pending
    if ltb remaining count then none else some u

  unfoldable pub charge_fields : Usage → Fields → Option Usage
  unfolding add_bytes bytes_within checked_add
  charge_fields u end = some u
  charge_fields u (field k c v fs) = do
    b ← checked_add u.owned_bytes c
    b' ← checked_add b entry_size
    u' ← bytes_within (record u { owned_bytes = b' })
    charge_fields u' fs

  unfoldable pub charge_content : Usage → (pending : ℕ) → Pending → Option Usage
  unfolding add_bytes bytes_within has_room charge_fields checked_add checked_mul
  charge_content u pending (text s capacity, depth) = add_bytes u capacity
  charge_content u pending (array capacity xs, depth) = do
    bytes ← checked_mul capacity l.value_size
    u1 ← add_bytes u bytes
    u2 ← bytes_within u1
    u3 ← has_room u2 pending (items_length xs)
    child_depth ← checked_add depth 1
    some u3
  charge_content u pending (object fs, depth) = do
    u1 ← has_room u pending (fields_length fs)
    child_depth ← checked_add depth 1
    charge_fields u1 fs
  charge_content u pending (null, depth) = some u
  charge_content u pending (boolean b, depth) = some u
  charge_content u pending (number n, depth) = some u

  unfoldable pub visit : Usage → (pending : ℕ) → Pending → Option Usage
  unfolding charge_node charge_content within
  visit u pending (v, depth) =
      if ltb limits.max_depth depth
      then none
      else do u1 ← charge_node u; u2 ← charge_content u1 pending (v, depth); within u2

  -- The walk takes a round for each value.
  unfoldable pub measure_value : Value → Option Usage
  unfolding walk visit
  measure_value v = walk visit push (total one v) no_usage ((v, 1) ∷ [])
