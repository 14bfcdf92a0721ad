-- ===== src/Idempotency/Estimate.antt =====
-- src/gateway/idempotency.rs: what a response retains, estimated by a walk over it. What the compiler
-- gives a record of the cache, in bytes, is a parameter.
pub mod Total
mod Examples
use llmshim.Common.{
  ℕ, ◌+◌, ◌-◌, ◌*◌, String, Option, none, some, List, [], ◌∷◌, leb, ltb, if◌then◌else◌, ◌>>=◌,
}
use llmshim.Common.Word.{checked_add, checked_mul}
use llmshim.Json.{
  Layout, Value, null, boolean, number, text, array, object, Items, nil, cons, Fields, end, field,
  items_length, fields_length, total, one,
}
use llmshim.Json.Stack.{walk, push}
use llmshim.Idempotency.Footprint.{RetainedFootprint, nothing, CacheLimits}

abbrev pub json_object_member_overhead_bytes : ℕ
json_object_member_overhead_bytes = 64

abbrev pub expiry_index_member_overhead_bytes : ℕ
expiry_index_member_overhead_bytes = 64

-- `none` where the method returns false.
unfoldable pub add_bytes : RetainedFootprint → (bytes limit : ℕ) → Option RetainedFootprint
unfolding checked_add
add_bytes f bytes limit = checked_add f.bytes bytes >>= λ sum.
    if leb sum limit then some (record f { bytes = sum }) else none

unfoldable pub add_node : RetainedFootprint → (limit : ℕ) → Option RetainedFootprint
unfolding checked_add
add_node f limit =
    checked_add f.nodes 1 >>= λ sum. if leb sum limit then some (record f { nodes = sum }) else none

module _ (l : Layout) (max_bytes max_nodes : ℕ) where
  unfoldable pub has_room : RetainedFootprint → (pending count : ℕ) → Option RetainedFootprint
  has_room f pending count = if ltb (max_nodes - pending) count then none else some f

  unfoldable pub add_keys : RetainedFootprint → Fields → Option RetainedFootprint
  unfolding add_bytes
  add_keys f end = some f
  add_keys f (field k c v fs) = add_bytes f c max_bytes >>= λ f'. add_keys f' fs

  unfoldable pub add_content : RetainedFootprint → (pending : ℕ) → Value → Option RetainedFootprint
  unfolding add_bytes add_keys has_room checked_add checked_mul
  add_content f pending null = some f
  add_content f pending (boolean b) = some f
  add_content f pending (number n) = some f
  add_content f pending (text s capacity) = add_bytes f capacity max_bytes
  add_content f pending (array capacity xs) = do
    slots ← checked_mul capacity l.value_size
    bytes ← checked_add slots l.vec_size
    f1 ← add_bytes f bytes max_bytes
    has_room f1 pending (items_length xs)
  add_content f pending (object fs) = do
    bytes ← checked_mul (fields_length fs) json_object_member_overhead_bytes
    f1 ← add_bytes f bytes max_bytes
    f2 ← has_room f1 pending (fields_length fs)
    add_keys f2 fs

  unfoldable pub visit : RetainedFootprint → (pending : ℕ) → Value → Option RetainedFootprint
  unfolding add_node add_bytes add_content
  visit f pending v = do
    f1 ← add_node f max_nodes
    f2 ← add_bytes f1 l.value_size max_bytes
    add_content f2 pending v

  -- The walk takes a round for each value.
  unfoldable pub estimate_value_footprint : Value → Option RetainedFootprint
  unfolding walk visit
  estimate_value_footprint v = walk visit push (total one v) nothing (v ∷ [])

-- The loop over the bytes that an entry takes beside its value.
unfoldable pub add_all : RetainedFootprint → List ℕ → (limit : ℕ) → Option RetainedFootprint
unfolding add_bytes
add_all f [] limit = some f
add_all f (bytes ∷ rest) limit = add_bytes f bytes limit >>= λ f'. add_all f' rest limit

unfoldable pub entry_footprint :
    Layout → Value → (beside : List ℕ) → CacheLimits → Option RetainedFootprint
unfolding estimate_value_footprint add_all
entry_footprint l response beside limits =
    estimate_value_footprint l limits.max_entry_retained_bytes limits.max_entry_retained_nodes
      response
    >>= λ f. add_all f beside limits.max_entry_retained_bytes

-- `entry_size` and `record_size` are the sizes of a cache entry and of an expiry record.
unfoldable pub scoped_entry_footprint :
    Layout
    → (entry_size record_size : ℕ) → (key_capacity fingerprint_capacity : ℕ) → Value
    → CacheLimits
    → Option RetainedFootprint
unfolding entry_footprint
scoped_entry_footprint l entry_size record_size key_capacity fingerprint_capacity response limits =
    entry_footprint l response
      (entry_size ∷ l.string_size ∷ record_size ∷ expiry_index_member_overhead_bytes ∷ key_capacity
        ∷ key_capacity ∷ fingerprint_capacity ∷ [])
      limits

unfoldable pub generic_entry_footprint :
    Layout
    → (entry_size record_size : ℕ) → (key_capacity : ℕ) → Value
    → CacheLimits
    → Option RetainedFootprint
unfolding entry_footprint
generic_entry_footprint l entry_size record_size key_capacity response limits =
    entry_footprint l response
      (entry_size ∷ l.string_size ∷ record_size ∷ expiry_index_member_overhead_bytes ∷ key_capacity
        ∷ key_capacity ∷ [])
      limits
