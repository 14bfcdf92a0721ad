-- ===== src/Bounded/Visit.antt =====
-- crates/llmshim-catalog/src/bounded_json.rs: one round of `measure_value`, as one test.
use llmshim.Common.{
  ℕ, ◌+◌, ◌*◌, ◌≤◌, ◌<◌, Bool, true, ◌&&◌, ◌≡◌, none, some, arith, leb, if◌then◌else◌, ◌>>=◌,
}
use llmshim.Common.Word.{checked_add, checked_sub, checked_mul, usize_max}
use llmshim.Json.{
  Layout, Value, null, boolean, number, text, array, object, Fields, end, field, items_length,
  fields_length,
}
use llmshim.Bounded.{
  Limits, Usage, within, add_bytes, bytes_within, charge_node, has_room, charge_fields,
  charge_content, visit, entry_size,
}

abbrev pub keys_cost : Layout → Fields → ℕ
keys_cost l end = 0
keys_cost l (field k c v fs) =
    c + (l.string_size + l.value_size + 3 * l.usize_size) + keys_cost l fs

-- What a value owns beside its own size and the values that it holds.
abbrev pub content_cost : Layout → Value → ℕ
content_cost l null = 0
content_cost l (boolean b) = 0
content_cost l (number n) = 0
content_cost l (text s c) = c
content_cost l (array c xs) = c * l.value_size
content_cost l (object fs) = keys_cost l fs

-- What a value holds fits beside what is there.
abbrev pub has_place : Value → (there most : ℕ) → Bool
has_place null there most = true
has_place (boolean b) there most = true
has_place (number n) there most = true
has_place (text s c) there most = true
has_place (array c xs) there most = leb (there + items_length xs) most
has_place (object fs) there most = leb (there + fields_length fs) most

module _ (l : Layout) (limits : Limits) (small_nodes : limits.max_nodes ≤ usize_max)
    (small_bytes : limits.max_owned_bytes ≤ usize_max)
    (small_depth : limits.max_depth < usize_max) where
  charge_node-if :
      (u : Usage)
      → charge_node l limits u ≡ (
          if leb (u.nodes + 1) limits.max_nodes
            && leb (u.owned_bytes + l.value_size) limits.max_owned_bytes
          then some (record { nodes = u.nodes + 1; owned_bytes = u.owned_bytes + l.value_size })
          else none)
  unfolding charge_node within add_bytes checked_add
  charge_node-if u = ground (arith, small_nodes, small_bytes)

  has_room-if :
      (u : Usage) (pending count : ℕ)
      → u.nodes ≤ limits.max_nodes
      → has_room l limits u pending count
        ≡ (if leb (u.nodes + pending + count) limits.max_nodes then some u else none)
  unfolding has_room checked_sub
  has_room-if u pending count h = ground (arith, h)

  charge_fields-if :
      (u : Usage) (fs : Fields)
      → u.owned_bytes ≤ limits.max_owned_bytes
      → charge_fields l limits u fs ≡ (
          if leb (u.owned_bytes + keys_cost l fs) limits.max_owned_bytes
          then some (record u { owned_bytes = u.owned_bytes + keys_cost l fs })
          else none)
  unfolding charge_fields bytes_within checked_add
  charge_fields-if u end h = ground (arith, h)
  charge_fields-if u (field k c v fs) h = ground (
    arith,
    small_bytes,
    charge_fields-if (record u { owned_bytes = u.owned_bytes + c + entry_size l limits }) fs,
  )

  -- The content of a value whose node fits, with the last test.
  content-if :
      (u : Usage) (pending : ℕ) (v : Value) (depth : ℕ)
      → u.nodes ≤ limits.max_nodes
      → u.owned_bytes ≤ limits.max_owned_bytes
      → depth ≤ limits.max_depth
      → (charge_content l limits u pending (v, depth) >>= within l limits) ≡ (
          if leb (u.owned_bytes + content_cost l v) limits.max_owned_bytes
            && has_place v (u.nodes + pending) limits.max_nodes
          then some (record u { owned_bytes = u.owned_bytes + content_cost l v })
          else none)
  unfolding charge_content within add_bytes bytes_within checked_add checked_mul
  content-if u pending null depth h k d = ground (arith, h, k)
  content-if u pending (boolean b) depth h k d = ground (arith, h, k)
  content-if u pending (number n) depth h k d = ground (arith, h, k)
  content-if u pending (text s c) depth h k d = ground (arith, h, k, small_bytes)
  content-if u pending (array c xs) depth h k d = ground (
    arith,
    h,
    k,
    d,
    small_bytes,
    small_depth,
    has_room-if (record u { owned_bytes = u.owned_bytes + c * l.value_size }) pending
        (items_length xs) h,
  )
  content-if u pending (object fs) depth h k d = ground (
    arith,
    h,
    k,
    d,
    small_depth,
    has_room-if u pending (fields_length fs) h,
    charge_fields-if u fs k,
  )

  pub visit-if :
      (u : Usage) (pending : ℕ) (v : Value) (depth : ℕ)
      → visit l limits u pending (v, depth) ≡ (
          if (leb depth limits.max_depth
              && (leb (u.nodes + 1) limits.max_nodes
                  && leb
                      (u.owned_bytes + (l.value_size + content_cost l v))
                      limits.max_owned_bytes))
            && has_place v (u.nodes + 1 + pending) limits.max_nodes
          then some (record {
            nodes = u.nodes + 1;
            owned_bytes = u.owned_bytes + (l.value_size + content_cost l v);
          })
          else none)
  unfolding visit
  visit-if u pending v depth = ground (
    arith,
    charge_node-if u,
    content-if (record { nodes = u.nodes + 1; owned_bytes = u.owned_bytes + l.value_size }) pending
        v depth,
  )
