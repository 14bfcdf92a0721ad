-- ===== src/Bounded/Examples.antt =====
-- crates/llmshim-catalog/src/bounded_json.rs: the value of `{"a": [0, "bc"], "a": 1}`.
use llmshim.Common.{
  ℕ, ◌+◌, ◌*◌, ◌≤◌, Option, some, none, ◌≡◌, refl, arith, leb, ◌&&◌, if◌then◌else◌, max, true,
}
use llmshim.Json.{
  Layout, Value, number, text, array, object, nil, cons, end, field, total, one, height,
}
use llmshim.Bounded.{Limits, Usage, measure_value, sse}
use llmshim.Bounded.Measure.{own_bytes, measure_value-total}
use llmshim.Bounded.Parse.{
  ok, Event, visit_integer, visit_str, visit_seq, visit_map, element, no_element, member, no_key,
  parse,
}
use llmshim.Bounded.Parse.Against.{parse-measure_value}

abbrev layout : Layout
layout = record { value_size = 32; string_size = 24; vec_size = 24; usize_size = 8 }

-- The vector's growth, by doubling from 4.
abbrev doubling : ℕ → ℕ → Option ℕ
doubling length capacity =
    if leb (length + 1) capacity then some capacity else some (max 4 (2 * capacity))

abbrev input : Event
input = visit_map (
    member "a" 1
      (visit_seq (element (visit_integer "0") (element (visit_str "bc" (some 2)) no_element)))
      (member "a" 1 (visit_integer "1") no_key))

abbrev nested : Value
nested = object (field "a" 1 (array 4 (cons (number "0") (cons (text "bc" 2) nil))) end)

measure_value-total_example : measure_value layout sse nested ≡ (
    if (leb (total one nested) sse.max_nodes
        && leb (total (own_bytes layout) nested) sse.max_owned_bytes)
      && leb (height nested) sse.max_depth
    then some (record { nodes = total one nested; owned_bytes = total (own_bytes layout) nested })
    else none)
measure_value-total_example =
    measure_value-total layout sse (omega arith) (omega arith) (omega arith) nested

-- The second member takes the place of the first, so less is measured than was charged.
parse-measure_value_example :
    (u : Usage) × ((measure_value layout sse (object (field "a" 1 (number "1") end)) ≡ some u)
      × ((u.nodes ≤ 5) × (u.owned_bytes ≤ 452)))
unfolding parse llmshim.Bounded.Parse.charge llmshim.Bounded.Parse.charge_key
    llmshim.Bounded.Parse.charge_slot llmshim.Bounded.Parse.leaf llmshim.Bounded.Parse.reserved_text
parse-measure_value_example =
    parse-measure_value layout sse doubling (omega arith) (omega arith) (omega arith) input true
      (object (field "a" 1 (number "1") end)) (record { nodes = 5; owned_bytes = 452 }) refl
