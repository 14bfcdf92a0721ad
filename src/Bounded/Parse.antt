-- ===== src/Bounded/Parse.antt =====
-- crates/llmshim-catalog/src/bounded_json.rs: the parser, over the events of the deserializer.
pub mod Charges
pub mod Against
use llmshim.Common.{
  ℕ, suc, ◌+◌, ◌*◌, Bool, ◌||◌, String, Option, none, some, ltb, if◌then◌else◌, ◌>>=◌,
}
use llmshim.Common.Word.{checked_add, checked_sub, checked_mul}
use llmshim.Json.{
  Layout, Value, null, boolean, number, text, array, object, Items, nil, cons, Fields, end,
  set_field,
}
use llmshim.Bounded.{Limits, Usage, no_usage, entry_size}

pub data ParseError : Type 0 where
  malformed : ParseError
  complexity : ParseError

pub data Parsed (A : Type 0) : Type 0 where
  ok : A → Parsed A
  failed : ParseError → Parsed A

abbrev pub then_parse : {A B : Type 0} → Parsed A → (A → Parsed B) → Parsed B
then_parse (ok a) f = f a
then_parse (failed e) f = failed e

-- ok_or_else(complexity)
abbrev pub or_complex : {A : Type 0} → Option A → Parsed A
or_complex (some a) = ok a
or_complex none = failed complexity

-- What the deserializer finds in the input, as the calls that it makes of the visitor: `broken`
-- where it fails of itself. A float is `none` where it is not finite. A string has the capacity
-- of its allocation, `none` where that fails.
mutual
  pub data Event : Type 0 where
    visit_bool : Bool → Event
    visit_integer : String → Event
    visit_f64 : Option String → Event
    visit_unit : Event
    visit_str : String → (reserved : Option ℕ) → Event
    visit_string : String → (capacity : ℕ) → Event
    visit_seq : Sequence → Event
    visit_map : Members → Event
    broken : Event

  pub data Sequence : Type 0 where
    no_element : Sequence
    broken_element : Sequence
    element : Event → Sequence → Sequence

  pub data Members : Type 0 where
    no_key : Members
    broken_key : Members
    member : (key : String) (capacity : ℕ) → Event → Members → Members

module _ (l : Layout) (limits : Limits) where
  unfoldable pub charge_bytes : Usage → ℕ → Parsed Usage
  unfolding checked_add
  charge_bytes b bytes = then_parse (or_complex (checked_add b.owned_bytes bytes)) λ n.
      if ltb limits.max_owned_bytes n then failed complexity else ok (record b { owned_bytes = n })

  unfoldable pub charge : Usage → ℕ → Parsed Usage
  unfolding checked_add
  charge b bytes = then_parse (or_complex (checked_add b.nodes 1)) λ nodes.
      then_parse (or_complex (checked_add b.owned_bytes l.value_size >>= λ n. checked_add n bytes))
        λ n.
          if ltb limits.max_nodes nodes || ltb limits.max_owned_bytes n
          then failed complexity
          else ok (record { nodes = nodes; owned_bytes = n })

  abbrev pub at_depth : {A : Type 0} → (depth : ℕ) → Parsed A → Parsed A
  at_depth depth parsed = if ltb limits.max_depth depth then failed complexity else parsed

  -- A value that holds no other: its charge, and the value.
  unfoldable pub leaf : Usage → ℕ → Value → Parsed (Value × Usage)
  unfolding charge
  leaf b bytes v = then_parse (charge b bytes) λ b'. ok (v, b')

  unfoldable pub finite : Usage → Option String → Parsed (Value × Usage)
  unfolding leaf charge
  finite b (some n) = leaf b 0 (number n)
  finite b none = then_parse (charge b 0) λ b'. failed malformed

  unfoldable pub reserved_text : Usage → String → Option ℕ → Parsed (Value × Usage)
  unfolding leaf
  reserved_text b s (some capacity) = leaf b capacity (text s capacity)
  reserved_text b s none = failed complexity

  -- Room for one more element; `grow` is given the length and the capacity of the vector.
  unfoldable pub charge_slot :
      (grow : ℕ → ℕ → Option ℕ) → Usage → (length capacity : ℕ) → Parsed (ℕ × Usage)
  unfolding charge_bytes checked_sub checked_mul
  charge_slot grow b length capacity = then_parse (or_complex (grow length capacity)) λ grown.
      then_parse
        (or_complex (checked_sub grown capacity >>= λ slots. checked_mul slots l.value_size))
        λ bytes. then_parse (charge_bytes b bytes) λ b'. ok (grown, b')

  unfoldable pub charge_key : Usage → ℕ → Parsed Usage
  unfolding charge_bytes checked_add
  charge_key b capacity =
      then_parse (or_complex (checked_add capacity (entry_size l limits)))
        λ bytes. charge_bytes b bytes

  module _ (grow : ℕ → ℕ → Option ℕ) where
    unfoldable mutual
      -- ValueSeed::deserialize, with the visitor's method for the event.
      pub parse_value : (depth : ℕ) → Usage → Event → Parsed (Value × Usage)
      parse_value depth b (visit_bool x) = at_depth depth (leaf b 0 (boolean x))
      parse_value depth b (visit_integer n) = at_depth depth (leaf b 0 (number n))
      parse_value depth b (visit_f64 n) = at_depth depth (finite b n)
      parse_value depth b visit_unit = at_depth depth (leaf b 0 null)
      parse_value depth b (visit_str s reserved) = at_depth depth (reserved_text b s reserved)
      parse_value depth b (visit_string s capacity) =
          at_depth depth (leaf b capacity (text s capacity))
      parse_value depth b (visit_seq es) = at_depth depth (
          then_parse (charge b 0) λ b1.
            then_parse (parse_elements depth b1 0 0 es)
              λ (capacity, (xs, b2)). ok (array capacity xs, b2))
      parse_value depth b (visit_map ms) = at_depth depth (
          then_parse (charge b 0)
            λ b1. then_parse (parse_members depth b1 end ms) λ (fs, b2). ok (object fs, b2))
      parse_value depth b broken = at_depth depth (failed malformed)

      -- The loop over the elements: the capacity of the vector in the end, and what is pushed.
      pub parse_elements :
          (depth : ℕ) → Usage → (length capacity : ℕ) → Sequence → Parsed (ℕ × (Items × Usage))
      parse_elements depth b length capacity no_element =
          then_parse (charge_slot grow b length capacity) λ (grown, b1). ok (grown, (nil, b1))
      parse_elements depth b length capacity broken_element =
          then_parse (charge_slot grow b length capacity) λ (grown, b1). failed malformed
      parse_elements depth b length capacity (element e es) =
          then_parse (charge_slot grow b length capacity) λ (grown, b1).
            then_parse (parse_value (depth + 1) b1 e) λ (x, b2).
              then_parse (parse_elements depth b2 (length + 1) grown es)
                λ (last, (xs, b3)). ok (last, (cons x xs, b3))

      -- The loop over the members, with the map so far.
      pub parse_members : (depth : ℕ) → Usage → Fields → Members → Parsed (Fields × Usage)
      parse_members depth b fs no_key = ok (fs, b)
      parse_members depth b fs broken_key = failed malformed
      parse_members depth b fs (member key capacity e ms) = then_parse (charge_key b capacity) λ b1.
          then_parse (parse_value (depth + 1) b1 e)
            λ (v, b2). parse_members depth b2 (set_field fs key capacity v) ms

    -- `at_end` is whether nothing follows the value.
    unfoldable pub parse : Event → (at_end : Bool) → Parsed (Value × Usage)
    unfolding parse_value
    parse e at_end =
        then_parse (parse_value 1 no_usage e)
          λ (v, b). if at_end then ok (v, b) else failed malformed
