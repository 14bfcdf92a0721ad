-- ===== src/Bounded/Parse/Against.antt =====
-- crates/llmshim-catalog/src/bounded_json.rs: what the parser charges, against `measure_value`.
use llmshim.Common.{
  subst, ◌∙◌, ℕ, ◌+◌, if_cases, ◌≤◌, ◌<◌, Bool, ◌≡◌, refl, Option, none, some, arith,
}
use llmshim.Common.Word.{usize_max}
use llmshim.Json.{
  Layout, Value, null, boolean, number, text, Fields, end, set_field, total, one, height,
  height_fields,
}
use llmshim.Bounded.{Limits, Usage, no_usage, entry_size, measure_value}
use llmshim.Bounded.Measure.{own_bytes, measure_value-total}
use llmshim.Bounded.Parse.{
  ok, Event, visit_bool, visit_integer, visit_f64, visit_unit, visit_str, visit_string, visit_seq,
  visit_map, broken, Sequence, no_element, broken_element, element, Members, no_key, broken_key,
  member, charge, reserved_text, parse_value, parse_elements, parse_members, parse,
}
use llmshim.Bounded.Parse.Charges.{
  Charges, Gives, Gives-map, IsElements, IsFit, IsMembers, IsSlot, IsValue, at_depth-Gives,
  charge-Gives, charge_key-Gives, charge_slot-Gives, finite-Gives, height-set_field,
  keys_cost-set_field, leaf-Gives, then_parse-Gives, total-set_field,
}

module _ (l : Layout) (limits : Limits) where
  module _ (grow : ℕ → ℕ → Option ℕ) where
    mutual
      unfolding parse_value total height reserved_text

      parse_value-Gives :
          (depth : ℕ) (b : Usage) (e : Event)
          → Gives (IsValue l limits depth b) (parse_value l limits grow depth b e)
      parse_value-Gives depth b (visit_bool x) =
          at_depth-Gives l limits (IsValue l limits depth b) depth _
            (λ d. leaf-Gives l limits depth b 0 (boolean x) d refl (omega arith) refl)
      parse_value-Gives depth b (visit_integer n) =
          at_depth-Gives l limits (IsValue l limits depth b) depth _
            (λ d. leaf-Gives l limits depth b 0 (number n) d refl (omega arith) refl)
      parse_value-Gives depth b (visit_f64 n) =
          at_depth-Gives l limits (IsValue l limits depth b) depth _
            (finite-Gives l limits depth b n)
      parse_value-Gives depth b visit_unit =
          at_depth-Gives l limits (IsValue l limits depth b) depth _
            (λ d. leaf-Gives l limits depth b 0 null d refl (omega arith) refl)
      parse_value-Gives depth b (visit_str s (some c)) =
          at_depth-Gives l limits (IsValue l limits depth b) depth _
            (λ d. leaf-Gives l limits depth b c (text s c) d refl (omega arith) refl)
      parse_value-Gives depth b (visit_str s none) =
          at_depth-Gives l limits (IsValue l limits depth b) depth _ (λ d. tt)
      parse_value-Gives depth b (visit_string s c) =
          at_depth-Gives l limits (IsValue l limits depth b) depth _
            (λ d. leaf-Gives l limits depth b c (text s c) d refl (omega arith) refl)
      parse_value-Gives depth b (visit_seq es) =
          at_depth-Gives l limits (IsValue l limits depth b) depth _ (λ d.
            then_parse-Gives (Charges l limits b 1 (l.value_size + 0)) (IsValue l limits depth b)
              (charge l limits b 0) _ (charge-Gives l limits b 0)
              (λ b1 c1.
                then_parse-Gives (IsElements l limits depth b1 0) (IsValue l limits depth b) _ _
                  (parse_elements-Gives depth b1 0 0 es d c1.1.0)
                  (λ (last, (xs, b2)) c2. ground (arith, c1, c2))))
      parse_value-Gives depth b (visit_map ms) =
          at_depth-Gives l limits (IsValue l limits depth b) depth _ (λ d.
            then_parse-Gives (Charges l limits b 1 (l.value_size + 0)) (IsValue l limits depth b)
              (charge l limits b 0) _ (charge-Gives l limits b 0)
              (λ b1 c1.
                then_parse-Gives (IsMembers l limits depth b1 end) (IsValue l limits depth b) _ _
                  (parse_members-Gives depth b1 end ms (omega (arith, d)) c1.1)
                  (λ (fs, b2) c2. ground (arith, c1, c2))))
      parse_value-Gives depth b broken =
          at_depth-Gives l limits (IsValue l limits depth b) depth _ (λ d. tt)

      parse_elements-Gives :
          (depth : ℕ) (b : Usage) (length capacity : ℕ) (es : Sequence)
          → depth ≤ limits.max_depth
          → b.nodes ≤ limits.max_nodes
          → Gives
              (IsElements l limits depth b capacity)
              (parse_elements l limits grow depth b length capacity es)
      parse_elements-Gives depth b length capacity no_element d h =
          then_parse-Gives (IsSlot l limits b capacity) (IsElements l limits depth b capacity) _ _
            (charge_slot-Gives l limits grow b length capacity h)
            (λ (grown, b1) c1. ground (arith, c1, d))
      parse_elements-Gives depth b length capacity broken_element d h =
          then_parse-Gives (IsSlot l limits b capacity) (IsElements l limits depth b capacity) _ _
            (charge_slot-Gives l limits grow b length capacity h) (λ (grown, b1) c1. tt)
      parse_elements-Gives depth b length capacity (element e es) d h =
          then_parse-Gives (IsSlot l limits b capacity) (IsElements l limits depth b capacity) _ _
            (charge_slot-Gives l limits grow b length capacity h)
            (λ (grown, b1) c1.
              then_parse-Gives (IsValue l limits (depth + 1) b1)
                (IsElements l limits depth b capacity) _ _ (parse_value-Gives (depth + 1) b1 e)
                (λ (x, b2) c2.
                  then_parse-Gives (IsElements l limits depth b2 grown)
                    (IsElements l limits depth b capacity) _ _
                    (parse_elements-Gives depth b2 (length + 1) grown es d c2.0.1.0)
                    (λ (last, (xs, b3)) c3. ground (arith, c1, c2, c3))))

      parse_members-Gives :
          (depth : ℕ) (b : Usage) (fs : Fields) (ms : Members)
          → depth + height_fields fs ≤ limits.max_depth
          → IsFit l limits b
          → Gives (IsMembers l limits depth b fs) (parse_members l limits grow depth b fs ms)
      parse_members-Gives depth b fs no_key d h = ground (arith, d, h)
      parse_members-Gives depth b fs broken_key d h = tt
      parse_members-Gives depth b fs (member k c e ms) d h =
          then_parse-Gives (Charges l limits b 0 (c + entry_size l limits))
            (IsMembers l limits depth b fs) _ _ (charge_key-Gives l limits b c h.0)
            (λ b1 c1.
              then_parse-Gives (IsValue l limits (depth + 1) b1) (IsMembers l limits depth b fs) _ _
                (parse_value-Gives (depth + 1) b1 e)
                (λ (v, b2) c2.
                  Gives-map (IsMembers l limits depth b2 (set_field fs k c v))
                    (IsMembers l limits depth b fs)
                    (parse_members l limits grow depth b2 (set_field fs k c v) ms)
                    (parse_members-Gives depth b2 (set_field fs k c v) ms
                      (omega (arith, d, c2.1, height-set_field fs k c v)) c2.0.1)
                    (λ (fs', b3) c3. ground (
                      arith,
                      c1,
                      c2,
                      c3,
                      total-set_field one fs k c v,
                      total-set_field (own_bytes l) fs k c v,
                      keys_cost-set_field l fs k c v,
                    ))))

    parse-Gives :
        (e : Event) (at_end : Bool)
        → Gives (IsValue l limits 1 no_usage) (parse l limits grow e at_end)
    unfolding parse
    parse-Gives e at_end =
        then_parse-Gives (IsValue l limits 1 no_usage) (IsValue l limits 1 no_usage) _ _
          (parse_value-Gives 1 no_usage e)
          (λ (v, b) c.
            if_cases (Gives (IsValue l limits 1 no_usage)) at_end (ok (v, b)) _ (λ _. c) (λ _. tt))

    -- Where the limits are those of a machine word and the depth is below the greatest, a value
    -- that is parsed is accepted by the measure under the same limits, and measures at most the
    -- nodes and the bytes that the parser charged for it, whatever keys repeat and however
    -- vectors grow.
    pub parse-measure_value :
        limits.max_nodes ≤ usize_max
        → limits.max_owned_bytes ≤ usize_max
        → limits.max_depth < usize_max
        → (e : Event) (at_end : Bool) (v : Value) (b : Usage)
        → parse l limits grow e at_end ≡ ok (v, b)
        → (u : Usage) × ((measure_value l limits v ≡ some u)
            × ((u.nodes ≤ b.nodes) × (u.owned_bytes ≤ b.owned_bytes)))
    parse-measure_value n o d e at_end v b h =
        let c = subst (Gives (IsValue l limits 1 no_usage)) h (parse-Gives e at_end) in
        (
          record { nodes = total one v; owned_bytes = total (own_bytes l) v },
          (measure_value-total l limits n o d v ∙ ground (arith, c), ground (arith, c)),
        )
