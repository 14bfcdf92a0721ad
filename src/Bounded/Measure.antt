-- ===== src/Bounded/Measure.antt =====
-- crates/llmshim-catalog/src/bounded_json.rs: `measure_value` against the size of a value.
use llmshim.Common.{
  ℕ, ◌+◌, ◌≤◌, ◌<◌, Bool, true, ◌&&◌, ◌≡◌, ◌∙◌, refl, Option, none, some, List, [], ◌∷◌, length,
  arith, leb, if◌then◌else◌, ◌>>=◌,
}
use llmshim.Common.Word.{usize_max}
use llmshim.Json.{
  Layout, Value, null, boolean, number, text, array, object, Items, nil, cons, Fields, end, field,
  total, total_items, total_fields, one, height, height_items, height_fields,
}
use llmshim.Json.Sums.{total_pos, items_length-total, fields_length-total}
use llmshim.Json.Stack.{walk-answer, sum_of}
use llmshim.Bounded.{
  Limits, Usage, no_usage, Pending, push_items, push_fields, push, visit, measure_value,
}
use llmshim.Bounded.Visit.{content_cost, has_place, visit-if}

-- What a value owns beside the values that it holds.
abbrev pub own_bytes : Layout → Value → ℕ
own_bytes l v = l.value_size + content_cost l v

abbrev nodes_of : Pending → ℕ
nodes_of (v, depth) = total one v

abbrev bytes_of : Layout → Pending → ℕ
bytes_of l (v, depth) = total (own_bytes l) v

length-nodes : (ps : List Pending) → length ps ≤ sum_of nodes_of ps
length-nodes [] = omega arith
length-nodes ((v, d) ∷ ps) = omega (arith, length-nodes ps, total_pos v)

sum-push_items :
    (own : Value → ℕ) (xs : Items) (d : ℕ) (ps : List Pending)
    → sum_of (λ (p : Pending). total own p.0) (push_items xs d ps)
      ≡ total_items own xs + sum_of (λ (p : Pending). total own p.0) ps
unfolding total
sum-push_items own nil d ps = omega arith
sum-push_items own (cons x xs) d ps = omega (arith, sum-push_items own xs d ((x, d) ∷ ps))

sum-push_fields :
    (own : Value → ℕ) (fs : Fields) (d : ℕ) (ps : List Pending)
    → sum_of (λ (p : Pending). total own p.0) (push_fields fs d ps)
      ≡ total_fields own fs + sum_of (λ (p : Pending). total own p.0) ps
unfolding total
sum-push_fields own end d ps = omega arith
sum-push_fields own (field k c v fs) d ps = omega (arith, sum-push_fields own fs d ((v, d) ∷ ps))

-- Taking a value off and pushing what it holds leaves out what it owns itself.
sum-push :
    (own : Value → ℕ) (v : Value) (d : ℕ) (ps : List Pending)
    → own v + sum_of (λ (p : Pending). total own p.0) (push (v, d) ps)
      ≡ total own v + sum_of (λ (p : Pending). total own p.0) ps
unfolding total
sum-push own null d ps = refl
sum-push own (boolean b) d ps = refl
sum-push own (number n) d ps = refl
sum-push own (text s c) d ps = refl
sum-push own (array c xs) d ps = omega (arith, sum-push_items own xs (d + 1) ps)
sum-push own (object fs) d ps = omega (arith, sum-push_fields own fs (d + 1) ps)

module _ (l : Layout) (limits : Limits) where
  abbrev fits_depth : List Pending → Bool
  fits_depth [] = true
  fits_depth ((v, d) ∷ ps) = leb (d + height v) (limits.max_depth + 1) && fits_depth ps

  fits_depth-push_items :
      (xs : Items) (d : ℕ) (ps : List Pending)
      → d ≤ limits.max_depth + 1
      → fits_depth (push_items xs d ps)
        ≡ (leb (d + height_items xs) (limits.max_depth + 1) && fits_depth ps)
  unfolding height
  fits_depth-push_items nil d ps h = ground arith
  fits_depth-push_items (cons x xs) d ps h =
      ground (arith, fits_depth-push_items xs d ((x, d) ∷ ps) h)

  fits_depth-push_fields :
      (fs : Fields) (d : ℕ) (ps : List Pending)
      → d ≤ limits.max_depth + 1
      → fits_depth (push_fields fs d ps)
        ≡ (leb (d + height_fields fs) (limits.max_depth + 1) && fits_depth ps)
  unfolding height
  fits_depth-push_fields end d ps h = ground arith
  fits_depth-push_fields (field k c v fs) d ps h =
      ground (arith, fits_depth-push_fields fs d ((v, d) ∷ ps) h)

  fits_depth-push :
      (v : Value) (d : ℕ) (ps : List Pending)
      → d ≤ limits.max_depth
      → fits_depth (push (v, d) ps) ≡ fits_depth ((v, d) ∷ ps)
  unfolding height
  fits_depth-push null d ps h = ground arith
  fits_depth-push (boolean b) d ps h = ground arith
  fits_depth-push (number n) d ps h = ground arith
  fits_depth-push (text s c) d ps h = ground arith
  fits_depth-push (array c xs) d ps h = ground (arith, fits_depth-push_items xs (d + 1) ps)
  fits_depth-push (object fs) d ps h = ground (arith, fits_depth-push_fields fs (d + 1) ps)

  -- What the walk from a usage comes to.
  abbrev fits : Usage → List Pending → Bool
  fits u ps =
      (leb (u.nodes + sum_of nodes_of ps) limits.max_nodes
        && leb (u.owned_bytes + sum_of (bytes_of l) ps) limits.max_owned_bytes)
      && fits_depth ps

  abbrev answer : Usage → List Pending → Option Usage
  answer u [] = some u
  answer u (p ∷ ps) =
      if fits u (p ∷ ps)
      then some (record {
        nodes = u.nodes + sum_of nodes_of (p ∷ ps);
        owned_bytes = u.owned_bytes + sum_of (bytes_of l) (p ∷ ps);
      })
      else none

  -- From a usage within the limits, one formula for every stack.
  answer_within :
      (u : Usage) (ps : List Pending)
      → u.nodes ≤ limits.max_nodes
      → u.owned_bytes ≤ limits.max_owned_bytes
      → answer u ps ≡ (
          if fits u ps
          then some (record {
            nodes = u.nodes + sum_of nodes_of ps;
            owned_bytes = u.owned_bytes + sum_of (bytes_of l) ps;
          })
          else none)
  answer_within u [] h k = ground arith
  answer_within u (p ∷ ps) h k = refl

  height_pos : (v : Value) → 1 ≤ height v
  unfolding height
  height_pos null = omega arith
  height_pos (boolean b) = omega arith
  height_pos (number n) = omega arith
  height_pos (text s c) = omega arith
  height_pos (array c xs) = omega arith
  height_pos (object fs) = omega arith

  -- What has no place is too much in all.
  place-total :
      (v : Value) (there : ℕ)
      → there + total one v ≤ limits.max_nodes + 1
      → there ≤ limits.max_nodes
      → has_place v there limits.max_nodes ≡ true
  unfolding total
  place-total null there h k = refl
  place-total (boolean b) there h k = refl
  place-total (number n) there h k = refl
  place-total (text s c) there h k = refl
  place-total (array c xs) there h k = ground (arith, h, items_length-total xs)
  place-total (object fs) there h k = ground (arith, h, fields_length-total fs)

  module _ (small_nodes : limits.max_nodes ≤ usize_max)
      (small_bytes : limits.max_owned_bytes ≤ usize_max)
      (small_depth : limits.max_depth < usize_max) where
    goes_on :
        (u : Usage) (p : Pending) (ps : List Pending)
        → answer u (p ∷ ps) ≡ (visit l limits u (length ps) p >>= λ u'. answer u' (push p ps))
    goes_on u (v, depth) ps =
        let u1 : Usage = record {
          nodes = u.nodes + 1;
          owned_bytes = u.owned_bytes + own_bytes l v;
        } in
        rw (visit-if l limits small_nodes small_bytes small_depth u (length ps) v depth) (
          ground (
            arith,
            answer_within u1 (push (v, depth) ps),
            sum-push one v depth ps,
            sum-push (own_bytes l) v depth ps,
            fits_depth-push v depth ps,
            height_pos v,
            length-nodes ps,
            total_pos v,
            place-total v (u.nodes + 1 + length ps),
          ))

    -- Where the limits are those of a machine word and the depth is below the greatest,
    -- measuring a value ends within one round for each value in it, and gives its nodes and the
    -- bytes that it owns, in all; exactly when both are within their limits and its depth is
    -- within its limit, and the complexity error otherwise. So the tests made on the way refuse
    -- no value that the totals allow.
    pub measure_value-total :
        (v : Value)
        → measure_value l limits v ≡ (
            if (leb (total one v) limits.max_nodes
                && leb (total (own_bytes l) v) limits.max_owned_bytes)
              && leb (height v) limits.max_depth
            then some (record { nodes = total one v; owned_bytes = total (own_bytes l) v })
            else none)
    unfolding measure_value
    measure_value-total v =
        walk-answer (visit l limits) push nodes_of answer
          (λ (x, d) ps. omega (arith, sum-push one x d ps)) (λ u. refl) (λ u p ps. goes_on u p ps)
          (total one v) no_usage ((v, 1) ∷ []) (omega arith)
        ∙ ground arith
