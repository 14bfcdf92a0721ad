-- ===== src/SchemaBudget/Measure.antt =====
-- src/schema/budget.rs: `measure` against the size of a schema.
use llmshim.Common.{
  ℕ, ◌+◌, ◌*◌, Bool, true, ◌&&◌, ◌≡◌, ◌∙◌, refl, Option, none, some, List, [], ◌∷◌, length, arith,
  leb, if◌then◌else◌, ◌>>=◌,
}
use llmshim.Common.Word.{checked_add, saturating_add, usize_max}
use llmshim.Json.{
  Value, null, boolean, number, text, array, object, Fields, end, field, items_length,
  fields_length, total, one,
}
use llmshim.Json.Stack.{walk-answer, sum_of, push, children}
use llmshim.Json.Sums.{length-total, sum-push, children-total}
use llmshim.SchemaBudget.{
  Footprint, no_footprint, has_room, bytes_within, add_text, add_fields, add_content, settle, visit,
  measure, max_measure_nodes, max_measure_literal_bytes, max_measure_owned_bytes,
}
use Prim.Native.String.{len}

abbrev key_bytes : Fields → ℕ
key_bytes end = 0
key_bytes (field k c v fs) = len k + key_bytes fs

-- What a value adds beside the values that it holds.
abbrev pub own_literal : Value → ℕ
own_literal (object fs) = key_bytes fs
own_literal (text s c) = len s
own_literal (null) = 0
own_literal (boolean b) = 0
own_literal (number n) = 0
own_literal (array c xs) = 0

abbrev pub own_bytes : Value → ℕ
own_bytes (object fs) = 64 + 576 + key_bytes fs + 32 * fields_length fs
own_bytes (text s c) = 64 + len s + 32
own_bytes (null) = 64
own_bytes (boolean b) = 64
own_bytes (number n) = 64
own_bytes (array c xs) = 64

add_text-if :
    (f : Footprint) (bytes : ℕ)
    → add_text f bytes ≡ (
        if leb (f.literal_bytes + bytes) usize_max && leb (f.owned_bytes + bytes + 32) usize_max
        then some (record f {
          literal_bytes = f.literal_bytes + bytes;
          owned_bytes = f.owned_bytes + bytes + 32;
        })
        else none)
unfolding add_text checked_add
add_text-if f bytes = ground arith

bytes_within-if :
    (f : Footprint)
    → bytes_within f ≡ (
        if leb f.literal_bytes max_measure_literal_bytes
          && leb f.owned_bytes max_measure_owned_bytes
        then some f
        else none)
unfolding bytes_within
bytes_within-if f = ground arith

settle-if :
    (waiting : ℕ) (f : Footprint)
    → settle waiting f ≡ (
        if leb (f.nodes + waiting) max_measure_nodes
        then if leb f.literal_bytes max_measure_literal_bytes
            && leb f.owned_bytes max_measure_owned_bytes
          then some f
          else none
        else none)
unfolding settle saturating_add bytes_within
settle-if waiting f = ground arith

-- One key, where the bounds of the word do not matter, since the limits are below them.
add_key-if :
    (f : Footprint) (bytes : ℕ)
    → (add_text f bytes >>= bytes_within) ≡ (
        if leb (f.literal_bytes + bytes) max_measure_literal_bytes
          && leb (f.owned_bytes + bytes + 32) max_measure_owned_bytes
        then some (record f {
          literal_bytes = f.literal_bytes + bytes;
          owned_bytes = f.owned_bytes + bytes + 32;
        })
        else none)
add_key-if f bytes = rw (add_text-if f bytes) (
    ground (
      arith,
      bytes_within-if (record f {
        literal_bytes = f.literal_bytes + bytes;
        owned_bytes = f.owned_bytes + bytes + 32;
      }),
    ))

bind_assoc :
    (o : Option Footprint) (g h : Footprint → Option Footprint)
    → (o >>= λ f. g f >>= h) ≡ (o >>= g >>= h)
bind_assoc none g h = refl
bind_assoc (some f) g h = refl

add_fields-settle :
    (waiting : ℕ) (f : Footprint) (fs : Fields)
    → (add_fields f fs >>= settle waiting) ≡ (
        if leb (f.nodes + waiting) max_measure_nodes
        then if leb (f.literal_bytes + key_bytes fs) max_measure_literal_bytes
            && leb (f.owned_bytes + key_bytes fs + 32 * fields_length fs) max_measure_owned_bytes
          then some (record f {
            literal_bytes = f.literal_bytes + key_bytes fs;
            owned_bytes = f.owned_bytes + key_bytes fs + 32 * fields_length fs;
          })
          else none
        else none)
unfolding add_fields
add_fields-settle waiting f end = settle-if waiting f ∙ ground arith
add_fields-settle waiting f (field k c v fs) =
    rw (bind_assoc (add_text f (len k)) bytes_within (λ f2. add_fields f2 fs), add_key-if f (len k))
      (ground (
        arith,
        add_fields-settle waiting
            (record f {
              literal_bytes = f.literal_bytes + len k;
              owned_bytes = f.owned_bytes + len k + 32;
            })
            fs,
      ))

abbrev fits_after : Footprint → (waiting : ℕ) → Value → Bool
fits_after f waiting v =
    leb (f.nodes + 1 + waiting + children v) max_measure_nodes
    && (leb (f.literal_bytes + own_literal v) max_measure_literal_bytes
        && leb (f.owned_bytes + own_bytes v) max_measure_owned_bytes)

visit-if :
    (f : Footprint) (pending : ℕ) (v : Value)
    → visit f pending v ≡ (
        if fits_after f pending v
        then some (record {
          nodes = f.nodes + 1;
          literal_bytes = f.literal_bytes + own_literal v;
          owned_bytes = f.owned_bytes + own_bytes v;
        })
        else none)
unfolding visit add_content has_room checked_add saturating_add
visit-if f pending null =
    ground (
      arith,
      settle-if pending (record f { nodes = f.nodes + 1; owned_bytes = f.owned_bytes + 64 }),
    )
visit-if f pending (boolean b) =
    ground (
      arith,
      settle-if pending (record f { nodes = f.nodes + 1; owned_bytes = f.owned_bytes + 64 }),
    )
visit-if f pending (number n) =
    ground (
      arith,
      settle-if pending (record f { nodes = f.nodes + 1; owned_bytes = f.owned_bytes + 64 }),
    )
visit-if f pending (text s c) = ground (
  arith,
  add_text-if (record f { nodes = f.nodes + 1; owned_bytes = f.owned_bytes + 64 }) (len s),
  settle-if pending (record {
    nodes = f.nodes + 1;
    literal_bytes = f.literal_bytes + len s;
    owned_bytes = f.owned_bytes + 64 + len s + 32;
  }),
)
visit-if f pending (array c xs) = ground (
  arith,
  settle-if (pending + items_length xs)
      (record f { nodes = f.nodes + 1; owned_bytes = f.owned_bytes + 64 }),
)
visit-if f pending (object fs) = ground (
  arith,
  add_fields-settle (pending + fields_length fs)
      (record {
        nodes = f.nodes + 1;
        literal_bytes = f.literal_bytes;
        owned_bytes = f.owned_bytes + 64 + 576;
      })
      fs,
)

abbrev fits : Footprint → List Value → Bool
fits f ps =
    leb (f.nodes + sum_of (total one) ps) max_measure_nodes
    && (leb (f.literal_bytes + sum_of (total own_literal) ps) max_measure_literal_bytes
        && leb (f.owned_bytes + sum_of (total own_bytes) ps) max_measure_owned_bytes)

abbrev answer : Footprint → List Value → Option Footprint
answer f [] = some f
answer f (p ∷ ps) =
    if fits f (p ∷ ps)
    then some (record {
      nodes = f.nodes + sum_of (total one) (p ∷ ps);
      literal_bytes = f.literal_bytes + sum_of (total own_literal) (p ∷ ps);
      owned_bytes = f.owned_bytes + sum_of (total own_bytes) (p ∷ ps);
    })
    else none

answer_within :
    (f : Footprint) (ps : List Value)
    → fits f [] ≡ true
    → answer f ps ≡ (
        if fits f ps
        then some (record {
          nodes = f.nodes + sum_of (total one) ps;
          literal_bytes = f.literal_bytes + sum_of (total own_literal) ps;
          owned_bytes = f.owned_bytes + sum_of (total own_bytes) ps;
        })
        else none)
answer_within f [] h = ground (arith, h)
answer_within f (p ∷ ps) h = refl

goes_on :
    (f : Footprint) (v : Value) (ps : List Value)
    → answer f (v ∷ ps) ≡ (visit f (length ps) v >>= λ f'. answer f' (push v ps))
goes_on f v ps =
    let f1 : Footprint = record {
      nodes = f.nodes + 1;
      literal_bytes = f.literal_bytes + own_literal v;
      owned_bytes = f.owned_bytes + own_bytes v;
    } in
    rw (visit-if f (length ps) v) (
      ground (
        arith,
        answer_within f1 (push v ps),
        sum-push one v ps,
        sum-push own_literal v ps,
        sum-push own_bytes v ps,
        length-total ps,
        children-total v,
      ))

-- Measuring a schema gives its nodes, the bytes of its texts and keys, and the bytes counted for
-- what it owns, each in all, exactly when these are within the three limits, and is exhausted
-- otherwise; the tests on the way change nothing. It ends within a round for each value.
pub measure-total :
    (v : Value)
    → measure v ≡ (
        if leb (total one v) max_measure_nodes
          && (leb (total own_literal v) max_measure_literal_bytes
              && leb (total own_bytes v) max_measure_owned_bytes)
        then some (record {
          nodes = total one v;
          literal_bytes = total own_literal v;
          owned_bytes = total own_bytes v;
        })
        else none)
unfolding measure
measure-total v =
    walk-answer visit push (total one) answer (λ x ps. omega (arith, sum-push one x ps)) (λ f. refl)
      (λ f x ps. goes_on f x ps) (total one v) no_footprint (v ∷ []) (omega arith)
    ∙ ground arith
