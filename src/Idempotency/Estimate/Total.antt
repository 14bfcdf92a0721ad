-- ===== src/Idempotency/Estimate/Total.antt =====
-- src/gateway/idempotency.rs: the estimate against the size of a response.
use llmshim.Common.{
  ℕ, ◌+◌, ◌-◌, ◌*◌, ◌≤◌, Bool, true, ◌&&◌, ◌≡◌, ◌∙◌, refl, Option, none, some, List, [], ◌∷◌,
  length, leb, arith, if◌then◌else◌, ◌>>=◌,
}
use llmshim.Common.Word.{checked_add, checked_mul, usize_max}
use llmshim.Json.{
  Layout, Value, null, boolean, number, text, array, object, Fields, end, field, fields_length,
  total, one,
}
use llmshim.Json.Stack.{walk-answer, sum_of, push, children}
use llmshim.Json.Sums.{length-total, sum-push, children-total}
use llmshim.Idempotency.Footprint.{RetainedFootprint, nothing, CacheLimits}
use llmshim.Idempotency.Estimate.{
  json_object_member_overhead_bytes, add_bytes, add_node, has_room, add_keys, add_content, visit,
  estimate_value_footprint, add_all, entry_footprint,
}

abbrev key_bytes : Fields → ℕ
key_bytes end = 0
key_bytes (field k c v fs) = c + key_bytes fs

-- What a value retains beside the values that it holds.
abbrev content : Layout → Value → ℕ
content l null = 0
content l (boolean b) = 0
content l (number n) = 0
content l (text s c) = c
content l (array c xs) = c * l.value_size + l.vec_size
content l (object fs) = fields_length fs * json_object_member_overhead_bytes + key_bytes fs

abbrev pub own_bytes : Layout → Value → ℕ
own_bytes l v = l.value_size + content l v

add_bytes-if :
    (limit : ℕ) (small : limit ≤ usize_max) (f : RetainedFootprint) (bytes : ℕ)
    → add_bytes f bytes limit
      ≡ (if leb (f.bytes + bytes) limit then some (record f { bytes = f.bytes + bytes }) else none)
unfolding add_bytes checked_add
add_bytes-if limit small f bytes = ground (arith, small)

module _ (l : Layout) (max_bytes max_nodes : ℕ) (small_bytes : max_bytes ≤ usize_max)
    (small_nodes : max_nodes ≤ usize_max) where
  add_keys-if :
      (f : RetainedFootprint) (fs : Fields)
      → f.bytes ≤ max_bytes
      → add_keys l max_bytes max_nodes f fs ≡ (
          if leb (f.bytes + key_bytes fs) max_bytes
          then some (record f { bytes = f.bytes + key_bytes fs })
          else none)
  unfolding add_keys
  add_keys-if f end h = ground (arith, h)
  add_keys-if f (field k c v fs) h =
      rw (add_bytes-if max_bytes small_bytes f c)
        (ground (arith, add_keys-if (record f { bytes = f.bytes + c }) fs))

  add_content-if :
      (f : RetainedFootprint) (pending : ℕ) (v : Value)
      → f.bytes ≤ max_bytes
      → add_content l max_bytes max_nodes f pending v ≡ (
          if leb (f.bytes + content l v) max_bytes && leb (children v) (max_nodes - pending)
          then some (record f { bytes = f.bytes + content l v })
          else none)
  unfolding add_content has_room checked_add checked_mul
  add_content-if f pending null h = ground (arith, h)
  add_content-if f pending (boolean b) h = ground (arith, h)
  add_content-if f pending (number n) h = ground (arith, h)
  add_content-if f pending (text s c) h = ground (arith, h, add_bytes-if max_bytes small_bytes f c)
  add_content-if f pending (array c xs) h =
      ground (
        arith,
        h,
        small_bytes,
        add_bytes-if max_bytes small_bytes f (c * l.value_size + l.vec_size),
      )
  add_content-if f pending (object fs) h = ground (
    arith,
    h,
    small_bytes,
    add_bytes-if max_bytes small_bytes f (fields_length fs * json_object_member_overhead_bytes),
    add_keys-if
        (record f { bytes = f.bytes + fields_length fs * json_object_member_overhead_bytes }) fs,
  )

  visit-if :
      (f : RetainedFootprint) (pending : ℕ) (v : Value)
      → visit l max_bytes max_nodes f pending v ≡ (
          if (leb (f.nodes + 1) max_nodes && leb (f.bytes + own_bytes l v) max_bytes)
            && leb (children v) (max_nodes - pending)
          then some (record { bytes = f.bytes + own_bytes l v; nodes = f.nodes + 1 })
          else none)
  unfolding visit add_node checked_add
  visit-if f pending v = ground (
    arith,
    small_nodes,
    add_bytes-if max_bytes small_bytes (record f { nodes = f.nodes + 1 }) l.value_size,
    add_content-if (record { bytes = f.bytes + l.value_size; nodes = f.nodes + 1 }) pending v,
  )

  abbrev fits : RetainedFootprint → List Value → Bool
  fits f ps =
      leb (f.nodes + sum_of (total one) ps) max_nodes
      && leb (f.bytes + sum_of (total (own_bytes l)) ps) max_bytes

  abbrev whole : RetainedFootprint → List Value → RetainedFootprint
  whole f ps = record {
    bytes = f.bytes + sum_of (total (own_bytes l)) ps;
    nodes = f.nodes + sum_of (total one) ps;
  }

  abbrev answer : RetainedFootprint → List Value → Option RetainedFootprint
  answer f [] = some f
  answer f (p ∷ ps) = if fits f (p ∷ ps) then some (whole f (p ∷ ps)) else none

  answer_within :
      (f : RetainedFootprint) (ps : List Value)
      → fits f [] ≡ true
      → answer f ps ≡ (if fits f ps then some (whole f ps) else none)
  answer_within f [] h = ground (arith, h)
  answer_within f (p ∷ ps) h = refl

  goes_on :
      (f : RetainedFootprint) (v : Value) (ps : List Value)
      → answer f (v ∷ ps)
        ≡ (visit l max_bytes max_nodes f (length ps) v >>= λ f'. answer f' (push v ps))
  goes_on f v ps = rw (visit-if f (length ps) v) (
      ground (
        arith,
        answer_within (record { bytes = f.bytes + own_bytes l v; nodes = f.nodes + 1 }) (push v ps),
        sum-push one v ps,
        sum-push (own_bytes l) v ps,
        length-total ps,
        children-total v,
      ))

  pub estimate-total :
      (v : Value)
      → estimate_value_footprint l max_bytes max_nodes v ≡ (
          if leb (total one v) max_nodes && leb (total (own_bytes l) v) max_bytes
          then some (record { bytes = total (own_bytes l) v; nodes = total one v })
          else none)
  unfolding estimate_value_footprint
  estimate-total v =
      walk-answer (visit l max_bytes max_nodes) push (total one) answer
        (λ x ps. omega (arith, sum-push one x ps)) (λ f. refl) (λ f x ps. goes_on f x ps)
        (total one v) nothing (v ∷ []) (omega arith)
      ∙ ground arith

abbrev pub sum : List ℕ → ℕ
sum [] = 0
sum (n ∷ ns) = n + sum ns

add_all-if :
    (limit : ℕ) (small : limit ≤ usize_max) (f : RetainedFootprint) (beside : List ℕ)
    → f.bytes ≤ limit
    → add_all f beside limit ≡ (
        if leb (f.bytes + sum beside) limit
        then some (record f { bytes = f.bytes + sum beside })
        else none)
unfolding add_all
add_all-if limit small f [] h = ground (arith, h)
add_all-if limit small f (b ∷ rest) h =
    rw (add_bytes-if limit small f b)
      (ground (arith, add_all-if limit small (record f { bytes = f.bytes + b }) rest))

-- For limits of the machine's width, an entry has a footprint exactly when the nodes of its
-- response, and the bytes that the response retains together with the bytes beside it, are each
-- in all within the limits of an entry, and it is then those totals; the tests on the way change
-- nothing. The walk ends within a round for each value.
pub entry_footprint-total :
    (l : Layout) (limits : CacheLimits)
    → limits.max_entry_retained_bytes ≤ usize_max
    → limits.max_entry_retained_nodes ≤ usize_max
    → (response : Value) (beside : List ℕ)
    → let bytes = total (own_bytes l) response + sum beside in
      entry_footprint l response beside limits ≡ (
        if leb (total one response) limits.max_entry_retained_nodes
          && leb bytes limits.max_entry_retained_bytes
        then some (record { bytes = bytes; nodes = total one response })
        else none)
unfolding entry_footprint
entry_footprint-total l limits small_bytes small_nodes response beside =
    rw
      (estimate-total l limits.max_entry_retained_bytes limits.max_entry_retained_nodes small_bytes
        small_nodes response)
      (ground (
        arith,
        add_all-if limits.max_entry_retained_bytes small_bytes
            (record { bytes = total (own_bytes l) response; nodes = total one response }) beside,
      ))
