-- ===== src/Bounded/Parse/Charges.antt =====
-- crates/llmshim-catalog/src/bounded_json.rs: what a step of the parser charges.
use llmshim.Common.{
  ℕ, ◌+◌, ◌-◌, ◌*◌, if_cases, ◌≤◌, ◌≡◌, refl, String, Option, none, some, arith, max, ltb,
}
use llmshim.Common.Word.{checked_add, checked_sub, checked_mul}
use llmshim.Json.{
  Layout, Value, number, Items, Fields, end, field, set_field, total, total_items, total_fields,
  one, height, height_items, height_fields,
}
use llmshim.Bounded.{Limits, Usage}
use llmshim.Bounded.Visit.{keys_cost}
use llmshim.Bounded.Measure.{own_bytes}
use llmshim.Bounded.Parse.{
  Parsed, ok, failed, then_parse, or_complex, charge_bytes, charge, leaf, finite, charge_slot,
  charge_key, at_depth,
}

-- What is parsed, if it is, satisfies the predicate.
abbrev pub Gives : {A : Type 0} → (A → Type 0) → Parsed A → Type 0
Gives P (ok a) = P a
Gives P (failed e) = Unit

pub then_parse-Gives :
    {A B : Type 0} (P : A → Type 0) (Q : B → Type 0) (p : Parsed A) (f : A → Parsed B)
    → Gives P p
    → ((a : A) → P a → Gives Q (f a))
    → Gives Q (then_parse p f)
then_parse-Gives P Q (ok a) f h next = next a h
then_parse-Gives P Q (failed e) f h next = tt

Gives-Unit : {A : Type 0} (p : Parsed A) → Gives (λ a. Unit) p
Gives-Unit (ok a) = tt
Gives-Unit (failed e) = tt

pub Gives-map :
    {A : Type 0} (P Q : A → Type 0) (p : Parsed A) → Gives P p → ((a : A) → P a → Q a) → Gives Q p
Gives-map P Q (ok a) h f = f a h
Gives-map P Q (failed e) h f = tt

-- Putting a member in a map adds at most the member.
pub total-set_field :
    (own : Value → ℕ) (fs : Fields) (k : String) (c : ℕ) (v : Value)
    → total_fields own (set_field fs k c v) ≤ total_fields own fs + total own v
unfolding total
total-set_field own end k c v = omega arith
total-set_field own (field k' c' w fs) k c v = ground (arith, total-set_field own fs k c v)

pub keys_cost-set_field :
    (l : Layout) (fs : Fields) (k : String) (c : ℕ) (v : Value)
    → keys_cost l (set_field fs k c v)
      ≤ keys_cost l fs + (c + (l.string_size + l.value_size + 3 * l.usize_size))
keys_cost-set_field l end k c v = omega arith
keys_cost-set_field l (field k' c' w fs) k c v = ground (arith, keys_cost-set_field l fs k c v)

pub height-set_field :
    (fs : Fields) (k : String) (c : ℕ) (v : Value)
    → height_fields (set_field fs k c v) ≤ max (height_fields fs) (height v)
unfolding height
height-set_field end k c v = omega arith
height-set_field (field k' c' w fs) k c v = ground (arith, height-set_field fs k c v)

module _ (l : Layout) (limits : Limits) where
  -- From one usage to another, within the limits, at least so many nodes and bytes are charged.
  abbrev pub Charges : Usage → (nodes bytes : ℕ) → Usage → Type 0
  Charges b nodes bytes b' =
      ((b.nodes + nodes ≤ b'.nodes) × (b.owned_bytes + bytes ≤ b'.owned_bytes))
      × ((b'.nodes ≤ limits.max_nodes) × (b'.owned_bytes ≤ limits.max_owned_bytes))

  abbrev pub IsFit : Usage → Type 0
  IsFit b = (b.nodes ≤ limits.max_nodes) × (b.owned_bytes ≤ limits.max_owned_bytes)

  pub charge-Gives :
      (b : Usage) (bytes : ℕ) → Gives (Charges b 1 (l.value_size + bytes)) (charge l limits b bytes)
  unfolding charge checked_add
  charge-Gives b bytes = ground arith

  charge_bytes-Gives :
      (b : Usage) (bytes : ℕ)
      → b.nodes ≤ limits.max_nodes
      → Gives (Charges b 0 bytes) (charge_bytes l limits b bytes)
  unfolding charge_bytes checked_add
  charge_bytes-Gives b bytes h = ground (arith, h)

  pub charge_key-Gives :
      (b : Usage) (capacity : ℕ)
      → b.nodes ≤ limits.max_nodes
      → Gives
          (Charges b 0 (capacity + (l.string_size + l.value_size + 3 * l.usize_size)))
          (charge_key l limits b capacity)
  unfolding charge_key charge_bytes checked_add
  charge_key-Gives b capacity h = ground (arith, h)

  -- A slot: the vector's capacity grows by what is charged.
  abbrev pub IsSlot : Usage → (capacity : ℕ) → ℕ × Usage → Type 0
  IsSlot b capacity (grown, b') =
      (((b.nodes ≤ b'.nodes)
          × (b.owned_bytes + grown * l.value_size ≤ b'.owned_bytes + capacity * l.value_size))
        × ((b'.nodes ≤ limits.max_nodes) × (b'.owned_bytes ≤ limits.max_owned_bytes)))

  growth :
      (grown capacity size : ℕ)
      → capacity ≤ grown
      → (grown - capacity) * size + capacity * size ≡ grown * size
  growth grown capacity size h = grind arith

  pub charge_slot-Gives :
      (grow : ℕ → ℕ → Option ℕ) (b : Usage) (length capacity : ℕ)
      → b.nodes ≤ limits.max_nodes
      → Gives (IsSlot b capacity) (charge_slot l limits grow b length capacity)
  unfolding charge_slot charge_bytes checked_add checked_sub checked_mul
  charge_slot-Gives grow b length capacity h =
      then_parse-Gives (λ grown. Unit) (IsSlot b capacity) (or_complex (grow length capacity)) _
        (Gives-Unit (or_complex (grow length capacity)))
        (λ grown _. ground (arith, h, growth grown capacity l.value_size))

  abbrev pub IsValue : (depth : ℕ) → Usage → Value × Usage → Type 0
  IsValue depth b (v, b') =
      Charges b (total one v) (total (own_bytes l) v) b' × (depth + height v ≤ limits.max_depth + 1)

  pub leaf-Gives :
      (depth : ℕ) (b : Usage) (bytes : ℕ) (v : Value)
      → depth ≤ limits.max_depth
      → total one v ≡ 1
      → total (own_bytes l) v ≡ l.value_size + bytes
      → height v ≡ 1
      → Gives (IsValue depth b) (leaf l limits b bytes v)
  unfolding leaf charge checked_add
  leaf-Gives depth b bytes v d t o h = ground (arith, d, t, o, h)

  pub at_depth-Gives :
      {A : Type 0} (P : A → Type 0) (depth : ℕ) (p : Parsed A)
      → (depth ≤ limits.max_depth → Gives P p)
      → Gives P (at_depth l limits depth p)
  at_depth-Gives P depth p h =
      if_cases (Gives P) (ltb limits.max_depth depth) _ _ (λ e. tt) (λ e. h (ground (arith, e)))

  pub finite-Gives :
      (depth : ℕ) (b : Usage) (n : Option String)
      → depth ≤ limits.max_depth
      → Gives (IsValue depth b) (finite l limits b n)
  unfolding finite charge checked_add total height
  finite-Gives depth b (some n) d = leaf-Gives depth b 0 (number n) d refl (omega arith) refl
  finite-Gives depth b none d = ground arith

  abbrev pub IsElements : (depth : ℕ) → Usage → (capacity : ℕ) → ℕ × (Items × Usage) → Type 0
  IsElements depth b capacity (last, (xs, b')) =
      (((b.nodes + total_items one xs ≤ b'.nodes)
          × (b.owned_bytes + (total_items (own_bytes l) xs + last * l.value_size)
              ≤ b'.owned_bytes + capacity * l.value_size))
        × ((b'.nodes ≤ limits.max_nodes) × (b'.owned_bytes ≤ limits.max_owned_bytes)))
      × (depth + height_items xs ≤ limits.max_depth)

  -- A map that has grown, from the map so far.
  abbrev pub IsMembers : (depth : ℕ) → Usage → Fields → Fields × Usage → Type 0
  IsMembers depth b fs (fs', b') =
      (((b.nodes + total_fields one fs' ≤ b'.nodes + total_fields one fs)
          × (b.owned_bytes + (total_fields (own_bytes l) fs' + keys_cost l fs')
              ≤ b'.owned_bytes + (total_fields (own_bytes l) fs + keys_cost l fs)))
        × ((b'.nodes ≤ limits.max_nodes) × (b'.owned_bytes ≤ limits.max_owned_bytes)))
      × (depth + height_fields fs' ≤ limits.max_depth)
