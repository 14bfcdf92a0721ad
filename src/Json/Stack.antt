-- ===== src/Json/Stack.antt =====
-- A walk over values with a stack: `while let Some(value) = pending.pop()`.
use llmshim.Common.{
  ℕ, zero, suc, ◌+◌, ◌≤◌, ◌<◌, ◌≡◌, ◌∙◌, refl, sym, Option, none, some, List, [], ◌∷◌, length,
  arith, ◌>>=◌,
}
use llmshim.Json.{
  Value, null, boolean, number, text, array, object, Items, nil, cons, Fields, end, field,
  items_length, fields_length,
}

-- What a value holds is put on the stack.
abbrev pub push_items : Items → List Value → List Value
push_items nil pending = pending
push_items (cons x xs) pending = push_items xs (x ∷ pending)

abbrev pub push_fields : Fields → List Value → List Value
push_fields end pending = pending
push_fields (field k c v fs) pending = push_fields fs (v ∷ pending)

abbrev pub push : Value → List Value → List Value
push (array c xs) pending = push_items xs pending
push (object fs) pending = push_fields fs pending
push (null) pending = pending
push (boolean b) pending = pending
push (number n) pending = pending
push (text s c) pending = pending

-- How many that are.
abbrev pub children : Value → ℕ
children (object fs) = fields_length fs
children (array c xs) = items_length xs
children (null) = 0
children (boolean b) = 0
children (number n) = 0
children (text s c) = 0

abbrev pub sum_of : {A : Type 0} → (A → ℕ) → List A → ℕ
sum_of f [] = 0
sum_of f (a ∷ rest) = f a + sum_of f rest

bind-same :
    {A B : Type 0} (o : Option A) (f g : A → Option B)
    → ((a : A) → f a ≡ g a)
    → (o >>= f) ≡ (o >>= g)
bind-same none f g h = refl
bind-same (some a) f g h = h a

-- The loop: `visit` is given the number of values still on the stack, and `push` puts what a
-- value holds onto it. `none` is the error of the walk, or fuel that ran out.
module _ {S A : Type 0} (visit : S → ℕ → A → Option S) (push : A → List A → List A) where
  unfoldable pub walk : (fuel : ℕ) → S → List A → Option S
  walk fuel s [] = some s
  walk zero s (a ∷ pending) = none
  walk (suc fuel) s (a ∷ pending) =
      visit s (length pending) a >>= λ s'. walk fuel s' (push a pending)

  -- A walk with fuel for all that is on the stack gives the answer of a reference that goes on
  -- as the visits do.
  pub walk-answer :
      (size : A → ℕ) (answer : S → List A → Option S)
      → ((a : A) (pending : List A) → sum_of size (push a pending) < size a + sum_of size pending)
      → ((s : S) → answer s [] ≡ some s)
      → ((s : S) (a : A) (pending : List A)
          → answer s (a ∷ pending)
            ≡ (visit s (length pending) a >>= λ s'. answer s' (push a pending)))
      → (fuel : ℕ) (s : S) (pending : List A) → sum_of size pending ≤ fuel
      → walk fuel s pending ≡ answer s pending
  unfolding walk
  walk-answer size answer smaller at_end goes_on fuel s [] h = sym (at_end s)
  walk-answer size answer smaller at_end goes_on zero s (a ∷ pending) h =
      absurd (omega (arith, h, smaller a pending))
  walk-answer size answer smaller at_end goes_on (suc fuel) s (a ∷ pending) h =
      bind-same (visit s (length pending) a) (λ s'. walk fuel s' (push a pending))
        (λ s'. answer s' (push a pending))
        (λ s'.
          walk-answer size answer smaller at_end goes_on fuel s' (push a pending)
            (omega (arith, h, smaller a pending)))
      ∙ sym (goes_on s a pending)
