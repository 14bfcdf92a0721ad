-- ===== src/Common/MapSum.antt =====
-- Sums over the values of a map, and how an update moves them.
use Prim.Native.Nat.{ℕ, ◌+◌, ◌≤◌}
use mathlib.Core.Path.{◌≡◌, refl, subst, ◌∙◌}
use mathlib.Core.Logic.{inl, inr}
use mathlib.Core.Option.{Option, none, some}
use mathlib.Core.List.{[], ◌∷◌}
use native.Mathlib.Omega.{arith}
use llmshim.Common.Tests.{Key, ◌==◌, Bool-cases, if_cases}
use llmshim.Common.Map.{Map, get, insert, remove, get-remove, ==_refl}

-- No key has two entries.
abbrev pub IsUnique {ℓ κ} : {K : Type ℓ} {V : Type κ} ⦃key : Key K⦄ → Map K V → Type κ
IsUnique [] = Unit
IsUnique ((k, v) ∷ m) = (get m k ≡ none) × IsUnique m

abbrev pub sum {ℓ κ} : {K : Type ℓ} {V : Type κ} → (V → ℕ) → Map K V → ℕ
sum f [] = 0
sum f ((k, v) ∷ m) = f v + sum f m

abbrev pub worth {κ} : {V : Type κ} → (V → ℕ) → Option V → ℕ
worth f none = 0
worth f (some v) = f v

module _ {ℓ κ} {K : Type ℓ} {V : Type κ} ⦃key : Key K⦄ where
  pub remove_absent : (m : Map K V) (k : K) → get m k ≡ none → remove m k ≡ m
  unfolding get remove
  remove_absent [] k h = refl
  remove_absent ((j, v) ∷ m) k h = ground (arith, remove_absent m k)

  pub sum-remove :
      (f : V → ℕ) (m : Map K V) (k : K)
      → IsUnique m
      → sum f (remove m k) + worth f (get m k) ≡ sum f m
  unfolding get remove
  sum-remove f [] k u = omega arith
  sum-remove f ((j, v) ∷ m) k u = elim (Bool-cases (j == k)) [
    | inl same ↦
        let gone : get m k ≡ none =
          subst (λ i. get m i ≡ none) ((key.same_key_iff j k).0 same) u.0 in
        rw same (rw (remove_absent m k gone) (omega arith))
    | inr other ↦ rw other (omega (arith, sum-remove f m k u.1))
  ]

  still_absent : (m : Map K V) (k j : K) → get m j ≡ none → get (remove m k) j ≡ none
  still_absent m k j h =
      get-remove m k j ∙ if_cases (λ o. o ≡ none) (k == j) _ _ (λ _. refl) (λ _. h)

  pub remove-IsUnique : (m : Map K V) (k : K) → IsUnique m → IsUnique (remove m k)
  unfolding remove
  remove-IsUnique [] k u = u
  remove-IsUnique ((j, v) ∷ m) k u = elim (Bool-cases (j == k)) [
    | inl same ↦ rw same (remove-IsUnique m k u.1)
    | inr other ↦ rw other (still_absent m k j u.0, remove-IsUnique m k u.1)
  ]

  pub insert-IsUnique : (m : Map K V) (k : K) (v : V) → IsUnique m → IsUnique (insert m k v)
  unfolding insert
  insert-IsUnique m k v u = (get-remove m k k ∙ rw (==_refl k), remove-IsUnique m k u)

  -- After `k` is set to `v`.
  pub sum-insert :
      (f : V → ℕ) (m : Map K V) (k : K) (v : V)
      → IsUnique m
      → sum f (insert m k v) + worth f (get m k) ≡ f v + sum f m
  unfolding insert
  sum-insert f m k v u = omega (arith, sum-remove f m k u)

  pub worth_at_most : (f : V → ℕ) (m : Map K V) (k : K) → IsUnique m → worth f (get m k) ≤ sum f m
  worth_at_most f m k u = omega (arith, sum-remove f m k u)
