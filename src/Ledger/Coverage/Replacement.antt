-- ===== src/Ledger/Coverage/Replacement.antt =====
-- src/gateway/attempt.rs: a change of one attempt and of the total of its window.
use llmshim.Common.{
  ℕ, ◌+◌, ◌<◌, ◌≤◌, true, false, ◌≡◌, ◌∙◌, ap, subst, some, nat_key, ◌==◌, arith, Bool-cases, inl,
  inr, sym,
}
use llmshim.Common.Map.{Map, get, insert, ==_refl}
use llmshim.Common.MapSum.{sum, worth, sum-insert, insert-IsUnique, worth_at_most}
use llmshim.Ledger.State.{
  BudgetWindowKey, budget_window_key, AttemptLiability, BudgetState, is_some, same_window_iff,
}
use llmshim.Ledger.Coverage.{liability_in, member_of, liabilities, members, stands_for, IsCovered}

-- `a'` takes the place of `a`, and `totals` and `frozen` change at most at its window.
module _ (b : BudgetState) (v : IsCovered b) (id : ℕ) (a a' : AttemptLiability)
    (kept : get b.attempts id ≡ some a) (w : BudgetWindowKey) (at_a : a.window_key ≡ w)
    (at_a' : a'.window_key ≡ w) where
  abbrev pub replaced : Map BudgetWindowKey ℕ → Map BudgetWindowKey (Unit {0}) → BudgetState
  replaced totals frozen = record b {
    attempts = insert b.attempts id a';
    totals = totals;
    frozen = frozen;
  }

  sum-replaced :
      (f : AttemptLiability → ℕ) → sum f (insert b.attempts id a') + f a ≡ f a' + sum f b.attempts
  sum-replaced f = omega (arith, sum-insert f b.attempts id a' v.unique, ap (worth f) kept)

  -- Its window has an attempt.
  pub some_member : 0 < members b w
  some_member = ground (
    arith,
    worth_at_most (member_of w) b.attempts id v.unique,
    ap (worth (member_of w)) kept,
    ==_refl w,
    ap (λ i. i == w) at_a,
  )

  pub owes_at_least : a.liability_nanos ≤ liabilities b w
  owes_at_least = ground (
    arith,
    worth_at_most (liability_in w) b.attempts id v.unique,
    ap (worth (liability_in w)) kept,
    ==_refl w,
    ap (λ i. i == w) at_a,
  )

  -- What the window owes moves by the difference of the two liabilities.
  pub owes_after :
      sum (liability_in w) (insert b.attempts id a') + a.liability_nanos
      ≡ a'.liability_nanos + liabilities b w
  owes_after = ground (
    arith,
    sum-replaced (liability_in w),
    ==_refl w,
    ap (λ i. i == w) at_a,
    ap (λ i. i == w) at_a',
  )

  same_members : (j : BudgetWindowKey) → sum (member_of j) (insert b.attempts id a') ≡ members b j
  same_members j =
      ground (arith, sum-replaced (member_of j), ap (λ i. i == j) at_a, ap (λ i. i == j) at_a')

  owes_elsewhere :
      (j : BudgetWindowKey)
      → (w == j) ≡ false
      → sum (liability_in j) (insert b.attempts id a') ≡ liabilities b j
  owes_elsewhere j other =
      ground (arith, sum-replaced (liability_in j), ap (λ i. i == j) at_a, ap (λ i. i == j) at_a')

  module _ (totals : Map BudgetWindowKey ℕ) (frozen : Map BudgetWindowKey (Unit {0}))
      (elsewhere : (j : BudgetWindowKey)
        → (w == j) ≡ false
        → (get totals j ≡ get b.totals j) × (get frozen j ≡ get b.frozen j))
      (here : stands_for
          (get totals w)
          (is_some (get frozen w))
          (sum (liability_in w) (insert b.attempts id a'))
        ≡ true) where
    covered_after :
        (j : BudgetWindowKey)
        → 0 < sum (member_of j) (insert b.attempts id a')
        → stands_for
            (get totals j)
            (is_some (get frozen j))
            (sum (liability_in j) (insert b.attempts id a'))
          ≡ true
    covered_after j some_left = elim (Bool-cases (w == j)) [
      | inl same ↦
          subst
            (λ i.
              stands_for (get totals i) (is_some (get frozen i))
                (sum (liability_in i) (insert b.attempts id a'))
              ≡ true)
            ((same_window_iff w j).0 same) here
      | inr other ↦
          rw ((elsewhere j other).0, (elsewhere j other).1, owes_elsewhere j other)
            (v.covered j (subst (λ n. 0 < n) (same_members j) some_left))
    ]

    pub replaced-IsCovered : IsCovered (replaced totals frozen)
    replaced-IsCovered = record {
      unique = insert-IsUnique b.attempts id a' v.unique;
      counted = λ j. v.counted j ∙ sym (same_members j);
      covered = covered_after;
    }
