-- ===== src/Ledger/Coverage/Admission.antt =====
-- src/gateway/attempt.rs: an admission keeps the totals above the liabilities.
use llmshim.Common.{
  ℕ, ◌+◌, ◌<◌, true, false, ◌≡◌, refl, ap, subst, none, some, nat_key, ◌==◌, arith, Bool-cases,
  Option-cases, inl, inr,
}
use llmshim.Common.Map.{get, insert, get-insert, ==_refl}
use llmshim.Common.MapSum.{sum, worth, sum-insert, insert-IsUnique}
use llmshim.Common.Word.{checked_add, checked_add-eq_some}
use llmshim.Budget.{BudgetQuote}
use llmshim.Ledger.State.{
  BudgetWindowKey, budget_window_key, AttemptLiability, BudgetState, unwrap_or, is_frozen,
  same_window_iff,
}
use llmshim.Ledger.Admission.{Plan, charge, no_charge, reject, new_liability, commit_total, commit}
use llmshim.Ledger.Coverage.{
  liability_in, member_of, liabilities, members, stands_for, IsCovered, liabilities_zero,
}

module _ (b : BudgetState) (v : IsCovered b) (id : ℕ) (w : BudgetWindowKey) (q : BudgetQuote)
    (expires_at next : ℕ) (new : get b.attempts id ≡ none)
    (e : next ≡ unwrap_or (get b.totals w) 0 + q.amount_nanos) where
  abbrev after : BudgetState
  after = (commit_total b id w q expires_at (unwrap_or (get b.totals w) 0) (some next)).1

  attempts-after : after.attempts ≡ insert b.attempts id (new_liability w q expires_at)
  unfolding commit_total
  attempts-after = refl

  sum-after :
      (f : AttemptLiability → ℕ)
      → sum f after.attempts ≡ f (new_liability w q expires_at) + sum f b.attempts
  unfolding commit_total
  sum-after f =
      omega (
        arith,
        sum-insert f b.attempts id (new_liability w q expires_at) v.unique,
        ap (worth f) new,
      )

  counted_here : unwrap_or (get after.window_references w) 0 ≡ members after w
  unfolding commit_total new_liability
  counted_here = ground (
    arith,
    get-insert b.window_references w w (unwrap_or (get b.window_references w) 0 + 1),
    ==_refl w,
    sum-after (member_of w),
    v.counted w,
  )

  counted_elsewhere :
      (j : BudgetWindowKey)
      → (w == j) ≡ false
      → unwrap_or (get after.window_references j) 0 ≡ members after j
  unfolding commit_total new_liability
  counted_elsewhere j h = ground (
    arith,
    get-insert b.window_references w j (unwrap_or (get b.window_references w) 0 + 1),
    sum-after (member_of j),
    v.counted j,
  )

  covered_here : stands_for (get after.totals w) (is_frozen after w) (liabilities after w) ≡ true
  unfolding commit_total new_liability
  covered_here = ground (
    arith,
    get-insert b.totals w w next,
    ==_refl w,
    sum-after (liability_in w),
    v.covered w,
    liabilities_zero w b.attempts,
  )

  covered_elsewhere :
      (j : BudgetWindowKey)
      → (w == j) ≡ false
      → 0 < members after j
      → stands_for (get after.totals j) (is_frozen after j) (liabilities after j) ≡ true
  unfolding commit_total new_liability
  covered_elsewhere j h some_left = ground (
    arith,
    get-insert b.totals w j next,
    sum-after (liability_in j),
    sum-after (member_of j),
    v.covered j,
  )

  counted_after :
      (j : BudgetWindowKey) → unwrap_or (get after.window_references j) 0 ≡ members after j
  counted_after j = elim (Bool-cases (w == j)) [
    | inl same ↦
        subst (λ i. unwrap_or (get after.window_references i) 0 ≡ members after i)
          ((same_window_iff w j).0 same) counted_here
    | inr other ↦ counted_elsewhere j other
  ]

  covered_after :
      (j : BudgetWindowKey)
      → 0 < members after j
      → stands_for (get after.totals j) (is_frozen after j) (liabilities after j) ≡ true
  covered_after j some_left = elim (Bool-cases (w == j)) [
    | inl same ↦
        subst
          (λ i. stands_for (get after.totals i) (is_frozen after i) (liabilities after i) ≡ true)
          ((same_window_iff w j).0 same) covered_here
    | inr other ↦ covered_elsewhere j other some_left
  ]

  pub charged-IsCovered : IsCovered after
  unfolding commit_total new_liability
  charged-IsCovered = record {
    unique = insert-IsUnique b.attempts id (new_liability w q expires_at) v.unique;
    counted = counted_after;
    covered = covered_after;
  }

-- A total that does not change.
overflow-IsCovered :
    (b : BudgetState) (id : ℕ) (w : BudgetWindowKey) (q : BudgetQuote) (expires_at : ℕ)
    → IsCovered b
    → IsCovered (commit_total b id w q expires_at (unwrap_or (get b.totals w) 0) none).1
unfolding commit_total
overflow-IsCovered b id w q expires_at v = record {
  unique = v.unique;
  counted = v.counted;
  covered = λ j some_left. elim (Bool-cases (w == j)) [
    | inl same ↦
        subst
          (λ i.
            0 < members b i
            → stands_for (get (insert b.totals w (unwrap_or (get b.totals w) 0)) i) (is_frozen b i)
                (liabilities b i)
              ≡ true)
          ((same_window_iff w j).0 same)
          (λ h. ground (
            arith,
            get-insert b.totals w w (unwrap_or (get b.totals w) 0),
            ==_refl w,
            v.covered w h,
          ))
          some_left
    | inr other ↦
        ground
          (arith, get-insert b.totals w j (unwrap_or (get b.totals w) 0), v.covered j some_left)
  ];
}

pub commit-IsCovered :
    (b : BudgetState) (id : ℕ) (p : Plan)
    → get b.attempts id ≡ none
    → IsCovered b
    → IsCovered (commit b id p).1
unfolding commit
commit-IsCovered b id no_charge new v = v
commit-IsCovered b id (reject r) new v = v
commit-IsCovered b id (charge w q expires_at) new v =
    elim (Option-cases (checked_add (unwrap_or (get b.totals w) 0) q.amount_nanos)) [
      | inl over ↦ rw over (overflow-IsCovered b id w q expires_at v)
      | inr (next, fits) ↦ rw fits (
          charged-IsCovered b v id w q expires_at next new
            (checked_add-eq_some (unwrap_or (get b.totals w) 0) q.amount_nanos next fits).0)
    ]
