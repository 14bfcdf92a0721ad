-- ===== src/Ledger/Coverage/Expiry.antt =====
-- src/gateway/attempt.rs: forgetting attempts keeps the totals above the liabilities that are left.
use llmshim.Common.{
  ℕ, zero, suc, ◌+◌, ◌-◌, ◌<◌, true, ◌≡◌, ap, subst, Option, some, List, [], ◌∷◌, nat_key, arith,
  Bool-cases, Option-cases, inl, inr, leb, eqb, if_cases,
}
use llmshim.Common.Map.{get, remove, get-insert, get-remove, ==_refl}
use llmshim.Common.MapSum.{sum, worth, sum-remove, remove-IsUnique}
use llmshim.Ledger.State.{
  BudgetWindowKey, budget_window_key, AttemptLiability, BudgetState, unwrap_or, is_frozen,
  same_window_iff,
}
use llmshim.Ledger.Expiry.{forget_window, release_window, expire, pop_due, purge_rounds}
use llmshim.Ledger.Coverage.{liability_in, member_of, liabilities, members, stands_for, IsCovered}

-- `b` after attempt `a` is taken out, before its window is told.
module _ (b : BudgetState) (v : IsCovered b) (id : ℕ) (a : AttemptLiability)
    (kept : get b.attempts id ≡ some a) where
  abbrev taken : BudgetState
  taken = record b { attempts = remove b.attempts id }

  abbrev w : BudgetWindowKey
  w = a.window_key

  sum-taken : (f : AttemptLiability → ℕ) → sum f (remove b.attempts id) + f a ≡ sum f b.attempts
  sum-taken f = omega (arith, sum-remove f b.attempts id v.unique, ap (worth f) kept)

  counted_after :
      (j : BudgetWindowKey)
      → unwrap_or (get (release_window taken w (get b.window_references w)).window_references j) 0
        ≡ members taken j
  unfolding release_window forget_window
  counted_after j = ground (
    arith,
    get-insert b.window_references w j (unwrap_or (get b.window_references w) 0 - 1),
    get-remove b.window_references w j,
    sum-taken (member_of j),
    v.counted j,
    v.counted w,
    sum-taken (member_of w),
    same_window_iff w j,
    ==_refl w,
  )

  covered_after :
      (j : BudgetWindowKey)
      → 0 < members taken j
      → let b' = release_window taken w (get b.window_references w) in
        stands_for (get b'.totals j) (is_frozen b' j) (liabilities taken j) ≡ true
  unfolding release_window forget_window
  covered_after j some_left = ground (
    arith,
    get-remove b.totals w j,
    get-remove b.frozen w j,
    sum-taken (member_of j),
    sum-taken (liability_in j),
    v.covered j,
    v.counted w,
    sum-taken (member_of w),
    same_window_iff w j,
    ==_refl w,
  )

  same_attempts :
      (references : Option ℕ) → (release_window taken w references).attempts ≡ taken.attempts
  unfolding release_window forget_window
  same_attempts references = ground arith

  pub taken-IsCovered : IsCovered (release_window taken w (get b.window_references w))
  taken-IsCovered = record {
    unique =
        rw (same_attempts (get b.window_references w)) (remove-IsUnique b.attempts id v.unique);
    counted = λ j. rw (same_attempts (get b.window_references w)) (counted_after j);
    covered = λ j some_left. rw (same_attempts (get b.window_references w)) (
        covered_after j (
          subst (λ m. 0 < sum (member_of j) m) (same_attempts (get b.window_references w))
            some_left));
  }

expire-IsCovered :
    (b : BudgetState) (expires_at id : ℕ)
    → IsCovered b
    → IsCovered (expire b expires_at id (get b.attempts id))
unfolding expire
expire-IsCovered b expires_at id v = elim (Option-cases (get b.attempts id)) [
  | inl gone ↦ rw gone v
  | inr (a, kept) ↦ rw kept (
      if_cases IsCovered (eqb a.expires_at_epoch_secs expires_at) _ _
        (λ _. taken-IsCovered b v id a kept) (λ _. v))
]

pop_due-IsCovered :
    (b b' : BudgetState) (heap : List (ℕ × ℕ)) (now : ℕ)
    → pop_due b heap now ≡ some b'
    → IsCovered b
    → IsCovered b'
unfolding pop_due
pop_due-IsCovered b b' [] now h v = absurd (ground arith)
pop_due-IsCovered b b' ((expires_at, id) ∷ rest) now h v = elim (Bool-cases (leb expires_at now)) [
  | inl due ↦
      let b1 : BudgetState = record b { expirations = rest } in
      let v1 : IsCovered b1 = record {
        unique = v.unique;
        counted = v.counted;
        covered = v.covered;
      } in
      subst IsCovered (ground arith) (expire-IsCovered b1 expires_at id v1)
  | inr early ↦ absurd (ground arith)
]

-- Forgetting whatever is due keeps the totals above the liabilities.
pub purge_rounds-IsCovered :
    (n : ℕ) (b : BudgetState) (now : ℕ) → IsCovered b → IsCovered (purge_rounds n b now)
unfolding purge_rounds
purge_rounds-IsCovered zero b now v = v
purge_rounds-IsCovered (suc n) b now v = elim (Option-cases (pop_due b b.expirations now)) [
  | inl idle ↦ rw (idle, purge_rounds) v
  | inr (b', popped) ↦
      rw (popped, purge_rounds)
        (purge_rounds-IsCovered n b' now (pop_due-IsCovered b b' b.expirations now popped v))
]
