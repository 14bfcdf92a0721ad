-- ===== src/Ledger/Coverage/Charge.antt =====
-- src/gateway/attempt.rs: a total that follows the liability of an attempt, up or down.
use llmshim.Common.{
  ℕ, ◌+◌, ◌-◌, ◌≤◌, true, false, ◌≡◌, ◌∙◌, refl, some, nat_key, arith, Option-cases, inl, inr, leb,
  if_cases,
}
use llmshim.Common.Map.{get, insert, get-insert, ==_refl}
use llmshim.Common.MapSum.{sum}
use llmshim.Common.Word.{checked_add, checked_sub, checked_add-eq_some}
use llmshim.Budget.{max_exact_redis_nanos}
use llmshim.Ledger.State.{
  BudgetWindowKey, budget_window_key, AttemptLiability, BudgetState, is_frozen,
}
use llmshim.Ledger.Usage.{store_total}
use llmshim.Ledger.Settlement.{lower_total}
use llmshim.Ledger.Coverage.{liability_in, liabilities, IsCovered}
use llmshim.Ledger.Coverage.Replacement.{
  replaced, replaced-IsCovered, some_member, owes_after, owes_at_least,
}

module _ (b : BudgetState) (v : IsCovered b) (id : ℕ) (a a' : AttemptLiability)
    (kept : get b.attempts id ≡ some a) (w : BudgetWindowKey) (at_a : a.window_key ≡ w)
    (at_a' : a'.window_key ≡ w) where
  -- A new total of the window that stands for what is owed then.
  pub retotal-IsCovered :
      (total : ℕ)
      → (is_frozen b w ≡ false → sum (liability_in w) (insert b.attempts id a') ≤ total)
      → IsCovered (replaced b v id a a' kept w at_a at_a' (insert b.totals w total) b.frozen)
  retotal-IsCovered total enough =
      replaced-IsCovered b v id a a' kept w at_a at_a' (insert b.totals w total) b.frozen
        (λ j other. (get-insert b.totals w j total ∙ rw other refl, refl))
        (ground (arith, get-insert b.totals w w total, ==_refl w, enough))

  -- A total that is frozen from now on.
  pub freeze-IsCovered :
      (total : ℕ)
      → IsCovered
          (replaced b v id a a' kept w at_a at_a' (insert b.totals w total) (insert b.frozen w tt))
  freeze-IsCovered total =
      replaced-IsCovered b v id a a' kept w at_a at_a' (insert b.totals w total)
        (insert b.frozen w tt)
        (λ j other. (
          get-insert b.totals w j total ∙ rw other refl,
          get-insert b.frozen w j tt ∙ rw other refl,
        ))
        (ground (arith, get-insert b.totals w w total, get-insert b.frozen w w tt, ==_refl w))

  -- The total is there.
  pub total_kept : (t : ℕ) × (get b.totals w ≡ some t)
  total_kept = elim (Option-cases (get b.totals w)) [
    | inl gone ↦ absurd (ground (arith, v.covered w (some_member b v id a a' kept w at_a at_a')))
    | inr found ↦ found
  ]

  enough_after :
      (total delta next : ℕ)
      → get b.totals w ≡ some total
      → a'.liability_nanos ≡ a.liability_nanos + delta
      → checked_add total delta ≡ some next
      → is_frozen b w ≡ false
      → sum (liability_in w) (insert b.attempts id a') ≤ next
  enough_after total delta next found rise fits thawed = ground (
    arith,
    checked_add-eq_some total delta next fits,
    owes_after b v id a a' kept w at_a at_a',
    v.covered w (some_member b v id a a' kept w at_a at_a'),
  )

  pub store_total-IsCovered :
      (total delta : ℕ)
      → get b.totals w ≡ some total
      → a'.liability_nanos ≡ a.liability_nanos + delta
      → IsCovered (
          store_total (record b { attempts = insert b.attempts id a' }) w (checked_add total delta))
  unfolding store_total
  store_total-IsCovered total delta found rise = elim (Option-cases (checked_add total delta)) [
    | inl over ↦ rw over (freeze-IsCovered max_exact_redis_nanos)
    | inr (next, fits) ↦ rw fits (
        if_cases IsCovered (leb next max_exact_redis_nanos) _ _
          (λ _.
            retotal-IsCovered next (λ thawed. enough_after total delta next found rise fits thawed))
          (λ _. freeze-IsCovered max_exact_redis_nanos))
  ]

  -- A total goes down with the liability, and there is enough of it.
  pub lower_total-IsCovered :
      (total drop : ℕ)
      → get b.totals w ≡ some total
      → is_frozen b w ≡ false
      → a'.liability_nanos + drop ≡ a.liability_nanos
      → (checked_sub total drop ≡ some (total - drop))
        × IsCovered
            (lower_total
              (record b { attempts = insert b.attempts id a' })
              w
              total
              (checked_sub total drop)).1
  unfolding lower_total checked_sub
  lower_total-IsCovered total drop found thawed fall =
      let owed : liabilities b w ≤ total =
        ground (arith, v.covered w (some_member b v id a a' kept w at_a at_a')) in
      let fits : leb drop total ≡ true =
        ground (arith, owes_at_least b v id a a' kept w at_a at_a') in
      (
        rw fits refl,
        rw fits (
            retotal-IsCovered (total - drop)
              (λ _. omega (arith, owes_after b v id a a' kept w at_a at_a', owed))),
      )
