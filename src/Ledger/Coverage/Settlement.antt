-- ===== src/Ledger/Coverage/Settlement.antt =====
-- src/gateway/attempt.rs: the end of an attempt keeps the totals above the liabilities, and never
-- fails for an attempt that is kept.
use llmshim.Common.{
  ℕ, ◌-◌, true, false, ◌≡◌, refl, Option, none, some, nat_key, arith, Option-cases, inl, inr, leb,
  if_cases,
}
use llmshim.Common.Map.{get, insert}
use llmshim.Attempt.{AttemptOutcome}
use llmshim.Budget.{may_finalize}
use llmshim.Ledger.State.{budget_window_key, AttemptLiability, BudgetState, is_some, is_frozen}
use llmshim.Ledger.Usage.{Recorded, recorded, raise_total}
use llmshim.Ledger.Settlement.{settle_total, lower_total, settle, finish_found, settlement_of}
use llmshim.Ledger.Coverage.{IsCovered}
use llmshim.Ledger.Coverage.Replacement.{replaced-IsCovered, some_member}
use llmshim.Ledger.Coverage.Charge.{store_total-IsCovered, lower_total-IsCovered, total_kept}

Kept : Recorded × BudgetState → Type 0
Kept r = IsCovered r.1 × (r.0 ≡ recorded)

abbrev settled : AttemptLiability → ℕ → AttemptLiability
settled a final = record a { liability_nanos = final; finalized = true }

module _ (b : BudgetState) (v : IsCovered b) (id : ℕ) (a : AttemptLiability) (final : ℕ)
    (kept : get b.attempts id ≡ some a) where
  abbrev b' : BudgetState
  b' = record b { attempts = insert b.attempts id (settled a final) }

  thawed_settle :
      is_frozen b a.window_key ≡ false
      → Kept (settle_total b' a.window_key a.liability_nanos final (get b.totals a.window_key))
  unfolding settle_total Kept raise_total lower_total
  thawed_settle thawed =
      let (total, found) = total_kept b v id a (settled a final) kept a.window_key refl refl in
      rw found (
        if_cases Kept (leb final a.liability_nanos) _ _
          (λ less.
            let down =
              lower_total-IsCovered b v id a (settled a final) kept a.window_key refl refl total
                (a.liability_nanos - final) found thawed (ground arith) in
            (down.1, rw down.0 refl))
          (λ more. (
            store_total-IsCovered b v id a (settled a final) kept a.window_key refl refl total
                (final - a.liability_nanos) found (ground arith),
            refl,
          )))

  frozen_settle : is_frozen b a.window_key ≡ true → Kept (recorded, b')
  unfolding Kept
  frozen_settle cold = (
    replaced-IsCovered b v id a (settled a final) kept a.window_key refl refl b.totals b.frozen
        (λ j other. (refl, refl))
        (ground (
          arith,
          cold,
          v.covered a.window_key
              (some_member b v id a (settled a final) kept a.window_key refl refl),
        )),
    refl,
  )

is_Kept : (b : BudgetState) → IsCovered b → Kept (recorded, b)
unfolding Kept
is_Kept b v = (v, refl)

settle-Kept :
    (b : BudgetState) (id : ℕ) (a : AttemptLiability) (final : Option ℕ)
    → get b.attempts id ≡ some a
    → IsCovered b
    → Kept (settle b id a final)
unfolding settle
settle-Kept b id a none kept v = is_Kept b v
settle-Kept b id a (some final) kept v =
    if_cases Kept (is_frozen b a.window_key) _ _ (frozen_settle b v id a final kept)
      (thawed_settle b v id a final kept)

from_Kept : {r : Recorded × BudgetState} → Kept r → IsCovered r.1 × (true ≡ true → r.0 ≡ recorded)
unfolding Kept
from_Kept (c, done) = (c, λ _. done)

-- The end of an attempt that is kept is recorded.
pub finish_found-IsCovered :
    (b : BudgetState) (id : ℕ) (outcome : AttemptOutcome)
    → IsCovered b
    → let r = finish_found b id outcome (get b.attempts id) in
      IsCovered r.1 × (is_some (get b.attempts id) ≡ true → r.0 ≡ recorded)
unfolding finish_found
finish_found-IsCovered b id outcome v = elim (Option-cases (get b.attempts id)) [
  | inl gone ↦ rw gone (v, λ h. absurd (ground arith))
  | inr (a, kept) ↦ rw kept (
      from_Kept (
        if_cases Kept a.finalized _ _ (λ _. is_Kept b v)
          (λ _.
            if_cases Kept (may_finalize outcome) _ _
              (λ _. settle-Kept b id a (settlement_of a) kept v) (λ _. is_Kept b v))))
]
