-- ===== src/Ledger/Coverage.antt =====
-- src/gateway/attempt.rs: the totals cover the liabilities of the attempts that are kept.
pub mod Admission
pub mod Replacement
pub mod Charge
pub mod Observation
pub mod Settlement
pub mod Expiry
use llmshim.Common.{
  ℕ, ◌+◌, ◌-◌, ◌≤◌, ◌<◌, Bool, true, false, ◌||◌, ◌≡◌, refl, sym, ◌∙◌, ap, subst, Option, none,
  some, List, [], ◌∷◌, leb, eqb, if◌then◌else◌, nat_key, ◌==◌, arith, Bool-cases, Option-cases, inl,
  inr,
}
use llmshim.Common.Map.{Map, get, insert, remove, get-insert, get-remove, ==_refl}
use llmshim.Common.MapSum.{
  IsUnique, sum, worth, sum-insert, sum-remove, insert-IsUnique, remove-IsUnique,
}
use llmshim.Budget.{BudgetQuote}
use llmshim.Ledger.State.{
  BudgetWindowKey, budget_window_key, AttemptLiability, BudgetState, is_some, unwrap_or, is_frozen,
  same_window, same_window_iff,
}

-- What an attempt counts for in a window: its liability, and itself.
abbrev pub liability_in : BudgetWindowKey → AttemptLiability → ℕ
liability_in w a = if a.window_key == w then a.liability_nanos else 0

abbrev pub member_of : BudgetWindowKey → AttemptLiability → ℕ
member_of w a = if a.window_key == w then 1 else 0

abbrev pub liabilities : BudgetState → BudgetWindowKey → ℕ
liabilities b w = sum (liability_in w) b.attempts

abbrev pub members : BudgetState → BudgetWindowKey → ℕ
members b w = sum (member_of w) b.attempts

-- A total stands for `owed`: it is there, and is frozen at the bound or large enough.
abbrev pub stands_for : Option ℕ → (frozen : Bool) → (owed : ℕ) → Bool
stands_for none frozen owed = false
stands_for (some total) frozen owed = frozen || leb owed total

-- No id is kept twice, each window counts its attempts, and the total of a window that has any
-- stands for all their liabilities.
pub record IsCovered (b : BudgetState) : Type 0 where
  pub unique : IsUnique b.attempts
  pub counted : (w : BudgetWindowKey) → unwrap_or (get b.window_references w) 0 ≡ members b w
  pub covered :
      (w : BudgetWindowKey)
      → 0 < members b w
      → stands_for (get b.totals w) (is_frozen b w) (liabilities b w) ≡ true

-- A window without attempts owes nothing.
pub liabilities_zero :
    (w : BudgetWindowKey) (m : Map ℕ AttemptLiability)
    → sum (member_of w) m ≡ 0
    → sum (liability_in w) m ≡ 0
liabilities_zero w [] h = refl
liabilities_zero w ((id, a) ∷ m) h = elim (Bool-cases (a.window_key == w)) [
  | inl here ↦ let one : 1 + sum (member_of w) m ≡ 0 = rw here at h in absurd (omega arith)
  | inr gone ↦
      let rest : 0 + sum (member_of w) m ≡ 0 = rw gone at h in
      rw gone (omega (arith, liabilities_zero w m (omega arith)))
]
