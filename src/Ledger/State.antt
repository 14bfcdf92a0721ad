-- ===== src/Ledger/State.antt =====
-- src/gateway/attempt.rs: the state of the spend ledger.
use llmshim.Common.{
  ℕ, String, Bool, true, false, ◌&&◌, Option, none, some, List, [], eqb, Key, nat_key, string_key,
  ◌↔◌, ◌≡◌, ◌==◌, arith,
}
use llmshim.Common.Map.{Map, get}

pub record BudgetWindowKey : Type 0 where
  pub tenant_key : String
  pub window_secs : ℕ
  pub window_index : ℕ

abbrev pub same_window : BudgetWindowKey → BudgetWindowKey → Bool
same_window a b =
    (a.tenant_key == b.tenant_key)
    && (eqb a.window_secs b.window_secs && eqb a.window_index b.window_index)

pub same_window_iff : (a b : BudgetWindowKey) → (same_window a b ≡ true) ↔ (a ≡ b)
same_window_iff a b = ground (arith, string_key.same_key_iff a.tenant_key b.tenant_key)

instance abbrev pub budget_window_key : Key BudgetWindowKey
budget_window_key = record { same_key = same_window; same_key_iff = same_window_iff }

pub record AttemptLiability : Type 0 where
  pub window_key : BudgetWindowKey
  pub pricing_bounded : Bool
  pub liability_nanos : ℕ
  pub observed_nanos : Option ℕ
  pub max_provider_nanos : Option ℕ
  pub terminal_catalog_nanos : Option ℕ
  pub terminal_provider_nanos : Option ℕ
  pub finalized : Bool
  pub expires_at_epoch_secs : ℕ

-- The budget fields of `LocalRateState`. A set is a map to `tt`.
pub record BudgetState : Type 0 where
  pub totals : Map BudgetWindowKey ℕ
  pub frozen : Map BudgetWindowKey (Unit {0})
  pub attempts : Map ℕ AttemptLiability
  pub expirations : List (ℕ × ℕ)
  pub window_references : Map BudgetWindowKey ℕ

abbrev pub empty : BudgetState
empty = record { totals = []; frozen = []; attempts = []; expirations = []; window_references = [] }

abbrev pub is_some {ℓ} : {A : Type ℓ} → Option A → Bool
is_some none = false
is_some (some a) = true

abbrev pub unwrap_or : Option ℕ → ℕ → ℕ
unwrap_or none d = d
unwrap_or (some n) d = n

abbrev pub is_frozen : BudgetState → BudgetWindowKey → Bool
is_frozen b w = is_some (get b.frozen w)
