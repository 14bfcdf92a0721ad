-- ===== src/Ledger/Usage.antt =====
-- src/gateway/attempt.rs: `observe_usage`, a report of what an attempt has cost so far.
use llmshim.Common.{
  ℕ, ◌-◌, Bool, true, false, not, ◌&&◌, Option, none, some, ltb, leb, if◌then◌else◌, nat_key,
  string_key, max,
}
use llmshim.Common.Map.{get, insert}
use llmshim.Common.Word.{checked_add}
use llmshim.Budget.{
  BudgetPolicySnapshot, SpendAuthority, catalog, provider, SpendObservation, max_exact_redis_nanos,
}
use llmshim.Ledger.State.{
  BudgetWindowKey, budget_window_key, AttemptLiability, BudgetState, unwrap_or,
}

unfoldable pub is_catalog : SpendAuthority → Bool
is_catalog catalog = true
is_catalog provider = false

-- Some(current.map_or(amount, |current| current.max(amount)))
abbrev pub raised : Option ℕ → ℕ → Option ℕ
raised none amount = some amount
raised (some current) amount = some (max current amount)

unfoldable pub note_terminal : AttemptLiability → SpendAuthority → Option ℕ → AttemptLiability
note_terminal a authority none = a
note_terminal a provider (some amount) = record a { terminal_provider_nanos = some amount }
note_terminal a catalog (some amount) = record a {
  terminal_catalog_nanos = raised a.terminal_catalog_nanos amount;
}

unfoldable pub note_provider : AttemptLiability → SpendAuthority → Option ℕ → AttemptLiability
note_provider a authority none = a
note_provider a provider (some amount) = record a {
  max_provider_nanos = raised a.max_provider_nanos amount;
}
note_provider a catalog (some amount) = a

-- A larger amount than was observed before is recorded, and raises the liability to itself.
unfoldable pub note_amount : AttemptLiability → Option ℕ → AttemptLiability × Option ℕ
note_amount a none = (a, none)
note_amount a (some amount) =
    if ltb (unwrap_or a.observed_nanos 0) amount
    then (if ltb a.liability_nanos amount
        then (
          record a { observed_nanos = some amount; liability_nanos = amount },
          some (amount - a.liability_nanos),
        )
        else (record a { observed_nanos = some amount }, none))
    else (a, none)

unfoldable pub observe_attempt : AttemptLiability → SpendObservation → AttemptLiability × Option ℕ
unfolding note_terminal note_provider note_amount is_catalog
observe_attempt a o =
    let terminal =
      o.terminal_authoritative && not (not a.pricing_bounded && is_catalog o.authority) in
    let a' = if terminal then note_terminal a o.authority o.amount_nanos else a in
    note_amount (note_provider a' o.authority o.amount_nanos) o.amount_nanos

-- Result<(), ()>
pub data Recorded : Type 0 where
  recorded missing : Recorded

-- The total at the bound stands for any larger one, and its window is frozen.
unfoldable pub store_total : BudgetState → BudgetWindowKey → Option ℕ → BudgetState
store_total b w none = record b {
  totals = insert b.totals w max_exact_redis_nanos;
  frozen = insert b.frozen w tt;
}
store_total b w (some next) =
    if leb next max_exact_redis_nanos
    then record b { totals = insert b.totals w next }
    else record b {
      totals = insert b.totals w max_exact_redis_nanos;
      frozen = insert b.frozen w tt;
    }

unfoldable pub raise_total : BudgetState → BudgetWindowKey → ℕ → Option ℕ → Recorded × BudgetState
unfolding store_total
raise_total b w delta none = (missing, b)
raise_total b w delta (some total) = (recorded, store_total b w (checked_add total delta))

unfoldable pub charge_increase : BudgetState → BudgetWindowKey → Option ℕ → Recorded × BudgetState
unfolding raise_total
charge_increase b w none = (recorded, b)
charge_increase b w (some delta) = raise_total b w delta (get b.totals w)

unfoldable pub observe_found :
    BudgetState → ℕ → SpendObservation → Option AttemptLiability → Recorded × BudgetState
unfolding observe_attempt charge_increase
observe_found b id o none = (missing, b)
observe_found b id o (some a) =
    if a.finalized
    then (recorded, b)
    else (let (a', increase) = observe_attempt a o in
        charge_increase (record b { attempts = insert b.attempts id a' }) a.window_key increase)

unfoldable pub observe_usage :
    Option BudgetPolicySnapshot → BudgetState → ℕ → SpendObservation → Recorded × BudgetState
unfolding observe_found
observe_usage none b id o = (recorded, b)
observe_usage (some policy) b id o = observe_found b id o (get b.attempts id)
