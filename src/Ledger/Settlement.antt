-- ===== src/Ledger/Settlement.antt =====
-- src/gateway/attempt.rs: `finish`, the end of an attempt.
use llmshim.Common.{ℕ, ◌-◌, true, Option, none, some, leb, if◌then◌else◌, nat_key, string_key, max}
use llmshim.Common.Map.{get, insert}
use llmshim.Common.Word.{checked_sub}
use llmshim.Attempt.{AttemptOutcome}
use llmshim.Budget.{BudgetPolicySnapshot, may_finalize}
use llmshim.Ledger.State.{
  BudgetWindowKey, budget_window_key, AttemptLiability, BudgetState, unwrap_or, is_frozen,
}
use llmshim.Ledger.Usage.{Recorded, recorded, missing, raise_total}

-- What the provider reported at the end; else the catalog's price of the final usage, or what the
-- provider reported before if that was more.
unfoldable pub final_nanos : AttemptLiability → Option ℕ → Option ℕ → Option ℕ
final_nanos a (some n) catalog_nanos = some n
final_nanos a none none = none
final_nanos a none (some n) = some (max n (unwrap_or a.max_provider_nanos 0))

unfoldable pub settlement_of : AttemptLiability → Option ℕ
unfolding final_nanos
settlement_of a = final_nanos a a.terminal_provider_nanos a.terminal_catalog_nanos

unfoldable pub lower_total : BudgetState → BudgetWindowKey → ℕ → Option ℕ → Recorded × BudgetState
lower_total b w total none = (missing, b)
lower_total b w total (some next) = (recorded, record b { totals = insert b.totals w next })

-- From the liability that stood to the final one.
unfoldable pub settle_total :
    BudgetState → BudgetWindowKey → (previous final : ℕ) → Option ℕ → Recorded × BudgetState
unfolding lower_total raise_total
settle_total b w previous final none = (missing, b)
settle_total b w previous final (some total) =
    if leb final previous
    then lower_total b w total (checked_sub total (previous - final))
    else raise_total b w (final - previous) (some total)

unfoldable pub settle : BudgetState → ℕ → AttemptLiability → Option ℕ → Recorded × BudgetState
unfolding settle_total
settle b id a none = (recorded, b)
settle b id a (some final) =
    let b' = record b {
      attempts = insert b.attempts id (record a { liability_nanos = final; finalized = true });
    } in
    if is_frozen b a.window_key
    then (recorded, b')
    else settle_total b' a.window_key a.liability_nanos final (get b.totals a.window_key)

unfoldable pub finish_found :
    BudgetState → ℕ → AttemptOutcome → Option AttemptLiability → Recorded × BudgetState
unfolding settle settlement_of
finish_found b id outcome none = (missing, b)
finish_found b id outcome (some a) =
    if a.finalized
    then (recorded, b)
    else if may_finalize outcome
    then settle b id a (settlement_of a)
    else (recorded, b)

unfoldable pub finish :
    Option BudgetPolicySnapshot → BudgetState → ℕ → AttemptOutcome → Recorded × BudgetState
unfolding finish_found
finish none b id outcome = (recorded, b)
finish (some policy) b id outcome = finish_found b id outcome (get b.attempts id)
