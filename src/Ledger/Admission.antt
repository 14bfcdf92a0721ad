-- ===== src/Ledger/Admission.antt =====
-- src/gateway/attempt.rs: the part of `acquire_at_epoch` that reserves money for an attempt.
use llmshim.Common.{
  ℕ, ◌+◌, ◌-◌, ◌/◌, String, Bool, false, not, ◌&&◌, ◌||◌, Option, none, some, ltb, leb, eqb, length,
  if◌then◌else◌, nat_key, string_key,
}
use llmshim.Common.Map.{get, insert}
use llmshim.Common.Word.{checked_add, saturating_add, saturating_mul}
use llmshim.Budget.{BudgetPolicySnapshot, BudgetQuote}
use llmshim.Ledger.State.{
  BudgetWindowKey, budget_window_key, AttemptLiability, BudgetState, is_some, unwrap_or, is_frozen,
}
use llmshim.Ledger.Expiry.{budget_wait, push_expiration}

pub data RateRefusal : Type 0 where
  for_provider : (wait : ℕ) → RateRefusal
  for_tenant : (wait : ℕ) → RateRefusal
  for_budget : (wait : ℕ) → RateRefusal
  unavailable : RateRefusal

-- The ledger has no place for the attempt: its id is taken, or too many are kept.
unfoldable pub is_full :
    BudgetState
    → (max_retained_attempts id : ℕ) → Option BudgetPolicySnapshot
    → Option BudgetQuote
    → Bool
is_full b max_retained id none quote = false
is_full b max_retained id (some policy) none = false
is_full b max_retained id (some policy) (some quote) =
    is_some (get b.attempts id) || leb max_retained (length b.attempts)

-- What is to be charged: nothing, or a quote to a window until a time.
pub data Plan : Type 0 where
  no_charge : Plan
  charge : BudgetWindowKey → BudgetQuote → (expires_at : ℕ) → Plan
  reject : RateRefusal → Plan

unfoldable pub fits_limit : Option ℕ → ℕ → Bool
fits_limit none limit = false
fits_limit (some next) limit = leb next limit

unfoldable pub admits : BudgetState → BudgetPolicySnapshot → BudgetWindowKey → BudgetQuote → Bool
unfolding fits_limit
admits b policy w quote =
    let current = unwrap_or (get b.totals w) 0 in
    not (is_frozen b w)
    && (not (eqb policy.limit_nanos 0)
        && (if quote.bounded
            then fits_limit (checked_add current quote.amount_nanos) policy.limit_nanos
            else ltb current policy.limit_nanos))

-- An attempt whose price has no bound takes all that is left.
unfoldable pub reserved : BudgetQuote → (limit current : ℕ) → BudgetQuote
reserved quote limit current =
    if quote.bounded then quote else record quote { amount_nanos = limit - current }

-- A policy has a window of at least a second: `from_identity` sees to it. On 0 the code panics in
-- this division. The quotient here does not show that: the test `divides_by_zero` of LocalRates,
-- with which the model of the whole call begins its use of the plan, gives the panic.
abbrev pub window_of : String → BudgetPolicySnapshot → (now : ℕ) → BudgetWindowKey
window_of tenant_key policy now = record {
  tenant_key = tenant_key;
  window_secs = policy.window_secs;
  window_index = now / policy.window_secs;
}

-- The part of the code without the panic on a window of 0 seconds, for which see `window_of`.
unfoldable pub plan_charge :
    BudgetState
    → (retention_secs : ℕ) → String
    → Option BudgetPolicySnapshot
    → Option BudgetQuote
    → (now : ℕ) → Plan
unfolding admits reserved
plan_charge b retention tenant none none now = no_charge
plan_charge b retention tenant none (some quote) now = reject unavailable
plan_charge b retention tenant (some policy) none now = reject unavailable
plan_charge b retention tenant (some policy) (some quote) now =
    let w = window_of tenant policy now in
    if admits b policy w quote
    then charge w (reserved quote policy.limit_nanos (unwrap_or (get b.totals w) 0)) (
        saturating_add (saturating_mul (saturating_add w.window_index 1) policy.window_secs)
          retention)
    else reject (for_budget (budget_wait policy.window_secs now))

unfoldable pub new_liability : BudgetWindowKey → BudgetQuote → (expires_at : ℕ) → AttemptLiability
new_liability w quote expires_at = record {
  window_key = w;
  pricing_bounded = quote.bounded;
  liability_nanos = quote.amount_nanos;
  observed_nanos = none;
  max_provider_nanos = none;
  terminal_catalog_nanos = none;
  terminal_provider_nanos = none;
  finalized = false;
  expires_at_epoch_secs = expires_at;
}

-- `none` is the admission.
unfoldable pub commit_total :
    BudgetState
    → (id : ℕ) → BudgetWindowKey
    → BudgetQuote
    → (expires_at total : ℕ) → Option ℕ
    → Option RateRefusal × BudgetState
unfolding new_liability
commit_total b id w quote expires_at total none =
    (some unavailable, record b { totals = insert b.totals w total })
commit_total b id w quote expires_at total (some next) = (
  none,
  record b {
    totals = insert b.totals w next;
    expirations = push_expiration (expires_at, id) b.expirations;
    window_references = insert b.window_references w (unwrap_or (get b.window_references w) 0 + 1);
    attempts = insert b.attempts id (new_liability w quote expires_at);
  },
)

unfoldable pub commit : BudgetState → (id : ℕ) → Plan → Option RateRefusal × BudgetState
unfolding commit_total
commit b id no_charge = (none, b)
commit b id (reject refusal) = (some refusal, b)
commit b id (charge w quote expires_at) =
    let total = unwrap_or (get b.totals w) 0 in
    commit_total b id w quote expires_at total (checked_add total quote.amount_nanos)
