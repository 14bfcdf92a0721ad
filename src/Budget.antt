-- ===== src/Budget.antt =====
-- src/gateway/budget.rs: the values that pricing hands to the ledger. Money is in nanodollars.
-- The prices themselves are floating-point arithmetic over the catalog and are not modelled: a
-- quote and an observation are arguments of the ledger.
use llmshim.Common.{ℕ, Bool, true, false, Option}
use llmshim.Attempt.{
  AttemptOutcome, completed, http_failure, transport_failure, invalid_response, stream_failure,
  abandoned, AttemptAccounting, usage_observed, no_usage_reported, unknown,
}

-- 1 << 53
abbrev pub max_exact_redis_nanos : ℕ
max_exact_redis_nanos = 9007199254740992

pub record BudgetPolicySnapshot : Type 0 where
  pub limit_nanos : ℕ
  pub window_secs : ℕ
  pub allow_unpriced : Bool
  pub valid : Bool

pub record BudgetQuote : Type 0 where
  pub amount_nanos : ℕ
  pub bounded : Bool

pub data SpendAuthority : Type 0 where
  catalog provider : SpendAuthority

pub record SpendObservation : Type 0 where
  pub amount_nanos : Option ℕ
  pub authority : SpendAuthority
  pub terminal_authoritative : Bool

is_observed : AttemptAccounting → Bool
is_observed usage_observed = true
is_observed no_usage_reported = false
is_observed unknown = false

-- Only a response that came in full, with usage, may settle an attempt.
unfoldable pub may_finalize : AttemptOutcome → Bool
unfolding is_observed
may_finalize (completed a) = is_observed a
may_finalize (invalid_response a) = is_observed a
may_finalize (http_failure status a) = false
may_finalize (transport_failure a) = false
may_finalize (stream_failure a) = false
may_finalize (abandoned kind a) = false
