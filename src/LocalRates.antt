-- ===== src/LocalRates.antt =====
-- src/gateway/attempt.rs: the rates of one process, with the ledger: an attempt is admitted if
-- every bucket and the budget of its tenant have room for it.
pub mod Outcomes
pub mod Explained
pub mod Answers
pub mod History
pub mod Examples
use llmshim.Common.{
  ℕ, String, Bool, true, false, not, ◌&&◌, eqb, Option, none, some, if◌then◌else◌, max, string_key,
  [], ◌>>=◌,
}
use Prim.Native.String.{◌++◌}
use llmshim.Common.Float.{Float}
use llmshim.Common.Map.{Map, get, insert}
use llmshim.Attempt.{AttemptOutcome}
use llmshim.Rates.{ProviderLimit, RateLimitConfig, resolve}
use llmshim.Budget.{BudgetPolicySnapshot, BudgetQuote, SpendObservation}
use llmshim.Buckets.{Bucket, check_dimension, debit_dimension, penalize_dimension}
use llmshim.Ledger.State.{BudgetState, empty}
use llmshim.Ledger.Expiry.{purge_expired_budget_state}
use llmshim.Ledger.Usage.{Recorded, observe_usage}
use llmshim.Ledger.Settlement.{finish}
use llmshim.Ledger.Admission.{
  RateRefusal, for_provider, for_tenant, unavailable, is_full, Plan, reject, plan_charge, commit,
}

pub record Dimensions (F : Type 0) : Type 0 where
  pub rpm : Map String (Bucket F)
  pub tpm : Map String (Bucket F)

pub record LocalRateState (F : Type 0) : Type 0 where
  pub global : Dimensions F
  pub tenant : Dimensions F
  pub budget : BudgetState

-- The fields of the scope that the local rates read.
pub record TrustedPolicyScope : Type 0 where
  pub tenant_key : String
  pub limits : ProviderLimit
  pub budget : Option BudgetPolicySnapshot

pub record LocalAttemptRates : Type 0 where
  pub config : RateLimitConfig
  pub max_retained_attempts : ℕ
  pub retention_secs : ℕ

-- What an attempt asks for. The id is a fresh UUID of the caller.
pub record Request : Type 0 where
  pub provider : String
  pub scope : TrustedPolicyScope
  pub permits : ℕ
  pub id : ℕ
  pub quote : Option BudgetQuote

abbrev pub longest : Option ℕ → Option ℕ → Option ℕ
longest none wait = wait
longest (some a) none = some a
longest (some a) (some b) = some (max a b)

-- A window of 0 seconds divides by zero, which is a panic. `from_identity` makes none.
abbrev pub divides_by_zero : Option BudgetPolicySnapshot → Option BudgetQuote → Bool
divides_by_zero none quote = false
divides_by_zero (some policy) none = false
divides_by_zero (some policy) (some quote) = eqb policy.window_secs 0

abbrev pub is_waiting : Option ℕ → Option ℕ → Bool
is_waiting none none = false
is_waiting (some wait) b = true
is_waiting none (some wait) = true

-- A tenant's refusal comes before the provider's, and both before the budget's.
unfoldable pub decide : (tenant_wait provider_wait : Option ℕ) → Plan → Plan
decide (some wait) provider_wait p = reject (for_tenant wait)
decide none (some wait) p = reject (for_provider wait)
decide none none p = p

module _ (float : Float) where
  open float use {F, of_nat}

  abbrev pub no_buckets : Dimensions F
  no_buckets = record { rpm = []; tpm = [] }

  abbrev pub new : LocalRateState F
  new = record { global = no_buckets; tenant = no_buckets; budget = empty }

  unfoldable pub check_dimensions :
      Dimensions F → String → ProviderLimit → (permits now : ℕ) → Option ℕ × Dimensions F
  check_dimensions d k limits permits now =
      let (wait, rpm) = check_dimension float d.rpm k limits.rpm (of_nat 1) now in
      let (wait', tpm) = check_dimension float d.tpm k limits.tpm (of_nat (max permits 1)) now in
      (longest wait wait', record { rpm = rpm; tpm = tpm })

  -- Both buckets, in the order of the code; `none` is a panic.
  unfoldable pub debit_dimensions :
      Dimensions F → String → ProviderLimit → (permits : ℕ) → Option (Dimensions F)
  debit_dimensions d k limits permits = do
    rpm ← debit_dimension float d.rpm k limits.rpm (of_nat 1)
    tpm ← debit_dimension float d.tpm k limits.tpm (of_nat (max permits 1))
    some (record { rpm = rpm; tpm = tpm })

  abbrev pub tenant_key_of : Request → String
  tenant_key_of r = r.scope.tenant_key ++ ":" ++ r.provider

  unfoldable pub debit_all : LocalRateState F → ProviderLimit → Request → Option (LocalRateState F)
  unfolding debit_dimensions
  debit_all s limits r = do
    global ← debit_dimensions s.global r.provider limits r.permits
    tenant ← debit_dimensions s.tenant (tenant_key_of r) r.scope.limits r.permits
    some (record s { global = global; tenant = tenant })

  -- `none` is a panic; else a refusal or `none`, and the state.
  unfoldable pub settle_plan :
      LocalRateState F
      → ProviderLimit
      → Request
      → Plan
      → Option (Option RateRefusal × LocalRateState F)
  unfolding debit_all
  settle_plan s limits r (reject refusal) = some (some refusal, s)
  settle_plan s limits r p = do
    s' ← debit_all s limits r
    let (refusal, budget) = commit s'.budget r.id p
    some (refusal, record s' { budget = budget })

  unfoldable pub acquire_at_epoch :
      LocalAttemptRates
      → LocalRateState F
      → Request
      → (now now_epoch_secs : ℕ) → Option (Option RateRefusal × LocalRateState F)
  unfolding check_dimensions decide settle_plan
  acquire_at_epoch c s r now epoch =
      let limits = resolve c.config r.provider in
      let budget = purge_expired_budget_state s.budget epoch in
      if is_full budget c.max_retained_attempts r.id r.scope.budget r.quote
      then some (some unavailable, record s { budget = budget })
      else (let (provider_wait, global) =
            check_dimensions s.global r.provider limits r.permits now in
          let (tenant_wait, tenant) =
            check_dimensions s.tenant (tenant_key_of r) r.scope.limits r.permits now in
          let p =
            plan_charge budget c.retention_secs r.scope.tenant_key r.scope.budget r.quote epoch in
          if divides_by_zero r.scope.budget r.quote && not (is_waiting tenant_wait provider_wait)
          then none
          else settle_plan (record { global = global; tenant = tenant; budget = budget }) limits r
              (decide tenant_wait provider_wait p))

  unfoldable pub penalize :
      LocalAttemptRates → LocalRateState F → String → (duration now : ℕ) → LocalRateState F
  unfolding penalize_dimension
  penalize c s provider duration now =
      let limits = resolve c.config provider in
      record s {
        global = record {
          rpm = penalize_dimension float s.global.rpm provider limits.rpm duration now;
          tpm = penalize_dimension float s.global.tpm provider limits.tpm duration now;
        };
      }
