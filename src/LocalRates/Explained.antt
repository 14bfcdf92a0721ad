-- ===== src/LocalRates/Explained.antt =====
-- src/gateway/attempt.rs: what each answer of an admission says of the ledger and the buckets, in
-- words of its own: which waits there are, whether the attempt has a place, what is charged.
use llmshim.Common.{
  ℕ, ◌+◌, ◌≤◌, ◌<◌, String, true, false, ◌≡◌, Option, none, some, arith, length, max, Option-cases,
  inl, inr, ◌⊎◌, nat_key,
}
use llmshim.Common.Float.{Float}
use llmshim.Common.Map.{get}
use llmshim.Common.Word.{usize_max}
use llmshim.Rates.{resolve}
use llmshim.Budget.{BudgetPolicySnapshot, BudgetQuote}
use llmshim.Buckets.{check_dimension}
use llmshim.Ledger.State.{BudgetState, AttemptLiability, budget_window_key}
use llmshim.Ledger.Expiry.{budget_wait}
use llmshim.Ledger.Admission.{
  RateRefusal, unavailable, for_tenant, for_provider, for_budget, is_full, window_of, reserved,
}
use llmshim.Ledger.Outcomes.{current_of, HasNoMoney}
use llmshim.LocalRates.{LocalRateState, LocalAttemptRates, Request, longest, tenant_key_of}

abbrev pub NoLonger : ℕ → Option ℕ → Type 0
NoLonger w none = Unit
NoLonger w (some wait) = wait ≤ w

-- `w` is the longest wait of two buckets.
abbrev pub IsLongest : ℕ → Option ℕ → Option ℕ → Type 0
IsLongest w a b = ((a ≡ some w) ⊎ (b ≡ some w)) × (NoLonger w a × NoLonger w b)

pub longest-IsLongest : (a b : Option ℕ) (w : ℕ) → longest a b ≡ some w → IsLongest w a b
longest-IsLongest none none w h = ground (arith, h)
longest-IsLongest none (some y) w h = ground (arith, h)
longest-IsLongest (some x) none w h = ground (arith, h)
longest-IsLongest (some x) (some y) w h = ground (arith, h)

-- The waits that the buckets ask for: the tenant's for requests and tokens, then the provider's.
pub record Waits : Type 0 where
  pub tenant_rpm : Option ℕ
  pub tenant_tpm : Option ℕ
  pub provider_rpm : Option ℕ
  pub provider_tpm : Option ℕ

abbrev pub IsTenantFree : Waits → Type 0
IsTenantFree waits = (waits.tenant_rpm ≡ none) × (waits.tenant_tpm ≡ none)

abbrev pub IsFree : Waits → Type 0
IsFree waits = IsTenantFree waits × ((waits.provider_rpm ≡ none) × (waits.provider_tpm ≡ none))

-- A limit of the machine's width.
abbrev pub LimitFits : Option BudgetPolicySnapshot → Type 0
LimitFits none = Unit
LimitFits (some policy) = policy.limit_nanos ≤ usize_max

module _ (b : BudgetState) (max_retained id epoch : ℕ) (tenant : String) where
  -- An attempt with a budget and a quote needs an id that is not kept, and a place to be kept.
  abbrev pub HasRoom : Option BudgetPolicySnapshot → Option BudgetQuote → Type 0
  HasRoom none quote = Unit
  HasRoom (some policy) none = Unit
  HasRoom (some policy) (some quote) =
      (get b.attempts id ≡ none) × (length b.attempts < max_retained)

  abbrev pub HasNoRoom : Option BudgetPolicySnapshot → Option BudgetQuote → Type 0
  HasNoRoom none quote = true ≡ false
  HasNoRoom (some policy) none = true ≡ false
  HasNoRoom (some policy) (some quote) =
      ((a : AttemptLiability) × (get b.attempts id ≡ some a)) ⊎ (max_retained ≤ length b.attempts)

  -- A budget without a quote, or a quote without a budget.
  abbrev pub IsMismatched : Option BudgetPolicySnapshot → Option BudgetQuote → Type 0
  IsMismatched none none = true ≡ false
  IsMismatched none (some quote) = Unit
  IsMismatched (some policy) none = Unit
  IsMismatched (some policy) (some quote) = true ≡ false

  -- With a budget and a quote, the window's total grows by what is reserved, within the limit;
  -- with neither, the ledger is as it was.
  abbrev pub IsCharged : BudgetState → Option BudgetPolicySnapshot → Option BudgetQuote → Type 0
  IsCharged after none none = after ≡ b
  IsCharged after none (some quote) = true ≡ false
  IsCharged after (some policy) none = true ≡ false
  IsCharged after (some policy) (some quote) =
      let w = window_of tenant policy epoch in
      let total =
        current_of b w + (reserved quote policy.limit_nanos (current_of b w)).amount_nanos in
      (get after.totals w ≡ some total) × (total ≤ policy.limit_nanos)

  -- The budget has no money for the quote, and the wait is for the end of the window.
  abbrev pub IsOverBudget : ℕ → Option BudgetPolicySnapshot → Option BudgetQuote → Type 0
  IsOverBudget wait none quote = true ≡ false
  IsOverBudget wait (some policy) none = true ≡ false
  IsOverBudget wait (some policy) (some quote) =
      (wait ≡ budget_wait policy.window_secs epoch)
      × HasNoMoney b policy (window_of tenant policy epoch) quote

  -- What holds of each answer, `after` being the ledger that it leaves.
  abbrev pub Explains :
      Option BudgetPolicySnapshot
      → Option BudgetQuote
      → Waits
      → (after : BudgetState) → Option RateRefusal
      → Type 0
  Explains policy quote waits after none =
      HasRoom policy quote × (IsFree waits × IsCharged after policy quote)
  Explains policy quote waits after (some (for_tenant wait)) =
      HasRoom policy quote × (IsLongest wait waits.tenant_rpm waits.tenant_tpm × (after ≡ b))
  Explains policy quote waits after (some (for_provider wait)) =
      HasRoom policy quote
      × (IsTenantFree waits × (IsLongest wait waits.provider_rpm waits.provider_tpm × (after ≡ b)))
  Explains policy quote waits after (some (for_budget wait)) =
      HasRoom policy quote × (IsFree waits × (IsOverBudget wait policy quote × (after ≡ b)))
  Explains policy quote waits after (some unavailable) =
      (HasNoRoom policy quote ⊎ (IsFree waits × IsMismatched policy quote)) × (after ≡ b)

  pub is_full-HasNoRoom :
      (policy : Option BudgetPolicySnapshot) (quote : Option BudgetQuote)
      → is_full b max_retained id policy quote ≡ true
      → HasNoRoom policy quote
  unfolding is_full
  is_full-HasNoRoom none quote h = cc
  is_full-HasNoRoom (some policy) none h = cc
  is_full-HasNoRoom (some policy) (some quote) h = elim (Option-cases (get b.attempts id)) [
    | inr found ↦ inl found
    | inl free ↦ inr (ground (arith, h, free))
  ]

  pub is_full-HasRoom :
      (policy : Option BudgetPolicySnapshot) (quote : Option BudgetQuote)
      → is_full b max_retained id policy quote ≡ false
      → HasRoom policy quote
  unfolding is_full
  is_full-HasRoom none quote h = tt
  is_full-HasRoom (some policy) none h = tt
  is_full-HasRoom (some policy) (some quote) h = elim (Option-cases (get b.attempts id)) [
    | inr (a, found) ↦ absurd (ground (arith, h, found))
    | inl free ↦ (free, ground (arith, h, free))
  ]

module _ (float : Float) where
  open float use {F, of_nat}

  -- The waits of the four buckets, each asked by itself.
  abbrev pub waits_of : LocalAttemptRates → LocalRateState F → Request → (now : ℕ) → Waits
  waits_of c s r now =
      let key = tenant_key_of float r in
      let limits = resolve c.config r.provider in
      let tokens = of_nat (max r.permits 1) in
      record {
        tenant_rpm = (check_dimension float s.tenant.rpm key r.scope.limits.rpm (of_nat 1) now).0;
        tenant_tpm = (check_dimension float s.tenant.tpm key r.scope.limits.tpm tokens now).0;
        provider_rpm = (check_dimension float s.global.rpm r.provider limits.rpm (of_nat 1) now).0;
        provider_tpm = (check_dimension float s.global.tpm r.provider limits.tpm tokens now).0;
      }

  abbrev pub Explained :
      LocalAttemptRates
      → Request
      → ℕ
      → BudgetState
      → Waits
      → Option RateRefusal × BudgetState
      → Type 0
  Explained c r epoch b waits answer =
      Explains b c.max_retained_attempts r.id epoch r.scope.tenant_key r.scope.budget r.quote waits
        answer.1 answer.0
