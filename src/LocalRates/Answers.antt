-- ===== src/LocalRates/Answers.antt =====
-- src/gateway/attempt.rs: what each answer of an admission says of the ledger and the buckets.
use llmshim.Common.{
  ℕ, String, false, ◌≡◌, refl, subst, sym, Option, none, some, Option-cases, Bool-cases, inl, inr,
  nat_key,
}
use llmshim.Common.Float.{Float}
use llmshim.Budget.{BudgetPolicySnapshot, BudgetQuote}
use llmshim.Ledger.State.{BudgetWindowKey, BudgetState, budget_window_key}
use llmshim.Ledger.Expiry.{purge_expired_budget_state}
use llmshim.Ledger.Admission.{RateRefusal, is_full, Plan, plan_charge, admits, window_of, commit}
use llmshim.Ledger.Outcomes.{plan_charge-charged, plan_charge-refused, admits-HasNoMoney}
use llmshim.LocalRates.{
  LocalRateState, LocalAttemptRates, Request, longest, decide, check_dimensions, acquire_at_epoch,
  divides_by_zero,
}
use llmshim.LocalRates.Outcomes.{longest-none, verdict, acquire_at_epoch-commit}
use llmshim.LocalRates.Explained.{
  Waits, IsFree, longest-IsLongest, HasRoom, Explains, is_full-HasNoRoom, is_full-HasRoom,
  LimitFits, waits_of, Explained,
}

module _ (b : BudgetState) (max_retained id epoch : ℕ) (tenant : String) where
  abbrev After : Option BudgetPolicySnapshot → Option BudgetQuote → Waits → Plan → Type 0
  After policy quote waits p =
      Explains b max_retained id epoch tenant policy quote waits (commit b id p).1 (commit b id p).0

  planned-Explains :
      (policy : Option BudgetPolicySnapshot) (quote : Option BudgetQuote) (waits : Waits)
      (retention : ℕ)
      → LimitFits policy
      → HasRoom b max_retained id epoch tenant policy quote
      → IsFree waits
      → After policy quote waits (plan_charge b retention tenant policy quote epoch)
  unfolding plan_charge commit
  planned-Explains none none waits retention fits room free = (room, (free, refl))
  planned-Explains none (some quote) waits retention fits room free = (inr (free, tt), refl)
  planned-Explains (some policy) none waits retention fits room free = (inr (free, tt), refl)
  planned-Explains (some policy) (some quote) waits retention fits room free =
      let p : Plan = plan_charge b retention tenant (some policy) (some quote) epoch in
      let w : BudgetWindowKey = window_of tenant policy epoch in
      elim (Bool-cases (admits b policy w quote)) [
        | inl admitted ↦
            let charged =
              plan_charge-charged b id retention tenant policy quote epoch fits admitted in
            subst
              (Explains b max_retained id epoch tenant (some policy) (some quote) waits
                (commit b id p).1)
              (sym charged.0) (room, (free, charged.1))
        | inr refused ↦
            subst
              (λ (r : Option RateRefusal × BudgetState).
                Explains b max_retained id epoch tenant (some policy) (some quote) waits r.1 r.0)
              (sym (plan_charge-refused b id retention tenant policy quote epoch refused))
              (room, (free, ((refl, admits-HasNoMoney b policy w quote fits refused), refl)))
      ]

  -- The waits are asked before the budget.
  decided-Explains :
      (policy : Option BudgetPolicySnapshot) (quote : Option BudgetQuote) (waits : Waits)
      (retention : ℕ)
      → LimitFits policy
      → HasRoom b max_retained id epoch tenant policy quote
      → After policy quote waits (
          decide
            (longest waits.tenant_rpm waits.tenant_tpm)
            (longest waits.provider_rpm waits.provider_tpm)
            (plan_charge b retention tenant policy quote epoch))
  unfolding decide commit
  decided-Explains policy quote waits retention fits room =
      elim (Option-cases (longest waits.tenant_rpm waits.tenant_tpm)) [
        | inr (wait, busy) ↦
            rw busy (room, (longest-IsLongest waits.tenant_rpm waits.tenant_tpm wait busy, refl))
        | inl idle ↦ elim (Option-cases (longest waits.provider_rpm waits.provider_tpm)) [
          | inr (wait, busy) ↦
              rw (idle, busy)
                (
                  room,
                  (
                    longest-none waits.tenant_rpm waits.tenant_tpm idle,
                    (longest-IsLongest waits.provider_rpm waits.provider_tpm wait busy, refl),
                  ),
                )
          | inl quiet ↦
              rw (idle, quiet)
                (planned-Explains policy quote waits retention fits room (
                  longest-none waits.tenant_rpm waits.tenant_tpm idle,
                  longest-none waits.provider_rpm waits.provider_tpm quiet,
                ))
        ]
      ]

module _ (float : Float) where
  open float use {F, of_nat}

  verdict-Explained :
      (c : LocalAttemptRates) (s : LocalRateState F) (r : Request) (now epoch : ℕ)
      → let b = purge_expired_budget_state s.budget epoch in
        LimitFits r.scope.budget
        → Explained float c r epoch b
            (waits_of float c s r now)
            (commit b r.id (verdict float c s r now epoch))
  unfolding check_dimensions commit
  verdict-Explained c s r now epoch fits =
      let b : BudgetState = purge_expired_budget_state s.budget epoch in
      let max_kept : ℕ = c.max_retained_attempts in
      elim (Bool-cases (is_full b max_kept r.id r.scope.budget r.quote)) [
        | inl full ↦ rw full (
          inl (
              is_full-HasNoRoom b max_kept r.id epoch r.scope.tenant_key r.scope.budget r.quote
                full),
          refl,
        )
        | inr room ↦ rw room (
            decided-Explains b max_kept r.id epoch r.scope.tenant_key r.scope.budget r.quote
              (waits_of float c s r now) c.retention_secs fits
              (is_full-HasRoom b max_kept r.id epoch r.scope.tenant_key r.scope.budget r.quote
                room))
      ]

  -- Where the budget has no window of 0 seconds and a limit of the machine's width, an admission
  -- does not panic, and its answer is explained by the waits of the four buckets and the ledger
  -- after its purge. Refused for the tenant: the attempt has a place, the wait is the longest of
  -- the tenant's two buckets. For the provider: no bucket of the tenant waits, and the wait is
  -- the longest of the provider's two. For the budget: no bucket waits, the wait is for the end
  -- of the window, and the window is frozen, the limit is 0, or the quote, or any amount if it
  -- has no bound, would exceed the limit. Unavailable: there is no place, or no bucket waits and
  -- a budget comes without a quote or a quote without a budget. In these cases the purged ledger
  -- is as it was. Admitted: there is a place, no bucket waits, and the total of the window grows
  -- by what is reserved and is within the limit, or there is neither budget nor quote and the
  -- ledger is as it was.
  pub acquire_at_epoch-Explained :
      (c : LocalAttemptRates) (s : LocalRateState F) (r : Request) (now epoch : ℕ)
      → divides_by_zero r.scope.budget r.quote ≡ false
      → LimitFits r.scope.budget
      → (refusal : Option RateRefusal) × ((s' : LocalRateState F) × ((acquire_at_epoch float c s r
                now epoch
              ≡ some (refusal, s'))
            × Explained float c r epoch
                (purge_expired_budget_state s.budget epoch)
                (waits_of float c s r now)
                (refusal, s'.budget)))
  acquire_at_epoch-Explained c s r now epoch h fits =
      let (refusal, (s', (result, ledger))) = acquire_at_epoch-commit float c s r now epoch h in
      (
        refusal,
        (
          s',
          (
            result,
            subst
                (Explained float c r epoch (purge_expired_budget_state s.budget epoch)
                  (waits_of float c s r now))
                (sym ledger) (verdict-Explained c s r now epoch fits),
          ),
        ),
      )
