-- ===== src/LocalRates/Outcomes.antt =====
-- src/gateway/attempt.rs: what an admission comes to.
use llmshim.Common.{
  ℕ, String, false, ◌≡◌, ap, refl, Option, none, some, arith, max, if◌then◌else◌, Option-cases,
  Bool-cases, inl, inr,
}
use llmshim.Common.Float.{Float}
use llmshim.Rates.{ProviderLimit, resolve}
use llmshim.Buckets.{check_dimension, check_dimension-debit_dimension}
use llmshim.Ledger.State.{BudgetState}
use llmshim.Ledger.Expiry.{purge_expired_budget_state}
use llmshim.Ledger.Admission.{
  RateRefusal, unavailable, is_full, Plan, charge, no_charge, reject, for_tenant, for_provider,
  plan_charge, commit,
}
use llmshim.LocalRates.{
  Dimensions, LocalRateState, LocalAttemptRates, Request, longest, decide, check_dimensions,
  debit_dimensions, debit_all, settle_plan, tenant_key_of, acquire_at_epoch, divides_by_zero,
}

pub longest-none : (a b : Option ℕ) → longest a b ≡ none → (a ≡ none) × (b ≡ none)
longest-none a b h = ground arith

module _ (float : Float) where
  open float use {F, of_nat}

  -- Buckets that did not refuse can all be debited.
  check_dimensions-debit_dimensions :
      (d : Dimensions F) (k : String) (limits : ProviderLimit) (permits now : ℕ)
      → (check_dimensions float d k limits permits now).0 ≡ none
      → (d' : Dimensions F) × (debit_dimensions float
            (check_dimensions float d k limits permits now).1
            k
            limits
            permits
          ≡ some d')
  unfolding check_dimensions debit_dimensions
  check_dimensions-debit_dimensions d k limits permits now h =
      let one : F = of_nat 1 in
      let tokens : F = of_nat (max permits 1) in
      let (no_wait, no_wait') =
        longest-none (check_dimension float d.rpm k limits.rpm one now).0
          (check_dimension float d.tpm k limits.tpm tokens now).0 h in
      let (rpm, debited) =
        check_dimension-debit_dimension float d.rpm k limits.rpm one one now no_wait in
      let (tpm, debited') =
        check_dimension-debit_dimension float d.tpm k limits.tpm tokens tokens now no_wait' in
      (record { rpm = rpm; tpm = tpm }, rw (debited, debited') refl)

  debit_all-budget :
      (s : LocalRateState F) (limits : ProviderLimit) (r : Request) (global tenant : Dimensions F)
      → debit_dimensions float s.global r.provider limits r.permits ≡ some global
      → debit_dimensions float s.tenant (tenant_key_of float r) r.scope.limits r.permits
        ≡ some tenant
      → debit_all float s limits r ≡ some (record s { global = global; tenant = tenant })
  unfolding debit_all
  debit_all-budget s limits r global tenant h k = rw (h, k) refl

  -- What the waits, the ledger's room and the budget come to.
  abbrev pub verdict : LocalAttemptRates → LocalRateState F → Request → (now epoch : ℕ) → Plan
  verdict c s r now epoch =
      let budget = purge_expired_budget_state s.budget epoch in
      let limits = resolve c.config r.provider in
      if is_full budget c.max_retained_attempts r.id r.scope.budget r.quote
      then reject unavailable
      else decide
          (check_dimensions float s.tenant (tenant_key_of float r) r.scope.limits r.permits now).0
          (check_dimensions float s.global r.provider limits r.permits now).0
          (plan_charge budget c.retention_secs r.scope.tenant_key r.scope.budget r.quote epoch)

  -- A result whose ledger is that of `commit` for the plan.
  abbrev pub Commits :
      BudgetState → ℕ → Plan → Option (Option RateRefusal × LocalRateState F) → Type 0
  Commits b id p result =
      (refusal : Option RateRefusal) × ((s' : LocalRateState F) × ((result ≡ some (refusal, s'))
          × ((refusal, s'.budget) ≡ commit b id p)))

  settle_plan-Commits :
      (s : LocalRateState F) (limits : ProviderLimit) (r : Request) (p : Plan)
      (s' : LocalRateState F)
      → debit_all float s limits r ≡ some s'
      → s'.budget ≡ s.budget
      → Commits s.budget r.id p (settle_plan float s limits r p)
  unfolding settle_plan commit
  settle_plan-Commits s limits r (reject refusal) s' h same = (some refusal, (s, (refl, refl)))
  settle_plan-Commits s limits r no_charge s' h same =
      (none, (s', (rw h refl, ap (λ b. commit b r.id no_charge) same)))
  settle_plan-Commits s limits r (charge w q at) s' h same = (
    (commit s'.budget r.id (charge w q at)).0,
    (
      record s' { budget = (commit s'.budget r.id (charge w q at)).1 },
      (rw h refl, ap (λ b. commit b r.id (charge w q at)) same),
    ),
  )

  -- Once nothing refuses, or something does.
  decided-Commits :
      (s : LocalRateState F) (r : Request) (limits : ProviderLimit) (budget : BudgetState) (now : ℕ)
      (p : Plan)
      → let tenants =
          check_dimensions float s.tenant (tenant_key_of float r) r.scope.limits r.permits now in
        let globals = check_dimensions float s.global r.provider limits r.permits now in
        Commits budget r.id (decide tenants.0 globals.0 p) (
          settle_plan float
            (record { global = globals.1; tenant = tenants.1; budget = budget })
            limits
            r
            (decide tenants.0 globals.0 p))
  unfolding decide settle_plan commit
  decided-Commits s r limits budget now p =
      let tenants : Option ℕ × Dimensions F =
        check_dimensions float s.tenant (tenant_key_of float r) r.scope.limits r.permits now in
      let globals : Option ℕ × Dimensions F =
        check_dimensions float s.global r.provider limits r.permits now in
      let checked : LocalRateState F = record {
        global = globals.1;
        tenant = tenants.1;
        budget = budget;
      } in
      elim (Option-cases tenants.0) [
        | inr (wait, busy) ↦ rw busy (some (for_tenant wait), (checked, (refl, refl)))
        | inl free ↦ elim (Option-cases globals.0) [
          | inr (wait, busy) ↦ rw (free, busy) (some (for_provider wait), (checked, (refl, refl)))
          | inl idle ↦
              let (tenant, k) =
                check_dimensions-debit_dimensions s.tenant (tenant_key_of float r) r.scope.limits
                  r.permits now free in
              let (global, h) =
                check_dimensions-debit_dimensions s.global r.provider limits r.permits now idle in
              rw (free, idle)
                (settle_plan-Commits checked limits r p
                  (record checked { global = global; tenant = tenant })
                  (debit_all-budget checked limits r global tenant h k) refl)
        ]
      ]

  -- Where the budget has no window of 0 seconds, an admission finds every bucket that it is to
  -- debit, and does to the ledger, which is purged first, what `commit` does for the verdict:
  -- unavailable without room in the ledger, else the refusal of the tenant's buckets, else that
  -- of the provider's, else the charge or refusal of the budget.
  pub acquire_at_epoch-commit :
      (c : LocalAttemptRates) (s : LocalRateState F) (r : Request) (now epoch : ℕ)
      → divides_by_zero r.scope.budget r.quote ≡ false
      → Commits
          (purge_expired_budget_state s.budget epoch)
          r.id
          (verdict c s r now epoch)
          (acquire_at_epoch float c s r now epoch)
  unfolding acquire_at_epoch commit
  acquire_at_epoch-commit c s r now epoch h =
      let budget : BudgetState = purge_expired_budget_state s.budget epoch in
      elim (Bool-cases (is_full budget c.max_retained_attempts r.id r.scope.budget r.quote)) [
        | inl full ↦ rw full (some unavailable, (record s { budget = budget }, (refl, refl)))
        | inr room ↦
            rw (room, h)
              (decided-Commits s r (resolve c.config r.provider) budget now (
                plan_charge budget c.retention_secs r.scope.tenant_key r.scope.budget r.quote
                  epoch))
      ]
