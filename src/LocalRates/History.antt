-- ===== src/LocalRates/History.antt =====
-- src/gateway/attempt.rs: any sequence of calls on the local rates.
use llmshim.Common.{
  ℕ, String, false, ◌≡◌, ap, refl, sym, subst, Option, none, some, List, [], ◌∷◌, arith, ◌>>=◌,
  if_cases,
}
use llmshim.Common.Float.{Float}
use llmshim.Common.Map.{get}
use llmshim.Attempt.{AttemptOutcome}
use llmshim.Budget.{BudgetPolicySnapshot, BudgetQuote, SpendObservation}
use llmshim.Ledger.State.{BudgetState}
use llmshim.Ledger.Expiry.{purge_expired_budget_state}
use llmshim.Ledger.Usage.{observe_usage}
use llmshim.Ledger.Settlement.{finish}
use llmshim.Ledger.Admission.{RateRefusal, is_full, Plan, plan_charge, commit}
use llmshim.Ledger.Coverage.{IsCovered}
use llmshim.Ledger.Coverage.Admission.{commit-IsCovered}
use llmshim.Ledger.Coverage.Expiry.{purge_rounds-IsCovered}
use llmshim.Ledger.Coverage.Observation.{observe_found-IsCovered}
use llmshim.Ledger.Coverage.Settlement.{finish_found-IsCovered}
use llmshim.LocalRates.{
  LocalRateState, LocalAttemptRates, Request, TrustedPolicyScope, acquire_at_epoch, decide,
  penalize, divides_by_zero, new,
}
use llmshim.LocalRates.Outcomes.{verdict, acquire_at_epoch-commit}

observe-IsCovered :
    (policy : Option BudgetPolicySnapshot) (b : BudgetState) (id : ℕ) (o : SpendObservation)
    → IsCovered b
    → IsCovered (observe_usage policy b id o).1
unfolding observe_usage
observe-IsCovered none b id o v = v
observe-IsCovered (some policy) b id o v = (observe_found-IsCovered b id o v).0

finish-IsCovered :
    (policy : Option BudgetPolicySnapshot) (b : BudgetState) (id : ℕ) (outcome : AttemptOutcome)
    → IsCovered b
    → IsCovered (finish policy b id outcome).1
unfolding finish
finish-IsCovered none b id outcome v = v
finish-IsCovered (some policy) b id outcome v = (finish_found-IsCovered b id outcome v).0

purge-IsCovered :
    (b : BudgetState) (now : ℕ) → IsCovered b → IsCovered (purge_expired_budget_state b now)
unfolding purge_expired_budget_state
purge-IsCovered b now v = purge_rounds-IsCovered 128 b now v

module _ (b : BudgetState) (v : IsCovered b) (max_retained id retention : ℕ) (tenant : String)
    (now : ℕ) where
  planned-IsCovered :
      (policy : Option BudgetPolicySnapshot) (quote : Option BudgetQuote)
      → is_full b max_retained id policy quote ≡ false
      → IsCovered (commit b id (plan_charge b retention tenant policy quote now)).1
  unfolding plan_charge commit is_full
  planned-IsCovered none none room = v
  planned-IsCovered none (some quote) room = v
  planned-IsCovered (some policy) none room = v
  planned-IsCovered (some policy) (some quote) room =
      unfold plan_charge in
      commit-IsCovered b id (plan_charge b retention tenant (some policy) (some quote) now)
        (ground arith) v

  decided-IsCovered :
      (policy : Option BudgetPolicySnapshot) (quote : Option BudgetQuote)
      (tenant_wait provider_wait : Option ℕ)
      → is_full b max_retained id policy quote ≡ false
      → IsCovered
          (commit b id
            (decide tenant_wait provider_wait (plan_charge b retention tenant policy quote now))).1
  unfolding decide commit
  decided-IsCovered policy quote (some wait) provider_wait room = v
  decided-IsCovered policy quote none (some wait) room = v
  decided-IsCovered policy quote none none room = planned-IsCovered policy quote room

-- The calls. A call that panics would have no state after it.
pub data Event : Type 0 where
  acquire : Request → (now now_epoch_secs : ℕ) → Event
  observe : TrustedPolicyScope → (id : ℕ) → SpendObservation → Event
  finished : TrustedPolicyScope → (id : ℕ) → AttemptOutcome → Event
  penalized : (provider : String) → (duration now : ℕ) → Event

-- No budget has a window of 0 seconds.
abbrev pub HasWindow : Event → Type 0
HasWindow (acquire r now epoch) = divides_by_zero r.scope.budget r.quote ≡ false
HasWindow (observe scope id o) = Unit
HasWindow (finished scope id outcome) = Unit
HasWindow (penalized provider duration now) = Unit

abbrev pub HaveWindows : List Event → Type 0
HaveWindows [] = Unit
HaveWindows (e ∷ es) = HasWindow e × HaveWindows es

module _ (float : Float) where
  open float use {F}

  abbrev pub step : LocalAttemptRates → LocalRateState F → Event → Option (LocalRateState F)
  step c s (acquire r now epoch) = do
    (refusal, s') ← acquire_at_epoch float c s r now epoch
    some s'
  step c s (observe scope id o) =
      some (record s { budget = (observe_usage scope.budget s.budget id o).1 })
  step c s (finished scope id outcome) =
      some (record s { budget = (finish scope.budget s.budget id outcome).1 })
  step c s (penalized provider duration now) = some (penalize float c s provider duration now)

  abbrev pub run : LocalAttemptRates → LocalRateState F → List Event → Option (LocalRateState F)
  run c s [] = some s
  run c s (e ∷ es) = step c s e >>= λ s'. run c s' es

  verdict-IsCovered :
      (c : LocalAttemptRates) (s : LocalRateState F) (r : Request) (now epoch : ℕ)
      → IsCovered s.budget
      → IsCovered
          (commit
            (purge_expired_budget_state s.budget epoch)
            r.id
            (verdict float c s r now epoch)).1
  unfolding commit
  verdict-IsCovered c s r now epoch v =
      let budget : BudgetState = purge_expired_budget_state s.budget epoch in
      let v' : IsCovered budget = purge-IsCovered s.budget epoch v in
      if_cases (λ (p : Plan). IsCovered (commit budget r.id p).1)
        (is_full budget c.max_retained_attempts r.id r.scope.budget r.quote) _ _ (λ _. v')
        (λ room.
          decided-IsCovered budget v' c.max_retained_attempts r.id c.retention_secs
            r.scope.tenant_key epoch r.scope.budget r.quote _ _ room)

  step-IsCovered :
      (c : LocalAttemptRates) (s : LocalRateState F) (e : Event)
      → HasWindow e
      → IsCovered s.budget
      → (s' : LocalRateState F) × ((step c s e ≡ some s') × IsCovered s'.budget)
  step-IsCovered c s (acquire r now epoch) h v =
      let (refusal, (s', (result, ledger))) = acquire_at_epoch-commit float c s r now epoch h in
      (
        s',
        (
          rw result refl,
          subst IsCovered (sym (ap (λ (x : Option RateRefusal × BudgetState). x.1) ledger))
              (verdict-IsCovered c s r now epoch v),
        ),
      )
  step-IsCovered c s (observe scope id o) h v = (
    record s { budget = (observe_usage scope.budget s.budget id o).1 },
    (refl, observe-IsCovered scope.budget s.budget id o v),
  )
  step-IsCovered c s (finished scope id outcome) h v = (
    record s { budget = (finish scope.budget s.budget id outcome).1 },
    (refl, finish-IsCovered scope.budget s.budget id outcome v),
  )
  step-IsCovered c s (penalized provider duration now) h v =
      (penalize float c s provider duration now, (refl, unfold penalize in v))

  run-IsCovered_from :
      (c : LocalAttemptRates) (es : List Event) (s : LocalRateState F)
      → HaveWindows es
      → IsCovered s.budget
      → (s' : LocalRateState F) × ((run c s es ≡ some s') × IsCovered s'.budget)
  run-IsCovered_from c [] s h v = (s, (refl, v))
  run-IsCovered_from c (e ∷ es) s h v =
      let (s1, (stepped, v1)) = step-IsCovered c s e h.0 v in
      let (s2, (ran, v2)) = run-IsCovered_from c es s1 h.1 v1 in (s2, (rw stepped ran, v2))

  -- No sequence of admissions, reports, ends and penalties on new rates fails to find a bucket
  -- that it is to debit, where no budget has a window of 0 seconds. After it no attempt id is
  -- kept twice, each window counts its attempts, and the total of a window that has attempts is
  -- there, and is frozen or at least the sum of their liabilities.
  pub run-IsCovered :
      (c : LocalAttemptRates) (es : List Event)
      → HaveWindows es
      → (s : LocalRateState F) × ((run c (new float) es ≡ some s) × IsCovered s.budget)
  run-IsCovered c es h = run-IsCovered_from c es (new float) h (record {
    unique = tt;
    counted = λ w. unfold get in refl;
    covered = λ w h'. absurd (omega (arith, h'));
  })
