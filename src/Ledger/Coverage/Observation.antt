-- ===== src/Ledger/Coverage/Observation.antt =====
-- src/gateway/attempt.rs: what a report of usage does to an attempt, and to the totals.
use llmshim.Common.{
  ℕ, ◌+◌, true, not, ◌&&◌, ◌≡◌, ◌∙◌, refl, Option, none, some, nat_key, arith, Option-cases, inl,
  inr, if_cases,
}
use llmshim.Common.Map.{get, insert}
use llmshim.Budget.{SpendObservation, SpendAuthority, catalog, provider}
use llmshim.Ledger.State.{budget_window_key, AttemptLiability, BudgetState, is_some, unwrap_or}
use llmshim.Ledger.Usage.{
  Recorded, recorded, raise_total, charge_increase, observe_found, observe_attempt, note_amount,
  note_provider, note_terminal, is_catalog,
}
use llmshim.Ledger.Coverage.{IsCovered}
use llmshim.Ledger.Coverage.Replacement.{replaced-IsCovered, some_member, owes_after}
use llmshim.Ledger.Coverage.Charge.{store_total-IsCovered, total_kept}

note_terminal-same :
    (a : AttemptLiability) (authority : SpendAuthority) (amount : Option ℕ)
    → let a' = note_terminal a authority amount in
      (a'.window_key ≡ a.window_key)
      × ((a'.liability_nanos ≡ a.liability_nanos) × (a'.observed_nanos ≡ a.observed_nanos))
unfolding note_terminal
note_terminal-same a authority none = (refl, (refl, refl))
note_terminal-same a catalog (some amount) = (refl, (refl, refl))
note_terminal-same a provider (some amount) = (refl, (refl, refl))

note_provider-same :
    (a : AttemptLiability) (authority : SpendAuthority) (amount : Option ℕ)
    → let a' = note_provider a authority amount in
      (a'.window_key ≡ a.window_key)
      × ((a'.liability_nanos ≡ a.liability_nanos) × (a'.observed_nanos ≡ a.observed_nanos))
unfolding note_provider
note_provider-same a authority none = (refl, (refl, refl))
note_provider-same a catalog (some amount) = (refl, (refl, refl))
note_provider-same a provider (some amount) = (refl, (refl, refl))

note_amount-raises :
    (a : AttemptLiability) (amount : Option ℕ)
    → let r = note_amount a amount in
      (r.0.window_key ≡ a.window_key) × (r.0.liability_nanos ≡ a.liability_nanos + unwrap_or r.1 0)
unfolding note_amount
note_amount-raises a none = (refl, omega arith)
note_amount-raises a (some amount) = ground arith

-- A report leaves the window of an attempt, and raises its liability by exactly what it asks to
-- be charged to the total; it never lowers it.
pub observe_attempt-raises :
    (a : AttemptLiability) (o : SpendObservation)
    → let r = observe_attempt a o in
      (r.0.window_key ≡ a.window_key) × (r.0.liability_nanos ≡ a.liability_nanos + unwrap_or r.1 0)
unfolding observe_attempt
observe_attempt-raises a o =
    if_cases
      (λ (x : AttemptLiability).
        let r = note_amount (note_provider x o.authority o.amount_nanos) o.amount_nanos in
        (r.0.window_key ≡ a.window_key)
        × (r.0.liability_nanos ≡ a.liability_nanos + unwrap_or r.1 0))
      (o.terminal_authoritative && not (not a.pricing_bounded && is_catalog o.authority))
      (note_terminal a o.authority o.amount_nanos) a
      (λ _.
        from (note_terminal a o.authority o.amount_nanos)
          (note_terminal-same a o.authority o.amount_nanos).0
          (note_terminal-same a o.authority o.amount_nanos).1.0)
      (λ _. from a refl refl)
  where
    from :
        (x : AttemptLiability)
        → x.window_key ≡ a.window_key
        → x.liability_nanos ≡ a.liability_nanos
        → let r = note_amount (note_provider x o.authority o.amount_nanos) o.amount_nanos in
          (r.0.window_key ≡ a.window_key)
          × (r.0.liability_nanos ≡ a.liability_nanos + unwrap_or r.1 0)
    from x window liability =
        let p = note_provider-same x o.authority o.amount_nanos in
        let q = note_amount-raises (note_provider x o.authority o.amount_nanos) o.amount_nanos in
        (q.0 ∙ p.0 ∙ window, omega (arith, q.1, p.1.0, liability))

charge_increase-IsCovered :
    (b : BudgetState) (id : ℕ) (a a' : AttemptLiability) (increase : Option ℕ)
    → get b.attempts id ≡ some a
    → a'.window_key ≡ a.window_key
    → a'.liability_nanos ≡ a.liability_nanos + unwrap_or increase 0
    → IsCovered b
    → let r =
        charge_increase (record b { attempts = insert b.attempts id a' }) a.window_key increase in
      (r.0 ≡ recorded) × IsCovered r.1
unfolding charge_increase raise_total
charge_increase-IsCovered b id a a' none kept window rise v = (
  refl,
  replaced-IsCovered b v id a a' kept a.window_key refl window b.totals b.frozen
      (λ j other. (refl, refl))
      (ground (
        arith,
        owes_after b v id a a' kept a.window_key refl window,
        v.covered a.window_key (some_member b v id a a' kept a.window_key refl window),
      )),
)
charge_increase-IsCovered b id a a' (some delta) kept window rise v =
    let (total, found) = total_kept b v id a a' kept a.window_key refl window in
    rw found
      (refl, store_total-IsCovered b v id a a' kept a.window_key refl window total delta found rise)

-- A report on an attempt that is kept is recorded.
pub observe_found-IsCovered :
    (b : BudgetState) (id : ℕ) (o : SpendObservation)
    → IsCovered b
    → let r = observe_found b id o (get b.attempts id) in
      IsCovered r.1 × (is_some (get b.attempts id) ≡ true → r.0 ≡ recorded)
unfolding observe_found
observe_found-IsCovered b id o v = elim (Option-cases (get b.attempts id)) [
  | inl gone ↦ rw gone (v, λ h. absurd (ground arith))
  | inr (a, kept) ↦ rw kept (
      if_cases (λ (r : Recorded × BudgetState). IsCovered r.1 × (true ≡ true → r.0 ≡ recorded))
        a.finalized _ _ (λ _. (v, λ _. refl))
        (λ _.
          let (window, rise) = observe_attempt-raises a o in
          let c =
            charge_increase-IsCovered b id a (observe_attempt a o).0 (observe_attempt a o).1 kept
              window rise v in
          (c.1, λ _. c.0)))
]
