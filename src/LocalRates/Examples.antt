-- ===== src/LocalRates/Examples.antt =====
-- src/gateway/attempt.rs: runs of the ledger at concrete inputs.
use llmshim.Common.{
  ℕ, true, false, ◌≤◌, ◌+◌, ◌-◌, ◌*◌, ◌/◌, ◌≡◌, refl, Option, none, some, List, [], ◌∷◌, arith, ◌⊎◌,
  leb, min, max, ltb, eqb, nat_key,
}
use llmshim.Common.Float.{Float}
use llmshim.Common.Map.{get}
use llmshim.Attempt.{completed, usage_observed}
use llmshim.Budget.{BudgetPolicySnapshot, SpendObservation, provider, may_finalize}
use llmshim.Ledger.State.{
  BudgetState, AttemptLiability, BudgetWindowKey, empty, is_frozen, budget_window_key,
}
use llmshim.Ledger.Usage.{observe_attempt}
use llmshim.Ledger.Settlement.{finish, settlement_of}
use llmshim.Ledger.Admission.{RateRefusal, plan_charge, commit, for_budget, reserved}
use llmshim.Ledger.Expiry.{budget_wait, purge_expired_budget_state}
use llmshim.Ledger.Coverage.Observation.{observe_attempt-raises}
use llmshim.Ledger.Coverage.{IsCovered}
use llmshim.Ledger.Calls
use llmshim.Ledger.Endings.{finish-full, run-finish, IsFullResponse, Finalizes}
use llmshim.Ledger.Outcomes.{plan_charge-commit, finish-total}
use llmshim.LocalRates.{
  LocalAttemptRates, LocalRateState, Request, TrustedPolicyScope, new, acquire_at_epoch,
}
use llmshim.LocalRates.Explained.{Explained, waits_of}
use llmshim.LocalRates.Answers.{acquire_at_epoch-Explained}
use llmshim.LocalRates.History.{Event, acquire, observe, finished, penalized, run, run-IsCovered}

-- Whole numbers in place of `f64`.
abbrev whole : Float
whole = record {
  F = ℕ;
  of_nat = λ n. n;
  plus = λ a b. a + b;
  minus = λ a b. a - b;
  times = λ a b. a * b;
  over = λ a b. a / b;
  smaller = λ a b. min a b;
  larger = λ a b. max a b;
  min_positive = 1;
  le = leb;
  lt = ltb;
  eq = eqb;
  epsilon = 0;
  as_secs = λ n. n / 1000000000;
  from_secs = λ s. s * 1000000000;
}

abbrev rates : LocalAttemptRates
rates = record {
  config = record {
    global = record { rpm = some 60; tpm = none };
    per_provider = ("openai", record { rpm = none; tpm = some 6000 }) ∷ [];
  };
  max_retained_attempts = 100;
  retention_secs = 600;
}

abbrev policy : BudgetPolicySnapshot
policy = record { limit_nanos = 1000; window_secs = 60; allow_unpriced = false; valid = true }

abbrev scope : TrustedPolicyScope
scope = record {
  tenant_key = "acme";
  limits = record { rpm = some 10; tpm = none };
  budget = some policy;
}

abbrev request : Request
request = record {
  provider = "openai";
  scope = scope;
  permits = 20;
  id = 7;
  quote = some (record { amount_nanos = 400; bounded = true });
}

abbrev report : SpendObservation
report = record { amount_nanos = some 500; authority = provider; terminal_authoritative = true }

abbrev calls : List Event
calls =
    acquire request 1000000000 30
    ∷ observe scope 7 report
    ∷ finished scope 7 (completed usage_observed)
    ∷ penalized "openai" 5000000000 2000000000
    ∷ acquire request 3000000000 900
    ∷ []

run-IsCovered_example :
    (s : LocalRateState ℕ) × ((run whole rates (new whole) calls ≡ some s) × IsCovered s.budget)
run-IsCovered_example = run-IsCovered whole rates calls (refl, (tt, (tt, (tt, (refl, tt)))))

acquire_at_epoch-Explained_example :
    (refusal : Option RateRefusal) × ((s' : LocalRateState ℕ) × ((acquire_at_epoch whole rates
            (new whole)
            request
            0
            30
          ≡ some (refusal, s'))
        × Explained whole rates request 30
            (purge_expired_budget_state empty 30)
            (waits_of whole rates (new whole) request 0)
            (refusal, s'.budget)))
acquire_at_epoch-Explained_example =
    acquire_at_epoch-Explained whole rates (new whole) request 0 30 refl (omega arith)

abbrev window : BudgetWindowKey
window = record { tenant_key = "acme"; window_secs = 60; window_index = 0 }

abbrev open_attempt : AttemptLiability
open_attempt = record {
  window_key = window;
  pricing_bounded = true;
  liability_nanos = 400;
  observed_nanos = some 300;
  max_provider_nanos = none;
  terminal_catalog_nanos = some 300;
  terminal_provider_nanos = none;
  finalized = false;
  expires_at_epoch_secs = 660;
}

abbrev one_open : BudgetState
one_open = record {
  totals = (window, 450) ∷ [];
  frozen = [];
  attempts =
      (7, open_attempt) ∷ (8, record open_attempt { finalized = true; liability_nanos = 50 }) ∷ [];
  expirations = (660, 7) ∷ (660, 8) ∷ [];
  window_references = (window, 2) ∷ [];
}

plan_charge-commit_example :
    let r = commit one_open 9 (
      plan_charge one_open 600 "acme"
        (some policy)
        (some (record { amount_nanos = 551; bounded = true }))
        30) in
    ((r.0 ≡ none) × ((get r.1.totals window ≡ some 1001) × (1001 ≤ 1000)))
    ⊎ (r ≡ (some (for_budget 30000000000), one_open))
unfolding get budget_wait reserved
plan_charge-commit_example =
    plan_charge-commit one_open 9 600 "acme" policy (record { amount_nanos = 551; bounded = true })
      30 (omega arith)

finish-full_example :
    let after = (finish (some policy) one_open 7 (completed usage_observed)).1 in
    (after ≡ one_open) ⊎ (IsFullResponse (completed usage_observed) × Finalizes one_open 7 after)
finish-full_example = finish-full (some policy) one_open 7 (completed usage_observed)

-- Attempt 7 is settled, and is then reported on and ended again.
abbrev settled : BudgetState
settled = (finish (some policy) one_open 7 (completed usage_observed)).1

abbrev later_calls : List Calls.Call
later_calls =
    Calls.observe 8 report
    ∷ Calls.observe 7 report
    ∷ Calls.finished 8 (completed usage_observed)
    ∷ Calls.finished 7 (completed usage_observed)
    ∷ []

run-finish_example :
    (settled ≡ one_open)
    ⊎ ((get (Calls.run (some policy) settled later_calls).attempts 7 ≡ get settled.attempts 7)
        × (Calls.run (some policy) settled later_calls
            ≡ Calls.run
                (some policy)
                settled
                (Calls.observe 8 report ∷ Calls.finished 8 (completed usage_observed) ∷ [])))
run-finish_example = run-finish (some policy) one_open 7 (completed usage_observed) later_calls

kept_7 : get one_open.attempts 7 ≡ some open_attempt
unfolding get
kept_7 = refl

settles : may_finalize (completed usage_observed) ≡ true
unfolding may_finalize
settles = refl

settled_300 : settlement_of open_attempt ≡ some 300
unfolding settlement_of
settled_300 = refl

thawed : is_frozen one_open window ≡ false
unfolding get
thawed = refl

total_450 : get one_open.totals window ≡ some 450
unfolding get
total_450 = refl

finish-total_example :
    get (finish (some policy) one_open 7 (completed usage_observed)).1.totals window ≡ some 350
finish-total_example =
    finish-total policy one_open 7 open_attempt (completed usage_observed) 300 450 kept_7 refl
      settles settled_300 thawed total_450 (omega arith) (omega arith)

observe_attempt-raises_example :
    ((observe_attempt open_attempt report).0.window_key ≡ window)
    × ((observe_attempt open_attempt report).0.liability_nanos ≡ 500)
unfolding observe_attempt
observe_attempt-raises_example = observe_attempt-raises open_attempt report
