-- ===== src/Ledger/Calls.antt =====
-- src/gateway/attempt.rs: reports on the attempts of a ledger and their ends, in any order.
use llmshim.Common.{
  ℕ, ◌-◌, ap, leb, string_key, true, false, ◌≡◌, ◌∙◌, refl, Option, none, some, List, [], ◌∷◌,
  if◌then◌else◌, if_cases, Bool-cases, inl, inr, ◌==◌, nat_key,
}
use llmshim.Common.Map.{Map, get, insert, get-insert}
use llmshim.Common.Word.{checked_add, checked_sub}
use llmshim.Attempt.{AttemptOutcome}
use llmshim.Budget.{BudgetPolicySnapshot, SpendObservation, may_finalize, max_exact_redis_nanos}
use llmshim.Ledger.State.{
  BudgetWindowKey, budget_window_key, AttemptLiability, BudgetState, is_frozen,
}
use llmshim.Ledger.Usage.{
  Recorded, observe_usage, observe_found, observe_attempt, charge_increase, raise_total,
  store_total,
}
use llmshim.Ledger.Settlement.{
  settlement_of, finish, finish_found, settle, settle_total, lower_total,
}

pub data Call : Type 0 where
  observe : (id : ℕ) → SpendObservation → Call
  finished : (id : ℕ) → AttemptOutcome → Call

pub step : Option BudgetPolicySnapshot → BudgetState → Call → BudgetState
step policy b (observe id o) = (observe_usage policy b id o).1
step policy b (finished id outcome) = (finish policy b id outcome).1

unfoldable pub run : Option BudgetPolicySnapshot → BudgetState → List Call → BudgetState
unfolding step
run policy b [] = b
run policy b (call ∷ calls) = run policy (step policy b call) calls

abbrev pub id_of : Call → ℕ
id_of (observe id o) = id
id_of (finished id outcome) = id

-- The calls that are not about `id`.
abbrev pub without : ℕ → List Call → List Call
without id [] = []
without id (call ∷ calls) =
    let rest = without id calls in if id_of call == id then rest else call ∷ rest

-- An attempt that is kept and finalized.
abbrev pub IsFinalized : AttemptLiability → ℕ → BudgetState → Type 0
IsFinalized a id b = (get b.attempts id ≡ some a) × (a.finalized ≡ true)

store_total-attempts :
    (b : BudgetState) (w : BudgetWindowKey) (next : Option ℕ)
    → (store_total b w next).attempts ≡ b.attempts
unfolding store_total
store_total-attempts b w none = refl
store_total-attempts b w (some next) =
    if_cases (λ (r : BudgetState). r.attempts ≡ b.attempts) (leb next max_exact_redis_nanos) _ _
      (λ _. refl) (λ _. refl)

raise_total-attempts :
    (b : BudgetState) (w : BudgetWindowKey) (delta : ℕ) (total : Option ℕ)
    → (raise_total b w delta total).1.attempts ≡ b.attempts
unfolding raise_total
raise_total-attempts b w delta none = refl
raise_total-attempts b w delta (some total) = store_total-attempts b w (checked_add total delta)

lower_total-attempts :
    (b : BudgetState) (w : BudgetWindowKey) (total : ℕ) (next : Option ℕ)
    → (lower_total b w total next).1.attempts ≡ b.attempts
unfolding lower_total
lower_total-attempts b w total none = refl
lower_total-attempts b w total (some next) = refl

settle_total-attempts :
    (b : BudgetState) (w : BudgetWindowKey) (previous final : ℕ) (total : Option ℕ)
    → (settle_total b w previous final total).1.attempts ≡ b.attempts
unfolding settle_total
settle_total-attempts b w previous final none = refl
settle_total-attempts b w previous final (some total) =
    if_cases (λ (r : Recorded × BudgetState). r.1.attempts ≡ b.attempts) (leb final previous) _ _
      (λ _. lower_total-attempts b w total (checked_sub total (previous - final)))
      (λ _. raise_total-attempts b w (final - previous) (some total))

charge_increase-attempts :
    (b : BudgetState) (w : BudgetWindowKey) (increase : Option ℕ)
    → (charge_increase b w increase).1.attempts ≡ b.attempts
unfolding charge_increase
charge_increase-attempts b w none = refl
charge_increase-attempts b w (some delta) = raise_total-attempts b w delta (get b.totals w)

-- A settled attempt is kept as finalized at the settled amount.
pub settle-attempts :
    (b : BudgetState) (id : ℕ) (a : AttemptLiability) (final : ℕ)
    → (settle b id a (some final)).1.attempts
      ≡ insert b.attempts id (record a { liability_nanos = final; finalized = true })
unfolding settle
settle-attempts b id a final =
    let kept : Map ℕ AttemptLiability =
      insert b.attempts id (record a { liability_nanos = final; finalized = true }) in
    let b' : BudgetState = record b { attempts = kept } in
    if_cases (λ (r : Recorded × BudgetState). r.1.attempts ≡ kept) (is_frozen b a.window_key) _ _
      (λ _. refl)
      (λ _.
        settle_total-attempts b' a.window_key a.liability_nanos final (get b.totals a.window_key))

module _ (a : AttemptLiability) (id : ℕ) where
  -- A call about the attempt does nothing.
  step-idle :
      (policy : Option BudgetPolicySnapshot) (b : BudgetState) (call : Call)
      → IsFinalized a id b
      → id_of call ≡ id
      → step policy b call ≡ b
  unfolding step finish finish_found observe_usage observe_found
  step-idle none b (observe j o) h same = refl
  step-idle none b (finished j outcome) h same = refl
  step-idle (some policy) b (observe j o) h same = rw (same, step, h.0) (rw h.1 refl)
  step-idle (some policy) b (finished j outcome) h same = rw (same, step, h.0) (rw h.1 refl)

  get-insert_other :
      (b : BudgetState) (j : ℕ) (k : AttemptLiability)
      → (j == id) ≡ false
      → get (insert b.attempts j k) id ≡ get b.attempts id
  get-insert_other b j k h = get-insert b.attempts j id k ∙ rw h refl

  -- The attempt is as it was.
  abbrev Keeps : BudgetState → Recorded × BudgetState → Type 0
  Keeps b r = get r.1.attempts id ≡ get b.attempts id

  settle-Keeps :
      (b : BudgetState) (j : ℕ) (k : AttemptLiability) (final : Option ℕ)
      → (j == id) ≡ false
      → Keeps b (settle b j k final)
  unfolding settle
  settle-Keeps b j k none h = refl
  settle-Keeps b j k (some final) h =
      ap (λ kept. get kept id) (settle-attempts b j k final)
      ∙ get-insert_other b j (record k { liability_nanos = final; finalized = true }) h

  observe_found-Keeps :
      (b : BudgetState) (j : ℕ) (o : SpendObservation) (kept : Option AttemptLiability)
      → (j == id) ≡ false
      → Keeps b (observe_found b j o kept)
  unfolding observe_found
  observe_found-Keeps b j o none h = refl
  observe_found-Keeps b j o (some k) h =
      let k' : AttemptLiability = (observe_attempt k o).0 in
      if_cases (Keeps b) k.finalized _ _ (λ _. refl)
        (λ _.
          ap (λ kept. get kept id)
            (charge_increase-attempts (record b { attempts = insert b.attempts j k' }) k.window_key
              (observe_attempt k o).1)
          ∙ get-insert_other b j k' h)

  finish_found-Keeps :
      (b : BudgetState) (j : ℕ) (outcome : AttemptOutcome) (kept : Option AttemptLiability)
      → (j == id) ≡ false
      → Keeps b (finish_found b j outcome kept)
  unfolding finish_found
  finish_found-Keeps b j outcome none h = refl
  finish_found-Keeps b j outcome (some k) h =
      if_cases (Keeps b) k.finalized _ _ (λ _. refl)
        (λ _.
          if_cases (Keeps b) (may_finalize outcome) _ _
            (λ _. settle-Keeps b j k (settlement_of k) h) (λ _. refl))

  step-other :
      (policy : Option BudgetPolicySnapshot) (b : BudgetState) (call : Call)
      → (id_of call == id) ≡ false
      → get (step policy b call).attempts id ≡ get b.attempts id
  unfolding step observe_usage finish
  step-other none b (observe j o) h = refl
  step-other none b (finished j outcome) h = refl
  step-other (some policy) b (observe j o) h = observe_found-Keeps b j o (get b.attempts j) h
  step-other (some policy) b (finished j outcome) h =
      finish_found-Keeps b j outcome (get b.attempts j) h

  -- Once an attempt is kept and finalized, it is kept as it is through every sequence of reports
  -- and ends of attempts, its own included, and the ledger after the sequence is the one that
  -- the sequence without the calls about the attempt leaves.
  pub run-without :
      (policy : Option BudgetPolicySnapshot) (calls : List Call) (b : BudgetState)
      → get b.attempts id ≡ some a
      → a.finalized ≡ true
      → (get (run policy b calls).attempts id ≡ some a)
        × (run policy b calls ≡ run policy b (without id calls))
  unfolding run
  run-without policy [] b kept over = (kept, refl)
  run-without policy (call ∷ calls) b kept over = elim (Bool-cases (id_of call == id)) [
    | inl same ↦
        let idle : step policy b call ≡ b =
          step-idle policy b call (kept, over) ((nat_key.same_key_iff (id_of call) id).0 same) in
        rw (same, run, idle) (run-without policy calls b kept over)
    | inr distinct ↦
        rw (distinct, run)
          (run-without policy calls (step policy b call) (step-other policy b call distinct ∙ kept)
            over)
  ]
