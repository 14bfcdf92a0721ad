-- ===== src/Ledger/Endings.antt =====
-- src/gateway/attempt.rs: which ends of an attempt change the ledger, and how.
use llmshim.Common.{
  ℕ, true, false, ◌≡◌, ◌∙◌, refl, ap, sym, subst, Option, none, some, List, if_cases, Option-cases,
  inl, inr, ◌⊎◌, nat_key,
}
use llmshim.Common.Map.{get, get-insert, ==_refl}
use llmshim.Attempt.{
  AttemptOutcome, completed, http_failure, transport_failure, invalid_response, stream_failure,
  abandoned, usage_observed, no_usage_reported, unknown,
}
use llmshim.Budget.{BudgetPolicySnapshot, may_finalize}
use llmshim.Ledger.State.{budget_window_key, AttemptLiability, BudgetState}
use llmshim.Ledger.Usage.{Recorded}
use llmshim.Ledger.Settlement.{finish, finish_found, settle, settlement_of}
use llmshim.Ledger.Calls.{Call, run, without, run-without, settle-attempts}

-- A response that came in full, with its usage.
abbrev pub IsFullResponse : AttemptOutcome → Type 0
IsFullResponse outcome =
    (outcome ≡ completed usage_observed) ⊎ (outcome ≡ invalid_response usage_observed)

may_finalize-IsFullResponse :
    (outcome : AttemptOutcome) → may_finalize outcome ≡ true → IsFullResponse outcome
unfolding may_finalize
may_finalize-IsFullResponse (completed usage_observed) h = inl refl
may_finalize-IsFullResponse (completed no_usage_reported) h = cc
may_finalize-IsFullResponse (completed unknown) h = cc
may_finalize-IsFullResponse (invalid_response usage_observed) h = inr refl
may_finalize-IsFullResponse (invalid_response no_usage_reported) h = cc
may_finalize-IsFullResponse (invalid_response unknown) h = cc
may_finalize-IsFullResponse (http_failure status a) h = cc
may_finalize-IsFullResponse (transport_failure a) h = cc
may_finalize-IsFullResponse (stream_failure a) h = cc
may_finalize-IsFullResponse (abandoned kind a) h = cc

-- The attempt was not finalized, and is now, at an amount that was reported at its end.
abbrev pub Finalizes : BudgetState → ℕ → BudgetState → Type 0
Finalizes b id after =
    (a : AttemptLiability) × ((final : ℕ) × ((get b.attempts id ≡ some a)
        × ((a.finalized ≡ false)
            × ((settlement_of a ≡ some final)
                × (get after.attempts id
                    ≡ some (record a { liability_nanos = final; finalized = true }))))))

finish_found-full :
    (b : BudgetState) (id : ℕ) (outcome : AttemptOutcome) (a : AttemptLiability)
    → get b.attempts id ≡ some a
    → let after = (finish_found b id outcome (some a)).1 in
      (after ≡ b) ⊎ (IsFullResponse outcome × Finalizes b id after)
unfolding finish_found settle
finish_found-full b id outcome a kept =
    let Says : Recorded × BudgetState → Type 0 =
      λ r. (r.1 ≡ b) ⊎ (IsFullResponse outcome × Finalizes b id r.1) in
    if_cases Says a.finalized _ _ (λ _. inl refl)
      (λ fresh.
        if_cases Says (may_finalize outcome) _ _
          (λ may. elim (Option-cases (settlement_of a)) [
            | inl unsettled ↦ rw (unsettled, settle) (inl refl)
            | inr (final, settles) ↦
                let settled : AttemptLiability = record a {
                  liability_nanos = final;
                  finalized = true;
                } in
                subst (λ x. Says (settle b id a x)) (sym settles)
                  (inr (
                    may_finalize-IsFullResponse outcome may,
                    (
                      a,
                      (
                        final,
                        (
                          kept,
                          (
                            fresh,
                            (
                              settles,
                              ap (λ m. get m id) (settle-attempts b id a final)
                                  ∙ get-insert b.attempts id id settled
                                  ∙ rw (==_refl id) refl,
                            ),
                          ),
                        ),
                      ),
                    ),
                  ))
          ])
          (λ _. inl refl))

-- The end of an attempt changes nothing in the ledger, unless it comes with a response in full
-- whose usage was observed, completed or invalid, and finalizes an attempt that was kept and not
-- finalized, at the settled amount that its reports give.
pub finish-full :
    (policy : Option BudgetPolicySnapshot) (b : BudgetState) (id : ℕ) (outcome : AttemptOutcome)
    → let after = (finish policy b id outcome).1 in
      (after ≡ b) ⊎ (IsFullResponse outcome × Finalizes b id after)
unfolding finish finish_found
finish-full none b id outcome = inl refl
finish-full (some policy) b id outcome = elim (Option-cases (get b.attempts id)) [
  | inl gone ↦ rw gone (inl refl)
  | inr (a, kept) ↦
      subst
        (λ x.
          let after = (finish_found b id outcome x).1 in
          (after ≡ b) ⊎ (IsFullResponse outcome × Finalizes b id after))
        (sym kept) (finish_found-full b id outcome a kept)
]

-- An end of an attempt changes nothing in the ledger, or it is final: through every sequence of
-- reports and ends of attempts after it, its own included, the attempt is kept as the end left
-- it, and the ledger after the sequence is the one that the sequence without the calls about the
-- attempt leaves.
pub run-finish :
    (policy : Option BudgetPolicySnapshot) (b : BudgetState) (id : ℕ) (outcome : AttemptOutcome)
    (calls : List Call)
    → let after = (finish policy b id outcome).1 in
      (after ≡ b)
      ⊎ ((get (run policy after calls).attempts id ≡ get after.attempts id)
          × (run policy after calls ≡ run policy after (without id calls)))
run-finish policy b id outcome calls =
    let after : BudgetState = (finish policy b id outcome).1 in
    elim (finish-full policy b id outcome) [
      | inl same ↦ inl same
      | inr (full, (a, (final, (kept, (fresh, (settles, settled)))))) ↦
          let settled_a : AttemptLiability = record a {
            liability_nanos = final;
            finalized = true;
          } in
          let (stays, same) = run-without settled_a id policy calls after settled refl in
          inr (stays ∙ sym settled, same)
    ]
