-- ===== src/Ledger/Outcomes.antt =====
-- src/gateway/attempt.rs: what the calls on the ledger do to one attempt and to its window.
use llmshim.Common.{
  ℕ, String, Bool, ◌<◌, ltb, eqb, if◌then◌else◌, true, false, ◌≤◌, ◌+◌, ◌-◌, ◌≡◌, ◌∙◌, refl, sym,
  subst, none, some, arith, if_cases, Bool-cases, inl, inr, ◌⊎◌, nat_key,
}
use llmshim.Common.Map.{get, insert, get-insert, ==_refl}
use llmshim.Common.Word.{usize_max, checked_add, checked_sub}
use llmshim.Attempt.{AttemptOutcome}
use llmshim.Budget.{BudgetPolicySnapshot, BudgetQuote, may_finalize, max_exact_redis_nanos}
use llmshim.Ledger.State.{
  BudgetWindowKey, budget_window_key, AttemptLiability, BudgetState, unwrap_or, is_frozen,
}
use llmshim.Ledger.Expiry.{budget_wait}
use llmshim.Ledger.Usage.{Recorded, raise_total, store_total}
use llmshim.Ledger.Settlement.{
  finish, finish_found, settle, settle_total, lower_total, settlement_of,
}
use llmshim.Ledger.Admission.{
  for_budget, plan_charge, commit, commit_total, admits, fits_limit, reserved, window_of,
}

-- What the window holds before an admission.
abbrev pub current_of : BudgetState → BudgetWindowKey → ℕ
current_of b w = unwrap_or (get b.totals w) 0

-- An admitted charge is within the limit.
admitted_within :
    (b : BudgetState) (policy : BudgetPolicySnapshot) (w : BudgetWindowKey) (q : BudgetQuote)
    → admits b policy w q ≡ true
    → current_of b w + (reserved q policy.limit_nanos (current_of b w)).amount_nanos
      ≤ policy.limit_nanos
unfolding admits reserved fits_limit checked_add
admitted_within b policy w q h = ground arith

-- The window is frozen, the limit is 0, or the limit would be exceeded: by the quote, or by any
-- amount at all if the quote has no bound.
abbrev pub Exceeds : (limit current amount : ℕ) → (bounded : Bool) → Type 0
Exceeds limit current amount true = limit < current + amount
Exceeds limit current amount false = limit ≤ current

abbrev pub HasNoMoney : BudgetState → BudgetPolicySnapshot → BudgetWindowKey → BudgetQuote → Type 0
HasNoMoney b policy w q =
    (is_frozen b w ≡ true)
    ⊎ ((policy.limit_nanos ≡ 0)
        ⊎ Exceeds policy.limit_nanos (current_of b w) q.amount_nanos q.bounded)

over_limit :
    (limit current amount : ℕ) (bounded : Bool)
    → limit ≤ usize_max
    → (if bounded then fits_limit (checked_add current amount) limit else ltb current limit) ≡ false
    → Exceeds limit current amount bounded
unfolding fits_limit checked_add
over_limit limit current amount true bound h = ground (arith, h, bound)
over_limit limit current amount false bound h = ground (arith, h)

pub admits-HasNoMoney :
    (b : BudgetState) (policy : BudgetPolicySnapshot) (w : BudgetWindowKey) (q : BudgetQuote)
    → policy.limit_nanos ≤ usize_max
    → admits b policy w q ≡ false
    → HasNoMoney b policy w q
unfolding admits
admits-HasNoMoney b policy w q bound h = elim (Bool-cases (is_frozen b w)) [
  | inl frozen ↦ inl frozen
  | inr thawed ↦ inr (elim (Bool-cases (eqb policy.limit_nanos 0)) [
    | inl nothing ↦ inl (ground (arith, nothing))
    | inr money ↦ inr (
        over_limit policy.limit_nanos (current_of b w) q.amount_nanos q.bounded bound
          (ground (arith, h, thawed, money)))
  ])
]

pub plan_charge-refused :
    (b : BudgetState) (id retention : ℕ) (tenant : String) (policy : BudgetPolicySnapshot)
    (q : BudgetQuote) (now : ℕ)
    → admits b policy (window_of tenant policy now) q ≡ false
    → commit b id (plan_charge b retention tenant (some policy) (some q) now)
      ≡ (some (for_budget (budget_wait policy.window_secs now)), b)
unfolding plan_charge commit
plan_charge-refused b id retention tenant policy q now refused = rw refused refl

pub plan_charge-charged :
    (b : BudgetState) (id retention : ℕ) (tenant : String) (policy : BudgetPolicySnapshot)
    (q : BudgetQuote) (now : ℕ)
    → policy.limit_nanos ≤ usize_max
    → let w = window_of tenant policy now in
      let amount = (reserved q policy.limit_nanos (current_of b w)).amount_nanos in
      let r = commit b id (plan_charge b retention tenant (some policy) (some q) now) in
      admits b policy w q ≡ true
      → (r.0 ≡ none)
        × ((get r.1.totals w ≡ some (current_of b w + amount))
            × (current_of b w + amount ≤ policy.limit_nanos))
unfolding plan_charge commit commit_total
plan_charge-charged b id retention tenant policy q now bound admitted =
    let w : BudgetWindowKey = window_of tenant policy now in
    let total : ℕ = current_of b w in
    let quote : BudgetQuote = reserved q policy.limit_nanos total in
    let within : total + quote.amount_nanos ≤ policy.limit_nanos =
      admitted_within b policy w q admitted in
    let fits : checked_add total quote.amount_nanos ≡ some (total + quote.amount_nanos) =
      unfold checked_add in ground arith in
    rw (admitted, fits)
      (refl, (get-insert b.totals w w (total + quote.amount_nanos) ∙ rw (==_refl w) refl, within))

-- For a limit of the machine's width, a quote is either charged, and the total of the window is
-- then what it was and the amount reserved, which is within the limit; or refused until the
-- window ends, and the ledger is as it was. The overflow that the code guards against when it
-- charges does not occur.
pub plan_charge-commit :
    (b : BudgetState) (id retention : ℕ) (tenant : String) (policy : BudgetPolicySnapshot)
    (q : BudgetQuote) (now : ℕ)
    → policy.limit_nanos ≤ usize_max
    → let w = window_of tenant policy now in
      let amount = (reserved q policy.limit_nanos (current_of b w)).amount_nanos in
      let r = commit b id (plan_charge b retention tenant (some policy) (some q) now) in
      ((r.0 ≡ none)
        × ((get r.1.totals w ≡ some (current_of b w + amount))
            × (current_of b w + amount ≤ policy.limit_nanos)))
      ⊎ (r ≡ (some (for_budget (budget_wait policy.window_secs now)), b))
plan_charge-commit b id retention tenant policy q now bound =
    elim (Bool-cases (admits b policy (window_of tenant policy now) q)) [
      | inr refused ↦ inr (plan_charge-refused b id retention tenant policy q now refused)
      | inl admitted ↦ inl (plan_charge-charged b id retention tenant policy q now bound admitted)
    ]

abbrev MovedIn : AttemptLiability → (final total : ℕ) → Recorded × BudgetState → Type 0
MovedIn a final total r = get r.1.totals a.window_key ≡ some (total + final - a.liability_nanos)

settle_total-total :
    (b : BudgetState) (w : BudgetWindowKey) (previous final total : ℕ)
    → previous ≤ total
    → total + final ≤ previous + max_exact_redis_nanos
    → get (settle_total b w previous final (some total)).1.totals w
      ≡ some (total + final - previous)
unfolding settle_total lower_total raise_total store_total checked_add checked_sub
settle_total-total b w previous final total enough small = ground (
  arith,
  get-insert b.totals w w (total - (previous - final)),
  get-insert b.totals w w (total + (final - previous)),
  ==_refl w,
)

settle-total :
    (b : BudgetState) (id : ℕ) (a : AttemptLiability) (final total : ℕ)
    → is_frozen b a.window_key ≡ false
    → get b.totals a.window_key ≡ some total
    → a.liability_nanos ≤ total
    → total + final ≤ a.liability_nanos + max_exact_redis_nanos
    → MovedIn a final total (settle b id a (some final))
unfolding settle
settle-total b id a final total thawed found enough small =
    rw (thawed, found)
      (settle_total-total
        (record b {
          attempts = insert b.attempts id (record a { liability_nanos = final; finalized = true });
        })
        a.window_key a.liability_nanos final total enough small)

-- The end of an attempt that is kept and not finalized, with an outcome that may settle it and a
-- settled amount, in a window that is not frozen, moves the total of the window by the
-- difference between the settled amount and the liability that stood, where the total covers
-- that liability and the new total is at most 2^53.
pub finish-total :
    (policy : BudgetPolicySnapshot) (b : BudgetState) (id : ℕ) (a : AttemptLiability)
    (outcome : AttemptOutcome) (final total : ℕ)
    → get b.attempts id ≡ some a
    → a.finalized ≡ false
    → may_finalize outcome ≡ true
    → settlement_of a ≡ some final
    → is_frozen b a.window_key ≡ false
    → get b.totals a.window_key ≡ some total
    → a.liability_nanos ≤ total
    → total + final ≤ a.liability_nanos + max_exact_redis_nanos
    → get (finish (some policy) b id outcome).1.totals a.window_key
      ≡ some (total + final - a.liability_nanos)
unfolding finish finish_found
finish-total policy b id a outcome final total kept fresh may settles thawed found enough small =
    rw kept (
      if_cases (MovedIn a final total) a.finalized _ _ (λ done. absurd (ground arith))
        (λ _.
          if_cases (MovedIn a final total) (may_finalize outcome) _ _
            (λ _.
              subst (λ x. MovedIn a final total (settle b id a x)) (sym settles)
                (settle-total b id a final total thawed found enough small))
            (λ withheld. absurd (ground arith))))
