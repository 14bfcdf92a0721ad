-- ===== src/Buckets.antt =====
-- src/gateway/attempt.rs: the token buckets of one dimension (requests or tokens for each minute).
-- A duration and an instant are numbers of nanoseconds. `f64` is the parameter `Float`.
use llmshim.Common.{
  ℕ, ◌-◌, ◌+◌, String, Option, none, some, ltb, eqb, if◌then◌else◌, string_key, max, ◌≡◌, refl,
  arith, if_cases,
}
use llmshim.Common.Float.{Float}
use llmshim.Common.Map.{Map, get, insert, get-insert, ==_refl}

abbrev pub zero_limit_retry_after : ℕ
zero_limit_retry_after = 60000000000

pub record Bucket (F : Type 0) : Type 0 where
  pub capacity : F
  pub refill_per_second : F
  pub tokens : F
  pub last_refill : ℕ
  pub penalty_until : Option ℕ

module _ (float : Float) where
  open float use {F, of_nat, plus, minus, times, over, smaller, le, epsilon, as_secs, from_secs}

  unfoldable pub new : (per_minute now : ℕ) → Bucket F
  new per_minute now = record {
    capacity = of_nat per_minute;
    refill_per_second = over (of_nat per_minute) (of_nat 60);
    tokens = of_nat per_minute;
    last_refill = now;
    penalty_until = none;
  }

  refill : Bucket F → ℕ → Bucket F
  refill b now = record b {
    tokens =
        smaller (plus b.tokens (times (as_secs (now - b.last_refill)) b.refill_per_second))
          b.capacity;
    last_refill = now;
  }

  shortage : Bucket F → F → Option ℕ
  shortage b required =
      if le required (plus b.tokens epsilon)
      then none
      else if le b.refill_per_second (of_nat 0)
      then some zero_limit_retry_after
      else some (from_secs (over (minus required b.tokens) b.refill_per_second))

  penalty : Option ℕ → ℕ → Option ℕ
  penalty none now = none
  penalty (some deadline) now = if ltb now deadline then some (deadline - now) else none

  -- The penalty, if it runs, is the wait; else the time in which the tokens come back.
  or_shortage : Option ℕ → Option ℕ → Option ℕ
  or_shortage (some wait) s = some wait
  or_shortage none s = s

  -- The wait of a refusal, or none.
  unfoldable pub check : Bucket F → F → ℕ → Option ℕ × Bucket F
  unfolding refill shortage penalty or_shortage
  check b required now =
      let b' = refill b now in
      (or_shortage (penalty b.penalty_until now) (shortage b' required), b')

  unfoldable pub debit : Bucket F → F → Bucket F
  debit b required = record b { tokens = minus b.tokens required }

  latest : Option ℕ → ℕ → ℕ
  latest none deadline = deadline
  latest (some old) deadline = max old deadline

  unfoldable pub penalize : Bucket F → (duration now : ℕ) → Bucket F
  unfolding latest
  penalize b duration now = record b {
    penalty_until = some (latest b.penalty_until (now + duration));
    tokens = of_nat 0;
  }

  or_new : Option (Bucket F) → ℕ → ℕ → Bucket F
  unfolding new
  or_new none per_minute now = new per_minute now
  or_new (some b) per_minute now = b

  unfoldable pub check_dimension :
      Map String (Bucket F) → String → Option ℕ → F → ℕ → Option ℕ × Map String (Bucket F)
  unfolding check or_new
  check_dimension buckets k none required now = (none, buckets)
  check_dimension buckets k (some limit) required now =
      if eqb limit 0
      then (some zero_limit_retry_after, buckets)
      else (let (wait, b) = check (or_new (get buckets k) limit now) required now in
          (wait, insert buckets k b))

  debit_found :
      Map String (Bucket F) → String → F → Option (Bucket F) → Option (Map String (Bucket F))
  unfolding debit
  debit_found buckets k required none = none
  debit_found buckets k required (some b) = some (insert buckets k (debit b required))

  -- `none` is the panic of `expect("checked bucket must exist")`.
  unfoldable pub debit_dimension :
      Map String (Bucket F) → String → Option ℕ → F → Option (Map String (Bucket F))
  unfolding debit_found
  debit_dimension buckets k none required = some buckets
  debit_dimension buckets k (some limit) required = debit_found buckets k required (get buckets k)

  -- One of the two steps of `LocalAttemptRates::penalize`; a limit of 0 has no bucket.
  unfoldable pub penalize_dimension :
      Map String (Bucket F) → String → Option ℕ → (duration now : ℕ) → Map String (Bucket F)
  unfolding penalize or_new
  penalize_dimension buckets k none duration now = buckets
  penalize_dimension buckets k (some limit) duration now =
      if eqb limit 0
      then buckets
      else insert buckets k (penalize (or_new (get buckets k) limit now) duration now)

  debit_inserted :
      (buckets : Map String (Bucket F)) (k : String) (b : Bucket F) (limit : ℕ) (required : F)
      → debit_dimension (insert buckets k b) k (some limit) required
        ≡ some (insert (insert buckets k b) k (debit b required))
  unfolding debit_dimension debit_found
  debit_inserted buckets k b limit required = rw (get-insert buckets k k b, ==_refl k) refl

  -- A bucket that did not refuse is there to be debited.
  pub check_dimension-debit_dimension :
      (buckets : Map String (Bucket F)) (k : String) (limit : Option ℕ) (required required' : F)
      (now : ℕ)
      → (check_dimension buckets k limit required now).0 ≡ none
      → (d : Map String (Bucket F)) × (debit_dimension
            (check_dimension buckets k limit required now).1
            k
            limit
            required'
          ≡ some d)
  unfolding check_dimension debit_dimension debit_found
  check_dimension-debit_dimension buckets k none required required' now h = (buckets, refl)
  check_dimension-debit_dimension buckets k (some limit) required required' now h =
      if_cases
        (λ (r : Option ℕ × Map String (Bucket F)).
          r.0 ≡ none
          → (d : Map String (Bucket F)) × (debit_dimension r.1 k (some limit) required' ≡ some d))
        (eqb limit 0) _ _ (λ _ waits. absurd (ground arith))
        (λ _ _.
          let b : Bucket F = (check (or_new (get buckets k) limit now) required now).1 in
          (
            insert (insert buckets k b) k (debit b required'),
            debit_inserted buckets k b limit required',
          ))
        h
