-- ===== src/Rates/Limiter.antt =====
-- src/proxy/ratelimit.rs: the buckets of a provider, and the limiter of one instance. An instant and
-- a duration are numbers of nanoseconds; `f64` is the parameter `Float`.
pub mod Keys
pub mod Penalty
mod Examples
use llmshim.Common.{
  ℕ, ◌+◌, ◌-◌, max, String, Bool, true, false, ◌&&◌, ◌||◌, ◌≡◌, ◌↔◌, refl, arith, Option, none,
  some, List, [], ltb, if◌then◌else◌, string_key, ◌==◌, Key,
}
use llmshim.Common.Float.{Float}
use llmshim.Common.Map.{Map, get, insert}
use llmshim.Rates.{ProviderLimit, is_unlimited, has_zero_limit, RateLimitConfig, resolve}

pub record RateKey : Type 0 where
  pub provider : String
  pub tenant : Option String

same_tenant : Option String → Option String → Bool
same_tenant none none = true
same_tenant (some a) (some b) = a == b
same_tenant a b = false

same_tenant_iff : (a b : Option String) → (same_tenant a b ≡ true) ↔ (a ≡ b)
unfolding same_tenant
same_tenant_iff none none = ground arith
same_tenant_iff none (some b) = ground arith
same_tenant_iff (some a) none = ground arith
same_tenant_iff (some a) (some b) = ground (arith, string_key.same_key_iff a b)

pub same_rate_key : RateKey → RateKey → Bool
same_rate_key a b = a.provider == b.provider && same_tenant a.tenant b.tenant

pub same_rate_key_iff : (a b : RateKey) → (same_rate_key a b ≡ true) ↔ (a ≡ b)
unfolding same_rate_key
same_rate_key_iff a b =
    ground (arith, string_key.same_key_iff a.provider b.provider, same_tenant_iff a.tenant b.tenant)

instance abbrev pub rate_key : Key RateKey
rate_key = record { same_key = same_rate_key; same_key_iff = same_rate_key_iff }

abbrev pub zero_limit_retry_after : ℕ
zero_limit_retry_after = 60000000000

pub record TokenBucket (F : Type 0) : Type 0 where
  pub capacity : F
  pub refill_per_sec : F
  pub tokens : F
  pub last : ℕ
  pub penalty_until : Option ℕ

pub record KeyBuckets (F : Type 0) : Type 0 where
  pub rpm : Option (TokenBucket F)
  pub tpm : Option (TokenBucket F)

pub record InMemoryRateLimiter (F : Type 0) : Type 0 where
  pub config : RateLimitConfig
  pub buckets : Map RateKey (KeyBuckets F)

abbrev pub new : {F : Type 0} → RateLimitConfig → InMemoryRateLimiter F
new config = record { config = config; buckets = [] }

-- The wait of a refusal, or none.
abbrev pub Refused : Type 0
Refused = Option ℕ

abbrev pub penalty_left : Option ℕ → (now : ℕ) → Refused
penalty_left none now = none
penalty_left (some until) now = if ltb now until then some (until - now) else none

abbrev pub first_of : Refused → Refused → Refused
first_of (some wait) other = some wait
first_of none other = other

-- `note`: the longer of the waits.
abbrev pub note : Refused → Refused → Refused
note none other = other
note (some wait) none = some wait
note (some wait) (some other) = some (max wait other)

abbrev pub later : Option ℕ → ℕ → ℕ
later none until = until
later (some existing) until = if ltb until existing then existing else until

module _ (float : Float) where
  open float use {
    F, of_nat, plus, minus, times, over, smaller, larger, min_positive, le, lt, eq, epsilon,
    as_secs, from_secs,
  }

  unfoldable pub from_per_minute : (per_minute : F) → (now : ℕ) → TokenBucket F
  from_per_minute per_minute now =
      let is_zero = eq per_minute (of_nat 0) in
      let capacity = if is_zero then of_nat 0 else larger per_minute (of_nat 1) in
      record {
        capacity = capacity;
        refill_per_sec =
            if is_zero then of_nat 0 else larger (over per_minute (of_nat 60)) min_positive;
        tokens = capacity;
        last = now;
        penalty_until = none;
      }

  unfoldable pub refill : TokenBucket F → (now : ℕ) → TokenBucket F
  refill b now =
      let elapsed = as_secs (now - b.last) in
      if lt (of_nat 0) elapsed
      then record b {
        tokens = smaller (plus b.tokens (times elapsed b.refill_per_sec)) b.capacity;
        last = now;
      }
      else b

  abbrev pub deficit_wait : TokenBucket F → (permits : F) → Refused
  deficit_wait b permits =
      if le permits (plus b.tokens epsilon)
      then none
      else if le b.refill_per_sec (of_nat 0)
      then some zero_limit_retry_after
      else some (from_secs (over (minus permits b.tokens) b.refill_per_sec))

  unfoldable pub check : TokenBucket F → (permits : F) → (now : ℕ) → Refused
  check b permits now = first_of (penalty_left b.penalty_until now) (deficit_wait b permits)

  unfoldable pub commit : TokenBucket F → (permits : F) → TokenBucket F
  commit b permits = record b { tokens = minus b.tokens permits }

  unfoldable pub penalize_bucket : TokenBucket F → (retry_after now : ℕ) → TokenBucket F
  penalize_bucket b retry_after now = record b {
    penalty_until = some (later b.penalty_until (now + retry_after));
    tokens = of_nat 0;
  }

  abbrev pub refill_in : Option (TokenBucket F) → (now : ℕ) → Option (TokenBucket F)
  refill_in none now = none
  refill_in (some b) now = some (refill b now)

  abbrev pub check_in : Option (TokenBucket F) → (permits : F) → (now : ℕ) → Refused
  check_in none permits now = none
  check_in (some b) permits now = check b permits now

  abbrev pub commit_in : Option (TokenBucket F) → (permits : F) → Option (TokenBucket F)
  commit_in none permits = none
  commit_in (some b) permits = some (commit b permits)

  abbrev pub penalize_in : Option (TokenBucket F) → (retry_after now : ℕ) → Option (TokenBucket F)
  penalize_in none retry_after now = none
  penalize_in (some b) retry_after now = some (penalize_bucket b retry_after now)

  abbrev pub charge : KeyBuckets F → (tpm_permits : F) → Refused → Refused × KeyBuckets F
  charge k tpm_permits (some wait) = (some wait, k)
  charge k tpm_permits none =
      (none, record { rpm = commit_in k.rpm (of_nat 1); tpm = commit_in k.tpm tpm_permits })

  unfoldable pub acquire_key : KeyBuckets F → (tpm_permits : F) → (now : ℕ) → Refused × KeyBuckets F
  unfolding refill check commit
  acquire_key k tpm_permits now =
      let k' : KeyBuckets F = record { rpm = refill_in k.rpm now; tpm = refill_in k.tpm now } in
      charge k' tpm_permits
        (note (check_in k'.rpm (of_nat 1) now) (check_in k'.tpm tpm_permits now))

  unfoldable pub penalize_key : KeyBuckets F → (retry_after now : ℕ) → KeyBuckets F
  unfolding penalize_bucket
  penalize_key k retry_after now = record {
    rpm = penalize_in k.rpm retry_after now;
    tpm = penalize_in k.tpm retry_after now;
  }

  abbrev pub bucket_for : Option ℕ → (now : ℕ) → Option (TokenBucket F)
  bucket_for none now = none
  bucket_for (some limit) now = some (from_per_minute (of_nat limit) now)

  unfoldable pub buckets_for : ProviderLimit → (now : ℕ) → KeyBuckets F
  unfolding from_per_minute
  buckets_for limit now = record { rpm = bucket_for limit.rpm now; tpm = bucket_for limit.tpm now }

  -- entry(key).or_insert_with(...)
  abbrev pub or_inserted : Option (KeyBuckets F) → ProviderLimit → (now : ℕ) → KeyBuckets F
  or_inserted (some k) limit now = k
  or_inserted none limit now = buckets_for limit now

  unfoldable pub acquire :
      InMemoryRateLimiter F → RateKey → (permits now : ℕ) → Refused × InMemoryRateLimiter F
  unfolding resolve is_unlimited has_zero_limit get insert acquire_key buckets_for
  acquire r key permits now =
      let limit = resolve r.config key.provider in
      let (refused, k) =
        acquire_key (or_inserted (get r.buckets key) limit now) (of_nat (max permits 1)) now in
      if is_unlimited limit
      then (none, r)
      else if has_zero_limit limit
      then (some zero_limit_retry_after, r)
      else (refused, record r { buckets = insert r.buckets key k })

  unfoldable pub penalize :
      InMemoryRateLimiter F → RateKey → (retry_after now : ℕ) → InMemoryRateLimiter F
  unfolding resolve is_unlimited has_zero_limit get insert penalize_key buckets_for
  penalize r key retry_after now =
      let limit = resolve r.config key.provider in
      if is_unlimited limit || has_zero_limit limit then r else record r {
        buckets =
            insert r.buckets key
              (penalize_key (or_inserted (get r.buckets key) limit now) retry_after now);
      }
