-- ===== src/Rates/Limiter/Examples.antt =====
-- src/proxy/ratelimit.rs: a provider with 60 requests for each minute, penalized for 5 seconds.
use llmshim.Common.{
  ℕ, ◌+◌, ◌-◌, ◌*◌, ◌/◌, min, max, leb, ltb, eqb, true, false, ◌≡◌, refl, arith, none, some, [],
  ◌∷◌,
}
use llmshim.Common.Float.{Float}
use llmshim.Common.Map.{get}
use llmshim.Rates.{RateLimitConfig, resolve, is_unlimited, has_zero_limit}
use llmshim.Rates.Limiter.{RateKey, InMemoryRateLimiter, new, acquire, penalize}
use llmshim.Rates.Limiter.Keys.{is_refused}
use llmshim.Rates.Limiter.Penalty.{acquires, penalizes, run, acquire-penalize}

abbrev whole : Float
whole = record {
  F = ℕ;
  of_nat = λ n. n;
  plus = λ a b. a + b;
  minus = λ a b. a - b;
  times = λ a b. a * b;
  over = λ a b. a / b;
  smaller = λ a b. min a b;
  larger = λ a b. max a b;
  min_positive = 1;
  le = leb;
  lt = ltb;
  eq = eqb;
  epsilon = 0;
  as_secs = λ n. n / 1000000000;
  from_secs = λ s. s * 1000000000;
}

abbrev config : RateLimitConfig
config = record { global = record { rpm = some 60; tpm = none }; per_provider = [] }

abbrev openai : RateKey
openai = record { provider = "openai"; tenant = none }

acquire-penalize_example :
    let before = acquires openai 10 0 ∷ [] in
    let after = acquires openai 10 2000000000 ∷ penalizes openai 1 2000000000 ∷ [] in
    let r =
      run whole
        (penalize whole (run whole (new config) before) openai 5000000000 1000000000)
        after in
    is_refused (acquire whole r openai 10 5999999999).0 ≡ true
unfolding resolve is_unlimited get
acquire-penalize_example =
    acquire-penalize whole openai config refl (acquires openai 10 0 ∷ [])
      (acquires openai 10 2000000000 ∷ penalizes openai 1 2000000000 ∷ []) 5000000000 1000000000 10
      5999999999 (omega arith)

granted : is_refused (acquire whole (new config) openai 10 0).0 ≡ false
unfolding acquire resolve is_unlimited has_zero_limit get llmshim.Rates.Limiter.acquire_key
    llmshim.Rates.Limiter.buckets_for llmshim.Rates.Limiter.refill llmshim.Rates.Limiter.check
granted = refl
