-- ===== src/Rates.antt =====
-- src/proxy/ratelimit.rs: the configured limits.
pub mod Limiter
use llmshim.Common.{ℕ, String, Bool, true, false, ◌&&◌, ◌||◌, Option, none, some, eqb, string_key}
use llmshim.Common.Map.{Map, get}

pub record ProviderLimit : Type 0 where
  pub rpm : Option ℕ
  pub tpm : Option ℕ

-- Option::is_none and `== Some(0)`
is_none : Option ℕ → Bool
is_none none = true
is_none (some n) = false

is_zero : Option ℕ → Bool
is_zero none = false
is_zero (some n) = eqb n 0

unfoldable pub is_unlimited : ProviderLimit → Bool
unfolding is_none
is_unlimited l = is_none l.rpm && is_none l.tpm

unfoldable pub has_zero_limit : ProviderLimit → Bool
unfolding is_zero
has_zero_limit l = is_zero l.rpm || is_zero l.tpm

pub record RateLimitConfig : Type 0 where
  pub global : ProviderLimit
  pub per_provider : Map String ProviderLimit

-- Option::or
abbrev or_else : Option ℕ → Option ℕ → Option ℕ
or_else none b = b
or_else (some a) b = some a

override : Option ProviderLimit → ProviderLimit → ProviderLimit
override none global = global
override (some ov) global = record {
  rpm = or_else ov.rpm global.rpm;
  tpm = or_else ov.tpm global.tpm;
}

unfoldable pub resolve : RateLimitConfig → String → ProviderLimit
unfolding override
resolve c provider = override (get c.per_provider provider) c.global
