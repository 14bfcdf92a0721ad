-- ===== src/Rates/Limiter/Keys.antt =====
-- src/proxy/ratelimit.rs: the buckets of a key under a penalty.
use llmshim.Common.{
  ℕ, ◌+◌, ◌<◌, Bool, true, false, ◌&&◌, ◌||◌, ◌≡◌, refl, arith, Option, none, some, leb,
}
use llmshim.Common.Float.{Float}
use llmshim.Rates.Limiter.{
  rate_key, TokenBucket, KeyBuckets, Refused, refill, check, commit, penalize_bucket, refill_in,
  check_in, commit_in, penalize_in, acquire_key, penalize_key,
}

abbrev pub is_refused : Refused → Bool
is_refused none = false
is_refused (some wait) = true

abbrev pub is_after : (until : ℕ) → Option ℕ → Bool
is_after until none = false
is_after until (some u) = leb until u

abbrev pub is_penalized : {F : Type 0} → (until : ℕ) → Option (TokenBucket F) → Bool
is_penalized until none = true
is_penalized until (some b) = is_after until b.penalty_until

abbrev pub is_there : {F : Type 0} → Option (TokenBucket F) → Bool
is_there none = false
is_there (some b) = true

-- A key's buckets: there is one, and where a penalty is to hold, it holds for both.
abbrev pub holds : {F : Type 0} → Option ℕ → KeyBuckets F → Bool
holds none k = is_there k.rpm || is_there k.tpm
holds (some until) k =
    (is_there k.rpm || is_there k.tpm) && (is_penalized until k.rpm && is_penalized until k.tpm)

module _ (float : Float) where
  open float use {F, of_nat}

  keeps_refill :
      (until now : ℕ) (o : Option (TokenBucket F))
      → (is_penalized until (refill_in float o now) ≡ is_penalized until o)
        × (is_there (refill_in float o now) ≡ is_there o)
  unfolding refill
  keeps_refill until now none = (refl, refl)
  keeps_refill until now (some b) = ground arith

  keeps_commit :
      (until : ℕ) (permits : F) (o : Option (TokenBucket F))
      → (is_penalized until (commit_in float o permits) ≡ is_penalized until o)
        × (is_there (commit_in float o permits) ≡ is_there o)
  unfolding commit
  keeps_commit until permits none = (refl, refl)
  keeps_commit until permits (some b) = (refl, refl)

  keeps_penalize :
      (until retry_after now : ℕ) (o : Option (TokenBucket F))
      → (is_penalized until o ≡ true
          → is_penalized until (penalize_in float o retry_after now) ≡ true)
        × ((is_penalized (now + retry_after) (penalize_in float o retry_after now) ≡ true)
            × (is_there (penalize_in float o retry_after now) ≡ is_there o))
  unfolding penalize_bucket
  keeps_penalize until retry_after now none = ground arith
  keeps_penalize until retry_after now (some b) = ground arith

  refuses :
      (until now : ℕ) (permits : F) (o : Option (TokenBucket F))
      → is_penalized until o ≡ true
      → now < until
      → is_refused (check_in float o permits now) ≡ is_there o
  unfolding check
  refuses until now permits none h k = refl
  refuses until now permits (some b) h k = ground (arith, h, k)

  pub holds-acquire_key :
      (until : Option ℕ) (k : KeyBuckets F) (permits : F) (now : ℕ)
      → holds until k ≡ true
      → holds until (acquire_key float k permits now).1 ≡ true
  unfolding acquire_key
  holds-acquire_key none k permits now h = ground (
    arith,
    h,
    keeps_refill 0 now k.rpm,
    keeps_refill 0 now k.tpm,
    keeps_commit 0 (of_nat 1) (refill_in float k.rpm now),
    keeps_commit 0 permits (refill_in float k.tpm now),
  )
  holds-acquire_key (some u) k permits now h = ground (
    arith,
    h,
    keeps_refill u now k.rpm,
    keeps_refill u now k.tpm,
    keeps_commit u (of_nat 1) (refill_in float k.rpm now),
    keeps_commit u permits (refill_in float k.tpm now),
  )

  pub holds-penalize_key :
      (until : Option ℕ) (k : KeyBuckets F) (retry_after now : ℕ)
      → holds until k ≡ true
      → (holds until (penalize_key float k retry_after now) ≡ true)
        × (holds (some (now + retry_after)) (penalize_key float k retry_after now) ≡ true)
  unfolding penalize_key
  holds-penalize_key none k retry_after now h =
      ground
        (arith, h, keeps_penalize 0 retry_after now k.rpm, keeps_penalize 0 retry_after now k.tpm)
  holds-penalize_key (some u) k retry_after now h =
      ground
        (arith, h, keeps_penalize u retry_after now k.rpm, keeps_penalize u retry_after now k.tpm)

  pub refuses-acquire_key :
      (until now : ℕ) (k : KeyBuckets F) (permits : F)
      → holds (some until) k ≡ true
      → now < until
      → is_refused (acquire_key float k permits now).0 ≡ true
  unfolding acquire_key
  refuses-acquire_key until now k permits h l = ground (
    arith,
    h,
    l,
    keeps_refill until now k.rpm,
    keeps_refill until now k.tpm,
    refuses until now (of_nat 1) (refill_in float k.rpm now),
    refuses until now permits (refill_in float k.tpm now),
  )
