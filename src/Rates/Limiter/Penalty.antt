-- ===== src/Rates/Limiter/Penalty.antt =====
-- src/proxy/ratelimit.rs: a penalty holds until it is over.
use llmshim.Common.{
  ℕ, ◌+◌, ◌<◌, max, Bool, true, false, ◌||◌, ◌≡◌, ◌∙◌, if_cases, Bool-cases, inl, inr, sym, ap,
  refl, subst, arith, Option, none, some, List, [], ◌∷◌, ◌==◌,
}
use llmshim.Common.Float.{Float}
use llmshim.Common.Map.{Map, get, insert, get-insert, ==_refl}
use llmshim.Rates.{ProviderLimit, is_unlimited, has_zero_limit, RateLimitConfig, resolve}
use llmshim.Rates.Limiter.{
  RateKey, rate_key, KeyBuckets, InMemoryRateLimiter, new, Refused, acquire_key, penalize_key,
  buckets_for, or_inserted, acquire, penalize,
}
use llmshim.Rates.Limiter.Keys.{
  is_refused, holds, holds-acquire_key, holds-penalize_key, refuses-acquire_key,
}

-- As it stands in the map; without a penalty, the key need not be there.
abbrev stands : {F : Type 0} → Option ℕ → Option (KeyBuckets F) → Bool
stands none none = true
stands (some until) none = false
stands until (some k) = holds until k

module _ (float : Float) where
  open float use {F, of_nat}

  holds-buckets_for :
      (limit : ProviderLimit) (now : ℕ)
      → is_unlimited limit ≡ false
      → holds none (buckets_for float limit now) ≡ true
  unfolding buckets_for is_unlimited
  holds-buckets_for limit now h = ground (arith, h)

  holds-or_inserted :
      (until : Option ℕ) (o : Option (KeyBuckets F)) (limit : ProviderLimit) (now : ℕ)
      → is_unlimited limit ≡ false
      → stands until o ≡ true
      → holds until (or_inserted float o limit now) ≡ true
  holds-or_inserted none none limit now l h = holds-buckets_for limit now l
  holds-or_inserted (some u) none limit now l h = absurd (ground (arith, h))
  holds-or_inserted none (some k) limit now l h = h
  holds-or_inserted (some u) (some k) limit now l h = h

  pub data Call : Type 0 where
    acquires : RateKey → (permits now : ℕ) → Call
    penalizes : RateKey → (retry_after now : ℕ) → Call

  abbrev pub perform : InMemoryRateLimiter F → Call → InMemoryRateLimiter F
  perform r (acquires key permits now) = (acquire float r key permits now).1
  perform r (penalizes key retry_after now) = penalize float r key retry_after now

  abbrev pub run : InMemoryRateLimiter F → List Call → InMemoryRateLimiter F
  run r [] = r
  run r (c ∷ cs) = run (perform r c) cs

  config-perform : (r : InMemoryRateLimiter F) (c : Call) → (perform r c).config ≡ r.config
  unfolding acquire penalize
  config-perform r (acquires k permits now) = ground arith
  config-perform r (penalizes k retry_after now) = ground arith

  -- What is put in for a key stands where it is put in for this key, or where what was there does.
  stands-insert :
      (until : Option ℕ) (m : Map RateKey (KeyBuckets F)) (key k : RateKey)
      (f : RateKey → KeyBuckets F)
      → stands until (get m key) ≡ true
      → holds until (f key) ≡ true
      → stands until (get (insert m k (f k)) key) ≡ true
  stands-insert until m key k f h l =
      subst (λ o. stands until o ≡ true) (sym (get-insert m k key (f k)))
        (if_cases (λ o. stands until o ≡ true) (k == key) (some (f k)) (get m key)
          (λ same.
            subst (λ j. stands until (some (f j)) ≡ true)
              (sym ((rate_key.same_key_iff k key).0 same)) (stands-some until (f key) l))
          (λ other. h))
    where
      stands-some : (u : Option ℕ) (k : KeyBuckets F) → holds u k ≡ true → stands u (some k) ≡ true
      stands-some none k h = h
      stands-some (some u) k h = h

  module _ (key : RateKey) where
    stands-perform :
        (until : Option ℕ) (r : InMemoryRateLimiter F) (c : Call)
        → is_unlimited (resolve r.config key.provider) ≡ false
        → stands until (get r.buckets key) ≡ true
        → stands until (get (perform r c).buckets key) ≡ true
    unfolding acquire penalize
    stands-perform until r (acquires k permits now) l h =
        if_cases
          (λ (x : Refused × InMemoryRateLimiter F). stands until (get x.1.buckets key) ≡ true)
          (is_unlimited (resolve r.config k.provider)) _ _ (λ _. h)
          (λ _.
            if_cases
              (λ (x : Refused × InMemoryRateLimiter F). stands until (get x.1.buckets key) ≡ true)
              (has_zero_limit (resolve r.config k.provider)) _ _ (λ _. h)
              (λ _.
                stands-insert until r.buckets key k
                  (λ j.
                    (acquire_key float
                      (or_inserted float (get r.buckets j) (resolve r.config j.provider) now)
                      (of_nat (max permits 1)) now).1)
                  h
                  (holds-acquire_key float until _ (of_nat (max permits 1)) now
                    (holds-or_inserted until (get r.buckets key) _ now l h))))
    stands-perform until r (penalizes k retry_after now) l h =
        if_cases (λ (x : InMemoryRateLimiter F). stands until (get x.buckets key) ≡ true)
          (is_unlimited (resolve r.config k.provider)
            || has_zero_limit (resolve r.config k.provider))
          _ _ (λ _. h)
          (λ _.
            stands-insert until r.buckets key k
              (λ j.
                penalize_key float
                  (or_inserted float (get r.buckets j) (resolve r.config j.provider) now)
                  retry_after now)
              h
              (holds-penalize_key float until _ retry_after now
                (holds-or_inserted until (get r.buckets key) _ now l h)).0)

    -- The limits of a provider, by any test of them, stay those of the configuration.
    limit-run :
        (test : ProviderLimit → Bool) (b : Bool) (r : InMemoryRateLimiter F) (cs : List Call)
        → test (resolve r.config key.provider) ≡ b
        → test (resolve (run r cs).config key.provider) ≡ b
    limit-run test b r [] h = h
    limit-run test b r (c ∷ cs) h =
        limit-run test b (perform r c) cs
          (ap (λ (x : RateLimitConfig). test (resolve x key.provider)) (config-perform r c) ∙ h)

    stands-run :
        (until : Option ℕ) (r : InMemoryRateLimiter F) (cs : List Call)
        → is_unlimited (resolve r.config key.provider) ≡ false
        → stands until (get r.buckets key) ≡ true
        → stands until (get (run r cs).buckets key) ≡ true
    stands-run until r [] l h = h
    stands-run until r (c ∷ cs) l h =
        stands-run until (perform r c) cs (limit-run is_unlimited false r (c ∷ []) l)
          (stands-perform until r c l h)

    stands-new :
        (config : RateLimitConfig) → stands none (get (new {F = F} config).buckets key) ≡ true
    unfolding get
    stands-new config = refl

    stands-penalize :
        (r : InMemoryRateLimiter F) (retry_after now : ℕ)
        → is_unlimited (resolve r.config key.provider) ≡ false
        → has_zero_limit (resolve r.config key.provider) ≡ false
        → stands none (get r.buckets key) ≡ true
        → stands (some (now + retry_after)) (get (penalize float r key retry_after now).buckets key)
          ≡ true
    unfolding penalize
    stands-penalize r retry_after now l z h =
        rw
          (
            l,
            z,
            get-insert r.buckets key key (
                penalize_key float
                  (or_inserted float (get r.buckets key) (resolve r.config key.provider) now)
                  retry_after now),
            ==_refl key,
          )
          (holds-penalize_key float none _ retry_after now
            (holds-or_inserted none (get r.buckets key) _ now l h)).1

    refuses-stands :
        (until now permits : ℕ) (o : Option (KeyBuckets F)) (limit : ProviderLimit)
        → stands (some until) o ≡ true
        → now < until
        → is_refused (acquire_key float (or_inserted float o limit now) (of_nat permits) now).0
          ≡ true
    refuses-stands until now permits none limit h k = absurd (ground (arith, h))
    refuses-stands until now permits (some b) limit h k =
        refuses-acquire_key float until now b (of_nat permits) h k

    refuses-acquire :
        (until now permits : ℕ) (r : InMemoryRateLimiter F)
        → is_unlimited (resolve r.config key.provider) ≡ false
        → (has_zero_limit (resolve r.config key.provider) ≡ false
            → stands (some until) (get r.buckets key) ≡ true)
        → now < until
        → is_refused (acquire float r key permits now).0 ≡ true
    unfolding acquire
    refuses-acquire until now permits r l h k =
        if_cases (λ (x : Refused × InMemoryRateLimiter F). is_refused x.0 ≡ true)
          (is_unlimited (resolve r.config key.provider)) _ _ (λ u. absurd (ground (arith, u, l)))
          (λ _.
            if_cases (λ (x : Refused × InMemoryRateLimiter F). is_refused x.0 ≡ true)
              (has_zero_limit (resolve r.config key.provider)) _ _ (λ _. refl)
              (λ z. refuses-stands until now (max permits 1) (get r.buckets key) _ (h z) k))

    -- Where a provider has a limit, a penalty of a key holds: whatever admissions and penalties,
    -- of this key and others, came before it and come after it, every admission of the key at a
    -- time before the penalty is over is refused. A new limiter is at the start; nothing is
    -- assumed of the arithmetic of f64.
    pub acquire-penalize :
        (config : RateLimitConfig)
        → is_unlimited (resolve config key.provider) ≡ false
        → (before after : List Call) (retry_after at permits now : ℕ) → now < at + retry_after
        → let r = run (penalize float (run (new config) before) key retry_after at) after in
          is_refused (acquire float r key permits now).0 ≡ true
    acquire-penalize config l before after retry_after at permits now k =
        let r0 = run (new config) before in
        let r1 = penalize float r0 key retry_after at in
        let l0 = limit-run is_unlimited false (new config) before l in
        let l1 = limit-run is_unlimited false r0 (penalizes key retry_after at ∷ []) l0 in
        refuses-acquire (at + retry_after) now permits (run r1 after)
          (limit-run is_unlimited false r1 after l1)
          (λ z. elim (Bool-cases (has_zero_limit (resolve r0.config key.provider))) [
            | inl zero ↦ absurd (
                ground (
                  arith,
                  z,
                  limit-run has_zero_limit true r0 (penalizes key retry_after at ∷ after) zero,
                ))
            | inr positive ↦ stands-run (some (at + retry_after)) r1 after l1 (
                stands-penalize r0 retry_after at l0 positive
                  (stands-run none (new config) before l (stands-new config)))
          ])
          k
