-- ===== src/Breaker/Probe.antt =====
-- src/breaker.rs: the half-open probe, and what its outcome leads to.
use llmshim.Common.{
  ℕ, ◌-◌, ◌+◌, Bool, subst, sym, ◌≤◌, String, true, false, ◌≡◌, ◌↔◌, refl, ◌∙◌, ap, Option, none,
  some, List, [], ◌∷◌, All, arith, Bool-cases, string_key, ◌==◌, if◌then◌else◌, inl, inr,
}
use llmshim.Common.Map.{==_refl}
use llmshim.Breaker.{
  BreakerConfig, TargetState, closed, opened, half_open, ProviderBreaker, is_disabled, is_tripped,
  should_skip, try_admit_probe, probe_state, record_success, record_failure, trip,
}
use llmshim.Breaker.Lookup.{
  state_of, reopened, probed, state-record_success, state-record_failure, state-try_admit_probe,
  record_failure_disabled, cfg-try_admit_probe, cfg-record_failure,
}
use llmshim.Breaker.History.{Event, probe, success, failure, step, run, settles}

module _ (b : ProviderBreaker) (t : String) (now : ℕ) where
  probe_granted :
      (s : Option TargetState)
      → (((probe_state b t now s).0 ≡ true)
          ↔ ((at : ℕ) × (s ≡ some (opened at)) × (b.cfg.cooldown ≤ now - at)))
  unfolding probe_state
  probe_granted none = ((λ h. cc), (λ (at, e, due). cc))
  probe_granted (some (closed fs)) = ((λ h. cc), (λ (at, e, due). ground arith))
  probe_granted (some (half_open at)) = ((λ h. cc), (λ (at', e, due). ground arith))
  probe_granted (some (opened at)) =
      ((λ h. (at, refl, ground arith)), (λ (at', e, due). ground arith))

  -- A probe is granted exactly when the target is open and its cooldown has passed.
  pub try_admit_probe_iff :
      ((try_admit_probe b t now).0 ≡ true)
      ↔ ((at : ℕ) × (state_of b t ≡ some (opened at)) × (b.cfg.cooldown ≤ now - at))
  unfolding try_admit_probe
  try_admit_probe_iff = probe_granted (state_of b t)

-- The target waits for the outcome of its probe, and was open since `at` before.
abbrev IsProbing : ℕ → ProviderBreaker → String → Type 0
IsProbing at b t = state_of b t ≡ some (half_open at)

-- The probe leaves the time at which the target was opened.
try_admit_probe-IsProbing :
    (b : ProviderBreaker) (t : String) (now : ℕ)
    → (try_admit_probe b t now).0 ≡ true
    → (at : ℕ) × (IsProbing at (try_admit_probe b t now).1 t × (b.cfg.cooldown ≤ now - at))
try_admit_probe-IsProbing b t now h =
    let (at, e, due) = (try_admit_probe_iff b t now).0 h in
    (at, (rw (state-try_admit_probe b t t now) (rw (==_refl t, e) (ground arith)), due))

step-IsProbing :
    (at : ℕ) (b : ProviderBreaker) (t : String) (e : Event)
    → settles t e ≡ false
    → IsProbing at b t
    → IsProbing at (step b e) t
unfolding step
step-IsProbing at b t (probe j now) h p = elim (Bool-cases (j == t)) [
  | inl same ↦
      let same' : j ≡ t = (string_key.same_key_iff j t).0 same in
      rw (state-try_admit_probe b j t now)
        (rw same (ap (λ k. probed b.cfg now (state_of b k)) same' ∙ ap (probed b.cfg now) p))
  | inr distinct ↦ rw (state-try_admit_probe b j t now) (rw distinct p)
]
step-IsProbing at b t (success j) h p = rw (state-record_success b j t) (rw h p)
step-IsProbing at b t (failure j counts now) h p = elim (Bool-cases (is_disabled b.cfg)) [
  | inl off ↦ rw (record_failure_disabled b j counts now off) p
  | inr on ↦ rw (state-record_failure b j t counts now on) (rw h p)
]

run-IsProbing :
    (at : ℕ) (b : ProviderBreaker) (t : String) (es : List Event)
    → All (λ e. settles t e ≡ false) es
    → IsProbing at b t
    → IsProbing at (run b es) t
unfolding run
run-IsProbing at b t [] h p = p
run-IsProbing at b t (e ∷ es) h p =
    run-IsProbing at (step b e) t es h.1 (step-IsProbing at b t e h.0 p)

IsProbing-refuses :
    (at : ℕ) (b : ProviderBreaker) (t : String) (now : ℕ)
    → IsProbing at b t
    → ((try_admit_probe b t now).0 ≡ false) × (should_skip b t ≡ true)
unfolding try_admit_probe probe_state should_skip is_tripped
IsProbing-refuses at b t now p = (rw p, rw p)

-- After a granted probe, whatever other calls are made, no second probe of the target is granted
-- and the target stays skipped, as long as no outcome is recorded for it.
pub single_probe :
    (b : ProviderBreaker) (t : String) (now : ℕ) (es : List Event) (later : ℕ)
    → (try_admit_probe b t now).0 ≡ true
    → All (λ e. settles t e ≡ false) es
    → let b' = run (try_admit_probe b t now).1 es in
      ((try_admit_probe b' t later).0 ≡ false) × (should_skip b' t ≡ true)
single_probe b t now es later granted h =
    let (at, (p, due)) = try_admit_probe-IsProbing b t now granted in
    IsProbing-refuses at _ t later (run-IsProbing at _ t es h p)

cfg-step : (b : ProviderBreaker) (e : Event) → (step b e).cfg ≡ b.cfg
unfolding step record_success
cfg-step b (probe t now) = cfg-try_admit_probe b t now
cfg-step b (success t) = refl
cfg-step b (failure t counts now) = cfg-record_failure b t counts now

cfg-run : (b : ProviderBreaker) (es : List Event) → (run b es).cfg ≡ b.cfg
unfolding run
cfg-run b [] = refl
cfg-run b (e ∷ es) = cfg-run (step b e) es ∙ cfg-step b e

-- A probe of a target that is open since `at` is granted once the cooldown has passed.
granted_since :
    (b : ProviderBreaker) (t : String) (at now : ℕ)
    → state_of b t ≡ some (opened at)
    → (((try_admit_probe b t now).0 ≡ true) ↔ (b.cfg.cooldown ≤ now - at))
unfolding try_admit_probe probe_state
granted_since b t at now e = rw e ((λ h. ground arith), (λ h. ground arith))

module _ (b : ProviderBreaker) (t : String) (at : ℕ) (on : is_disabled b.cfg ≡ false)
    (p : IsProbing at b t) where
  failed_probe :
      (counts : Bool) (failed : ℕ)
      → state_of (record_failure b t counts failed) t
        ≡ some (opened (if counts then failed else at))
  unfolding trip
  failed_probe true failed =
      rw (state-record_failure b t t true failed on) (rw (==_refl t) (rw (p, trip)))
  failed_probe false failed =
      rw (state-record_failure b t t false failed on) (rw (==_refl t) (ap reopened p))

  next_probe :
      (counts : Bool) (failed later : ℕ)
      → (((try_admit_probe (record_failure b t counts failed) t later).0 ≡ true)
          ↔ (b.cfg.cooldown ≤ later - (if counts then failed else at)))
  next_probe counts failed later =
      subst
        (λ (cfg : BreakerConfig).
          ((try_admit_probe (record_failure b t counts failed) t later).0 ≡ true)
          ↔ (cfg.cooldown ≤ later - (if counts then failed else at)))
        (cfg-record_failure b t counts failed)
        (granted_since (record_failure b t counts failed) t (if counts then failed else at) later
          (failed_probe counts failed))

-- On an enabled breaker, the outcome of a granted probe decides about the next one, whatever
-- other calls come between the grant and the outcome, as long as none of them reports an outcome
-- of the target. After a success the target is not skipped. After a failure that counts, a probe
-- is granted exactly when the cooldown has passed since that failure. After one that does not
-- count, a probe is granted at any time from that of the first probe on.
pub probe_outcome :
    (b : ProviderBreaker) (t : String) (now : ℕ) (es : List Event) (failed later wait : ℕ)
    → is_disabled b.cfg ≡ false
    → (try_admit_probe b t now).0 ≡ true
    → All (λ e. settles t e ≡ false) es
    → let b' = run (try_admit_probe b t now).1 es in
      (should_skip (record_success b' t) t ≡ false)
      × ((((try_admit_probe (record_failure b' t true failed) t later).0 ≡ true)
            ↔ (b.cfg.cooldown ≤ later - failed))
          × ((try_admit_probe (record_failure b' t false failed) t (now + wait)).0 ≡ true))
unfolding should_skip is_tripped
probe_outcome b t now es failed later wait on granted h =
    let (at, (p, due)) = try_admit_probe-IsProbing b t now granted in
    let b' : ProviderBreaker = run (try_admit_probe b t now).1 es in
    let same : b'.cfg ≡ b.cfg =
      cfg-run (try_admit_probe b t now).1 es ∙ cfg-try_admit_probe b t now in
    let on' : is_disabled b'.cfg ≡ false = ap is_disabled same ∙ on in
    let waits : IsProbing at b' t = run-IsProbing at (try_admit_probe b t now).1 t es h p in
    (
      rw (state-record_success b' t t) (rw (==_refl t)),
      (
        subst
            (λ (cfg : BreakerConfig).
              ((try_admit_probe (record_failure b' t true failed) t later).0 ≡ true)
              ↔ (cfg.cooldown ≤ later - failed))
            same (next_probe b' t at on' waits true failed later),
        (next_probe b' t at on' waits false failed (now + wait)).1 (
            subst (λ (cfg : BreakerConfig). cfg.cooldown ≤ now + wait - at) (sym same)
              (omega (arith, due))),
      ),
    )
