-- ===== src/Breaker/Lookup.antt =====
-- src/breaker.rs: what one call leaves at each target.
use llmshim.Common.{
  ℕ, String, Bool, true, false, ◌≡◌, refl, Option, none, some, arith, if◌then◌else◌, ◌==◌,
  string_key, ltb, ◌-◌,
}
use llmshim.Common.Map.{get, get-insert, get-remove}
use llmshim.Breaker.{
  BreakerConfig, TargetState, closed, opened, half_open, ProviderBreaker, is_disabled,
  try_admit_probe, probe_state, record_success, trip, reopen, record_failure,
}

abbrev pub state_of : ProviderBreaker → String → Option TargetState
state_of b t = get b.targets t

-- The entry after an ineligible failure.
abbrev pub reopened : Option TargetState → Option TargetState
reopened (some (half_open at)) = some (opened at)
reopened (some (opened at)) = some (opened at)
reopened (some (closed fs)) = some (closed fs)
reopened none = none

-- The entry after a request for a probe.
abbrev pub probed : BreakerConfig → ℕ → Option TargetState → Option TargetState
probed cfg now (some (opened at)) =
    some (if ltb (now - at) cfg.cooldown then opened at else half_open at)
probed cfg now (some (half_open at)) = some (half_open at)
probed cfg now (some (closed fs)) = some (closed fs)
probed cfg now none = none

module _ (b : ProviderBreaker) (t j : String) where
  pub state-record_success :
      state_of (record_success b t) j ≡ (if t == j then none else state_of b j)
  unfolding record_success
  state-record_success = get-remove b.targets t j

  state-reopen :
      (s : Option TargetState)
      → state_of b t ≡ s
      → state_of (reopen b t s) j ≡ (if t == j then reopened s else state_of b j)
  unfolding reopen
  state-reopen none h = ground (arith, string_key.same_key_iff t j)
  state-reopen (some (closed fs)) h = ground (arith, string_key.same_key_iff t j)
  state-reopen (some (opened at)) h = ground (arith, string_key.same_key_iff t j)
  state-reopen (some (half_open at)) h = get-insert b.targets t j (opened at)

  -- A failure on an enabled breaker rewrites the entry of its target, and no other entry.
  pub state-record_failure :
      (counts : Bool) (now : ℕ)
      → is_disabled b.cfg ≡ false
      → state_of (record_failure b t counts now) j ≡ (
          if t == j
          then (if counts then some (trip b.cfg now (state_of b t)) else reopened (state_of b t))
          else state_of b j)
  unfolding record_failure
  state-record_failure true now on =
      rw on (get-insert b.targets t j (trip b.cfg now (state_of b t)))
  state-record_failure false now on = rw on (state-reopen (state_of b t) refl)

  state-probe :
      (now : ℕ) (s : Option TargetState)
      → state_of b t ≡ s
      → state_of (probe_state b t now s).1 j ≡ (if t == j then probed b.cfg now s else state_of b j)
  unfolding probe_state
  state-probe now none h = ground (arith, string_key.same_key_iff t j)
  state-probe now (some (closed fs)) h = ground (arith, string_key.same_key_iff t j)
  state-probe now (some (half_open at)) h = ground (arith, string_key.same_key_iff t j)
  state-probe now (some (opened at)) h =
      ground (arith, string_key.same_key_iff t j, get-insert b.targets t j (half_open at))

  -- A probe moves its own target from open to half-open once the cooldown is over.
  pub state-try_admit_probe :
      (now : ℕ)
      → state_of (try_admit_probe b t now).1 j
        ≡ (if t == j then probed b.cfg now (state_of b t) else state_of b j)
  unfolding try_admit_probe
  state-try_admit_probe now = state-probe now (state_of b t) refl

module _ (b : ProviderBreaker) (t : String) where
  pub cfg-try_admit_probe : (now : ℕ) → (try_admit_probe b t now).1.cfg ≡ b.cfg
  unfolding try_admit_probe
  cfg-try_admit_probe now = ground arith

  pub cfg-record_failure : (counts : Bool) (now : ℕ) → (record_failure b t counts now).cfg ≡ b.cfg
  unfolding record_failure
  cfg-record_failure counts now = ground arith

  pub record_failure_disabled :
      (counts : Bool) (now : ℕ) → is_disabled b.cfg ≡ true → record_failure b t counts now ≡ b
  unfolding record_failure
  record_failure_disabled counts now off = rw off
