-- ===== src/Breaker/Threshold.antt =====
-- src/breaker.rs: the failure threshold over every history of calls.
use llmshim.Common.{
  ℕ, ◌<◌, String, Bool, true, false, ◌≡◌, Option, none, some, List, [], ◌∷◌, length, length-append,
  arith, Bool-cases, string_key, ◌==◌, if◌then◌else◌, ltb, ◌-◌, inl, inr,
}
use llmshim.Common.Map.{get, get-remove}
use llmshim.Breaker.{
  BreakerConfig, TargetState, closed, opened, half_open, ProviderBreaker, with_config, is_disabled,
  try_admit_probe, record_success, record_failure, trip, pop_stale,
}
use llmshim.Breaker.Lookup.{
  state_of, reopened, probed, cfg-try_admit_probe, cfg-record_failure, record_failure_disabled,
  state-record_failure, state-try_admit_probe,
}
use llmshim.Breaker.History.{Event, probe, success, failure, step, run}

-- A closed entry holds at least one failure, and fewer than the threshold.
abbrev pub Fits : BreakerConfig → Option TargetState → Type 0
Fits cfg (some (closed fs)) = (0 < length fs) × (length fs < cfg.trip_threshold)
Fits cfg (some (opened at)) = 0 < cfg.trip_threshold
Fits cfg (some (half_open at)) = 0 < cfg.trip_threshold
Fits cfg none = Unit {0}

pub record IsWellFormed (b : ProviderBreaker) : Type 0 where
  pub at_target : (t : String) → Fits b.cfg (state_of b t)

trip-Fits :
    (cfg : BreakerConfig) (now : ℕ) (s : Option TargetState)
    → is_disabled cfg ≡ false
    → Fits cfg (some (trip cfg now s))
unfolding trip is_disabled
trip-Fits cfg now none on = ground arith
trip-Fits cfg now (some (closed fs)) on =
    ground (arith, length-append (pop_stale cfg.window now fs) (now ∷ []))
trip-Fits cfg now (some (opened at)) on = ground arith
trip-Fits cfg now (some (half_open at)) on = ground arith

reopened-Fits : (cfg : BreakerConfig) (s : Option TargetState) → Fits cfg s → Fits cfg (reopened s)
reopened-Fits cfg (some (closed fs)) h = h
reopened-Fits cfg (some (opened at)) h = h
reopened-Fits cfg (some (half_open at)) h = h
reopened-Fits cfg none h = tt

-- The entry of `t` after a probe of it.
Fits-if :
    (cfg : BreakerConfig) (c : Bool) (s u : Option TargetState)
    → Fits cfg s
    → Fits cfg u
    → Fits cfg (if c then s else u)
Fits-if cfg true s u p q = p
Fits-if cfg false s u p q = q

probed-Fits :
    (cfg : BreakerConfig) (now : ℕ) (s : Option TargetState)
    → Fits cfg s
    → Fits cfg (probed cfg now s)
probed-Fits cfg now (some (closed fs)) h = h
probed-Fits cfg now (some (opened at)) h = elim (Bool-cases (ltb (now - at) cfg.cooldown)) [
  | inl early ↦ rw early h
  | inr due ↦ rw due h
]
probed-Fits cfg now (some (half_open at)) h = h
probed-Fits cfg now none h = tt

with_config-IsWellFormed : (cfg : BreakerConfig) → IsWellFormed (with_config cfg)
unfolding with_config get
with_config-IsWellFormed cfg = record { at_target = λ t. tt }

failed-Fits :
    (b : ProviderBreaker) (v : IsWellFormed b) (t : String) (counts : Bool) (now : ℕ)
    → is_disabled b.cfg ≡ false
    → Fits b.cfg (if counts then some (trip b.cfg now (state_of b t)) else reopened (state_of b t))
failed-Fits b v t true now on = trip-Fits b.cfg now (state_of b t) on
failed-Fits b v t false now on = reopened-Fits b.cfg (state_of b t) (v.at_target t)

module _ (b : ProviderBreaker) (v : IsWellFormed b) (t : String) where
  record_success-IsWellFormed : IsWellFormed (record_success b t)
  unfolding record_success
  record_success-IsWellFormed = record {
    at_target = λ j. rw (get-remove b.targets t j) (Fits-if b.cfg (t == j) _ _ tt (v.at_target j));
  }

  try_admit_probe-IsWellFormed : (now : ℕ) → IsWellFormed (try_admit_probe b t now).1
  try_admit_probe-IsWellFormed now = record {
    at_target = λ j. rw (cfg-try_admit_probe b t now) (
        rw (state-try_admit_probe b t j now)
          (Fits-if b.cfg (t == j) _ _ (probed-Fits b.cfg now _ (v.at_target t)) (v.at_target j)));
  }

  record_failure-IsWellFormed :
      (counts : Bool) (now : ℕ) → IsWellFormed (record_failure b t counts now)
  record_failure-IsWellFormed counts now = elim (Bool-cases (is_disabled b.cfg)) [
    | inl off ↦ rw (record_failure_disabled b t counts now off) v
    | inr on ↦ record {
      at_target = λ j. rw (cfg-record_failure b t counts now) (
          rw (state-record_failure b t j counts now on)
            (Fits-if b.cfg (t == j) _ _ (failed-Fits b v t counts now on) (v.at_target j)));
    }
  ]

pub step-IsWellFormed : (b : ProviderBreaker) (e : Event) → IsWellFormed b → IsWellFormed (step b e)
unfolding step
step-IsWellFormed b (probe t now) v = try_admit_probe-IsWellFormed b v t now
step-IsWellFormed b (success t) v = record_success-IsWellFormed b v t
step-IsWellFormed b (failure t counts now) v = record_failure-IsWellFormed b v t counts now

run-IsWellFormed :
    (b : ProviderBreaker) (es : List Event) → IsWellFormed b → IsWellFormed (run b es)
unfolding run
run-IsWellFormed b [] v = v
run-IsWellFormed b (e ∷ es) v = run-IsWellFormed (step b e) es (step-IsWellFormed b e v)

-- Whatever calls have been made on a new registry, a target that it counts failures of has at
-- least one and fewer than the threshold, and no target is open where the threshold is 0.
pub run-with_config-IsWellFormed :
    (cfg : BreakerConfig) (es : List Event) → IsWellFormed (run (with_config cfg) es)
run-with_config-IsWellFormed cfg es =
    run-IsWellFormed (with_config cfg) es (with_config-IsWellFormed cfg)
