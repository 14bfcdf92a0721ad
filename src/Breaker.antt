-- ===== src/Breaker.antt =====
-- src/breaker.rs: the provider circuit breaker. A time is a number of nanoseconds, and each call
-- takes the instant that the source reads from the clock. A call holds the registry's lock, so it
-- is one step. The `SharedHealth` trait is the parameter `SharedHealth S`: its implementations
-- hold their state, `S`, outside of this module.
pub mod Lookup
pub mod History
pub mod Threshold
pub mod Window
pub mod Probe
pub mod Shared
mod Examples
use llmshim.Common.{
  ℕ, zero, ◌+◌, ◌-◌, String, Bool, true, false, not, Option, none, some, List, [], ◌∷◌, ◌++◌, ltb,
  leb, eqb, length, if◌then◌else◌, string_key,
}
use llmshim.Common.Map.{Map, get, insert, remove}
use llmshim.Error.{ShimError, http, provider_error}

-- [500, 502, 503, 504, 529].contains(status)
abbrev contains : List ℕ → ℕ → Bool
contains [] s = false
contains (x ∷ xs) s = if eqb x s then true else contains xs s

abbrev unhealthy_statuses : List ℕ
unhealthy_statuses = 500 ∷ 502 ∷ 503 ∷ 504 ∷ 529 ∷ []

unfoldable pub counts_toward_health : ShimError → Bool
counts_toward_health (provider_error status body retry_after) = contains unhealthy_statuses status
counts_toward_health (http e) = true
counts_toward_health e = false

pub record BreakerConfig : Type 0 where
  pub window : ℕ
  pub trip_threshold : ℕ
  pub cooldown : ℕ

unfoldable pub is_disabled : BreakerConfig → Bool
is_disabled cfg = eqb cfg.trip_threshold 0

pub data TargetState : Type 0 where
  closed : (failures : List ℕ) → TargetState
  opened : (opened_at : ℕ) → TargetState
  half_open : (opened_at : ℕ) → TargetState

-- The fields `cfg` and `targets`; the shared backend is passed to `admit` and `observe`.
pub record ProviderBreaker : Type 0 where
  pub cfg : BreakerConfig
  pub targets : Map String TargetState

unfoldable pub with_config : BreakerConfig → ProviderBreaker
with_config cfg = record { cfg = cfg; targets = [] }

-- matches!(state, Some(Open | HalfOpen))
pub is_tripped : Option TargetState → Bool
is_tripped none = false
is_tripped (some (closed fs)) = false
is_tripped (some (opened at)) = true
is_tripped (some (half_open at)) = true

unfoldable pub should_skip : ProviderBreaker → String → Bool
unfolding is_tripped
should_skip b target = is_tripped (get b.targets target)

probe_state : ProviderBreaker → String → (now : ℕ) → Option TargetState → Bool × ProviderBreaker
probe_state b target now none = (false, b)
probe_state b target now (some (closed fs)) = (false, b)
probe_state b target now (some (half_open at)) = (false, b)
probe_state b target now (some (opened at)) =
    if ltb (now - at) b.cfg.cooldown
    then (false, b)
    else (true, record b { targets = insert b.targets target (half_open at) })

unfoldable pub try_admit_probe : ProviderBreaker → String → ℕ → Bool × ProviderBreaker
unfolding probe_state
try_admit_probe b target now = probe_state b target now (get b.targets target)

unfoldable pub record_success : ProviderBreaker → String → ProviderBreaker
record_success b target = record b { targets = remove b.targets target }

-- while failures.front() is older than the window { failures.pop_front() }
pub pop_stale : (window now : ℕ) → List ℕ → List ℕ
pop_stale window now [] = []
pop_stale window now (f ∷ fs) =
    let rest = pop_stale window now fs in if ltb window (now - f) then rest else f ∷ fs

-- The state that a counted failure leaves, from the entry that it finds.
pub trip : BreakerConfig → (now : ℕ) → Option TargetState → TargetState
unfolding pop_stale
trip cfg now none =
    if leb cfg.trip_threshold (length (now ∷ [])) then opened now else closed (now ∷ [])
trip cfg now (some (closed fs)) =
    let failures = pop_stale cfg.window now fs ++ now ∷ [] in
    if leb cfg.trip_threshold (length failures) then opened now else closed failures
trip cfg now (some (opened at)) = opened now
trip cfg now (some (half_open at)) = opened now

-- An ineligible failure returns a half-open target to open, and changes nothing else.
pub reopen : ProviderBreaker → String → Option TargetState → ProviderBreaker
reopen b target (some (half_open at)) = record b { targets = insert b.targets target (opened at) }
reopen b target (some (opened at)) = b
reopen b target (some (closed fs)) = b
reopen b target none = b

unfoldable pub record_failure : ProviderBreaker → String → Bool → ℕ → ProviderBreaker
unfolding is_disabled trip reopen
record_failure b target counts now =
    if is_disabled b.cfg
    then b
    else if counts
    then record b { targets = insert b.targets target (trip b.cfg now (get b.targets target)) }
    else reopen b target (get b.targets target)

-- A fleet-wide backend: its state, and what each call of the trait does to it.
pub record SharedHealth (S : Type 0) : Type 0 where
  pub is_open : S → String → Bool
  pub try_admit_probe : S → String → Bool × S
  pub observe : S → String → (healthy : Bool) → S

module _ {S : Type 0} (health : SharedHealth S) where
  ask_shared : S → String → Bool × S
  ask_shared s target =
      if health.is_open s target then health.try_admit_probe s target else (true, s)

  admit_shared : Option S → String → Bool × Option S
  unfolding ask_shared
  admit_shared none target = (true, none)
  admit_shared (some s) target = let (granted, s') = ask_shared s target in (granted, some s')

  unfoldable pub admit : ProviderBreaker → Option S → String → ℕ → Bool × ProviderBreaker × Option S
  unfolding is_disabled should_skip try_admit_probe admit_shared
  admit b shared target now =
      if is_disabled b.cfg
      then (true, b, shared)
      else if should_skip b target
      then (let (granted, b') = try_admit_probe b target now in (granted, b', shared))
      else (let (granted, shared') = admit_shared shared target in (granted, b, shared'))

  observe_shared : Option S → String → (healthy : Bool) → Option S
  observe_shared none target healthy = none
  observe_shared (some s) target healthy = some (health.observe s target healthy)

  -- `none` is the outcome `Ok(())`.
  unfoldable pub observe :
      ProviderBreaker → Option S → String → Option ShimError → ℕ → ProviderBreaker × Option S
  unfolding record_success record_failure counts_toward_health observe_shared
  observe b shared target none now = (record_success b target, observe_shared shared target true)
  observe b shared target (some e) now = (
    record_failure b target (counts_toward_health e) now,
    observe_shared shared target (not (counts_toward_health e)),
  )
