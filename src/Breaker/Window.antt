-- ===== src/Breaker/Window.antt =====
-- src/breaker.rs: the sliding window against the full history of failures of one target.
use llmshim.Common.{
  ℕ, suc, ◌+◌, ◌-◌, ◌≤◌, String, Bool, true, false, ◌≡◌, refl, ◌∙◌, Option, none, some, List, [],
  ◌∷◌, ◌++◌, ◌||◌, length, length-append, All, arith, Bool-cases, ltb, leb, string_key,
  if◌then◌else◌, inl, inr, All-append, ap,
}
use llmshim.Common.Map.{get, ==_refl}
use llmshim.Breaker.{
  BreakerConfig, TargetState, closed, opened, ProviderBreaker, with_config, is_disabled, is_tripped,
  should_skip, record_failure, trip, pop_stale,
}
use llmshim.Breaker.Lookup.{state_of, state-record_failure, cfg-record_failure}

-- The failures that are at most `window` old at `now`.
abbrev pub count_recent : (window now : ℕ) → List ℕ → ℕ
count_recent window now [] = 0
count_recent window now (f ∷ fs) =
    if ltb window (now - f) then count_recent window now fs else suc (count_recent window now fs)

-- Oldest first.
abbrev pub IsAscending : List ℕ → Type 0
IsAscending [] = Unit {0}
IsAscending (f ∷ fs) = All (λ g. f ≤ g) fs × IsAscending fs

count_recent-append :
    (w now : ℕ) (xs ys : List ℕ)
    → count_recent w now (xs ++ ys) ≡ count_recent w now xs + count_recent w now ys
count_recent-append w now [] ys = omega arith
count_recent-append w now (x ∷ xs) ys = ground (arith, count_recent-append w now xs ys)

-- What `pop_stale` drops is stale at any later time.
count_recent-pop_stale :
    (w now later : ℕ) (fs : List ℕ)
    → now ≤ later
    → count_recent w later (pop_stale w now fs) ≡ count_recent w later fs
unfolding pop_stale
count_recent-pop_stale w now later [] h = refl
count_recent-pop_stale w now later (f ∷ fs) h =
    ground (arith, count_recent-pop_stale w now later fs h)

-- After a fresh failure, in order, all are fresh.
count_recent_fresh :
    (w now f : ℕ) (fs : List ℕ)
    → All (λ g. f ≤ g) fs
    → now - f ≤ w
    → count_recent w now fs ≡ length fs
count_recent_fresh w now f [] h k = refl
count_recent_fresh w now f (g ∷ fs) h k = ground (arith, count_recent_fresh w now f fs h.1 k)

-- Where the failures stand in order, popping from the front counts what a scan of all counts.
pub length-pop_stale :
    (w now : ℕ) (fs : List ℕ) → IsAscending fs → length (pop_stale w now fs) ≡ count_recent w now fs
unfolding pop_stale
length-pop_stale w now [] h = refl
length-pop_stale w now (f ∷ fs) h =
    ground (arith, length-pop_stale w now fs h.1, count_recent_fresh w now f fs h.0)

All-pop_stale : (P : ℕ → Type 0) (w now : ℕ) (fs : List ℕ) → All P fs → All P (pop_stale w now fs)
unfolding pop_stale
All-pop_stale P w now [] h = tt
All-pop_stale P w now (f ∷ fs) h = elim (Bool-cases (ltb w (now - f))) [
  | inl stale ↦ rw stale (All-pop_stale P w now fs h.1)
  | inr fresh ↦ rw fresh h
]

pop_stale-IsAscending :
    (w now : ℕ) (fs : List ℕ) → IsAscending fs → IsAscending (pop_stale w now fs)
unfolding pop_stale
pop_stale-IsAscending w now [] h = tt
pop_stale-IsAscending w now (f ∷ fs) h = elim (Bool-cases (ltb w (now - f))) [
  | inl stale ↦ rw stale (pop_stale-IsAscending w now fs h.1)
  | inr fresh ↦ rw fresh h
]

append-IsAscending :
    (fs : List ℕ) (now : ℕ) → IsAscending fs → All (λ g. g ≤ now) fs → IsAscending (fs ++ now ∷ [])
append-IsAscending [] now h k = (tt, tt)
append-IsAscending (f ∷ fs) now h k =
    (All-append (λ g. f ≤ g) fs (now ∷ []) h.0 (k.0, tt), append-IsAscending fs now h.1 k.1)

All-map : (P Q : ℕ → Type 0) (fs : List ℕ) → ((g : ℕ) → P g → Q g) → All P fs → All Q fs
All-map P Q [] f h = tt
All-map P Q (g ∷ fs) f h = (f g h.0, All-map P Q fs f h.1)

module _ (cfg : BreakerConfig) (t : String) where
  -- The registry after counted failures of `t` at the given times, newest first.
  pub after : List ℕ → ProviderBreaker
  after [] = with_config cfg
  after (now ∷ older) = record_failure (after older) t true now

-- The times run on, newest first.
abbrev pub IsHistory : List ℕ → Type 0
IsHistory [] = Unit {0}
IsHistory (now ∷ older) = All (λ g. g ≤ now) older × IsHistory older

-- The specification: at some failure the window held the threshold, that failure included.
abbrev pub tripped : BreakerConfig → List ℕ → Bool
tripped cfg [] = false
tripped cfg (now ∷ older) =
    tripped cfg older || leb cfg.trip_threshold (suc (count_recent cfg.window now older))

-- What the entry of `t` holds after a history.
data Holds (cfg : BreakerConfig) (hist : List ℕ) : Bool → Option TargetState → Type 0 where
  fresh : hist ≡ [] → Holds cfg hist false none
  counting :
      (fs : List ℕ)
      → IsAscending fs
      → All (λ g. (now : ℕ) → All (λ h. h ≤ now) hist → g ≤ now) fs
      → ((now : ℕ)
          → All (λ h. h ≤ now) hist
          → count_recent cfg.window now fs ≡ count_recent cfg.window now hist)
      → Holds cfg hist false (some (closed fs))
  open_since : (at : ℕ) → Holds cfg hist true (some (opened at))

-- The history, and the entry, after one more counted failure.
module _ (cfg : BreakerConfig) (older : List ℕ) (now : ℕ)
    (in_order : All (λ h. h ≤ now) older) where
  abbrev reached : Bool
  reached = leb cfg.trip_threshold (suc (count_recent cfg.window now older))

  length-kept :
      (fs : List ℕ)
      → IsAscending fs
      → count_recent cfg.window now fs ≡ count_recent cfg.window now older
      → length (pop_stale cfg.window now fs ++ now ∷ []) ≡ suc (count_recent cfg.window now older)
  length-kept fs asc same = omega (
    arith,
    length-append (pop_stale cfg.window now fs) (now ∷ []),
    length-pop_stale cfg.window now fs asc,
  )

  Holds-keep :
      (fs : List ℕ)
      → IsAscending fs
      → All (λ g. (n : ℕ) → All (λ h. h ≤ n) older → g ≤ n) fs
      → ((n : ℕ)
          → All (λ h. h ≤ n) older
          → count_recent cfg.window n fs ≡ count_recent cfg.window n older)
      → Holds cfg (now ∷ older) false (some (closed (pop_stale cfg.window now fs ++ now ∷ [])))
  Holds-keep fs asc below same =
      counting (pop_stale w now fs ++ now ∷ [])
        (append-IsAscending _ now (pop_stale-IsAscending w now fs asc) (
          All-map _ _ (pop_stale w now fs) (λ g h. h now in_order)
            (All-pop_stale _ w now fs below)))
        (All-append _ (pop_stale w now fs) (now ∷ [])
          (All-map _ _ (pop_stale w now fs) (λ g h n k. h n k.1) (All-pop_stale _ w now fs below))
          ((λ n k. k.0), tt))
        (λ n k. ground (
          arith,
          count_recent-append w n (pop_stale w now fs) (now ∷ []),
          count_recent-pop_stale w now n fs k.0,
          same n k.1,
        ))
    where
      w : ℕ
      w = cfg.window

  Holds-trip :
      (b : Bool) (s : Option TargetState)
      → Holds cfg older b s
      → Holds cfg (now ∷ older) (b || reached) (some (trip cfg now s))
  unfolding trip
  Holds-trip b s (fresh e) = elim (Bool-cases (leb cfg.trip_threshold 1)) [
    | inl full ↦ rw (e, full) (open_since now)
    | inr room ↦ rw (e, room) (counting (now ∷ []) (tt, tt) ((λ n k. k.0), tt) (λ n k. refl))
  ]
  Holds-trip b s (counting fs asc below same) =
      rw (length-kept fs asc (same now in_order)) (elim (Bool-cases reached) [
        | inl full ↦ rw full (open_since now)
        | inr room ↦ rw room (Holds-keep fs asc below same)
      ])
  Holds-trip b s (open_since at) = open_since now

module _ (cfg : BreakerConfig) (t : String) (on : is_disabled cfg ≡ false) where
  cfg-after : (hist : List ℕ) → (after cfg t hist).cfg ≡ cfg
  unfolding after with_config
  cfg-after [] = refl
  cfg-after (now ∷ older) = cfg-record_failure (after cfg t older) t true now ∙ cfg-after older

  after-Holds :
      (hist : List ℕ)
      → IsHistory hist
      → Holds cfg hist (tripped cfg hist) (state_of (after cfg t hist) t)
  unfolding after with_config get
  after-Holds [] h = fresh refl
  after-Holds (now ∷ older) h =
      rw
        (state-record_failure (after cfg t older) t t true now
          (ap is_disabled (cfg-after older) ∙ on))
        (rw (==_refl t) (
          rw (cfg-after older) (
            Holds-trip cfg older now h.0 (tripped cfg older) (state_of (after cfg t older) t)
              (after-Holds older h.1))))

  Holds-is_tripped :
      {hist : List ℕ} {b : Bool} {s : Option TargetState} → Holds cfg hist b s → is_tripped s ≡ b
  unfolding is_tripped
  Holds-is_tripped (fresh e) = refl
  Holds-is_tripped (counting fs asc below same) = refl
  Holds-is_tripped (open_since at) = refl

  -- On an enabled breaker, after any history of counted failures of a new target at times that do
  -- not run backwards, the target is skipped exactly when at some failure of the history at least
  -- `trip_threshold` failures, that one included, were at most `window` old.
  pub should_skip-after :
      (hist : List ℕ) → IsHistory hist → should_skip (after cfg t hist) t ≡ tripped cfg hist
  unfolding should_skip
  should_skip-after hist h = Holds-is_tripped (after-Holds hist h)
