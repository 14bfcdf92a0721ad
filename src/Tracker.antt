-- ===== src/Tracker.antt =====
-- src/policy.rs: DispatchPolicyContext and AttemptTracker, what is told to the policy of an attempt.
-- The policy's answers and the clock are arguments; a mutex makes each access one step. A call of
-- the policy is awaited, so the guard may be dropped, and the call be given up, while it runs.
pub mod Endings
mod Examples
use llmshim.Common.{
  ℕ, suc, Bool, true, false, Option, none, some, List, [], ◌∷◌, ◌++◌, leb, if◌then◌else◌,
}
use llmshim.Attempt.{
  AttemptKind, AttemptAccounting, usage_observed, no_usage_reported, unknown, AttemptOutcome,
  abandoned,
}
use llmshim.Fallback.{AttemptPolicyRefusalKind}

pub record AttemptPolicyRefusal : Type 0 where
  pub kind : AttemptPolicyRefusalKind
  pub retry_after : Option ℕ

pub record DispatchPolicyState : Type 0 where
  pub last_refusal : Option AttemptPolicyRefusal
  pub logical_deadline : Option ℕ

pub record AttemptTrackerState : Type 0 where
  pub is_usage_observed : Bool
  pub finished : Bool

abbrev pub new_tracker : AttemptTrackerState
new_tracker = record { is_usage_observed = false; finished = false }

-- What the policy is told; an observation that it answered with an error is not acknowledged.
pub data Observation : Type 0 where
  response_headers : (status : ℕ) → (acknowledged : Bool) → Observation
  usage : (acknowledged : Bool) → Observation
  finished_as : AttemptOutcome → (acknowledged : Bool) → Observation
  abandoned_as : AttemptOutcome → Observation

pub data AttemptAcquireError : Type 0 where
  refusal : AttemptPolicyRefusal → AttemptAcquireError
  logical_deadline : AttemptAcquireError

pub data Acquired : Type 0 where
  tracker : AttemptTrackerState → Acquired
  error : AttemptAcquireError → Acquired

-- ensure_logical_active, as a test.
abbrev pub is_active : Option ℕ → (now : ℕ) → Bool
is_active none now = true
is_active (some deadline) now = if leb deadline now then false else true

abbrev pub accounting : AttemptTrackerState → (completed : Bool) → AttemptAccounting
accounting s completed =
    if s.is_usage_observed then usage_observed else if completed then no_usage_reported else unknown

unfoldable pub abandon_attempt :
    AttemptKind → AttemptTrackerState → AttemptTrackerState × List Observation
abandon_attempt kind s = if s.finished then (s, []) else (
  record s { finished = true },
  abandoned_as (abandoned kind (if s.is_usage_observed then usage_observed else unknown)) ∷ [],
)

-- After the policy's answer, `none` where it admits the attempt.
unfoldable pub answered :
    AttemptKind
    → DispatchPolicyState
    → Option AttemptPolicyRefusal
    → (after : ℕ) → Acquired × (DispatchPolicyState × List Observation)
unfolding abandon_attempt
answered kind d (some r) after =
    if is_active d.logical_deadline after
    then (error (refusal r), (record d { last_refusal = some r }, []))
    else (error logical_deadline, (d, []))
answered kind d none after =
    if is_active d.logical_deadline after
    then (tracker new_tracker, (d, []))
    else (error logical_deadline, (d, (abandon_attempt kind new_tracker).1))

-- The clock is read before the policy is asked and after.
unfoldable pub acquire :
    AttemptKind
    → DispatchPolicyState
    → (before : ℕ) → Option AttemptPolicyRefusal
    → (after : ℕ) → Acquired × (DispatchPolicyState × List Observation)
unfolding answered
acquire kind d before answer after =
    if is_active d.logical_deadline before
    then answered kind (record d { last_refusal = none }) answer after
    else (error logical_deadline, (d, []))

-- The call of the tracker that waits for the policy.
pub data Waiting : Type 0 where
  idle : Waiting
  for_headers : (status : ℕ) → Waiting
  for_usage : Waiting
  for_finish : AttemptOutcome → Waiting

-- An attempt in flight: the tracker, if it is still there, and how many guards there are.
pub record Flight : Type 0 where
  pub state : AttemptTrackerState
  pub waiting : Waiting
  pub is_held : Bool
  pub guards : ℕ

abbrev pub launch : Flight
launch = record { state = new_tracker; waiting = idle; is_held = true; guards = 0 }

-- The policy answers the call that waits: with an error, the state stays.
unfoldable pub answer :
    AttemptTrackerState → Waiting → (acknowledged : Bool) → AttemptTrackerState × List Observation
answer s idle acknowledged = (s, [])
answer s (for_headers status) acknowledged = (s, response_headers status acknowledged ∷ [])
answer s for_usage acknowledged =
    (if acknowledged then record s { is_usage_observed = true } else s, usage acknowledged ∷ [])
answer s (for_finish outcome) acknowledged = (
  if acknowledged then record s { finished = true } else s,
  finished_as outcome acknowledged ∷ [],
)

-- The tracker's `finish` up to its first wait.
unfoldable pub finish : AttemptTrackerState → AttemptOutcome → Waiting
finish s outcome = if s.finished then idle else for_finish outcome

-- One step of an attempt in flight, and what the policy is told in it.
pub data Step (kind : AttemptKind) : Flight → List Observation → Flight → Type 0 where
  calls_headers :
      (s : AttemptTrackerState) (g status : ℕ)
      → Step kind
          (record { state = s; waiting = idle; is_held = true; guards = g })
          []
          (record { state = s; waiting = for_headers status; is_held = true; guards = g })
  calls_usage :
      (s : AttemptTrackerState) (g : ℕ)
      → Step kind
          (record { state = s; waiting = idle; is_held = true; guards = g })
          []
          (record { state = s; waiting = for_usage; is_held = true; guards = g })
  calls_finish :
      (s : AttemptTrackerState) (g : ℕ) (outcome : AttemptOutcome)
      → Step kind
          (record { state = s; waiting = idle; is_held = true; guards = g })
          []
          (record { state = s; waiting = finish s outcome; is_held = true; guards = g })
  answers :
      (s : AttemptTrackerState) (w : Waiting) (g : ℕ) (acknowledged : Bool)
      → Step kind
          (record { state = s; waiting = w; is_held = true; guards = g })
          (answer s w acknowledged).1
          (record {
            state = (answer s w acknowledged).0;
            waiting = idle;
            is_held = true;
            guards = g;
          })
  gives_up :
      (s : AttemptTrackerState) (w : Waiting) (g : ℕ)
      → Step kind
          (record { state = s; waiting = w; is_held = true; guards = g })
          []
          (record { state = s; waiting = idle; is_held = true; guards = g })
  takes_guard :
      (s : AttemptTrackerState) (g : ℕ)
      → Step kind
          (record { state = s; waiting = idle; is_held = true; guards = g })
          []
          (record { state = s; waiting = idle; is_held = true; guards = suc g })
  drops_guard :
      (s : AttemptTrackerState) (w : Waiting) (h : Bool) (g : ℕ)
      → Step kind
          (record { state = s; waiting = w; is_held = h; guards = suc g })
          (abandon_attempt kind s).1
          (record { state = (abandon_attempt kind s).0; waiting = w; is_held = h; guards = g })
  drops_tracker :
      (s : AttemptTrackerState) (g : ℕ)
      → Step kind
          (record { state = s; waiting = idle; is_held = true; guards = g })
          (abandon_attempt kind s).1
          (record {
            state = (abandon_attempt kind s).0;
            waiting = idle;
            is_held = false;
            guards = g;
          })

-- Any steps in a row, from a new tracker, with all that the policy is told.
pub data Reaches (kind : AttemptKind) : List Observation → Flight → Type 0 where
  launched : Reaches kind [] launch
  then_step :
      (told more : List Observation) (f g : Flight)
      → Reaches kind told f
      → Step kind f more g
      → Reaches kind (told ++ more) g
