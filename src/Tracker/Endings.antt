-- ===== src/Tracker/Endings.antt =====
-- src/policy.rs: what the policy has been told once an attempt is over.
use llmshim.Common.{
  ℕ, suc, ◌+◌, ◌≤◌, Bool, true, false, ◌≡◌, ◌∙◌, sym, ap, refl, subst, none, List, [], ◌∷◌, ◌++◌,
  arith, leb, if◌then◌else◌,
}
use llmshim.Attempt.{AttemptKind, usage_observed, unknown, abandoned}
use llmshim.Tracker.{
  AttemptTrackerState, Observation, response_headers, usage, finished_as, abandoned_as,
  abandon_attempt, Waiting, idle, for_headers, for_usage, for_finish, Flight, answer, finish, Step,
  calls_headers, calls_usage, calls_finish, answers, gives_up, takes_guard, drops_guard,
  drops_tracker, Reaches, launched, then_step, DispatchPolicyState, Acquired, acquire, answered,
  tracker, error, is_active,
}

abbrev pub abandonments : List Observation → ℕ
abandonments [] = 0
abandonments (abandoned_as o ∷ os) = suc (abandonments os)
abandonments (_ ∷ os) = abandonments os

-- The ends that the policy has acknowledged.
abbrev pub finishes : List Observation → ℕ
finishes [] = 0
finishes (finished_as o true ∷ os) = suc (finishes os)
finishes (_ ∷ os) = finishes os

abandonments-append :
    (os ps : List Observation) → abandonments (os ++ ps) ≡ abandonments os + abandonments ps
abandonments-append [] ps = omega arith
abandonments-append (response_headers s a ∷ os) ps = abandonments-append os ps
abandonments-append (usage a ∷ os) ps = abandonments-append os ps
abandonments-append (finished_as o a ∷ os) ps = abandonments-append os ps
abandonments-append (abandoned_as o ∷ os) ps = omega (arith, abandonments-append os ps)

finishes-append : (os ps : List Observation) → finishes (os ++ ps) ≡ finishes os + finishes ps
finishes-append [] ps = omega arith
finishes-append (response_headers s a ∷ os) ps = finishes-append os ps
finishes-append (usage a ∷ os) ps = finishes-append os ps
finishes-append (finished_as o true ∷ os) ps = omega (arith, finishes-append os ps)
finishes-append (finished_as o false ∷ os) ps = finishes-append os ps
finishes-append (abandoned_as o ∷ os) ps = finishes-append os ps

abbrev is_finishing : Waiting → Bool
is_finishing (for_finish o) = true
is_finishing _ = false

-- The counts so far, the state, and the call that waits.
abbrev pub IsOrderly : (ends given_up : ℕ) → Flight → Type 0
IsOrderly ends given_up f =
    (((given_up ≤ 1) × (ends ≤ 1)) × (f.state.finished ≡ leb 1 (given_up + ends)))
    × ((is_finishing f.waiting ≡ true → ends ≡ 0) × (f.is_held ≡ false → f.state.finished ≡ true))

Step-IsOrderly :
    (kind : AttemptKind) (f g : Flight) (more : List Observation) (ends given_up : ℕ)
    → Step kind f more g
    → IsOrderly ends given_up f
    → IsOrderly (ends + finishes more) (given_up + abandonments more) g
unfolding finish answer abandon_attempt
Step-IsOrderly kind f g more ends given_up (calls_headers s n status) h = ground (arith, h)
Step-IsOrderly kind f g more ends given_up (calls_usage s n) h = ground (arith, h)
Step-IsOrderly kind f g more ends given_up (calls_finish s n o) h = ground (arith, h)
Step-IsOrderly kind f g more ends given_up (answers s idle n a) h = ground (arith, h)
Step-IsOrderly kind f g more ends given_up (answers s (for_headers c) n a) h = ground (arith, h)
Step-IsOrderly kind f g more ends given_up (answers s for_usage n a) h = ground (arith, h)
Step-IsOrderly kind f g more ends given_up (answers s (for_finish o) n true) h = ground (arith, h)
Step-IsOrderly kind f g more ends given_up (answers s (for_finish o) n false) h = ground (arith, h)
Step-IsOrderly kind f g more ends given_up (gives_up s w n) h = ground (arith, h)
Step-IsOrderly kind f g more ends given_up (takes_guard s n) h = ground (arith, h)
Step-IsOrderly kind f g more ends given_up (drops_guard s w b n) h = ground (arith, h)
Step-IsOrderly kind f g more ends given_up (drops_tracker s n) h = ground (arith, h)

-- In every flight of an attempt, at most one abandonment is told and at most one end is
-- acknowledged; the attempt is marked finished exactly when there was either; none has been
-- acknowledged while an end waits for the policy; and an attempt whose tracker is gone is
-- finished.
pub Reaches-IsOrderly :
    (kind : AttemptKind) (told : List Observation) (f : Flight)
    → Reaches kind told f
    → IsOrderly (finishes told) (abandonments told) f
Reaches-IsOrderly kind told f launched = ground arith
Reaches-IsOrderly kind told f (then_step before more f' g r s) =
    rw (finishes-append before more, abandonments-append before more)
      (Step-IsOrderly kind f' g more (finishes before) (abandonments before) s
        (Reaches-IsOrderly kind before f' r))

pub Reaches-ends :
    (kind : AttemptKind) (told : List Observation) (f : Flight)
    → Reaches kind told f
    → f.is_held ≡ false
    → 1 ≤ abandonments told + finishes told
Reaches-ends kind told f r h = ground (arith, Reaches-IsOrderly kind told f r, h)

-- Whether the policy has acknowledged a usage.
abbrev pub observed : Bool → List Observation → Bool
observed b [] = b
observed b (usage true ∷ os) = observed true os
observed b (_ ∷ os) = observed b os

-- Each abandonment names the kind of the attempt, and a usage exactly where one was acknowledged.
abbrev pub IsAccounted : AttemptKind → Bool → List Observation → Type 0
IsAccounted kind b [] = Unit
IsAccounted kind b (usage true ∷ os) = IsAccounted kind true os
IsAccounted kind b (abandoned_as o ∷ os) =
    (o ≡ abandoned kind (if b then usage_observed else unknown)) × IsAccounted kind b os
IsAccounted kind b (_ ∷ os) = IsAccounted kind b os

IsAccounted-append :
    (kind : AttemptKind) (b : Bool) (os ps : List Observation)
    → IsAccounted kind b os
    → IsAccounted kind (observed b os) ps
    → IsAccounted kind b (os ++ ps)
IsAccounted-append kind b [] ps h k = k
IsAccounted-append kind b (response_headers s a ∷ os) ps h k = IsAccounted-append kind b os ps h k
IsAccounted-append kind b (usage true ∷ os) ps h k = IsAccounted-append kind true os ps h k
IsAccounted-append kind b (usage false ∷ os) ps h k = IsAccounted-append kind b os ps h k
IsAccounted-append kind b (finished_as o a ∷ os) ps h k = IsAccounted-append kind b os ps h k
IsAccounted-append kind b (abandoned_as o ∷ os) ps h k =
    (h.0, IsAccounted-append kind b os ps h.1 k)

observed-append :
    (b : Bool) (os ps : List Observation) → observed b (os ++ ps) ≡ observed (observed b os) ps
observed-append b [] ps = refl
observed-append b (response_headers s a ∷ os) ps = observed-append b os ps
observed-append b (usage true ∷ os) ps = observed-append true os ps
observed-append b (usage false ∷ os) ps = observed-append b os ps
observed-append b (finished_as o a ∷ os) ps = observed-append b os ps
observed-append b (abandoned_as o ∷ os) ps = observed-append b os ps

abandon_attempt-IsAccounted :
    (kind : AttemptKind) (s : AttemptTrackerState)
    → IsAccounted kind s.is_usage_observed (abandon_attempt kind s).1
      × ((abandon_attempt kind s).0.is_usage_observed
          ≡ observed s.is_usage_observed (abandon_attempt kind s).1)
unfolding abandon_attempt
abandon_attempt-IsAccounted kind s = ground arith

Step-IsAccounted :
    (kind : AttemptKind) (f g : Flight) (more : List Observation)
    → Step kind f more g
    → IsAccounted kind f.state.is_usage_observed more
      × (g.state.is_usage_observed ≡ observed f.state.is_usage_observed more)
unfolding answer
Step-IsAccounted kind f g more (calls_headers s n status) = (tt, refl)
Step-IsAccounted kind f g more (calls_usage s n) = (tt, refl)
Step-IsAccounted kind f g more (calls_finish s n o) = (tt, refl)
Step-IsAccounted kind f g more (answers s idle n a) = (tt, refl)
Step-IsAccounted kind f g more (answers s (for_headers c) n a) = (tt, refl)
Step-IsAccounted kind f g more (answers s for_usage n true) = (tt, refl)
Step-IsAccounted kind f g more (answers s for_usage n false) = (tt, refl)
Step-IsAccounted kind f g more (answers s (for_finish o) n true) = (tt, refl)
Step-IsAccounted kind f g more (answers s (for_finish o) n false) = (tt, refl)
Step-IsAccounted kind f g more (gives_up s w n) = (tt, refl)
Step-IsAccounted kind f g more (takes_guard s n) = (tt, refl)
Step-IsAccounted kind f g more (drops_guard s w b n) = abandon_attempt-IsAccounted kind s
Step-IsAccounted kind f g more (drops_tracker s n) = abandon_attempt-IsAccounted kind s

-- In every flight of an attempt, an abandonment names the kind of the attempt, and says that
-- usage was observed exactly where the policy had acknowledged a usage before; and that is what
-- the state of the attempt says.
pub Reaches-IsAccounted :
    (kind : AttemptKind) (told : List Observation) (f : Flight)
    → Reaches kind told f
    → IsAccounted kind false told × (f.state.is_usage_observed ≡ observed false told)
Reaches-IsAccounted kind told f launched = (tt, refl)
Reaches-IsAccounted kind told f (then_step before more f' g r s) =
    let (was, now) = Reaches-IsAccounted kind before f' r in
    let (adds, next) = Step-IsAccounted kind f' g more s in
    (
      IsAccounted-append kind false before more was (subst (λ b. IsAccounted kind b more) now adds),
      next ∙ ap (λ b. observed b more) now ∙ sym (observed-append false before more),
    )

-- All that the policy is told of an attempt: on admission, and then in flight, if there is one.
abbrev pub told_in_all :
    Acquired × (DispatchPolicyState × List Observation)
    → (in_flight : List Observation) → List Observation
told_in_all (tracker s, (d, told)) in_flight = told ++ in_flight
told_in_all (error e, (d, told)) in_flight = told

-- An attempt that the policy admits, when the deadline had not passed before it was asked, has
-- an end that the policy is told of: either the deadline has passed since and the attempt is
-- abandoned at once, or, whatever happens in flight and whatever the policy answers, once the
-- tracker is gone the policy has acknowledged an end or has been told of an abandonment.
pub admitted-ends :
    (kind : AttemptKind) (d : DispatchPolicyState) (before after : ℕ)
    → is_active d.logical_deadline before ≡ true
    → (in_flight : List Observation) (f : Flight) → Reaches kind in_flight f
    → f.is_held ≡ false
    → let told = told_in_all (acquire kind d before none after) in_flight in
      1 ≤ abandonments told + finishes told
unfolding acquire answered abandon_attempt
admitted-ends kind d before after active in_flight f r h =
    ground (arith, active, Reaches-ends kind in_flight f r h)
