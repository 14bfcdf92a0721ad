-- ===== src/Tracker/Examples.antt =====
-- src/policy.rs: a stream whose reader goes away while the end is being acknowledged.
use llmshim.Common.{◌+◌, ◌≤◌, Bool, true, false, ◌≡◌, refl, none, some, List, [], ◌∷◌}
use llmshim.Attempt.{stream, AttemptOutcome, completed, usage_observed}
use llmshim.Tracker.{
  AttemptTrackerState, Observation, idle, for_usage, for_finish, Flight, launch, calls_usage,
  calls_finish, answers, takes_guard, drops_guard, drops_tracker, Reaches, launched, then_step,
  DispatchPolicyState, acquire, new_tracker, abandon_attempt, answer, finish,
}
use llmshim.Tracker.Endings.{
  abandonments, finishes, IsOrderly, Reaches-IsOrderly, IsAccounted, observed, Reaches-IsAccounted,
  told_in_all, admitted-ends,
}

abbrev with_usage : AttemptTrackerState
with_usage = record { is_usage_observed = true; finished = false }

abbrev over : AttemptTrackerState
over = record { is_usage_observed = true; finished = true }

abbrev outcome : AttemptOutcome
outcome = completed usage_observed

abbrev flight : AttemptTrackerState → Bool → Flight
flight s held = record { state = s; waiting = idle; is_held = held; guards = 0 }

-- usage acknowledged; the guard dropped while the end waits; the end acknowledged
abbrev told : List Observation
told =
    Observation.usage true
    ∷ Observation.abandoned_as (AttemptOutcome.abandoned stream usage_observed)
    ∷ Observation.finished_as outcome true
    ∷ []

flown : Reaches stream told (flight over false)
unfolding answer finish abandon_attempt
flown =
    then_step told [] (flight over true) _
      (then_step _ (Observation.finished_as outcome true ∷ [])
        (record { state = over; waiting = for_finish outcome; is_held = true; guards = 0 }) _
        (then_step _
          (Observation.abandoned_as (AttemptOutcome.abandoned stream usage_observed) ∷ [])
          (record { state = with_usage; waiting = for_finish outcome; is_held = true; guards = 1 })
          _
          (then_step _ []
            (record { state = with_usage; waiting = idle; is_held = true; guards = 1 }) _
            (then_step _ (Observation.usage true ∷ [])
              (record { state = new_tracker; waiting = for_usage; is_held = true; guards = 1 }) _
              (then_step _ []
                (record { state = new_tracker; waiting = idle; is_held = true; guards = 1 }) _
                (then_step _ [] launch _ launched (takes_guard new_tracker 0))
                (calls_usage new_tracker 1))
              (answers new_tracker for_usage 1 true))
            (calls_finish with_usage 1 outcome))
          (drops_guard with_usage (for_finish outcome) true 0))
        (answers over (for_finish outcome) 0 true))
      (drops_tracker over 0)

Reaches-IsOrderly_example : IsOrderly (finishes told) (abandonments told) (flight over false)
Reaches-IsOrderly_example = Reaches-IsOrderly stream told (flight over false) flown

Reaches-IsAccounted_example :
    IsAccounted stream false told × (over.is_usage_observed ≡ observed false told)
Reaches-IsAccounted_example = Reaches-IsAccounted stream told (flight over false) flown

abbrev context : DispatchPolicyState
context = record { last_refusal = none; logical_deadline = some 100 }

admitted-ends_example :
    let all = told_in_all (acquire stream context 10 none 20) told in
    1 ≤ abandonments all + finishes all
admitted-ends_example = admitted-ends stream context 10 20 refl told (flight over false) flown refl
