-- ===== src/ToolProgress/Protocol.antt =====
-- src/toolcall/progress.rs: the order of a call's steps.
use llmshim.Common.{
  Bool, true, false, ◌≡◌, ◌∙◌, sym, ap, refl, String, Option, none, some, List, [], ◌∷◌, ◌++◌,
  arith, if◌then◌else◌, string_key, ◌==◌, ◌>>=◌, if_cases, subst,
}
use llmshim.ToolProgress.{
  ToolCallProgressEvent, started, arguments, ended, abandoned, ToolCallProgress, CallView,
  ArgumentsBefore, contains, remove, insert, ProgressReporter, Reported, start, updated, ended_at,
  abandoned_at,
}

contains-remove :
    (ks : List String) (k j : String)
    → contains (remove ks k) j ≡ (if k == j then false else contains ks j)
contains-remove [] k j = ground arith
contains-remove (i ∷ ks) k j = ground (
  arith,
  contains-remove ks k j,
  string_key.same_key_iff i k,
  string_key.same_key_iff i j,
  string_key.same_key_iff k j,
)

contains-insert :
    (ks : List String) (k j : String)
    → contains (insert ks k) j ≡ (if k == j then true else contains ks j)
contains-insert ks k j = ground (arith, string_key.same_key_iff k j)

pub data Call : Type 0 where
  updates : CallView → (name_settled : Bool) → ArgumentsBefore → Call
  ends : CallView → Call
  abandons : CallView → Call

abbrev pub perform : ProgressReporter → Call → Reported
perform r (updates call settled before) = updated r call settled before
perform r (ends call) = ended_at r call
perform r (abandons call) = abandoned_at r call

abbrev pub key_of : Call → String
key_of (updates call settled before) = call.key
key_of (ends call) = call.key
key_of (abandons call) = call.key

abbrev pub events : List ToolCallProgress → List ToolCallProgressEvent
events [] = []
events (p ∷ ps) = p.event ∷ events ps

-- What the calls of one key hand to the sink, and the reporter in the end.
abbrev pub run :
    (key : String) → ProgressReporter → List Call → ProgressReporter × List ToolCallProgressEvent
run key r [] = (r, [])
run key r (c ∷ cs) =
    let (r1, steps) = perform r c in
    let (r2, rest) = run key r1 cs in (r2, (if key_of c == key then events steps else []) ++ rest)

-- The order that is promised: whether a call is open, after one more step; `none` out of order.
abbrev pub step : Bool → ToolCallProgressEvent → Option Bool
step false (started name) = some true
step true (arguments text appended) = some true
step true ended = some false
step true abandoned = some false
step _ _ = none

abbrev pub follow : Bool → List ToolCallProgressEvent → Option Bool
follow writing [] = some writing
follow writing (e ∷ es) = step writing e >>= λ writing'. follow writing' es

follow-append :
    (writing : Bool) (es fs : List ToolCallProgressEvent)
    → follow writing (es ++ fs) ≡ (follow writing es >>= λ writing'. follow writing' fs)
follow-append writing [] fs = refl
follow-append false (started n ∷ es) fs = follow-append true es fs
follow-append false (arguments t a ∷ es) fs = refl
follow-append false (ended ∷ es) fs = refl
follow-append false (abandoned ∷ es) fs = refl
follow-append true (started n ∷ es) fs = refl
follow-append true (arguments t a ∷ es) fs = follow-append true es fs
follow-append true (ended ∷ es) fs = follow-append false es fs
follow-append true (abandoned ∷ es) fs = follow-append false es fs

-- One call follows the order for its own key.
follow-perform :
    (r : ProgressReporter) (c : Call)
    → follow (contains r.open_calls (key_of c)) (events (perform r c).1)
      ≡ some (contains (perform r c).0.open_calls (key_of c))
unfolding updated start ended_at abandoned_at
follow-perform r (updates call settled before) = ground (
  arith,
  contains-insert r.open_calls call.key call.key,
  string_key.same_key_iff call.key call.key,
)
follow-perform r (ends call) = ground (
  arith,
  contains-remove r.open_calls call.key call.key,
  contains-remove (insert r.open_calls call.key) call.key call.key,
  string_key.same_key_iff call.key call.key,
)
follow-perform r (abandons call) = ground (
  arith,
  contains-remove r.open_calls call.key call.key,
  string_key.same_key_iff call.key call.key,
)

-- It changes nothing for another.
perform-other :
    (r : ProgressReporter) (c : Call) (key : String)
    → (key_of c == key) ≡ false
    → contains (perform r c).0.open_calls key ≡ contains r.open_calls key
unfolding updated start ended_at abandoned_at
perform-other r (updates call settled before) key h =
    ground (arith, h, contains-insert r.open_calls call.key key)
perform-other r (ends call) key h = ground (
  arith,
  h,
  contains-insert r.open_calls call.key key,
  contains-remove r.open_calls call.key key,
  contains-remove (insert r.open_calls call.key) call.key key,
)
perform-other r (abandons call) key h = ground (arith, h, contains-remove r.open_calls call.key key)

follow-step :
    (key : String) (r : ProgressReporter) (c : Call)
    → follow (contains r.open_calls key) (if key_of c == key then events (perform r c).1 else [])
      ≡ some (contains (perform r c).0.open_calls key)
follow-step key r c =
    if_cases
      (λ es. follow (contains r.open_calls key) es ≡ some (contains (perform r c).0.open_calls key))
      (key_of c == key) (events (perform r c).1) []
      (λ same.
        subst
          (λ k.
            follow (contains r.open_calls k) (events (perform r c).1)
            ≡ some (contains (perform r c).0.open_calls k))
          ((string_key.same_key_iff (key_of c) key).0 same) (follow-perform r c))
      (λ other. ap some (sym (perform-other r c key other)))

-- Whatever is called on a reporter, for whatever calls, the steps of the calls of one key come
-- in the order: started, then any arguments, then ended or abandoned, and then perhaps started
-- again; and the key is open in the reporter exactly when its last step is not the end.
pub follow-run :
    (key : String) (r : ProgressReporter) (cs : List Call)
    → follow (contains r.open_calls key) (run key r cs).1
      ≡ some (contains (run key r cs).0.open_calls key)
follow-run key r [] = refl
follow-run key r (c ∷ cs) =
    follow-append (contains r.open_calls key)
      (if key_of c == key then events (perform r c).1 else []) (run key (perform r c).0 cs).1
    ∙ rw (follow-step key r c) (follow-run key (perform r c).0 cs)
