-- ===== src/ToolProgress.antt =====
-- src/toolcall/progress.rs: the steps that a stream reports of a tool call while it is written.
-- What an operation hands to the sink is returned, in order, beside the reporter.
pub mod Protocol
pub mod Reader
mod Examples
use llmshim.Common.{
  ℕ, ◌-◌, Bool, true, false, not, ◌&&◌, String, Option, none, some, List, [], ◌∷◌, ◌++◌, leb, eqb,
  if◌then◌else◌, string_key, ◌==◌,
}
use Prim.Native.String.{len}
use Prim.Native.String
use text.Mathlib.Text.{get?}

pub data ToolCallProgressEvent : Type 0 where
  started : (name : String) → ToolCallProgressEvent
  arguments : (text : String) (appended : Option String) → ToolCallProgressEvent
  ended : ToolCallProgressEvent
  abandoned : ToolCallProgressEvent

pub record ToolCallProgress : Type 0 where
  pub choice : ℕ
  pub index : ℕ
  pub id : String
  pub event : ToolCallProgressEvent

pub record CallView : Type 0 where
  pub key : String
  pub choice : ℕ
  pub index : ℕ
  pub id : String
  pub name : String
  pub arguments : String

pub record ArgumentsBefore : Type 0 where
  pub len : ℕ
  pub kept : Bool

-- BTreeSet<String>
abbrev pub contains : List String → String → Bool
contains [] key = false
contains (k ∷ ks) key = let rest = contains ks key in if k == key then true else rest

abbrev pub remove : List String → String → List String
remove [] key = []
remove (k ∷ ks) key = let rest = remove ks key in if k == key then rest else k ∷ rest

abbrev pub insert : List String → String → List String
insert ks key = if contains ks key then ks else key ∷ ks

pub record ProgressReporter : Type 0 where
  pub open_calls : List String

abbrev pub new : ProgressReporter
new = record { open_calls = [] }

abbrev pub is_empty : String → Bool
is_empty String.[] = true
is_empty (String.◌∷◌ c s) = false

-- str::get(n..): `none` past the end and inside a character.
abbrev pub text_from : String → ℕ → Option String
text_from s n = get? s n (len s)

abbrev pub emit : CallView → ToolCallProgressEvent → List ToolCallProgress
emit call event =
    record { choice = call.choice; index = call.index; id = call.id; event = event } ∷ []

-- An operation's outcome: the reporter after it, and what it has handed to the sink.
abbrev pub Reported : Type 0
Reported = ProgressReporter × List ToolCallProgress

unfoldable pub start : ProgressReporter → CallView → Reported
start r call = (
  record { open_calls = insert r.open_calls call.key },
  emit call (started call.name)
      ++ (if not (is_empty call.arguments)
          then emit call (arguments call.arguments (some call.arguments))
          else []),
)

unfoldable pub updated :
    ProgressReporter → CallView → (name_settled : Bool) → ArgumentsBefore → Reported
unfolding start
updated r call name_settled before =
    if not (contains r.open_calls call.key)
    then if name_settled && not (is_empty call.name) then start r call else (r, [])
    else if before.kept && eqb (len call.arguments) before.len
    then (r, [])
    else let appended = if before.kept then text_from call.arguments before.len else none in
      (r, emit call (arguments call.arguments appended))

unfoldable pub ended_at : ProgressReporter → CallView → Reported
unfolding start
ended_at r call =
    let (r1, first) = if not (contains r.open_calls call.key) then start r call else (r, []) in
    (record { open_calls = remove r1.open_calls call.key }, first ++ emit call ended)

unfoldable pub abandoned_at : ProgressReporter → CallView → Reported
abandoned_at r call =
    if contains r.open_calls call.key
    then (record { open_calls = remove r.open_calls call.key }, emit call abandoned)
    else (r, [])
