-- ===== src/ToolProgress/Reader.antt =====
-- src/toolcall/progress.rs: a reader that appends what each step appended.
use llmshim.Common.{
  ℕ, ◌+◌, Bool, true, false, ◌&&◌, ◌≡◌, ◌∙◌, sym, ap, refl, String, none, some, List, [], ◌∷◌,
  arith, eqb, if◌then◌else◌, ◌<>◌, subst,
}
use Prim.Native.String.{len}
use Prim.Native.String.len
use text.Mathlib.Text.{get?}
use text.Mathlib.TextLemmas.{append-nil, nil-append}
use text.Mathlib.TextPositions.{len-append, len_utf8-pos, get?-append_middle}
use llmshim.ToolProgress.{
  ToolCallProgressEvent, started, arguments, ended, abandoned, CallView, ArgumentsBefore, contains,
  ProgressReporter, is_empty, start, updated, text_from,
}
use llmshim.ToolProgress.Protocol.{events}

-- What a reader shows for a call, after what it showed before.
abbrev pub read : String → List ToolCallProgressEvent → String
read seen [] = seen
read seen (started name ∷ es) = read "" es
read seen (arguments text none ∷ es) = read text es
read seen (arguments text (some appended) ∷ es) = read (seen <> appended) es
read seen (ended ∷ es) = read seen es
read seen (abandoned ∷ es) = read seen es

-- The text from the end of a front of it.
text_from-append : (a b : String) → text_from (a <> b) (len a) ≡ some b
text_from-append a b = rw (len-append a b) (
    subst (λ t. get? (a <> t) (len a) (len a + len b) ≡ some b) (append-nil b)
      (get?-append_middle a b ""))

len-zero : (a : String) → len a ≡ 0 → a ≡ ""
len-zero String.[] h = refl
len-zero (String.◌∷◌ c a) h = absurd (omega (arith, h, len.cons c a, (len_utf8-pos c).1))

-- `before` is what the caller says of the text that was visible before the update.
abbrev pub Describes : (kept : Bool) (n : ℕ) (seen now : String) → Type 0
Describes kept n seen now =
    (kept ≡ true) → (rest : String) × ((now ≡ seen <> rest) × (n ≡ len seen))

empty : (a : String) → is_empty a ≡ true → a ≡ ""
empty String.[] h = refl
empty (String.◌∷◌ c a) h = absurd (ground (arith, h))

read-start :
    (r : ProgressReporter) (call : CallView) (seen : String)
    → read seen (events (start r call).1) ≡ call.arguments
unfolding start
read-start r call seen = ground (arith, empty call.arguments, nil-append call.arguments)

-- What is appended makes up the text.
read-arguments :
    (kept : Bool) (n : ℕ) (seen now : String)
    → Describes kept n seen now
    → read seen (arguments now (if kept then text_from now n else none) ∷ []) ≡ now
read-arguments false n seen now d = refl
read-arguments true n seen now d =
    let (rest, (grown, long)) = d refl in
    let found : text_from now n ≡ some rest = rw (grown, long) (text_from-append seen rest) in
    rw found (sym grown)

-- A text of the length before is the text before.
same_length :
    (kept : Bool) (n : ℕ) (seen now : String)
    → Describes kept n seen now
    → (kept && eqb (len now) n) ≡ true
    → seen ≡ now
same_length false n seen now d h = absurd (ground (arith, h))
same_length true n seen now d h =
    let (rest, (grown, long)) = d refl in
    let nothing : rest ≡ "" =
      len-zero rest (ground (arith, h, long, grown, len-append seen rest, ap len grown)) in
    sym (grown ∙ ap (λ t. seen <> t) nothing ∙ append-nil seen)

-- Where a call is open after an update, and the update says truly of the text before it that it
-- is kept and how long it is, or that it is not kept, a reader that appends what a step
-- appended, and takes the text of one that appended nothing, shows the arguments of the call.
pub read-updated :
    (r : ProgressReporter) (call : CallView) (settled : Bool) (before : ArgumentsBefore)
    (seen : String)
    → contains (updated r call settled before).0.open_calls call.key ≡ true
    → Describes before.kept before.len seen call.arguments
    → read seen (events (updated r call settled before).1) ≡ call.arguments
unfolding updated start
read-updated r call settled before seen h d = ground (
  arith,
  h,
  read-start r call seen,
  read-arguments before.kept before.len seen call.arguments d,
  same_length before.kept before.len seen call.arguments d,
)
