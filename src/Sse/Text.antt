-- ===== src/Sse/Text.antt =====
-- src/sse.rs: events are well-formed UTF-8, and the decoder refuses no line that is.
use llmshim.Common.{
  ℕ, ◌<◌, true, ◌≡◌, refl, sym, ◌∙◌, ap, subst, ◌⊎◌, inl, inr, List, [], ◌∷◌, ◌++◌, arith, leb, eqb,
  Bool-cases, ◌&&◌, if_cases, eqb_iff,
}
use mathlib.Core.List.{append_assoc}
use llmshim.Sse.Utf8.{is_utf8, is_utf8-append, is_utf8-split, is_utf8-cons, is_utf8-bom}
use llmshim.Sse.{
  LineState, LineEnd, no_event, event, refused, strip_bom, split_once, strip_space, drop_last,
  is_data, take_event, end_frame, add_field, end_text, finish_line,
}

-- The pending event data is nothing, or well-formed text and a line feed.
pub data IsTextData : List ℕ → Type 0 where
  no_data : IsTextData []
  with_data : (xs d : List ℕ) → is_utf8 xs ≡ true → d ≡ xs ++ b'\n' ∷ [] → IsTextData d

pub drop_last-append : (xs : List ℕ) (x : ℕ) → drop_last (xs ++ x ∷ []) ≡ xs
unfolding drop_last
drop_last-append [] x = refl
drop_last-append (y ∷ []) x = refl
drop_last-append (y ∷ z ∷ zs) x = ap (◌∷◌ y) (drop_last-append (z ∷ zs) x)

drop_last-utf8 : (d : List ℕ) → IsTextData d → is_utf8 (drop_last d) ≡ true
unfolding drop_last is_utf8
drop_last-utf8 d no_data = refl
drop_last-utf8 d (with_data xs d' h e) = rw e (rw (drop_last-append xs b'\n') h)

strip_bom-utf8 : (line : List ℕ) → is_utf8 line ≡ true → is_utf8 (strip_bom line) ≡ true
unfolding strip_bom
strip_bom-utf8 [] h = h
strip_bom-utf8 (a ∷ []) h = h
strip_bom-utf8 (a ∷ b ∷ []) h = h
strip_bom-utf8 (a ∷ b ∷ c ∷ rest) h =
    if_cases (λ l. is_utf8 l ≡ true) (eqb a 0xEF && eqb b 0xBB && eqb c 0xBF) _ _
      (λ bom. ground (arith, is_utf8-bom rest)) (λ _. h)

strip_space-utf8 : (value : List ℕ) → is_utf8 value ≡ true → is_utf8 (strip_space value) ≡ true
unfolding strip_space
strip_space-utf8 [] h = h
strip_space-utf8 (c ∷ cs) h = ground (arith, is_utf8-cons c cs)

-- The value behind the first separator, or nothing.
split_once_cases :
    (sep : ℕ) (line : List ℕ)
    → ((split_once sep line).1 ≡ [])
      ⊎ (line ≡ (split_once sep line).0 ++ sep ∷ (split_once sep line).1)
unfolding split_once
split_once_cases sep [] = inl refl
split_once_cases sep (c ∷ cs) = elim (Bool-cases (eqb c sep)) [
  | inl here ↦ inr (rw here (ap (λ x. x ∷ cs) ((eqb_iff c sep).0 here)))
  | inr later ↦ elim (split_once_cases sep cs) [
    | inl e ↦ inl (rw later e)
    | inr e ↦ inr (rw later (ap (◌∷◌ c) e))
  ]
]

pub empty-utf8 : is_utf8 [] ≡ true
unfolding is_utf8
empty-utf8 = refl

value-utf8 :
    (sep : ℕ) (line : List ℕ)
    → sep < 0x80
    → is_utf8 line ≡ true
    → is_utf8 (split_once sep line).1 ≡ true
value-utf8 sep line a h = elim (split_once_cases sep line) [
  | inl e ↦ rw e empty-utf8
  | inr e ↦
      (is_utf8-split (split_once sep line).0 sep (split_once sep line).1 a
        (subst (λ l. is_utf8 l ≡ true) e h)).1
]

-- What the end of a line may give: an event, if any, and the event data in order.
abbrev pub IsAccepted : LineEnd → Type 0
IsAccepted (no_event t) = IsTextData t.event_data
IsAccepted (event e t) = (is_utf8 e ≡ true) × IsTextData t.event_data
IsAccepted (refused message t) = ⊥

take_event-IsAccepted :
    (t : LineState) (d : List ℕ) → t.event_data ≡ d → IsTextData d → IsAccepted (take_event t d)
unfolding take_event
take_event-IsAccepted t [] e h = rw e no_data
take_event-IsAccepted t (b ∷ bs) e h =
    rw (drop_last-utf8 (b ∷ bs) h) (drop_last-utf8 (b ∷ bs) h, no_data)

end_frame-IsAccepted :
    (t : LineState)
    → t.frames < t.limits.frames
    → IsTextData t.event_data
    → IsAccepted (end_frame t)
unfolding end_frame
end_frame-IsAccepted t room h =
    if_cases IsAccepted (leb t.limits.frames t.frames) _ _ (λ full. absurd (ground arith))
      (λ _. take_event-IsAccepted _ t.event_data refl h)

append-IsTextData :
    (d v : List ℕ) → IsTextData d → is_utf8 v ≡ true → IsTextData (d ++ (v ++ b'\n' ∷ []))
append-IsTextData d v no_data h = with_data v _ h refl
append-IsTextData d v (with_data xs d' k e) h =
    with_data (d ++ v) _ (is_utf8-append d v (rw e (is_utf8-append xs _ k newline)) h)
      (sym (append_assoc d v (b'\n' ∷ [])))
  where
    newline : is_utf8 (b'\n' ∷ []) ≡ true
    newline = is_utf8-cons b'\n' [] (omega arith) ∙ empty-utf8

add_field-IsAccepted :
    (t : LineState) (field value : List ℕ)
    → IsTextData t.event_data
    → is_utf8 value ≡ true
    → IsAccepted (add_field t (field, value))
unfolding add_field
add_field-IsAccepted t field value h k =
    if_cases IsAccepted (is_data field) _ _
      (λ _. append-IsTextData t.event_data (strip_space value) h (strip_space-utf8 value k))
      (λ _. h)

end_text-IsAccepted :
    (t : LineState) (l : List ℕ)
    → t.frames < t.limits.frames
    → IsTextData t.event_data
    → is_utf8 l ≡ true
    → IsAccepted (end_text t l)
unfolding end_text
end_text-IsAccepted t [] room h k = end_frame-IsAccepted t room h
end_text-IsAccepted t (c ∷ cs) room h k =
    add_field-IsAccepted t (split_once b':' (c ∷ cs)).0 (split_once b':' (c ∷ cs)).1 h
      (value-utf8 b':' (c ∷ cs) (omega arith) k)

-- A line of well-formed UTF-8 is refused only for the frame count: with frames left it is taken,
-- an event that it ends is well-formed UTF-8, and the event data stays well-formed. So the second
-- test of the encoding, that of the event, never fails.
pub finish_line-IsAccepted :
    (t : LineState)
    → t.frames < t.limits.frames
    → IsTextData t.event_data
    → is_utf8 t.line ≡ true
    → IsAccepted (finish_line t)
unfolding finish_line
finish_line-IsAccepted t room h valid = rw valid (
    if_cases IsAccepted t.first_line _ _
      (λ _. end_text-IsAccepted _ (strip_bom t.line) room h (strip_bom-utf8 t.line valid))
      (λ _. end_text-IsAccepted t t.line room h valid))
