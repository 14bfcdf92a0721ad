-- ===== src/Sse/Utf8.antt =====
-- `std::str::from_utf8` as src/sse.rs uses it: whether bytes are well-formed UTF-8 (the table of
-- RFC 3629, which rules out overlong forms, surrogates and values past U+10FFFF).
use llmshim.Common.{
  ◌≤◌, ◌<◌, ◌≡◌, arith, refl, sym, ◌∙◌, inl, inr, Option-cases, ◌++◌, ℕ, zero, suc, Bool, true,
  false, ◌&&◌, Option, none, some, List, [], ◌∷◌, leb, ltb, eqb, if◌then◌else◌,
}

-- Between characters, or inside one: the next byte lies in a range, and `more` follow it.
pub data Utf8State : Type 0 where
  start : Utf8State
  inside : (low high more : ℕ) → Utf8State

abbrev between : ℕ → ℕ → ℕ → Bool
between low high b = leb low b && leb b high

lead_byte : ℕ → Option Utf8State
lead_byte b =
    if ltb b 0x80
    then some start
    else if between 0xC2 0xDF b
    then some (inside 0x80 0xBF 0)
    else if eqb b 0xE0
    then some (inside 0xA0 0xBF 1)
    else if eqb b 0xED
    then some (inside 0x80 0x9F 1)
    else if between 0xE1 0xEF b
    then some (inside 0x80 0xBF 1)
    else if eqb b 0xF0
    then some (inside 0x90 0xBF 2)
    else if between 0xF1 0xF3 b
    then some (inside 0x80 0xBF 2)
    else if eqb b 0xF4
    then some (inside 0x80 0x8F 2)
    else none

next_state : Utf8State → ℕ → Option Utf8State
unfolding lead_byte
next_state start b = lead_byte b
next_state (inside low high zero) b = if between low high b then some start else none
next_state (inside low high (suc more)) b =
    if between low high b then some (inside 0x80 0xBF more) else none

pub utf8_from : Utf8State → List ℕ → Bool
unfolding next_state
utf8_from start [] = true
utf8_from (inside low high more) [] = false
utf8_from st (b ∷ bs) = elim (next_state st b) [ none ↦ false | some st' ↦ utf8_from st' bs ]

unfoldable pub is_utf8 : List ℕ → Bool
unfolding utf8_from
is_utf8 bs = utf8_from start bs

-- Inside a character no byte below 0x80 comes next.
abbrev pub IsInner : Utf8State → Type 0
IsInner start = Unit {0}
IsInner (inside low high more) = 0x80 ≤ low

next_state-IsInner :
    (st st' : Utf8State) (b : ℕ) → IsInner st → next_state st b ≡ some st' → IsInner st'
unfolding next_state
next_state-IsInner start st' b h e = ground arith
next_state-IsInner (inside low high zero) st' b h e = ground arith
next_state-IsInner (inside low high (suc more)) st' b h e = ground arith

utf8_from-some :
    (st st' : Utf8State) (b : ℕ) (bs : List ℕ)
    → next_state st b ≡ some st'
    → utf8_from st (b ∷ bs) ≡ utf8_from st' bs
unfolding utf8_from
utf8_from-some start st' b bs h = rw (h, utf8_from)
utf8_from-some (inside low high more) st' b bs h = rw (h, utf8_from)

utf8_from-none :
    (st : Utf8State) (b : ℕ) (bs : List ℕ) → next_state st b ≡ none → utf8_from st (b ∷ bs) ≡ false
unfolding utf8_from
utf8_from-none start b bs h = rw (h, utf8_from)
utf8_from-none (inside low high more) b bs h = rw (h, utf8_from)

utf8_from-append :
    (st : Utf8State) (xs ys : List ℕ)
    → utf8_from st xs ≡ true
    → utf8_from start ys ≡ true
    → utf8_from st (xs ++ ys) ≡ true
unfolding utf8_from
utf8_from-append start [] ys h k = k
utf8_from-append (inside low high more) [] ys h k = cc
utf8_from-append st (x ∷ xs) ys h k = elim (Option-cases (next_state st x)) [
  | inl bad ↦ cc (utf8_from-none st x xs bad)
  | inr (st', e) ↦
      utf8_from-some st st' x (xs ++ ys) e
      ∙ utf8_from-append st' xs ys (sym (utf8_from-some st st' x xs e) ∙ h) k
]

ascii : (c : ℕ) → c < 0x80 → next_state start c ≡ some start
unfolding next_state
ascii c a = ground arith

not_inner :
    (low high more c : ℕ) → 0x80 ≤ low → c < 0x80 → next_state (inside low high more) c ≡ none
unfolding next_state
not_inner low high zero c i a = ground arith
not_inner low high (suc more) c i a = ground arith

utf8_from-split :
    (st : Utf8State) (xs : List ℕ) (c : ℕ) (ys : List ℕ)
    → IsInner st
    → c < 0x80
    → utf8_from st (xs ++ c ∷ ys) ≡ true
    → (utf8_from st xs ≡ true) × (utf8_from start ys ≡ true)
unfolding utf8_from
utf8_from-split start [] c ys i a h = (refl, sym (utf8_from-some start start c ys (ascii c a)) ∙ h)
utf8_from-split (inside low high more) [] c ys i a h =
    cc (utf8_from-none (inside low high more) c ys (not_inner low high more c i a))
utf8_from-split st (x ∷ xs) c ys i a h = elim (Option-cases (next_state st x)) [
  | inl bad ↦ cc (utf8_from-none st x (xs ++ c ∷ ys) bad)
  | inr (st', e) ↦
      let rest =
        utf8_from-split st' xs c ys (next_state-IsInner st st' x i e) a
          (sym (utf8_from-some st st' x (xs ++ c ∷ ys) e) ∙ h) in
      (utf8_from-some st st' x xs e ∙ rest.0, rest.1)
]

-- Well-formed texts can be joined.
pub is_utf8-append :
    (xs ys : List ℕ) → is_utf8 xs ≡ true → is_utf8 ys ≡ true → is_utf8 (xs ++ ys) ≡ true
unfolding is_utf8
is_utf8-append xs ys h k = utf8_from-append start xs ys h k

-- A well-formed text is cut at an ASCII byte into well-formed texts.
pub is_utf8-split :
    (xs : List ℕ) (c : ℕ) (ys : List ℕ)
    → c < 0x80
    → is_utf8 (xs ++ c ∷ ys) ≡ true
    → (is_utf8 xs ≡ true) × (is_utf8 ys ≡ true)
unfolding is_utf8
is_utf8-split xs c ys a h = utf8_from-split start xs c ys tt a h

-- So is one that begins with an ASCII byte, and one that begins with U+FEFF.
pub is_utf8-cons : (c : ℕ) (cs : List ℕ) → c < 0x80 → is_utf8 (c ∷ cs) ≡ is_utf8 cs
unfolding is_utf8
is_utf8-cons c cs a = utf8_from-some start start c cs (ascii c a)

pub is_utf8-bom : (cs : List ℕ) → is_utf8 (0xEF ∷ 0xBB ∷ 0xBF ∷ cs) ≡ is_utf8 cs
unfolding is_utf8
is_utf8-bom cs = refl
