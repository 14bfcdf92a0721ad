-- ===== src/Boundary/Lines.antt =====
-- src/proxy/lifetime.rs: the boundary is safe where the text is empty or its last line is.
use llmshim.Common.{
  ℕ, Bool, true, false, ◌&&◌, List, ◌∷◌, ◌++◌, ◌≡◌, refl, eqb, if◌then◌else◌, arith,
}
use mathlib.Core.List.{[]}
use llmshim.Boundary.{SseBoundary, new, observe_byte, observe, is_safe}

-- The text with each line end, CR, LF or CR LF, as one LF.
abbrev pub normalize : (after_cr : Bool) → List ℕ → List ℕ
normalize cr [] = []
normalize cr (byte ∷ bytes) =
    let skipped = normalize false bytes in
    let returned = normalize true bytes in
    if cr && eqb byte 10 then skipped else if eqb byte 13 then 10 ∷ returned else byte ∷ skipped

-- After `a` and `b`, the text ends in two line ends.
abbrev pub ends_two : (a b : ℕ) → List ℕ → Bool
ends_two a b [] = eqb a 10 && eqb b 10
ends_two a b (c ∷ rest) = ends_two b c rest

abbrev pub ends_one : ℕ → List ℕ → Bool
ends_one a [] = eqb a 10
ends_one a (b ∷ rest) = ends_two a b rest

-- The text has no unfinished line, and no unfinished event: it is empty, or one line end, or ends
-- in two of them.
abbrev pub ends_blank : List ℕ → Bool
ends_blank [] = true
ends_blank (a ∷ rest) = ends_one a rest

-- A state in the middle of a text.
abbrev state : (at_start cr safe : Bool) → SseBoundary
state at_start cr safe = record {
  at_line_start = at_start;
  after_carriage_return = cr;
  safe = safe;
  observed_anything = true;
}

observe-two :
    (bytes : List ℕ) (cr : Bool) (a b : ℕ)
    → is_safe (observe (state (eqb b 10) cr (eqb a 10 && eqb b 10)) bytes)
      ≡ ends_two a b (normalize cr bytes)
unfolding observe observe_byte is_safe
observe-two [] cr a b = refl
observe-two (byte ∷ bytes) cr a b = ground (
  arith,
  observe-two bytes false a b,
  observe-two bytes true b 10,
  observe-two bytes false b byte,
)

observe-one :
    (bytes : List ℕ) (cr : Bool) (a : ℕ)
    → is_safe (observe (state (eqb a 10) cr (eqb a 10)) bytes) ≡ ends_one a (normalize cr bytes)
unfolding observe observe_byte is_safe
observe-one [] cr a = refl
observe-one (byte ∷ bytes) cr a =
    ground (
      arith,
      observe-one bytes false a,
      observe-two bytes true a 10,
      observe-two bytes false a byte,
    )

-- After any bytes, the boundary is safe exactly when the text, with CR, LF and CR LF each read
-- as one line end, is empty, is one line end, or ends in two of them.
pub is_safe-observe :
    (bytes : List ℕ) → is_safe (observe new bytes) ≡ ends_blank (normalize false bytes)
unfolding observe observe_byte is_safe
is_safe-observe [] = refl
is_safe-observe (byte ∷ bytes) =
    ground (arith, observe-one bytes true 10, observe-one bytes false byte)

pub observe-append :
    (front back : List ℕ) (s : SseBoundary)
    → observe s (front ++ back) ≡ observe (observe s front) back
unfolding observe
observe-append [] back s = refl
observe-append (byte ∷ front) back s = observe-append front back (observe_byte s byte)
