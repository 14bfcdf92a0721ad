-- ===== src/Sse/Chunks.antt =====
-- src/sse.rs: what a reader of the stream gets is decided by the bytes alone. How the source cuts
-- them into chunks, how often it is not ready, and the 65,536 rounds after which a poll gives way
-- to other tasks all leave no trace.
use llmshim.Common.{
  ℕ, zero, suc, ◌+◌, ◌≤◌, ◌<◌, true, false, ◌≡◌, refl, sym, ◌∙◌, ap, subst, List, [], ◌∷◌, ◌++◌,
  length, arith, leb, if◌then◌else◌, ◌-◌, Bool-cases, if_cases, inl, inr,
}
use llmshim.Error.{stream, Result, ok, err}
use llmshim.Sse.Utf8.{is_utf8}
use llmshim.Sse.Bounds.{
  IsBounded, IsBoundedStream, left_by, chunk_fits, read_byte-IsBounded, new-IsBounded,
}
use llmshim.Sse.{
  StreamLimits, LineState, LineEnd, no_event, event, refused, DataStream, SourcePoll, chunk, failed,
  not_ready, Poll, pending, ready_none, ready, Turn, again, done, read_byte, finish, fail,
  poll_source, after_byte, turn_on, turn, rounds_of, poll_next, new,
}

-- A reader: it polls, again where the stream is pending, and keeps what it gets up to the end.
unfoldable pub collect : ℕ → DataStream → List (Result (List ℕ))
collect zero s = []
collect (suc n) s =
    let (p, s') = poll_next s in
    elim p [ pending ↦ collect n s' | ready_none ↦ [] | ready r ↦ r ∷ collect n s' ]

-- The same from the bytes, with no chunks, polls or rounds.
unfoldable pub decode : LineState → List ℕ → List (Result (List ℕ))
decode t [] = if is_utf8 t.line then [] else err (stream "invalid upstream SSE UTF-8") ∷ []
decode t (b ∷ bs) = elim (read_byte t b) [
  | no_event t' ↦ decode t' bs
  | event e t' ↦ ok e ∷ decode t' bs
  | refused message t' ↦ err (stream message) ∷ []
]

abbrev pub bytes_of : List SourcePoll → List ℕ
bytes_of [] = []
bytes_of (chunk bytes ∷ rest) = bytes ++ bytes_of rest
bytes_of (failed ∷ rest) = []
bytes_of (not_ready ∷ rest) = bytes_of rest

-- The source does not fail, and has at most `room` chunks.
abbrev pub IsSound : ℕ → List SourcePoll → Type 0
IsSound room [] = Unit {0}
IsSound room (failed ∷ rest) = ⊥
IsSound room (not_ready ∷ rest) = IsSound room rest
IsSound room (chunk bytes ∷ rest) = (0 < room) × IsSound (room - 1) rest

-- Turns that the source is good for.
abbrev pub source_work : List SourcePoll → ℕ
source_work [] = 0
source_work (chunk bytes ∷ rest) = suc (length bytes + source_work rest)
source_work (failed ∷ rest) = suc (source_work rest)
source_work (not_ready ∷ rest) = suc (source_work rest)

abbrev pub work : DataStream → ℕ
work s = length s.current_chunk + source_work s.source

abbrev remaining : DataStream → List (Result (List ℕ))
remaining s = decode s.text (s.current_chunk ++ bytes_of s.source)

module _ (limits : StreamLimits) where
  record IsReady (s : DataStream) : Type 0 where
    bounded : IsBoundedStream limits s
    going : s.finished ≡ false
    sound : IsSound (limits.chunks - s.chunks) s.source

  -- What a poll has to do with the items that remained before it, and the work.
  abbrev Outcome : List (Result (List ℕ)) → ℕ → Poll → DataStream → Type 0
  Outcome items w pending s' = IsReady s' × (items ≡ remaining s') × (work s' < w)
  Outcome items w ready_none s' = items ≡ []
  Outcome items w (ready (ok e)) s' = IsReady s' × (items ≡ ok e ∷ remaining s') × (work s' < w)
  Outcome items w (ready (err e)) s' = (s'.finished ≡ true) × (items ≡ err e ∷ [])

  abbrev TurnOutcome : List (Result (List ℕ)) → ℕ → Turn → Type 0
  TurnOutcome items w (again s') = IsReady s' × (items ≡ remaining s') × (work s' < w)
  TurnOutcome items w (done p s') = Outcome items w p s'

  Outcome-mono :
      (items : List (Result (List ℕ))) {v w : ℕ} (p : Poll) (s : DataStream)
      → v ≤ w
      → Outcome items v p s
      → Outcome items w p s
  Outcome-mono items pending s h (r, e, k) = (r, e, omega arith)
  Outcome-mono items ready_none s h o = o
  Outcome-mono items (ready (ok x)) s h (r, e, k) = (r, e, omega arith)
  Outcome-mono items (ready (err x)) s h o = o

  no_room :
      (s : DataStream)
      → IsBoundedStream limits s
      → 0 < limits.chunks - s.chunks
      → leb s.text.limits.chunks s.chunks ≡ true
      → ⊥
  no_room s v h full = ground arith

  one_less : (m n : ℕ) → m - n - 1 ≡ m - (n + 1)
  one_less m n = omega arith

  poll_source-Outcome :
      (s : DataStream) (source : List SourcePoll)
      → s.current_chunk ≡ []
      → IsBoundedStream limits s
      → s.finished ≡ false
      → IsSound (limits.chunks - s.chunks) source
      → TurnOutcome
          (decode s.text (bytes_of source))
          (0 + source_work source)
          (poll_source s source)
  unfolding poll_source fail finish decode
  poll_source-Outcome s [] empty v g h = elim (Bool-cases (is_utf8 s.text.line)) [
    | inl valid ↦ rw valid refl
    | inr invalid ↦ rw invalid (refl, refl)
  ]
  poll_source-Outcome s (failed ∷ rest) empty v g h = absurd h
  poll_source-Outcome s (not_ready ∷ rest) empty v g h = (
    record {
      bounded = record { text_bounded = v.text_bounded; chunks_fit = v.chunks_fit };
      going = g;
      sound = h;
    },
    rw empty refl,
    rw empty (omega arith),
  )
  poll_source-Outcome s (chunk bytes ∷ rest) empty v g h =
      elim (Bool-cases (leb s.text.limits.chunks s.chunks)) [
        | inl full ↦ absurd (no_room s v h.0 full)
        | inr room ↦ rw room (
          record {
            bounded = record {
              text_bounded = v.text_bounded;
              chunks_fit = chunk_fits limits s.text s.chunks v.text_bounded room;
            };
            going = g;
            sound = subst (λ k. IsSound k rest) (one_less limits.chunks s.chunks) h.1;
          },
          refl,
          omega arith,
        )
      ]

  next-IsReady :
      (s : DataStream) (rest : List ℕ) (t : LineState)
      → IsReady s
      → IsBounded limits t
      → IsReady (record s { text = t; current_chunk = rest })
  next-IsReady s rest t r v = record {
    bounded = record { text_bounded = v; chunks_fit = r.bounded.chunks_fit };
    going = r.going;
    sound = r.sound;
  }

  after_byte-Outcome :
      (s : DataStream) (b : ℕ) (rest : List ℕ)
      → IsReady s
      → s.current_chunk ≡ b ∷ rest
      → TurnOutcome (remaining s) (work s) (after_byte s rest (read_byte s.text b))
  unfolding decode after_byte fail finish
  after_byte-Outcome s b rest r e =
      rw e
        (go (read_byte s.text b) refl (read_byte-IsBounded limits s.text b r.bounded.text_bounded))
    where
      go :
          (x : LineEnd)
          → read_byte s.text b ≡ x
          → IsBounded limits (left_by x)
          → TurnOutcome
              (decode s.text (b ∷ (rest ++ bytes_of s.source)))
              (suc (length rest) + source_work s.source)
              (after_byte s rest x)
      go (no_event t) h v = (next-IsReady s rest t r v, rw (h, decode) refl, omega arith)
      go (event x t) h v = (next-IsReady s rest t r v, rw (h, decode) refl, omega arith)
      go (refused message t) h v = (refl, rw (h, decode) refl)

  turn-Outcome : (s : DataStream) → IsReady s → TurnOutcome (remaining s) (work s) (turn s)
  unfolding turn turn_on
  turn-Outcome s r = go s.current_chunk refl
    where
      go :
          (bytes : List ℕ)
          → s.current_chunk ≡ bytes
          → TurnOutcome (remaining s) (work s) (turn_on s bytes)
      go [] e =
          subst
            (λ c.
              TurnOutcome (decode s.text (c ++ bytes_of s.source)) (length c + source_work s.source)
                (poll_source s s.source))
            (sym e) (poll_source-Outcome s s.source e r.bounded r.going r.sound)
      go (b ∷ rest) e = after_byte-Outcome s b rest r e

  rounds_of-Outcome :
      (n : ℕ) (s : DataStream) (w : ℕ)
      → IsReady s
      → work s < w
      → Outcome (remaining s) w (rounds_of n s).0 (rounds_of n s).1
  unfolding rounds_of
  rounds_of-Outcome zero s w r h = (r, refl, h)
  rounds_of-Outcome (suc n) s w r h = go (turn s) (turn-Outcome s r) (rounds_of-Outcome n)
    where
      go :
          (t : Turn)
          → TurnOutcome (remaining s) (work s) t
          → ((s' : DataStream) (v : ℕ)
              → IsReady s'
              → work s' < v
              → Outcome (remaining s') v (rounds_of n s').0 (rounds_of n s').1)
          → let r = elim t as (λ _. Poll × DataStream) [
            | again s' ↦ rounds_of n s'
            | done p s' ↦ (p, s')
          ] in
            Outcome (remaining s) w r.0 r.1
      go (again s') (r', e, k) ih =
          subst (λ items. Outcome items w (rounds_of n s').0 (rounds_of n s').1) (sym e)
            (ih s' w r' (omega arith))
      go (done p s') o ih = Outcome-mono (remaining s) p s' (omega arith) o

  -- With a round to spare the work falls.
  rounds_of-progress :
      (n : ℕ) (s : DataStream)
      → IsReady s
      → Outcome (remaining s) (work s) (rounds_of (suc n) s).0 (rounds_of (suc n) s).1
  unfolding rounds_of
  rounds_of-progress n s r = go (turn s) (turn-Outcome s r)
    where
      go :
          (t : Turn)
          → TurnOutcome (remaining s) (work s) t
          → let r = elim t as (λ _. Poll × DataStream) [
            | again s' ↦ rounds_of n s'
            | done p s' ↦ (p, s')
          ] in
            Outcome (remaining s) (work s) r.0 r.1
      go (again s') (r', e, k) =
          subst (λ items. Outcome items (work s) (rounds_of n s').0 (rounds_of n s').1) (sym e)
            (rounds_of-Outcome n s' (work s) r' k)
      go (done p s') o = o

  poll_next-Outcome :
      (s : DataStream) → IsReady s → Outcome (remaining s) (work s) (poll_next s).0 (poll_next s).1
  unfolding poll_next
  poll_next-Outcome s r =
      if_cases (λ (x : Poll × DataStream). Outcome (remaining s) (work s) x.0 x.1) s.finished _ _
        (λ f. cc r.going) (λ _. rounds_of-progress 65535 s r)

  collect_finished : (n : ℕ) (s : DataStream) → s.finished ≡ true → collect n s ≡ []
  unfolding collect poll_next
  collect_finished zero s h = refl
  collect_finished (suc n) s h = rw h refl

  collect-eq-remaining :
      (n : ℕ) (s : DataStream) → IsReady s → work s < n → collect n s ≡ remaining s
  unfolding collect
  collect-eq-remaining zero s r h = absurd (omega arith)
  collect-eq-remaining (suc n) s r h =
      go (poll_next s).0 (poll_next s).1 (poll_next-Outcome s r) (collect-eq-remaining n)
    where
      go :
          (p : Poll) (s' : DataStream)
          → Outcome (remaining s) (work s) p s'
          → ((t : DataStream) → IsReady t → work t < n → collect n t ≡ remaining t)
          → (elim p as (λ _. List (Result (List ℕ))) [
            | pending ↦ collect n s'
            | ready_none ↦ []
            | ready r ↦ r ∷ collect n s'
          ])
            ≡ remaining s
      go pending s' (r', e, k) ih = ih s' r' (omega arith) ∙ sym e
      go ready_none s' e ih = sym e
      go (ready (ok x)) s' (r', e, k) ih = ap (◌∷◌ (ok x)) (ih s' r' (omega arith)) ∙ sym e
      go (ready (err x)) s' (f, e) ih = ap (◌∷◌ (err x)) (collect_finished n s' f) ∙ sym e

less_zero : (n : ℕ) → n ≡ n - 0
less_zero n = omega arith

-- A reader of a new stream over a source that does not fail and keeps to the chunk limit gets, in
-- finitely many polls, exactly what the bytes decode to, however the source cuts them into chunks
-- and however often it is not ready.
pub collect-new :
    (limits : StreamLimits) (source : List SourcePoll) (n : ℕ)
    → IsSound limits.chunks source
    → source_work source < n
    → collect n (new source limits) ≡ decode (new [] limits).text (bytes_of source)
unfolding new
collect-new limits source n sound h =
    collect-eq-remaining limits n (new source limits)
      (record {
        bounded = new-IsBounded source limits;
        going = refl;
        sound = subst (λ k. IsSound k source) (less_zero limits.chunks) sound;
      })
      (omega arith)
