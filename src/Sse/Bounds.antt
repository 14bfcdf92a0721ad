-- ===== src/Sse/Bounds.antt =====
-- src/sse.rs: what the decoder retains stays within `StreamLimits`.
use llmshim.Common.{
  ℕ, zero, suc, ◌+◌, ◌≤◌, Bool, false, ◌≡◌, refl, List, [], ◌∷◌, ◌++◌, length, length-append, arith,
  leb, eqb, Bool-cases, inl, inr, ◌&&◌, ◌||◌, if_cases,
}
use llmshim.Sse.Utf8.{is_utf8}
use llmshim.Sse.{
  StreamLimits, LineState, LineEnd, no_event, event, refused, DataStream, SourcePoll, chunk, failed,
  not_ready, Poll, Turn, again, done, new, strip_bom, split_once, strip_space, take_event,
  end_frame, add_field, end_text, finish_line, take_byte, read_byte, finish, fail, poll_source,
  after_byte, turn_on, turn, rounds_of, poll_next,
}

-- A refused line is dropped with the event data.
abbrev pub left_by : LineEnd → LineState
left_by (no_event t) = t
left_by (event e t) = t
left_by (refused message t) = record t { line = []; event_data = [] }

-- The line and the pending event data together fit in the bytes of the frame, the frame and the
-- line in their limits, and so do all the bytes and the frames seen.
pub record IsBounded (limits : StreamLimits) (t : LineState) : Type 0 where
  pub same_limits : t.limits ≡ limits
  pub line_fits : length t.line ≤ limits.line_bytes
  pub retained_fits : length t.event_data + length t.line ≤ t.frame_bytes
  pub frame_fits : t.frame_bytes ≤ limits.frame_bytes
  pub total_fits : t.total_bytes ≤ limits.total_bytes
  pub frames_fit : t.frames ≤ limits.frames

length-strip_bom-le : (line : List ℕ) → length (strip_bom line) ≤ length line
unfolding strip_bom
length-strip_bom-le [] = omega arith
length-strip_bom-le (a ∷ []) = omega arith
length-strip_bom-le (a ∷ b ∷ []) = omega arith
length-strip_bom-le (a ∷ b ∷ c ∷ rest) = ground arith

length-strip_space-le : (value : List ℕ) → length (strip_space value) ≤ length value
unfolding strip_space
length-strip_space-le [] = omega arith
length-strip_space-le (c ∷ cs) = ground arith

length-split_once-le : (sep : ℕ) (line : List ℕ) → length (split_once sep line).1 ≤ length line
unfolding split_once
length-split_once-le sep [] = omega arith
length-split_once-le sep (c ∷ cs) = ground (arith, length-split_once-le sep cs)

module _ (limits : StreamLimits) where
  -- A line end has been counted, and its line is still there.
  record IsEnding (t : LineState) : Type 0 where
    same_limits : t.limits ≡ limits
    line_fits : length t.line ≤ limits.line_bytes
    room : length t.event_data + length t.line + 1 ≤ t.frame_bytes
    frame_fits : t.frame_bytes ≤ limits.frame_bytes
    total_fits : t.total_bytes ≤ limits.total_bytes
    frames_fit : t.frames ≤ limits.frames

  take_event-IsBounded :
      (t : LineState) (d : List ℕ)
      → t.event_data ≡ d
      → t.limits ≡ limits
      → t.frame_bytes ≤ limits.frame_bytes
      → t.total_bytes ≤ limits.total_bytes
      → t.frames ≤ limits.frames
      → IsBounded limits (left_by (take_event t d))
  unfolding take_event
  take_event-IsBounded t [] e l r f g = ground arith
  take_event-IsBounded t (b ∷ bs) e l r f g = ground arith

  end_frame-IsBounded : (t : LineState) → IsEnding t → IsBounded limits (left_by (end_frame t))
  unfolding end_frame
  end_frame-IsBounded t v = elim (Bool-cases (leb t.limits.frames t.frames)) [
    | inl full ↦ rw full (ground arith)
    | inr room ↦ rw room (
        take_event-IsBounded _ t.event_data refl v.same_limits (omega arith) v.total_fits
          (ground arith))
  ]

  add_field-IsBounded :
      (t : LineState) (field value : List ℕ)
      → IsEnding t
      → length value ≤ length t.line
      → IsBounded limits (left_by (add_field t (field, value)))
  unfolding add_field
  add_field-IsBounded t field value v h = ground (
    arith,
    length-strip_space-le value,
    length-append (strip_space value) (b'\n' ∷ []),
    length-append t.event_data (strip_space value ++ b'\n' ∷ []),
  )

  end_text-IsBounded :
      (t : LineState) (l : List ℕ)
      → IsEnding t
      → length l ≤ length t.line
      → IsBounded limits (left_by (end_text t l))
  unfolding end_text
  end_text-IsBounded t [] v h = end_frame-IsBounded t v
  end_text-IsBounded t (c ∷ cs) v h =
      add_field-IsBounded t (split_once b':' (c ∷ cs)).0 (split_once b':' (c ∷ cs)).1 v
        (omega (arith, length-split_once-le b':' (c ∷ cs)))

  abbrev Bounded : LineEnd → Type 0
  Bounded e = IsBounded limits (left_by e)

  first-IsEnding : (t : LineState) → IsEnding t → IsEnding (record t { first_line = false })
  first-IsEnding t v = ground arith

  counted-IsEnding :
      (t : LineState) (return : Bool)
      → IsBounded limits t
      → leb t.limits.frame_bytes t.frame_bytes ≡ false
      → IsEnding (record t { frame_bytes = t.frame_bytes + 1; after_carriage_return = return })
  counted-IsEnding t return v room = ground arith

  finish_line-IsBounded : (t : LineState) → IsEnding t → Bounded (finish_line t)
  unfolding finish_line
  finish_line-IsBounded t v =
      if_cases Bounded (is_utf8 t.line) _ _
        (λ valid.
          if_cases Bounded t.first_line _ _
            (λ first.
              end_text-IsBounded (record t { first_line = false }) (strip_bom t.line)
                (first-IsEnding t v) (length-strip_bom-le t.line))
            (λ later. end_text-IsBounded t t.line v (omega arith)))
        (λ invalid. ground arith)

  take_byte-IsBounded :
      (t : LineState) (follows : Bool) (b : ℕ)
      → IsBounded limits t
      → Bounded (take_byte t follows b)
  unfolding take_byte
  take_byte-IsBounded t follows b v =
      if_cases Bounded (follows && eqb b b'\n') _ _ (λ _. v)
        λ _.
          if_cases Bounded (leb t.limits.frame_bytes t.frame_bytes) _ _ (λ _. ground arith)
            λ room.
              if_cases Bounded (eqb b b'\n' || eqb b b'\r') _ _
                (λ _. finish_line-IsBounded _ (counted-IsEnding t (eqb b b'\r') v room))
                λ _.
                  if_cases Bounded (leb t.limits.line_bytes (length t.line)) _ _ (λ _. ground arith)
                    (λ short. ground (arith, length-append t.line (b ∷ [])))

  pub read_byte-IsBounded : (t : LineState) (b : ℕ) → IsBounded limits t → Bounded (read_byte t b)
  unfolding read_byte
  read_byte-IsBounded t b v =
      if_cases Bounded (leb t.limits.total_bytes t.total_bytes) _ _ (λ _. ground arith)
        (λ room. take_byte-IsBounded _ t.after_carriage_return b (ground arith))

  -- Of the stream: while it is not finished the counts stand for what has been read.
  pub record IsBoundedStream (s : DataStream) : Type 0 where
    pub text_bounded : IsBounded limits s.text
    pub chunks_fit : s.chunks ≤ limits.chunks

  finish-IsBoundedStream :
      (s : DataStream)
      → IsBounded limits (record s.text { line = []; event_data = [] })
      → s.chunks ≤ limits.chunks
      → IsBoundedStream (finish s)
  unfolding finish
  finish-IsBoundedStream s v h = ground arith

  pub chunk_fits :
      (t : LineState) (chunks : ℕ)
      → IsBounded limits t
      → leb t.limits.chunks chunks ≡ false
      → chunks + 1 ≤ limits.chunks
  chunk_fits t chunks v room = ground arith

  cleared-IsBounded :
      (t : LineState)
      → IsBounded limits t
      → IsBounded limits (record t { line = []; event_data = [] })
  cleared-IsBounded t v = ground arith

  abbrev AfterTurn : Turn → Type 0
  AfterTurn (again s) = IsBoundedStream s
  AfterTurn (done p s) = IsBoundedStream s

  poll_source-IsBounded :
      (s : DataStream) (source : List SourcePoll)
      → IsBoundedStream s
      → AfterTurn (poll_source s source)
  unfolding poll_source fail
  poll_source-IsBounded s [] v =
      if_cases AfterTurn (is_utf8 s.text.line) _ _
        (λ _. finish-IsBoundedStream s (cleared-IsBounded s.text v.text_bounded) v.chunks_fit)
        (λ _. finish-IsBoundedStream s (cleared-IsBounded s.text v.text_bounded) v.chunks_fit)
  poll_source-IsBounded s (failed ∷ rest) v =
      finish-IsBoundedStream (record s { source = rest }) (cleared-IsBounded s.text v.text_bounded)
        v.chunks_fit
  poll_source-IsBounded s (not_ready ∷ rest) v = record {
    text_bounded = v.text_bounded;
    chunks_fit = v.chunks_fit;
  }
  poll_source-IsBounded s (chunk bytes ∷ rest) v =
      if_cases AfterTurn (leb s.text.limits.chunks s.chunks) _ _
        (λ _.
          finish-IsBoundedStream (record s { source = rest })
            (cleared-IsBounded s.text v.text_bounded) v.chunks_fit)
        (λ room. record {
          text_bounded = v.text_bounded;
          chunks_fit = chunk_fits s.text s.chunks v.text_bounded room;
        })

  after_byte-IsBounded :
      (s : DataStream) (rest : List ℕ) (e : LineEnd)
      → s.chunks ≤ limits.chunks
      → Bounded e
      → AfterTurn (after_byte s rest e)
  unfolding after_byte fail
  after_byte-IsBounded s rest (no_event t) h v = record { text_bounded = v; chunks_fit = h }
  after_byte-IsBounded s rest (event x t) h v = record { text_bounded = v; chunks_fit = h }
  after_byte-IsBounded s rest (refused m t) h v =
      finish-IsBoundedStream (record s { text = t; current_chunk = rest }) v h

  turn_on-IsBounded :
      (s : DataStream) (bytes : List ℕ) → IsBoundedStream s → AfterTurn (turn_on s bytes)
  unfolding turn_on
  turn_on-IsBounded s [] v = poll_source-IsBounded s s.source v
  turn_on-IsBounded s (b ∷ rest) v =
      after_byte-IsBounded s rest (read_byte s.text b) v.chunks_fit
        (read_byte-IsBounded s.text b v.text_bounded)

  rounds_of-IsBounded :
      (n : ℕ) (s : DataStream) → IsBoundedStream s → IsBoundedStream (rounds_of n s).1
  unfolding rounds_of turn
  rounds_of-IsBounded zero s v = v
  rounds_of-IsBounded (suc n) s v =
      go (turn_on s s.current_chunk) (turn_on-IsBounded s s.current_chunk v) (rounds_of-IsBounded n)
    where
      go :
          (t : Turn)
          → AfterTurn t
          → ((s' : DataStream) → IsBoundedStream s' → IsBoundedStream (rounds_of n s').1)
          → IsBoundedStream
              (elim t as (λ _. Poll × DataStream) [
                | again s' ↦ rounds_of n s'
                | done p s' ↦ (p, s')
              ]).1
      go (again s') w ih = ih s' w
      go (done p s') w ih = w

  -- Whatever the source returns, a poll leaves the decoder within its limits: the unfinished line
  -- and the pending event data together in the bytes of one frame, and the bytes, the frames and
  -- the chunks read so far below the totals.
  pub poll_next-IsBounded : (s : DataStream) → IsBoundedStream s → IsBoundedStream (poll_next s).1
  unfolding poll_next
  poll_next-IsBounded s v =
      if_cases (λ (r : Poll × DataStream). IsBoundedStream r.1) s.finished _ _ (λ _. v)
        (λ _. rounds_of-IsBounded 65536 s v)

-- A new stream is within its limits.
pub new-IsBounded :
    (source : List SourcePoll) (limits : StreamLimits) → IsBoundedStream limits (new source limits)
unfolding new
new-IsBounded source limits = record {
  text_bounded = record {
    same_limits = refl;
    line_fits = omega arith;
    retained_fits = omega arith;
    frame_fits = omega arith;
    total_fits = omega arith;
    frames_fit = omega arith;
  };
  chunks_fit = omega arith;
}
