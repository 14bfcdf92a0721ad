-- ===== src/Sse.antt =====
-- src/sse.rs: the bounded decoder of server-sent events. A text is its bytes, each a number below
-- 256. What `DataStream` keeps between bytes is `LineState`; `current_chunk` stands for
-- `current_chunk[chunk_offset..]`. The source is the list of what its polls return, and is at its
-- end after the last. A source without an end is the case of a prefix of it.
pub mod Utf8
pub mod Bounds
pub mod Text
pub mod Chunks
pub mod Lines
pub mod RoundTrip
mod Examples
use llmshim.Common.{
  ℕ, zero, suc, ◌+◌, String, Bool, true, false, ◌&&◌, ◌||◌, Option, none, some, List, [], ◌∷◌, ◌++◌,
  leb, eqb, length, if◌then◌else◌,
}
use llmshim.Error.{ShimError, stream, Result, ok, err}
use Utf8.{is_utf8}

pub record StreamLimits : Type 0 where
  pub total_bytes : ℕ
  pub line_bytes : ℕ
  pub frame_bytes : ℕ
  pub frames : ℕ
  pub chunks : ℕ

abbrev pub default_limits : StreamLimits
default_limits = record {
  total_bytes = 33554432;
  line_bytes = 8388608;
  frame_bytes = 8388608;
  frames = 100000;
  chunks = 1048576;
}

pub record LineState : Type 0 where
  pub limits : StreamLimits
  pub line : List ℕ
  pub event_data : List ℕ
  pub total_bytes : ℕ
  pub frame_bytes : ℕ
  pub frames : ℕ
  pub first_line : Bool
  pub after_carriage_return : Bool

-- What one poll of the byte source returns.
pub data SourcePoll : Type 0 where
  chunk : List ℕ → SourcePoll
  failed : SourcePoll
  not_ready : SourcePoll

pub record DataStream : Type 0 where
  pub text : LineState
  pub source : List SourcePoll
  pub current_chunk : List ℕ
  pub chunks : ℕ
  pub finished : Bool

unfoldable pub new : List SourcePoll → StreamLimits → DataStream
new source limits = record {
  text = record {
    limits = limits;
    line = [];
    event_data = [];
    total_bytes = 0;
    frame_bytes = 0;
    frames = 0;
    first_line = true;
    after_carriage_return = false;
  };
  source = source;
  current_chunk = [];
  chunks = 0;
  finished = false;
}

-- line.strip_prefix('\u{feff}').unwrap_or(line)
pub strip_bom : List ℕ → List ℕ
strip_bom (a ∷ b ∷ c ∷ rest) =
    if eqb a 0xEF && eqb b 0xBB && eqb c 0xBF then rest else a ∷ b ∷ c ∷ rest
strip_bom line = line

-- line.split_once(':').unwrap_or((line, ""))
pub split_once : ℕ → List ℕ → List ℕ × List ℕ
split_once sep [] = ([], [])
split_once sep (c ∷ cs) =
    let (before, rest) = split_once sep cs in if eqb c sep then ([], cs) else (c ∷ before, rest)

-- value.strip_prefix(' ').unwrap_or(value)
pub strip_space : List ℕ → List ℕ
strip_space [] = []
strip_space (c ∷ cs) = if eqb c 32 then cs else c ∷ cs

-- Vec::pop, for its effect
pub drop_last : List ℕ → List ℕ
drop_last [] = []
drop_last (x ∷ []) = []
drop_last (x ∷ y ∷ ys) = x ∷ drop_last (y ∷ ys)

-- field == "data"
pub is_data : List ℕ → Bool
is_data (a ∷ b ∷ c ∷ d ∷ []) = eqb a b'd' && eqb b b'a' && eqb c b't' && eqb d b'a'
is_data field = false

-- Result<Option<String>, &'static str> of `finish_line`, with the state that it leaves.
pub data LineEnd : Type 0 where
  no_event : LineState → LineEnd
  event : List ℕ → LineState → LineEnd
  refused : String → LineState → LineEnd

pub take_event : LineState → List ℕ → LineEnd
unfolding drop_last
take_event s [] = no_event (record s { line = [] })
take_event s (b ∷ bs) =
    if is_utf8 (drop_last (b ∷ bs))
    then event (drop_last (b ∷ bs)) (record s { event_data = []; line = [] })
    else refused "invalid upstream SSE UTF-8" (record s { event_data = [] })

pub end_frame : LineState → LineEnd
unfolding take_event
end_frame s =
    if leb s.limits.frames s.frames
    then refused "upstream SSE frame count exceeds limit" s
    else take_event (record s { frames = s.frames + 1; frame_bytes = 0 }) s.event_data

pub add_field : LineState → List ℕ × List ℕ → LineEnd
unfolding is_data strip_space
add_field s (field, value) =
    if is_data field
    then no_event
        (record s { event_data = s.event_data ++ (strip_space value ++ b'\n' ∷ []); line = [] })
    else no_event (record s { line = [] })

pub end_text : LineState → List ℕ → LineEnd
unfolding end_frame add_field split_once
end_text s [] = end_frame s
end_text s (c ∷ cs) = add_field s (split_once b':' (c ∷ cs))

pub finish_line : LineState → LineEnd
unfolding end_text strip_bom
finish_line s =
    if is_utf8 s.line
    then (if s.first_line
        then end_text (record s { first_line = false }) (strip_bom s.line)
        else end_text s s.line)
    else refused "invalid upstream SSE UTF-8" s

-- One byte of the loop of `poll_next`, once it has been taken from the chunk and counted.
pub take_byte : LineState → (follows : Bool) → ℕ → LineEnd
unfolding finish_line
take_byte s follows b =
    if follows && eqb b b'\n'
    then no_event s
    else if leb s.limits.frame_bytes s.frame_bytes
    then refused "upstream SSE frame exceeds size limit" s
    else if eqb b b'\n' || eqb b b'\r'
    then finish_line
        (record s { frame_bytes = s.frame_bytes + 1; after_carriage_return = eqb b b'\r' })
    else if leb s.limits.line_bytes (length s.line)
    then refused "upstream SSE line exceeds size limit"
        (record s { frame_bytes = s.frame_bytes + 1 })
    else no_event (record s { frame_bytes = s.frame_bytes + 1; line = s.line ++ b ∷ [] })

pub read_byte : LineState → ℕ → LineEnd
unfolding take_byte
read_byte s b =
    if leb s.limits.total_bytes s.total_bytes
    then refused "upstream SSE decoded bytes exceed limit" s
    else take_byte (record s { total_bytes = s.total_bytes + 1; after_carriage_return = false })
        s.after_carriage_return b

-- Poll<Option<Result<String>>>
pub data Poll : Type 0 where
  pending : Poll
  ready_none : Poll
  ready : Result (List ℕ) → Poll

-- One turn of the loop: go round again, or return.
pub data Turn : Type 0 where
  again : DataStream → Turn
  done : Poll → DataStream → Turn

pub finish : DataStream → DataStream
finish s = record s {
  finished = true;
  source = [];
  current_chunk = [];
  text = record text { line = []; event_data = [] };
}
  where
    open s use {text}

pub fail : DataStream → String → Turn
unfolding finish
fail s message = done (ready (err (stream message))) (finish s)

pub poll_source : DataStream → List SourcePoll → Turn
unfolding fail finish
poll_source s [] =
    if is_utf8 s.text.line then done ready_none (finish s) else fail s "invalid upstream SSE UTF-8"
poll_source s (failed ∷ rest) = fail (record s { source = rest }) "could not read upstream SSE"
poll_source s (not_ready ∷ rest) = done pending (record s { source = rest })
poll_source s (chunk bytes ∷ rest) =
    if leb s.text.limits.chunks s.chunks
    then fail (record s { source = rest }) "upstream SSE chunk count exceeds limit"
    else again (record s { source = rest; chunks = s.chunks + 1; current_chunk = bytes })

pub after_byte : DataStream → List ℕ → LineEnd → Turn
unfolding fail
after_byte s rest (no_event t) = again (record s { text = t; current_chunk = rest })
after_byte s rest (event e t) = done (ready (ok e)) (record s { text = t; current_chunk = rest })
after_byte s rest (refused message t) = fail (record s { text = t; current_chunk = rest }) message

pub turn_on : DataStream → List ℕ → Turn
unfolding poll_source after_byte read_byte
turn_on s [] = poll_source s s.source
turn_on s (b ∷ rest) = after_byte s rest (read_byte s.text b)

pub turn : DataStream → Turn
unfolding turn_on
turn s = turn_on s s.current_chunk

-- `for _ in 0..rounds`, then wake the task and return `Pending`.
pub rounds_of : ℕ → DataStream → Poll × DataStream
unfolding turn
rounds_of zero s = (pending, s)
rounds_of (suc n) s = elim (turn s) [ again s' ↦ rounds_of n s' | done p s' ↦ (p, s') ]

pub poll_next : DataStream → Poll × DataStream
poll_next s = if s.finished then (ready_none, s) else rounds_of 65536 s
