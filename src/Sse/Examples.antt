-- ===== src/Sse/Examples.antt =====
-- src/sse.rs: runs of the decoder at concrete inputs.
use llmshim.Common.{◌≡◌, refl, List, [], ◌∷◌, arith}
use llmshim.Error.{ok}
use llmshim.Sse.Utf8.{is_utf8}
use llmshim.Sse.{
  StreamLimits, LineState, SourcePoll, chunk, not_ready, new, finish_line, read_byte, poll_next,
}
use llmshim.Sse.Bounds.{IsBoundedStream, poll_next-IsBounded, new-IsBounded}
use llmshim.Sse.Text.{no_data, IsAccepted, finish_line-IsAccepted}
use llmshim.Sse.Chunks.{collect, decode, collect-new}
use llmshim.Sse.Lines.{encode}
use llmshim.Sse.RoundTrip.{collect-encode}

abbrev limits : StreamLimits
limits = record { total_bytes = 64; line_bytes = 20; frame_bytes = 20; frames = 3; chunks = 4 }

-- "data: a", CR LF, then an empty line, cut inside the line end.
abbrev cut : List SourcePoll
cut =
    chunk (b'd' ∷ b'a' ∷ b't' ∷ b'a' ∷ b':' ∷ b' ' ∷ b'a' ∷ b'\r' ∷ [])
    ∷ not_ready
    ∷ chunk (b'\n' ∷ b'\r' ∷ b'\n' ∷ [])
    ∷ []

cut_decodes :
    decode
      (new [] limits).text
      (b'd' ∷ b'a' ∷ b't' ∷ b'a' ∷ b':' ∷ b'a' ∷ b'\r' ∷ b'\n' ∷ b'\r' ∷ b'\n' ∷ [])
    ≡ ok (b'a' ∷ []) ∷ []
unfolding decode new read_byte is_utf8
cut_decodes = refl

poll_next-IsBounded_example : IsBoundedStream limits (poll_next (new cut limits)).1
poll_next-IsBounded_example = poll_next-IsBounded limits (new cut limits) (new-IsBounded cut limits)

abbrev accented : LineState
accented = record (new [] limits).text { line = 0xC3 ∷ 0xA9 ∷ [] }

finish_line-IsAccepted_example : IsAccepted (finish_line accented)
unfolding new is_utf8
finish_line-IsAccepted_example = finish_line-IsAccepted accented (omega arith) no_data refl

collect-new_example :
    collect 20 (new cut limits)
    ≡ decode
        (new [] limits).text
        (b'd' ∷ b'a' ∷ b't' ∷ b'a' ∷ b':' ∷ b' ' ∷ b'a' ∷ b'\r' ∷ b'\n' ∷ b'\r' ∷ b'\n' ∷ [])
collect-new_example = collect-new limits cut 20 (omega arith) (omega arith)

collect-encode_example :
    collect 30 (new (chunk (encode ((b'a' ∷ []) ∷ (b'b' ∷ []) ∷ [])) ∷ []) limits)
    ≡ ok (b'a' ∷ []) ∷ ok (b'b' ∷ []) ∷ []
unfolding is_utf8
collect-encode_example =
    collect-encode limits ((b'a' ∷ []) ∷ (b'b' ∷ []) ∷ [])
      (chunk (encode ((b'a' ∷ []) ∷ (b'b' ∷ []) ∷ [])) ∷ []) 30 refl
      (
        ((omega arith, tt), refl, omega arith, omega arith),
        (((omega arith, tt), refl, omega arith, omega arith), tt),
      )
      (omega arith) (omega arith) (omega arith) (omega arith)
