-- ===== src/Sse/RoundTrip.antt =====
-- src/sse.rs: a stream of `data:` events decodes to their payloads.
use llmshim.Common.{
  ℕ, ◌+◌, ◌≤◌, ◌<◌, true, ◌≡◌, ◌≢◌, refl, sym, ◌∙◌, ap, List, [], ◌∷◌, ◌++◌, length, length-append,
  All, arith, map,
}
use mathlib.Core.List.{append-nil, append_assoc}
use llmshim.Error.{ok}
use llmshim.Sse.Utf8.{is_utf8}
use llmshim.Sse.{StreamLimits, LineState, no_event, event, SourcePoll, new, read_byte}
use llmshim.Sse.Text.{empty-utf8}
use llmshim.Sse.Chunks.{IsSound, bytes_of, source_work, collect, collect-new, decode}
use llmshim.Sse.Lines.{
  data_line, encode_event, encode, IsLine, IsAt, read_line, IsAt-cast, end_line, line_feed,
  blank_line, data_line-IsLine, event_bytes,
}

module _ (limits : StreamLimits) (d : List ℕ) (k : ℕ) where
  line_byte :
      (t : LineState) (l : List ℕ) (n f b : ℕ)
      → IsAt limits l d n f k t
      → (b ≢ b'\n') × (b ≢ b'\r')
      → n < limits.total_bytes
      → f < limits.frame_bytes
      → length l < limits.line_bytes
      → (t' : LineState) × (read_byte t b ≡ no_event t')
        × IsAt limits (l ++ b ∷ []) d (n + 1) (f + 1) k t'
  line_byte t l n f b at inner h g m = (
    _,
    read_line t b inner.0 inner.1 (ground arith) (ground arith) (ground arith),
    record {
      limits_at = at.limits_at;
      line_at = ap (λ x. x ++ b ∷ []) at.line_at;
      data_at = at.data_at;
      total_at = ap (λ x. x + 1) at.total_at;
      frame_at = ap (λ x. x + 1) at.frame_at;
      frames_at = at.frames_at;
      no_return = refl;
    },
  )

  line_bytes :
      (t : LineState) (l : List ℕ) (n f : ℕ) (bs : List ℕ)
      → IsAt limits l d n f k t
      → IsLine bs
      → n + length bs ≤ limits.total_bytes
      → f + length bs ≤ limits.frame_bytes
      → length l + length bs ≤ limits.line_bytes
      → (t' : LineState) × ((rest : List ℕ) → decode t (bs ++ rest) ≡ decode t' rest)
        × IsAt limits (l ++ bs) d (n + length bs) (f + length bs) k t'
  unfolding decode
  line_bytes t l n f [] at inner h g m =
      (t, (λ rest. refl), IsAt-cast at (sym (append-nil l)) (omega arith) (omega arith))
  line_bytes t l n f (b ∷ bs) at inner h g m =
      let (t₁, e₁, at₁) =
        line_byte t l n f b at inner.0 (omega arith) (omega arith) (omega arith) in
      let (t₂, e₂, at₂) =
        line_bytes t₁ (l ++ b ∷ []) (n + 1) (f + 1) bs at₁ inner.1 (omega arith) (omega arith)
          (omega (arith, length-append l (b ∷ []))) in
      (
        t₂,
        (λ rest. rw (e₁, decode) (e₂ rest)),
        IsAt-cast at₂ (append_assoc l (b ∷ []) bs) (omega arith) (omega arith),
      )

  -- The line end behind `data: ` and the payload.
  data_end :
      (t : LineState) (p : List ℕ) (n f : ℕ)
      → IsAt limits (data_line p) d n f k t
      → is_utf8 p ≡ true
      → n < limits.total_bytes
      → f < limits.frame_bytes
      → (t' : LineState) × (read_byte t b'\n' ≡ no_event t')
        × IsAt limits [] (d ++ (p ++ b'\n' ∷ [])) (n + 1) (f + 1) k t'
  data_end t p n f at valid h g = (
    _,
    line_feed t at.no_return (ground arith) (ground arith) ∙ end_line _ p at.line_at valid,
    record {
      limits_at = at.limits_at;
      line_at = refl;
      data_at = ap (λ x. x ++ (p ++ b'\n' ∷ [])) at.data_at;
      total_at = ap (λ x. x + 1) at.total_at;
      frame_at = ap (λ x. x + 1) at.frame_at;
      frames_at = at.frames_at;
      no_return = refl;
    },
  )

-- The empty line that ends the event.
module _ (limits : StreamLimits) where
  blank_end :
      (t : LineState) (p : List ℕ) (n f k : ℕ)
      → IsAt limits [] (p ++ b'\n' ∷ []) n f k t
      → is_utf8 p ≡ true
      → n < limits.total_bytes
      → f < limits.frame_bytes
      → k < limits.frames
      → (t' : LineState) × (read_byte t b'\n' ≡ event p t') × IsAt limits [] [] (n + 1) 0 (k + 1) t'
  blank_end t p n f k at valid h g m = (
    _,
    line_feed t at.no_return (ground arith) (ground arith)
        ∙ blank_line _ p at.line_at at.data_at valid (ground arith),
    record {
      limits_at = at.limits_at;
      line_at = refl;
      data_at = refl;
      total_at = ap (λ x. x + 1) at.total_at;
      frame_at = refl;
      frames_at = ap (λ x. x + 1) at.frames_at;
      no_return = refl;
    },
  )

  -- Room for one event, from the bytes and the frames seen before it.
  event_lem :
      (t : LineState) (p : List ℕ) (n k : ℕ)
      → IsAt limits [] [] n 0 k t
      → IsLine p
      → is_utf8 p ≡ true
      → n + (length p + 8) ≤ limits.total_bytes
      → length p + 8 ≤ limits.frame_bytes
      → length p + 6 ≤ limits.line_bytes
      → k < limits.frames
      → (t' : LineState) × ((rest : List ℕ)
          → decode t (encode_event p ++ rest) ≡ ok p ∷ decode t' rest)
        × IsAt limits [] [] (n + (length p + 8)) 0 (k + 1) t'
  unfolding decode
  event_lem t p n k at inner valid h f l m =
      let (t₁, e₁, at₁) =
        line_bytes limits [] k t [] n 0 (data_line p) at (data_line-IsLine p inner) (omega arith)
          (omega arith) (omega arith) in
      let (t₂, e₂, at₂) =
        data_end limits [] k t₁ p (n + length (data_line p)) (0 + length (data_line p)) at₁ valid
          (omega arith) (omega arith) in
      let (t₃, e₃, at₃) = blank_end t₂ p _ _ k at₂ valid (omega arith) (omega arith) m in
      (
        t₃,
        (λ rest.
            ap (decode t) (event_bytes p rest)
            ∙ e₁ (b'\n' ∷ b'\n' ∷ rest)
            ∙ rw (e₂, decode) (rw (e₃, decode) refl)),
        IsAt-cast at₃ refl (omega arith) refl,
      )

  -- Each payload is a line of well-formed UTF-8 that fits in a line and a frame.
  abbrev pub Fits : List (List ℕ) → Type 0
  Fits = All (λ p.
      IsLine p
      × (is_utf8 p ≡ true)
      × (length p + 8 ≤ limits.frame_bytes)
      × (length p + 6 ≤ limits.line_bytes))

  decode-encode_from :
      (ps : List (List ℕ)) (t : LineState) (n k : ℕ)
      → IsAt limits [] [] n 0 k t
      → Fits ps
      → n + length (encode ps) ≤ limits.total_bytes
      → k + length ps ≤ limits.frames
      → decode t (encode ps) ≡ map ok ps
  unfolding decode
  decode-encode_from [] t n k at fits h m = rw (at.line_at, decode) (rw empty-utf8 refl)
  decode-encode_from (p ∷ ps) t n k at fits h m =
      let size = length-append (encode_event p) (encode ps) in
      let (t', e, at') =
        event_lem t p n k at fits.0.0 fits.0.1
          (omega (arith, size, length-append p (b'\n' ∷ b'\n' ∷ []))) fits.0.2 fits.0.3
          (omega arith) in
      e (encode ps)
      ∙ ap (◌∷◌ (ok p)) (
          decode-encode_from ps t' _ (k + 1) at' fits.1
            (omega (arith, size, length-append p (b'\n' ∷ b'\n' ∷ []))) (omega arith))

  -- Payloads with no line end that are well-formed UTF-8 and fit, each written as one `data:`
  -- event, come back in order, whatever chunks the bytes are sent in.
  pub collect-encode :
      (ps : List (List ℕ)) (source : List SourcePoll) (n : ℕ)
      → bytes_of source ≡ encode ps
      → Fits ps
      → length (encode ps) ≤ limits.total_bytes
      → length ps ≤ limits.frames
      → IsSound limits.chunks source
      → source_work source < n
      → collect n (new source limits) ≡ map ok ps
  collect-encode ps source n e fits h m sound w =
      collect-new limits source n sound w
      ∙ ap (decode (new [] limits).text) e
      ∙ decode-encode_from ps (new [] limits).text 0 0 new_at fits (omega arith) (omega arith)
    where
      new_at : IsAt limits [] [] 0 0 0 (new [] limits).text
      new_at =
          unfold new in
          record {
            limits_at = refl;
            line_at = refl;
            data_at = refl;
            total_at = refl;
            frame_at = refl;
            frames_at = refl;
            no_return = refl;
          }
