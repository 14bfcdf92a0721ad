-- ===== src/Sse/Lines.antt =====
-- src/sse.rs: one event of one line, and what the decoder makes of its parts.
use llmshim.Common.{
  ℕ, ◌+◌, ◌<◌, true, false, ◌≡◌, ◌≢◌, refl, ◌∙◌, ap, List, [], ◌∷◌, ◌++◌, length, All, arith,
}
use mathlib.Core.List.{append_assoc}
use llmshim.Sse.Utf8.{is_utf8}
use llmshim.Sse.{
  StreamLimits, LineState, no_event, event, read_byte, take_byte, finish_line, end_text, end_frame,
  take_event, strip_bom,
}
use llmshim.Sse.Text.{drop_last-append, empty-utf8}

-- How a server writes an event of one line: `data: `, the payload, and an empty line.
abbrev pub data_line : List ℕ → List ℕ
data_line payload = b'd' ∷ b'a' ∷ b't' ∷ b'a' ∷ b':' ∷ b' ' ∷ payload

abbrev pub encode_event : List ℕ → List ℕ
encode_event payload = b'd' ∷ b'a' ∷ b't' ∷ b'a' ∷ b':' ∷ b' ' ∷ (payload ++ b'\n' ∷ b'\n' ∷ [])

abbrev pub encode : List (List ℕ) → List ℕ
encode [] = []
encode (payload ∷ rest) = encode_event payload ++ encode rest

-- No line end within.
abbrev pub IsLine : List ℕ → Type 0
IsLine = All (λ b. (b ≢ b'\n') × (b ≢ b'\r'))

-- A state of the decoder, but for whether it is in its first line.
pub record IsAt (limits : StreamLimits) (line event_data : List ℕ) (total frame frames : ℕ)
    (t : LineState) : Type 0 where
  pub limits_at : t.limits ≡ limits
  pub line_at : t.line ≡ line
  pub data_at : t.event_data ≡ event_data
  pub total_at : t.total_bytes ≡ total
  pub frame_at : t.frame_bytes ≡ frame
  pub frames_at : t.frames ≡ frames
  pub no_return : t.after_carriage_return ≡ false

-- A byte within a line, where there is room.
pub read_line :
    (t : LineState) (b : ℕ)
    → b ≢ b'\n'
    → b ≢ b'\r'
    → t.total_bytes < t.limits.total_bytes
    → t.frame_bytes < t.limits.frame_bytes
    → length t.line < t.limits.line_bytes
    → read_byte t b
      ≡ no_event (record t {
        line = t.line ++ b ∷ [];
        total_bytes = t.total_bytes + 1;
        frame_bytes = t.frame_bytes + 1;
        after_carriage_return = false;
      })
unfolding read_byte take_byte
read_line t b n r h k l = ground arith

pub IsAt-cast :
    {limits : StreamLimits} {l l' d : List ℕ} {n n' f f' k : ℕ} {t : LineState}
    → IsAt limits l d n f k t
    → l ≡ l'
    → n ≡ n'
    → f ≡ f'
    → IsAt limits l' d n' f' k t
IsAt-cast at p q r = record {
  limits_at = at.limits_at;
  line_at = at.line_at ∙ p;
  data_at = at.data_at;
  total_at = at.total_at ∙ q;
  frame_at = at.frame_at ∙ r;
  frames_at = at.frames_at;
  no_return = at.no_return;
}

pub data_line-utf8 : (p : List ℕ) → is_utf8 p ≡ true → is_utf8 (data_line p) ≡ true
unfolding is_utf8
data_line-utf8 p h = h

pub strip_bom-data_line : (p : List ℕ) → strip_bom (data_line p) ≡ data_line p
unfolding strip_bom
strip_bom-data_line p = refl

pub end_text-data_line :
    (t : LineState) (p : List ℕ)
    → end_text t (data_line p)
      ≡ no_event (record t { event_data = t.event_data ++ (p ++ b'\n' ∷ []); line = [] })
unfolding end_text
end_text-data_line t p = refl

pub end_line :
    (t : LineState) (p : List ℕ)
    → t.line ≡ data_line p
    → is_utf8 p ≡ true
    → finish_line t
      ≡ no_event (record t {
        event_data = t.event_data ++ (p ++ b'\n' ∷ []);
        line = [];
        first_line = false;
      })
unfolding finish_line
end_line t p e h = ground (
  arith,
  data_line-utf8 p h,
  strip_bom-data_line p,
  end_text-data_line t p,
  end_text-data_line (record t { first_line = false }) p,
)

pub line_feed :
    (t : LineState)
    → t.after_carriage_return ≡ false
    → t.total_bytes < t.limits.total_bytes
    → t.frame_bytes < t.limits.frame_bytes
    → read_byte t b'\n'
      ≡ finish_line (record t {
        total_bytes = t.total_bytes + 1;
        frame_bytes = t.frame_bytes + 1;
        after_carriage_return = false;
      })
unfolding read_byte take_byte
line_feed t r h g = ground arith

pub take_event-append :
    (t : LineState) (p : List ℕ)
    → is_utf8 p ≡ true
    → take_event t (p ++ b'\n' ∷ []) ≡ event p (record t { event_data = []; line = [] })
unfolding take_event
take_event-append t [] h = rw h refl
take_event-append t (x ∷ xs) h = rw (drop_last-append (x ∷ xs) b'\n') (rw h refl)

pub strip_bom-nil : strip_bom [] ≡ []
unfolding strip_bom
strip_bom-nil = refl

pub end_text-nil :
    (t : LineState) (p : List ℕ)
    → t.event_data ≡ p ++ b'\n' ∷ []
    → is_utf8 p ≡ true
    → t.frames < t.limits.frames
    → end_text t []
      ≡ event p (record t { frames = t.frames + 1; frame_bytes = 0; event_data = []; line = [] })
unfolding end_text end_frame
end_text-nil t p d h m =
    ground (arith, take_event-append (record t { frames = t.frames + 1; frame_bytes = 0 }) p h)

pub blank_line :
    (t : LineState) (p : List ℕ)
    → t.line ≡ []
    → t.event_data ≡ p ++ b'\n' ∷ []
    → is_utf8 p ≡ true
    → t.frames < t.limits.frames
    → finish_line t
      ≡ event p (record t {
        frames = t.frames + 1;
        frame_bytes = 0;
        event_data = [];
        line = [];
        first_line = false;
      })
unfolding finish_line
blank_line t p e d h m = ground (
  arith,
  empty-utf8,
  strip_bom-nil,
  end_text-nil t p d h m,
  end_text-nil (record t { first_line = false }) p d h m,
)

pub data_line-IsLine : (p : List ℕ) → IsLine p → IsLine (data_line p)
data_line-IsLine p h =
    (omega arith, (omega arith, (omega arith, (omega arith, (omega arith, (omega arith, h))))))

pub event_bytes : (p rest : List ℕ) → encode_event p ++ rest ≡ data_line p ++ b'\n' ∷ b'\n' ∷ rest
event_bytes p rest = ap data_line (append_assoc p (b'\n' ∷ b'\n' ∷ []) rest)
