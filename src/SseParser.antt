-- ===== src/SseParser.antt =====
-- TimeMachineAR/Source/TimeMachineAR/SseParser.h and SseParser.cpp: the parser of the docent's event
-- stream. The buffer is a list of bytes. FString is the engine's, so its operations are a parameter.
pub mod Boundary
pub mod Chunks
pub mod Frames
use ai_xr_project.Base.{
  ℕ, zero, suc, ◌+◌, List, [], ◌∷◌, ◌++◌, map, Option, none, some, Bool, true, false, not, ◌&&◌,
  ◌||◌, ◌==◌, if◌then◌else◌, length, take, drop,
}
use ai_xr_project.Rudp.{Bytes}

-- What the parser uses of FString: UTF8_TO_TCHAR of null-terminated bytes, ParseIntoArray at line
-- feeds with empty lines kept, RemoveFromEnd "\r", StartsWith ":", FindChar ':', Left, Mid,
-- RemoveFromStart " ", == "event", == "data", Join with line feeds and IsEmpty.
pub record Strings : Type 1 where
  pub Text : Type 0
  pub empty_text : Text
  pub utf8_to_text : Bytes → Text
  pub lines : Text → List Text
  pub remove_cr : Text → Text
  pub is_comment : Text → Bool
  pub find_colon : Text → Option ℕ
  pub left : ℕ → Text → Text
  pub mid : ℕ → Text → Text
  pub remove_space : Text → Text
  pub is_event : Text → Bool
  pub is_data : Text → Bool
  pub join : List Text → Text
  pub is_empty : Text → Bool

abbrev pub line_feed : ℕ
line_feed = 10

abbrev pub carriage_return : ℕ
carriage_return = 13

-- The four bytes \r\n\r\n stand at the front.
unfoldable pub is_crlf_pair : Bytes → Bool
is_crlf_pair (a ∷ b ∷ c ∷ d ∷ rest) =
    a == carriage_return && (b == line_feed && (c == carriage_return && d == line_feed))
is_crlf_pair (a ∷ b ∷ c ∷ []) = false
is_crlf_pair (a ∷ b ∷ []) = false
is_crlf_pair (a ∷ []) = false
is_crlf_pair [] = false

-- The loop of FindFrameBoundary from position i on, where `rest` stands: OutFrameEnd and OutNextStart.
unfoldable pub boundary_from : ℕ → Bytes → Option (ℕ × ℕ)
boundary_from i [] = none
boundary_from i (a ∷ []) = none
boundary_from i (a ∷ b ∷ rest) =
    let later = boundary_from (suc i) (b ∷ rest) in
    if a == line_feed && b == line_feed
    then some (i, i + 2)
    else if is_crlf_pair (a ∷ b ∷ rest)
    then some (i, i + 4)
    else later

-- FindFrameBoundary.
unfoldable pub find_frame_boundary : Bytes → Option (ℕ × ℕ)
find_frame_boundary buffer = boundary_from 0 buffer

-- AppendBytes: what is null or empty adds nothing.
unfoldable pub append_bytes : Bytes → Bytes → Bytes
append_bytes buffer chunk = buffer ++ chunk

module _ (S : Strings) where
  -- FSseEvent.
  pub record SseEvent : Type 0 where
    pub event : S.Text
    pub payload : S.Text

  -- What one line adds to the event name and the data lines.
  unfoldable pub read_line : S.Text × List S.Text → S.Text → S.Text × List S.Text
  read_line (event, lines) line =
      let text = S.remove_cr line in
      if S.is_comment text then (event, lines) else (elim (S.find_colon text) [
        | none ↦ (event, lines)
        | some colon ↦
            (let field = S.left colon text in
              let value = S.remove_space (S.mid (suc colon) text) in
              if S.is_event field
              then (value, lines)
              else if S.is_data field
              then (event, lines ++ value ∷ [])
              else (event, lines))
      ])

  unfoldable pub read_lines : S.Text × List S.Text → List S.Text → S.Text × List S.Text
  read_lines r [] = r
  read_lines r (l ∷ ls) = read_lines (read_line r l) ls

  -- ParseFrame.
  unfoldable pub parse_frame : S.Text → SseEvent
  parse_frame frame =
      let r = read_lines (S.empty_text, []) (S.lines frame) in
      record { event = r.0; payload = S.join r.1 }

  -- The conversion of a complete frame: a frame with no bytes is the empty string.
  unfoldable pub frame_text : Bytes → S.Text
  frame_text [] = S.empty_text
  frame_text (b ∷ bs) = S.utf8_to_text ((b ∷ bs) ++ 0 ∷ [])

  -- The test at the end of the loop of NextEvent.
  unfoldable pub is_shown : SseEvent → Bool
  is_shown e = not (S.is_empty e.event) || not (S.is_empty e.payload)

  -- The loop of NextEvent: the buffer, and the event if there is one. Each round takes at least two
  -- bytes off the buffer, so its length is fuel enough.
  unfoldable pub next_event_loop : ℕ → Bytes → Bytes × Option SseEvent
  next_event_loop zero buffer = (buffer, none)
  next_event_loop (suc fuel) buffer = elim (find_frame_boundary buffer) [
    | none ↦ (buffer, none)
    | some (frame_end, next_start) ↦
        (let e = parse_frame (frame_text (take frame_end buffer)) in
          let rest = next_event_loop fuel (drop next_start buffer) in
          if is_shown e then (drop next_start buffer, some e) else rest)
  ]

  -- NextEvent.
  unfoldable pub next_event : Bytes → Bytes × Option SseEvent
  next_event buffer = next_event_loop (length buffer) buffer

  -- The loop of the stream delegate over NextEvent, with the events that it hands on.
  unfoldable pub drain_events : ℕ → Bytes → Bytes × List SseEvent
  drain_events zero buffer = (buffer, [])
  drain_events (suc fuel) buffer =
      let r = next_event buffer in
      let rest = drain_events fuel r.0 in
      elim r.1 [ none ↦ (r.0, []) | some e ↦ (rest.0, e ∷ rest.1) ]

  -- The stream delegate for one chunk.
  unfoldable pub receive_chunk : Bytes → Bytes → Bytes × List SseEvent
  receive_chunk buffer chunk = let b = append_bytes buffer chunk in drain_events (suc (length b)) b

  unfoldable pub receive_chunks : Bytes → List Bytes → Bytes × List SseEvent
  receive_chunks buffer [] = (buffer, [])
  receive_chunks buffer (c ∷ cs) =
      let r = receive_chunk buffer c in let rest = receive_chunks r.0 cs in (rest.0, r.1 ++ rest.1)

-- Reset.
unfoldable pub reset_parser : Bytes → Bytes
reset_parser buffer = []
