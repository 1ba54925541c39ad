-- ===== src/Tests/Stream.antt =====
-- Runs of the theorems about the event stream, with texts xs lists of bytes.
use ai_xr_project.Base.{
  ℕ, suc, ◌≡◌, refl, List, [], ◌∷◌, ◌++◌, Option, none, some, Bool, true, false, if◌then◌else◌,
  ◌==◌, ◌&&◌, take, drop,
}
use mathlib.Core.List.{flatten}
use ai_xr_project.Rudp.{Bytes}
use ai_xr_project.SseParser.{
  Strings, is_crlf_pair, boundary_from, find_frame_boundary, read_line, read_lines, parse_frame,
  frame_text, next_event, receive_chunk, receive_chunks,
}
use ai_xr_project.SseParser.Chunks.{receive_chunks-whole, receive_chunk-ends}
use ai_xr_project.SseParser.Frames.{encode, shown_events, receive_chunk-encode}

abbrev same_text : Bytes → Bytes → Bool
same_text [] [] = true
same_text [] (b ∷ ys) = false
same_text (a ∷ xs) [] = false
same_text (a ∷ xs) (b ∷ ys) = a == b && same_text xs ys

abbrev without_null : Bytes → Bytes
without_null [] = []
without_null (b ∷ ys) = let rest = without_null ys in if b == 0 then [] else b ∷ rest

abbrev first_line : ℕ → List Bytes → List Bytes
first_line b [] = (b ∷ []) ∷ []
first_line b (l ∷ ls) = (b ∷ l) ∷ ls

abbrev split_lines : Bytes → List Bytes
split_lines [] = [] ∷ []
split_lines (b ∷ ys) = let rest = split_lines ys in if b == 10 then [] ∷ rest else first_line b rest

abbrev without_last_cr : Bytes → Bytes
without_last_cr [] = []
without_last_cr (a ∷ []) = if a == 13 then [] else a ∷ []
without_last_cr (a ∷ b ∷ ys) = a ∷ without_last_cr (b ∷ ys)

abbrev pub starts_with : ℕ → Bytes → Bool
starts_with c [] = false
starts_with c (b ∷ ys) = b == c

abbrev find_byte_from : ℕ → ℕ → Bytes → Option ℕ
find_byte_from i c [] = none
find_byte_from i c (b ∷ ys) =
    let rest = find_byte_from (suc i) c ys in if b == c then some i else rest

abbrev join_lines : List Bytes → Bytes
join_lines [] = []
join_lines (l ∷ []) = l
join_lines (l ∷ m ∷ ls) = l ++ 10 ∷ join_lines (m ∷ ls)

abbrev pub byte_strings : Strings
byte_strings = record {
  Text = Bytes;
  empty_text = [];
  utf8_to_text = without_null;
  lines = split_lines;
  remove_cr = without_last_cr;
  is_comment = starts_with 58;
  find_colon = find_byte_from 0 58;
  left = take;
  mid = drop;
  remove_space = λ t. if starts_with 32 t then drop 1 t else t;
  is_event = same_text (101 ∷ 118 ∷ 101 ∷ 110 ∷ 116 ∷ []);
  is_data = same_text (100 ∷ 97 ∷ 116 ∷ 97 ∷ []);
  join = join_lines;
  is_empty = λ t. same_text [] t;
}

-- event: t, a line feed, data: hi
abbrev pub token_frame : Bytes
token_frame =
    101 ∷ 118 ∷ 101 ∷ 110 ∷ 116 ∷ 58 ∷ 32 ∷ 116 ∷ 10 ∷ 100 ∷ 97 ∷ 116 ∷ 97 ∷ 58 ∷ 32 ∷ 104 ∷ 105
    ∷ []

-- A comment that keeps the connection alive.
abbrev keep_alive : Bytes
keep_alive = 58 ∷ 32 ∷ 120 ∷ []

token_event_test :
    parse_frame byte_strings (frame_text byte_strings token_frame)
    ≡ record { event = 116 ∷ []; payload = 104 ∷ 105 ∷ [] }
unfolding parse_frame read_lines read_line frame_text
token_event_test = refl

-- The stream is cut inside the first separator.
abbrev pub chunks : List Bytes
chunks = (token_frame ++ 10 ∷ []) ∷ (10 ∷ keep_alive) ∷ (10 ∷ 10 ∷ []) ∷ token_frame ∷ []

receive_chunks-whole_example :
    receive_chunks byte_strings [] chunks ≡ receive_chunk byte_strings [] (flatten chunks)
receive_chunks-whole_example = receive_chunks-whole byte_strings chunks

receive_chunk-ends_example :
    next_event byte_strings (receive_chunk byte_strings (10 ∷ []) (10 ∷ token_frame)).0
    ≡ ((receive_chunk byte_strings (10 ∷ []) (10 ∷ token_frame)).0, none)
receive_chunk-ends_example = receive_chunk-ends byte_strings (10 ∷ []) (10 ∷ token_frame)

token_frame-framed : find_frame_boundary (token_frame ++ 10 ∷ []) ≡ none
unfolding find_frame_boundary boundary_from is_crlf_pair
token_frame-framed = refl

keep_alive-framed : find_frame_boundary (keep_alive ++ 10 ∷ []) ≡ none
unfolding find_frame_boundary boundary_from is_crlf_pair
keep_alive-framed = refl

receive_chunk-encode_example :
    receive_chunk byte_strings [] (encode (token_frame ∷ keep_alive ∷ token_frame ∷ []))
    ≡ ([], shown_events byte_strings (token_frame ∷ keep_alive ∷ token_frame ∷ []))
receive_chunk-encode_example =
    receive_chunk-encode byte_strings (token_frame ∷ keep_alive ∷ token_frame ∷ [])
      (token_frame-framed, (keep_alive-framed, (token_frame-framed, tt)))
