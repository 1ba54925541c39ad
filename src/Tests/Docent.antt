-- ===== src/Tests/Docent.antt =====
-- Runs of the theorems about the docent's client, with texts as lists of bytes and JSON as a text
-- that holds every field.
use ai_xr_project.Base.{
  ℕ, ◌<◌, ◌≡◌, refl, List, [], ◌∷◌, ◌++◌, none, some, Bool, true, false, not, ◌==◌, if◌then◌else◌,
  length, arith,
}
use mathlib.Core.List.{flatten}
use ai_xr_project.Rudp.{Bytes}
use ai_xr_project.SseParser.{SseEvent, receive_chunk}
use ai_xr_project.DocentClient.{
  Platform, DocentClient, still_streaming, cut_off, chat_completed, chat_failed, initialize,
  set_server_base_url,
}
use ai_xr_project.DocentClient.Chat.{
  send_request, send_chat_message, handle_done, handle_events, result_of, on_chat_stream_complete,
  chat_response,
}
use ai_xr_project.DocentClient.Ends.{terminals, terminal_events, chat_response-terminals}
use ai_xr_project.DocentClient.Deltas.{FullTexts, handle_events-gather}
use ai_xr_project.DocentClient.Overlap.{send_chat_message-refused, on_chat_stream_complete-stale}
use ai_xr_project.DocentClient.Address.{set_server_base_url-usable}
use ai_xr_project.Tests.Stream.{byte_strings, starts_with, chunks}

abbrev ends_with : ℕ → Bytes → Bool
ends_with c [] = false
ends_with c (b ∷ []) = b == c
ends_with c (b ∷ d ∷ ys) = ends_with c (d ∷ ys)

abbrev without_last : Bytes → Bytes
without_last [] = []
without_last (b ∷ []) = []
without_last (b ∷ d ∷ ys) = b ∷ without_last (d ∷ ys)

abbrev without_spaces : Bytes → Bytes
without_spaces [] = []
without_spaces (b ∷ ys) = let rest = without_spaces ys in if b == 32 then rest else b ∷ ys

-- A text that begins with h has a scheme, and the event names begin with t, d and e.
abbrev byte_platform : Platform byte_strings
byte_platform = record {
  Json = Bytes;
  Number = ℕ;
  zero_number = 0;
  deserialize = λ t. if starts_with 63 t then none else some t;
  serialize = λ fields. [];
  get_string = λ key t. some t;
  get_number = λ key t. some (length t);
  get_bool = λ key t. none;
  concat = λ a b. a ++ b;
  trim = without_spaces;
  ends_with_slash = ends_with 47;
  chop_last = without_last;
  text_length = length;
  has_scheme = starts_with 104;
  default_url = 104 ∷ [];
  unknown_url = [];
  service_path = λ service. 47 ∷ [];
  is_delta = starts_with 116;
  is_done = starts_with 100;
  is_error = starts_with 101;
}

-- A client with a session, that is receiving a response.
abbrev client : DocentClient byte_strings byte_platform
client = record {
  server_base_url = 104 ∷ 49 ∷ [];
  device = 97 ∷ [];
  chat_session = 115 ∷ [];
  is_streaming = true;
  accumulated = [];
  is_terminated = false;
}

abbrev hello : Bytes
hello = 104 ∷ 105 ∷ []

chat_response-terminals_example :
    (let sent = (send_request byte_strings byte_platform client hello [] true).0 in
      let r = chat_response byte_strings byte_platform sent chunks none false none in
      let n =
        terminal_events byte_strings byte_platform
          (receive_chunk byte_strings [] (flatten chunks)).1 in
      (terminals byte_strings byte_platform r.1 ≡ (if n == 0 then 1 else n))
      × (r.0.is_streaming ≡ false))
chat_response-terminals_example =
    chat_response-terminals byte_strings byte_platform client hello [] true chunks none false none

-- Two pieces, a frame that is not JSON and the end.
abbrev answer_events : List (SseEvent byte_strings)
answer_events =
    record { event = 116 ∷ []; payload = hello }
    ∷ record { event = 116 ∷ []; payload = 63 ∷ [] }
    ∷ record { event = 116 ∷ []; payload = hello }
    ∷ record { event = 100 ∷ []; payload = hello }
    ∷ []

handle_events-gather_example :
    FullTexts byte_strings byte_platform []
      (handle_events byte_strings byte_platform client answer_events).1
handle_events-gather_example = handle_events-gather byte_strings byte_platform client answer_events

send_chat_message-refused_example :
    (let refused = send_chat_message byte_strings byte_platform client hello [] true in
      (refused.1 ≡ chat_failed still_streaming false ∷ [])
      × (send_chat_message byte_strings byte_platform refused.0 (32 ∷ 120 ∷ []) hello true
          ≡ send_request byte_strings byte_platform refused.0 (32 ∷ 120 ∷ []) hello true))
send_chat_message-refused_example =
    send_chat_message-refused byte_strings byte_platform client hello [] (32 ∷ 120 ∷ []) hello true
      refl refl refl refl

on_chat_stream_complete-stale_example :
    (let finished = handle_done byte_strings byte_platform client [] in
      let sent = send_chat_message byte_strings byte_platform finished.0 hello [] true in
      let ended =
        on_chat_stream_complete byte_strings byte_platform sent.0 none true
          (some (record { code = 200; content = [] })) in
      (finished.1 ≡ chat_completed (result_of byte_strings byte_platform [] []) ∷ [])
      × ((sent ≡ send_request byte_strings byte_platform finished.0 hello [] true)
          × ((sent.0.is_streaming ≡ true)
              × ((ended.1 ≡ chat_failed cut_off (not (byte_strings.is_empty [])) ∷ [])
                  × (ended.0.is_streaming ≡ false)))))
on_chat_stream_complete-stale_example =
    on_chat_stream_complete-stale byte_strings byte_platform client [] hello [] true none [] refl
      refl refl

without_last-shorter : (u : Bytes) → ends_with 47 u ≡ true → length (without_last u) < length u
without_last-shorter [] h = ground arith
without_last-shorter (b ∷ []) h = omega arith
without_last-shorter (b ∷ d ∷ ys) h = omega (arith, without_last-shorter (d ∷ ys) h)

set_server_base_url-usable_example :
    (let start = (initialize byte_strings byte_platform client none hello).0.server_base_url in
      let changed =
        (set_server_base_url byte_strings byte_platform client
          (32 ∷ 104 ∷ 47 ∷ 47 ∷ [])).server_base_url in
      ((starts_with 104 start ≡ true) × (ends_with 47 start ≡ false))
      × ((starts_with 104 changed ≡ true) × (ends_with 47 changed ≡ false)))
set_server_base_url-usable_example =
    set_server_base_url-usable byte_strings byte_platform client none hello
      (32 ∷ 104 ∷ 47 ∷ 47 ∷ []) without_last-shorter refl refl
