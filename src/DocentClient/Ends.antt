-- ===== src/DocentClient/Ends.antt =====
-- How a request of DocentClient.cpp ends: what its events and the end of its request report.
use ai_xr_project.Base.{
  ℕ, ◌+◌, ◌≡◌, refl, ap, ap₂, ◌∙◌, List, [], ◌∷◌, ◌++◌, Option, none, some, Bool, false, ◌||◌, ◌==◌,
  ltb, if◌then◌else◌, arith,
}
use mathlib.Core.List.{flatten}
use ai_xr_project.Rudp.{Bytes}
use ai_xr_project.SseParser.{Strings, SseEvent, receive_chunk, receive_chunks}
use ai_xr_project.SseParser.Chunks.{receive_chunks-whole}
use ai_xr_project.DocentClient.{
  Platform, DocentClient, Notice, Response, requested, answered, failed, session_ready, chat_delta,
  chat_completed, chat_failed,
}
use ai_xr_project.DocentClient.Chat.{
  report_chat_failure, send_request, handle_delta, handle_done, handle_error, handle_sse_event,
  complete_response, on_chat_stream_complete, handle_events, chat_response,
}

module _ (S : Strings) (P : Platform S) where
  -- One for a notice that ends a message: OnChatCompleted and OnChatFailed.
  abbrev pub terminal : Notice S P → ℕ
  terminal (requested r) = 0
  terminal (answered a) = 0
  terminal (failed r) = 0
  terminal (session_ready id) = 0
  terminal (chat_delta t) = 0
  terminal (chat_completed r) = 1
  terminal (chat_failed r b) = 1

  unfoldable pub terminals : List (Notice S P) → ℕ
  terminals [] = 0
  terminals (n ∷ ns) = terminal n + terminals ns

  -- One for an event that ends a message: `done` or `error` with data that is JSON.
  unfoldable pub terminal_event : SseEvent S → ℕ
  terminal_event e = elim (P.deserialize e.payload) [
    | none ↦ 0
    | some json ↦
        (if P.is_delta e.event
          then 0
          else if P.is_done e.event
          then 1
          else if P.is_error e.event
          then 1
          else 0)
  ]

  unfoldable pub terminal_events : List (SseEvent S) → ℕ
  terminal_events [] = 0
  terminal_events (e ∷ es) = terminal_event e + terminal_events es

  terminals-append : (a b : List (Notice S P)) → terminals (a ++ b) ≡ terminals a + terminals b
  unfolding terminals
  terminals-append [] b = omega arith
  terminals-append (n ∷ a) b = omega (arith, terminals-append a b)

  handle_sse_event-terminals :
      (c : DocentClient S P) (e : SseEvent S)
      → (terminals (handle_sse_event S P c e).1 ≡ terminal_event e)
        × ((handle_sse_event S P c e).0.is_terminated
            ≡ (c.is_terminated || ltb 0 (terminal_event e)))
  unfolding handle_sse_event handle_delta handle_done handle_error report_chat_failure
      terminal_event terminals
  handle_sse_event-terminals c e = ground arith

  handle_events-terminals :
      (c : DocentClient S P) (es : List (SseEvent S))
      → (terminals (handle_events S P c es).1 ≡ terminal_events es)
        × ((handle_events S P c es).0.is_terminated
            ≡ (c.is_terminated || ltb 0 (terminal_events es)))
  unfolding handle_events terminal_events terminals
  handle_events-terminals c [] = (refl, ground arith)
  handle_events-terminals c (e ∷ es) =
      let r = handle_sse_event S P c e in
      let now = handle_sse_event-terminals c e in
      let later = handle_events-terminals r.0 es in
      (
        omega (arith, terminals-append r.1 (handle_events S P r.0 es).1, now.0, later.0),
        later.1
            ∙ ap (λ b. b || ltb 0 (terminal_events es)) now.1
            ∙ ground (arith, c.is_terminated, terminal_event e, terminal_events es),
      )

  on_chat_stream_complete-terminals :
      (c : DocentClient S P) (url : Option S.Text) (connected : Bool)
      (response : Option (Response S P))
      → (terminals (on_chat_stream_complete S P c url connected response).1
          ≡ (if c.is_terminated then 0 else 1))
        × ((on_chat_stream_complete S P c url connected response).0.is_streaming ≡ false)
  unfolding on_chat_stream_complete complete_response report_chat_failure terminals
  on_chat_stream_complete-terminals c url connected response = ground arith

  one_at_least :
      (n : ℕ) (b : Bool) → b ≡ ltb 0 n → n + (if b then 0 else 1) ≡ (if n == 0 then 1 else n)
  one_at_least n b h = ground arith

  chat_response_events :
      (c : DocentClient S P) (chunks : List Bytes) (url : Option S.Text) (connected : Bool)
      (response : Option (Response S P))
      → c.is_terminated ≡ false
      → (let r = chat_response S P c chunks url connected response in
          let n = terminal_events (receive_chunks S [] chunks).1 in
          (terminals r.1 ≡ (if n == 0 then 1 else n)) × (r.0.is_streaming ≡ false))
  unfolding chat_response
  chat_response_events c chunks url connected response h =
      let es = (receive_chunks S [] chunks).1 in
      let r = handle_events S P c es in
      let events = handle_events-terminals c es in
      let last = on_chat_stream_complete-terminals r.0 url connected response in
      let flag : r.0.is_terminated ≡ ltb 0 (terminal_events es) =
        events.1 ∙ ap (λ b. b || ltb 0 (terminal_events es)) h in
      (
        terminals-append r.1 (on_chat_stream_complete S P r.0 url connected response).1
            ∙ ap₂ (λ a b. a + b) events.0 last.0
            ∙ one_at_least (terminal_events es) r.0.is_terminated flag,
        last.1,
      )

  -- A message whose request has ended has been answered: whatever the response holds, in whatever
  -- chunks, and however the connection ends, the completions and failures that are broadcast from the
  -- message on are as many as the `done` and `error` events of the whole stream, and exactly one where
  -- it has none. Then the client takes messages again. The events are handled before the end of the
  -- request and no other operation lies between them.
  pub chat_response-terminals :
      (c : DocentClient S P) (m poi : S.Text) (stream_ready : Bool) (chunks : List Bytes)
      (url : Option S.Text) (connected : Bool) (response : Option (Response S P))
      → (let sent = (send_request S P c m poi stream_ready).0 in
          let r = chat_response S P sent chunks url connected response in
          let n = terminal_events (receive_chunk S [] (flatten chunks)).1 in
          (terminals r.1 ≡ (if n == 0 then 1 else n)) × (r.0.is_streaming ≡ false))
  unfolding send_request
  chat_response-terminals c m poi stream_ready chunks url connected response =
      let sent = (send_request S P c m poi stream_ready).0 in
      let ends = chat_response_events sent chunks url connected response refl in
      (
        ends.0
            ∙ ap
                (λ (x : Bytes × List (SseEvent S)).
                  if terminal_events x.1 == 0 then 1 else terminal_events x.1)
                (receive_chunks-whole S chunks),
        ends.1,
      )
