-- ===== src/DocentClient/Chat.antt =====
-- The chat of TimeMachineAR/Source/TimeMachineAR/DocentClient.cpp: the session, a message, the events of
-- its response and the end of its request.
use ai_xr_project.Base.{
  List, [], ◌∷◌, ◌++◌, Option, none, some, Bool, true, false, not, ◌==◌, if◌then◌else◌,
}
use ai_xr_project.SseParser.{Strings, SseEvent, receive_chunks}
use ai_xr_project.Rudp.{Bytes}
use ai_xr_project.DocentClient.{
  Platform, or_else, DocentChatResult, DocentClient, Reason, Notice, device_uuid, exhibit_key,
  session_id, message, poi_id, text_key, source_key, ttft_ms, total_ms, detail, partial, answer_key,
  sessions, chat_stream, chat, session_unreachable, session_bad_json, session_status, no_session,
  blank_message, still_streaming, server_error, cut_off, bad_status, chat_unreachable,
  on_session_created_of, on_chat_complete_of, requested, session_ready, chat_delta, chat_completed,
  chat_failed, Response, valid_response, safe_get_url, build_url, optional_field,
}

module _ (S : Strings) (P : Platform S) where
  -- ReportChatFailure.
  unfoldable pub report_chat_failure :
      DocentClient S P → Reason S P → Bool → DocentClient S P × List (Notice S P)
  report_chat_failure c reason is_partial =
      (record c { is_streaming = false }, chat_failed reason is_partial ∷ [])

  -- StartChatSession.
  unfoldable pub start_chat_session :
      DocentClient S P → S.Text → DocentClient S P × List (Notice S P)
  start_chat_session c exhibit =
      let body = (device_uuid, c.device) ∷ optional_field S P exhibit_key exhibit in
      (
        c,
        requested (record {
          url = build_url S P c sessions;
          payload = some (P.serialize body);
          handler = on_session_created_of;
        })
            ∷ [],
      )

  -- The session identifier of a response.
  unfoldable pub session_of : Response S P → Option S.Text
  session_of r = elim (P.deserialize r.content) [
    | none ↦ none
    | some json ↦ P.get_string session_id json
  ]

  -- OnSessionCreated.
  unfoldable pub on_session_created :
      DocentClient S P
      → Option S.Text
      → Bool
      → Option (Response S P)
      → DocentClient S P × List (Notice S P)
  on_session_created c url connected response = elim (valid_response S P connected response) [
    | none ↦ report_chat_failure c (session_unreachable (safe_get_url S P url)) false
    | some r ↦
        (if r.code == 200
          then (elim (session_of r) [
            | none ↦ report_chat_failure c (session_bad_json r.content) false
            | some id ↦ (record c { chat_session = id }, session_ready id ∷ [])
          ])
          else report_chat_failure c (session_status r.code r.content) false)
  ]

  -- The request of SendChatMessage. Without streaming the service is another one.
  unfoldable pub send_request :
      DocentClient S P → S.Text → S.Text → Bool → DocentClient S P × List (Notice S P)
  send_request c m poi stream_ready =
      let body = (session_id, c.chat_session) ∷ (message, m) ∷ optional_field S P poi_id poi in
      (
        record c { is_streaming = true; is_terminated = false; accumulated = S.empty_text },
        requested (record {
          url = build_url S P c (if stream_ready then chat_stream else chat);
          payload = some (P.serialize body);
          handler = on_chat_complete_of;
        })
            ∷ [],
      )

  -- SendChatMessage. The flag says that the HTTP implementation can stream.
  unfoldable pub send_chat_message :
      DocentClient S P → S.Text → S.Text → Bool → DocentClient S P × List (Notice S P)
  send_chat_message c m poi stream_ready =
      if S.is_empty c.chat_session
      then report_chat_failure c no_session false
      else if S.is_empty (P.trim m)
      then report_chat_failure c blank_message false
      else if c.is_streaming
      then report_chat_failure c still_streaming false
      else send_request c m poi stream_ready

  -- A `delta` event.
  unfoldable pub handle_delta : DocentClient S P → P.Json → DocentClient S P × List (Notice S P)
  handle_delta c json = elim (P.get_string text_key json) [
    | none ↦ (c, [])
    | some t ↦
        (if S.is_empty t
          then (c, [])
          else (record c { accumulated = P.concat c.accumulated t }, chat_delta t ∷ []))
  ]

  -- The source and the times of a result.
  unfoldable pub result_of : S.Text → P.Json → DocentChatResult S P
  result_of full json = record {
    full_text = full;
    source = or_else (P.get_string source_key json) S.empty_text;
    ttft = or_else (P.get_number ttft_ms json) P.zero_number;
    total = or_else (P.get_number total_ms json) P.zero_number;
  }

  -- A `done` event.
  unfoldable pub handle_done : DocentClient S P → P.Json → DocentClient S P × List (Notice S P)
  handle_done c json = (
    record c { is_terminated = true; is_streaming = false },
    chat_completed (result_of c.accumulated json) ∷ [],
  )

  -- An `error` event.
  unfoldable pub handle_error : DocentClient S P → P.Json → DocentClient S P × List (Notice S P)
  handle_error c json =
      report_chat_failure (record c { is_terminated = true })
        (server_error (or_else (P.get_string detail json) S.empty_text))
        (or_else (P.get_bool partial json) false)

  -- HandleSseEvent.
  unfoldable pub handle_sse_event :
      DocentClient S P → SseEvent S → DocentClient S P × List (Notice S P)
  handle_sse_event c e = elim (P.deserialize e.payload) [
    | none ↦ (c, [])
    | some json ↦
        (if P.is_delta e.event
          then handle_delta c json
          else if P.is_done e.event
          then handle_done c json
          else if P.is_error e.event
          then handle_error c json
          else (c, []))
  ]

  -- The end of a request whose body is one JSON answer.
  unfoldable pub whole_answer : Response S P → Option (DocentChatResult S P)
  whole_answer r = if S.is_empty r.content then none else (elim (P.deserialize r.content) [
    | none ↦ none
    | some json ↦ (elim (P.get_string answer_key json) [
      | none ↦ none
      | some full ↦ some (result_of full json)
    ])
  ])

  unfoldable pub complete_response :
      DocentClient S P → Response S P → DocentClient S P × List (Notice S P)
  complete_response c r =
      if r.code == 200
      then (elim (whole_answer r) [
        | none ↦ report_chat_failure c cut_off (not (S.is_empty c.accumulated))
        | some result ↦ (
          record c { is_streaming = false },
          chat_delta result.full_text ∷ chat_completed result ∷ [],
        )
      ])
      else report_chat_failure c (bad_status r.code r.content) false

  -- OnChatStreamComplete.
  unfoldable pub on_chat_stream_complete :
      DocentClient S P
      → Option S.Text
      → Bool
      → Option (Response S P)
      → DocentClient S P × List (Notice S P)
  on_chat_stream_complete c url connected response =
      if c.is_terminated
      then (record c { is_streaming = false }, [])
      else (elim (valid_response S P connected response) [
        | none ↦
            report_chat_failure c (chat_unreachable (safe_get_url S P url))
              (not (S.is_empty c.accumulated))
        | some r ↦ complete_response c r
      ])

  -- The tasks that the stream delegate queues, in their order.
  unfoldable pub handle_events :
      DocentClient S P → List (SseEvent S) → DocentClient S P × List (Notice S P)
  handle_events c [] = (c, [])
  handle_events c (e ∷ es) =
      let r = handle_sse_event c e in let rest = handle_events r.0 es in (rest.0, r.1 ++ rest.1)

  -- A response that arrives in chunks, and the end of its request.
  unfoldable pub chat_response :
      DocentClient S P
      → List Bytes
      → Option S.Text
      → Bool
      → Option (Response S P)
      → DocentClient S P × List (Notice S P)
  chat_response c chunks url connected response =
      let r = handle_events c (receive_chunks S [] chunks).1 in
      let last = on_chat_stream_complete r.0 url connected response in (last.0, r.1 ++ last.1)
