-- ===== src/DocentClient/Overlap.antt =====
-- Two messages of TimeMachineAR/Source/TimeMachineAR/DocentClient.cpp whose requests overlap.
use ai_xr_project.Base.{
  ◌≡◌, ap, sym, ◌∙◌, refl, List, [], ◌∷◌, Option, some, Bool, true, false, not, arith,
}
use ai_xr_project.SseParser.{Strings}
use ai_xr_project.DocentClient.{
  Platform, DocentClient, Notice, valid_response, still_streaming, cut_off, chat_completed,
  chat_failed,
}
use ai_xr_project.DocentClient.Chat.{
  report_chat_failure, send_request, send_chat_message, handle_done, result_of, whole_answer,
  complete_response, on_chat_stream_complete,
}

module _ (S : Strings) (P : Platform S) where
  send_chat_message_ready :
      (c : DocentClient S P) (m poi : S.Text) (stream_ready : Bool)
      → S.is_empty c.chat_session ≡ false
      → S.is_empty (P.trim m) ≡ false
      → c.is_streaming ≡ false
      → send_chat_message S P c m poi stream_ready ≡ send_request S P c m poi stream_ready
  unfolding send_chat_message
  send_chat_message_ready c m poi stream_ready hs hm hc = ground arith

  send_chat_message_busy :
      (c : DocentClient S P) (m poi : S.Text) (stream_ready : Bool)
      → S.is_empty c.chat_session ≡ false
      → S.is_empty (P.trim m) ≡ false
      → c.is_streaming ≡ true
      → send_chat_message S P c m poi stream_ready ≡ report_chat_failure S P c still_streaming false
  unfolding send_chat_message
  send_chat_message_busy c m poi stream_ready hs hm hc = ground arith

  -- A message sent while a response is arriving is refused with the reason for this, but the refusal
  -- clears the flag that it was refused for. So the next message that is not blank is sent although
  -- the first response is still arriving.
  pub send_chat_message-refused :
      (c : DocentClient S P) (m1 poi1 m2 poi2 : S.Text) (stream_ready : Bool)
      → S.is_empty c.chat_session ≡ false
      → S.is_empty (P.trim m1) ≡ false
      → S.is_empty (P.trim m2) ≡ false
      → c.is_streaming ≡ true
      → (let refused = send_chat_message S P c m1 poi1 stream_ready in
          (refused.1 ≡ chat_failed still_streaming false ∷ [])
          × (send_chat_message S P refused.0 m2 poi2 stream_ready
              ≡ send_request S P refused.0 m2 poi2 stream_ready))
  unfolding report_chat_failure
  send_chat_message-refused c m1 poi1 m2 poi2 stream_ready hs h1 h2 hc =
      let busy = send_chat_message_busy c m1 poi1 stream_ready hs h1 hc in
      (
        ap (λ (x : DocentClient S P × List (Notice S P)). x.1) busy,
        ap
              (λ (x : DocentClient S P × List (Notice S P)).
                send_chat_message S P x.0 m2 poi2 stream_ready)
              busy
            ∙ send_chat_message_ready (report_chat_failure S P c still_streaming false).0 m2 poi2
                stream_ready hs h2 refl
            ∙ ap
                (λ (x : DocentClient S P × List (Notice S P)).
                  send_request S P x.0 m2 poi2 stream_ready)
                (sym busy),
      )

  ends_cut_off :
      (c : DocentClient S P) (m poi : S.Text) (stream_ready : Bool) (url : Option S.Text)
      (body : S.Text)
      → S.is_empty body ≡ true
      → (let sent = send_request S P c m poi stream_ready in
          let ended =
            on_chat_stream_complete S P sent.0 url true
              (some (record { code = 200; content = body })) in
          (sent.0.is_streaming ≡ true)
          × ((ended.1 ≡ chat_failed cut_off (not (S.is_empty S.empty_text)) ∷ [])
              × (ended.0.is_streaming ≡ false)))
  unfolding send_request on_chat_stream_complete valid_response complete_response whole_answer
      report_chat_failure
  ends_cut_off c m poi stream_ready url body hb = ground arith

  -- After a `done` event the client takes the next message before the request of the first one has
  -- ended. When this request then ends, with code 200 and the empty body of a streamed response, the
  -- second message is reported as cut off and the client counts as not streaming, although the second
  -- response is still to come.
  pub on_chat_stream_complete-stale :
      (c : DocentClient S P) (json : P.Json) (m poi : S.Text) (stream_ready : Bool)
      (url : Option S.Text) (body : S.Text)
      → S.is_empty c.chat_session ≡ false
      → S.is_empty (P.trim m) ≡ false
      → S.is_empty body ≡ true
      → (let finished = handle_done S P c json in
          let sent = send_chat_message S P finished.0 m poi stream_ready in
          let ended =
            on_chat_stream_complete S P sent.0 url true
              (some (record { code = 200; content = body })) in
          (finished.1 ≡ chat_completed (result_of S P c.accumulated json) ∷ [])
          × ((sent ≡ send_request S P finished.0 m poi stream_ready)
              × ((sent.0.is_streaming ≡ true)
                  × ((ended.1 ≡ chat_failed cut_off (not (S.is_empty S.empty_text)) ∷ [])
                      × (ended.0.is_streaming ≡ false)))))
  unfolding handle_done
  on_chat_stream_complete-stale c json m poi stream_ready url body hs hm hb =
      let finished = (handle_done S P c json).0 in
      let ready = send_chat_message_ready finished m poi stream_ready hs hm refl in
      (refl, (ready, rw ready (ends_cut_off finished m poi stream_ready url body hb)))
