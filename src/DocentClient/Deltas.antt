-- ===== src/DocentClient/Deltas.antt =====
-- The pieces of an answer and its full text in TimeMachineAR/Source/TimeMachineAR/DocentClient.cpp.
use ai_xr_project.Base.{◌≡◌, List, [], ◌∷◌, ◌++◌, arith}
use ai_xr_project.SseParser.{Strings, SseEvent}
use ai_xr_project.DocentClient.{
  Platform, DocentClient, Notice, requested, answered, failed, session_ready, chat_delta,
  chat_completed, chat_failed,
}
use ai_xr_project.DocentClient.Chat.{
  report_chat_failure, handle_delta, result_of, handle_done, handle_error, handle_sse_event,
  handle_events,
}

module _ (S : Strings) (P : Platform S) where
  -- The pieces broadcast so far, put together.
  abbrev pub gather : S.Text → List (Notice S P) → S.Text
  gather text [] = text
  gather text (requested r ∷ ns) = gather text ns
  gather text (answered a ∷ ns) = gather text ns
  gather text (failed r ∷ ns) = gather text ns
  gather text (session_ready id ∷ ns) = gather text ns
  gather text (chat_delta t ∷ ns) = gather (P.concat text t) ns
  gather text (chat_completed r ∷ ns) = gather text ns
  gather text (chat_failed r b ∷ ns) = gather text ns

  -- Every completion carries the pieces broadcast before it, put together.
  abbrev pub FullTexts : S.Text → List (Notice S P) → Type 0
  FullTexts text [] = Unit
  FullTexts text (requested r ∷ ns) = FullTexts text ns
  FullTexts text (answered a ∷ ns) = FullTexts text ns
  FullTexts text (failed r ∷ ns) = FullTexts text ns
  FullTexts text (session_ready id ∷ ns) = FullTexts text ns
  FullTexts text (chat_delta t ∷ ns) = FullTexts (P.concat text t) ns
  FullTexts text (chat_completed r ∷ ns) = (r.full_text ≡ text) × FullTexts text ns
  FullTexts text (chat_failed r b ∷ ns) = FullTexts text ns

  FullTexts-append :
      (text : S.Text) (a b : List (Notice S P))
      → FullTexts text a
      → FullTexts (gather text a) b
      → FullTexts text (a ++ b)
  FullTexts-append text [] b h g = g
  FullTexts-append text (requested r ∷ ns) b h g = FullTexts-append text ns b h g
  FullTexts-append text (answered r ∷ ns) b h g = FullTexts-append text ns b h g
  FullTexts-append text (failed r ∷ ns) b h g = FullTexts-append text ns b h g
  FullTexts-append text (session_ready r ∷ ns) b h g = FullTexts-append text ns b h g
  FullTexts-append text (chat_delta t ∷ ns) b h g = FullTexts-append (P.concat text t) ns b h g
  FullTexts-append text (chat_completed r ∷ ns) b h g = (h.0, FullTexts-append text ns b h.1 g)
  FullTexts-append text (chat_failed r p ∷ ns) b h g = FullTexts-append text ns b h g

  handle_sse_event-gather :
      (c : DocentClient S P) (e : SseEvent S)
      → FullTexts c.accumulated (handle_sse_event S P c e).1
        × (gather c.accumulated (handle_sse_event S P c e).1
            ≡ (handle_sse_event S P c e).0.accumulated)
  unfolding handle_sse_event handle_delta handle_done handle_error report_chat_failure result_of
  handle_sse_event-gather c e = ground arith

  -- Every completion that the events of a response bring carries the full text: what the client had
  -- gathered before these events and then the pieces broadcast before the completion, each put at the
  -- end, in the order in which they were broadcast. This holds for every list of events, also when
  -- events with unreadable data or of other kinds lie between.
  pub handle_events-gather :
      (c : DocentClient S P) (es : List (SseEvent S))
      → FullTexts c.accumulated (handle_events S P c es).1
  unfolding handle_events
  handle_events-gather c [] = tt
  handle_events-gather c (e ∷ es) =
      let r = handle_sse_event S P c e in
      let now = handle_sse_event-gather c e in
      FullTexts-append c.accumulated r.1 (handle_events S P r.0 es).1 now.0
        (rw now.1 (handle_events-gather r.0 es))
