-- ===== src/DocentClient.antt =====
-- TimeMachineAR/Source/TimeMachineAR/DocentClient.h and DocentClient.cpp: the client of the docent
-- server. An operation returns the client and, in order, what it broadcasts and which requests it
-- starts. JSON and the operations of FString are parameters; a message text with format arguments is
-- a constructor with these arguments.
pub mod Chat
pub mod Ends
pub mod Deltas
pub mod Overlap
pub mod Address
use ai_xr_project.Base.{
  ℕ, zero, suc, List, [], ◌∷◌, ◌++◌, Option, none, some, Bool, true, false, not, ◌==◌,
  if◌then◌else◌,
}
use ai_xr_project.SseParser.{Strings, SseEvent}

-- The names of the JSON fields.
pub data Key : Type 0 where
  poi_id device_uuid question exhibit_key session_id message : Key
  text_key source_key ttft_ms total_ms detail partial answer_key elapsed_ms : Key

-- The paths given to BuildUrl.
pub data Service : Type 0 where
  health ask sessions chat_stream chat : Service

module _ (S : Strings) where
  -- JSON, and what the client uses of FString besides the parser's operations. Numbers are int32.
  pub record Platform : Type 1 where
    pub Json : Type 0
    pub Number : Type 0
    pub zero_number : Number
    pub deserialize : S.Text → Option Json
    pub serialize : List (Key × S.Text) → S.Text
    pub get_string : Key → Json → Option S.Text
    pub get_number : Key → Json → Option Number
    pub get_bool : Key → Json → Option Bool
    pub concat : S.Text → S.Text → S.Text
    pub trim : S.Text → S.Text
    pub ends_with_slash : S.Text → Bool
    pub chop_last : S.Text → S.Text
    pub text_length : S.Text → ℕ
    pub has_scheme : S.Text → Bool
    pub default_url : S.Text
    pub unknown_url : S.Text
    pub service_path : Service → S.Text
    pub is_delta : S.Text → Bool
    pub is_done : S.Text → Bool
    pub is_error : S.Text → Bool

abbrev pub or_else {ℓ} : {A : Type ℓ} → Option A → A → A
or_else none a = a
or_else (some b) a = b

module _ (S : Strings) (P : Platform S) where
  pub record DocentAnswer : Type 0 where
    pub answer : S.Text
    pub source : S.Text
    pub elapsed : P.Number

  pub record DocentChatResult : Type 0 where
    pub full_text : S.Text
    pub source : S.Text
    pub ttft : P.Number
    pub total : P.Number

  pub record DocentClient : Type 0 where
    pub server_base_url : S.Text
    pub device : S.Text
    pub chat_session : S.Text
    pub is_streaming : Bool
    pub accumulated : S.Text
    pub is_terminated : Bool

  -- The texts of the failures, with their arguments.
  pub data Reason : Type 0 where
    connection_failed : S.Text → Reason
    bad_status : ℕ → S.Text → Reason
    bad_json : S.Text → Reason
    no_answer : S.Text → Reason
    empty_poi : Reason
    session_unreachable : S.Text → Reason
    session_status : ℕ → S.Text → Reason
    session_bad_json : S.Text → Reason
    no_session : Reason
    blank_message : Reason
    still_streaming : Reason
    server_error : S.Text → Reason
    chat_unreachable : S.Text → Reason
    cut_off : Reason

  -- The callbacks bound to OnProcessRequestComplete.
  pub data Handler : Type 0 where
    on_health_complete_of on_ask_complete_of on_session_created_of on_chat_complete_of : Handler

  -- A request that is started: its URL, its body (a GET request has none) and its callback.
  pub record Request : Type 0 where
    pub url : S.Text
    pub payload : Option S.Text
    pub handler : Handler

  pub data Notice : Type 0 where
    requested : Request → Notice
    answered : DocentAnswer → Notice
    failed : Reason → Notice
    session_ready : S.Text → Notice
    chat_delta : S.Text → Notice
    chat_completed : DocentChatResult → Notice
    chat_failed : Reason → Bool → Notice

  -- FHttpResponse, as far as the callbacks read it.
  pub record Response : Type 0 where
    pub code : ℕ
    pub content : S.Text

  -- The response, if the callback has a connection and a valid response.
  unfoldable pub valid_response : Bool → Option Response → Option Response
  valid_response connected response = if connected then response else none

  -- SafeGetUrl, where a request that is not valid is none.
  unfoldable pub safe_get_url : Option S.Text → S.Text
  safe_get_url none = P.unknown_url
  safe_get_url (some url) = url

  -- The loop of NormalizeServerBaseUrl. Each round takes a character off, so the length is fuel enough.
  unfoldable pub chop_slashes : ℕ → S.Text → S.Text
  chop_slashes zero url = url
  chop_slashes (suc fuel) url =
      let rest = chop_slashes fuel (P.chop_last url) in if P.ends_with_slash url then rest else url

  unfoldable pub normalize_url : S.Text → S.Text
  normalize_url url =
      let t = P.trim url in
      let u = chop_slashes (P.text_length t) t in
      if S.is_empty u then P.default_url else if P.has_scheme u then u else P.default_url

  -- NormalizeServerBaseUrl.
  unfoldable pub normalize_server_base_url : DocentClient → DocentClient
  normalize_server_base_url c = record c { server_base_url = normalize_url c.server_base_url }

  -- SetServerBaseUrl.
  unfoldable pub set_server_base_url : DocentClient → S.Text → DocentClient
  set_server_base_url c url = normalize_server_base_url (record c { server_base_url = url })

  -- Initialize, with the identifier of the configuration, if there is one, and the one that is made
  -- anew; the flag says that the new one is written to the configuration.
  unfoldable pub initialize : DocentClient → Option S.Text → S.Text → DocentClient × Bool
  initialize c none fresh = (record (normalize_server_base_url c) { device = fresh }, true)
  initialize c (some stored) fresh =
      if S.is_empty stored
      then (record (normalize_server_base_url c) { device = fresh }, true)
      else (record (normalize_server_base_url c) { device = stored }, false)

  -- BuildUrl.
  unfoldable pub build_url : DocentClient → Service → S.Text
  build_url c service = P.concat c.server_base_url (P.service_path service)

  -- CheckHealth.
  unfoldable pub check_health : DocentClient → DocentClient × List Notice
  check_health c = (
    c,
    requested (record { url = build_url c health; payload = none; handler = on_health_complete_of })
        ∷ [],
  )

  -- OnHealthComplete.
  unfoldable pub on_health_complete :
      DocentClient → Option S.Text → Bool → Option Response → DocentClient × List Notice
  on_health_complete c url connected response = elim (valid_response connected response) [
    | none ↦ (c, failed (connection_failed (safe_get_url url)) ∷ [])
    | some r ↦ (c, [])
  ]

  -- A field that is only sent with a value.
  unfoldable pub optional_field : Key → S.Text → List (Key × S.Text)
  optional_field key t = if S.is_empty t then [] else (key, t) ∷ []

  -- AskDocent.
  unfoldable pub ask_docent : DocentClient → S.Text → S.Text → DocentClient × List Notice
  ask_docent c poi q =
      let body = (poi_id, poi) ∷ (device_uuid, c.device) ∷ optional_field question q in
      if S.is_empty poi then (c, failed empty_poi ∷ []) else (
        c,
        requested (record {
          url = build_url c ask;
          payload = some (P.serialize body);
          handler = on_ask_complete_of;
        })
            ∷ [],
      )

  -- The body of OnAskComplete for a response.
  unfoldable pub read_answer : Response → Notice
  read_answer r = elim (P.deserialize r.content) [
    | none ↦ failed (bad_json r.content)
    | some json ↦ (elim (P.get_string answer_key json) [
      | none ↦ failed (no_answer r.content)
      | some a ↦
          (if S.is_empty a
            then failed (no_answer r.content)
            else answered (record {
              answer = a;
              source = or_else (P.get_string source_key json) S.empty_text;
              elapsed = or_else (P.get_number elapsed_ms json) P.zero_number;
            }))
    ])
  ]

  -- OnAskComplete.
  unfoldable pub on_ask_complete :
      DocentClient → Option S.Text → Bool → Option Response → DocentClient × List Notice
  on_ask_complete c url connected response = elim (valid_response connected response) [
    | none ↦ (c, failed (connection_failed (safe_get_url url)) ∷ [])
    | some r ↦
        (if r.code == 200
          then (c, read_answer r ∷ [])
          else (c, failed (bad_status r.code r.content) ∷ []))
  ]
