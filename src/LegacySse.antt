-- ===== src/LegacySse.antt =====
-- proxy/transport_sse.go: the legacy transport, on top of the event source.
pub mod Endpoint
use mcp_remote_go.Base.{
  ℕ, Bool, true, false, not, ◌&&◌, ◌||◌, List, [], ◌∷◌, ◌++◌, Option, none, some, ◌==◌,
  if◌then◌else◌, Bytes, codes, is_nil, Result, ok, err,
}
use mcp_remote_go.Text.{text_eq, has_prefix}
use mcp_remote_go.Auth.Challenge.{Fault}
use mcp_remote_go.Auth.Resource.{Url}
use mcp_remote_go.Http.{
  Request, Response, Client, HeaderLines, header_set, set_all, ok_status, accepted_status,
  unauthorized_status, UnauthorizedError, unauthorized_from_response,
}
use mcp_remote_go.EventSource as EventSource
use mcp_remote_go.EventSource.{EventSource, ConnectError, new_event_source}
use mcp_remote_go.Streamable.{
  set_if_any, authorization_name, accept_name, content_type_name, event_stream_type, json_type,
}

-- `SSETransport`. The client and `getAuthToken` are arguments of the operations; the calls of
-- `onMessage` are listed, if it is there.
pub record SseTransport : Type 0 where
  pub server_url : Bytes
  pub headers : List (Bytes × Bytes)
  pub event_source : Option EventSource
  pub command_endpoint : Bytes
  pub has_on_message : Bool

-- `NewSSETransport`.
unfoldable pub new_sse_transport : Bytes → List (Bytes × Bytes) → SseTransport
new_sse_transport server_url headers = record {
  server_url = server_url;
  headers = headers;
  event_source = none;
  command_endpoint = [];
  has_on_message = false;
}

abbrev pub with_token : Bytes → HeaderLines → HeaderLines
with_token token hs = set_if_any authorization_name token (codes "Bearer " ++ token) hs

-- The request of `Connect`.
unfoldable pub connect_request : SseTransport → Bytes → Request
connect_request t token = record {
  method = codes "GET";
  url = t.server_url;
  headers = header_set (codes "Connection") (codes "keep-alive") (
      header_set (codes "Cache-Control") (codes "no-cache")
        (header_set accept_name event_stream_type (with_token token (set_all t.headers []))));
  body = [];
}

-- `Connect`.
unfoldable pub connect :
    (Bytes → Bytes) → Client → SseTransport → Bytes → SseTransport × Option ConnectError
connect to_lower client t token =
    let (es, error) =
      EventSource.connect to_lower client (new_event_source (connect_request t token)) in
    (record t { event_source = some es }, error)

-- `Close`.
unfoldable pub close : SseTransport → SseTransport
close t = elim t.event_source [
  | none ↦ t
  | some es ↦ record t { event_source = some (EventSource.close es) }
]

-- `handleMessage`: the state and the call of `onMessage`.
unfoldable pub handle_message : SseTransport → Bytes × Bytes → SseTransport × List (Bytes × Bytes)
handle_message t m =
    if text_eq m.0 (codes "endpoint")
    then (record t { command_endpoint = m.1 }, [])
    else (t, if t.has_on_message then m ∷ [] else [])

-- The calls of `handleMessage` for the messages of the event source.
unfoldable pub handle_messages :
    SseTransport → List (Bytes × Bytes) → SseTransport × List (Bytes × Bytes)
handle_messages t [] = (t, [])
handle_messages t (m ∷ ms) =
    let rest = handle_messages (handle_message t m).0 ms in
    (rest.0, (handle_message t m).1 ++ rest.1)

pub data SendError : Type 0 where
  not_connected : SendError
  request_failed : Bytes → SendError
  unauthorized : UnauthorizedError → SendError
  bad_status : ℕ → Bytes → SendError
  panicked : Fault → SendError

abbrev pub unauthorized_error : Result Fault UnauthorizedError → SendError
unauthorized_error (ok u) = unauthorized u
unauthorized_error (err e) = panicked e

-- `url.Parse`, `URL.String` and `URL.ResolveReference` are parameters.
pub record UrlLibrary : Type 0 where
  pub parse_url : Bytes → Result Bytes Url
  pub print_url : Url → Bytes
  pub resolve : Url → Url → Url

abbrev pub is_absolute : Bytes → Bool
is_absolute url = has_prefix (codes "http://") url || has_prefix (codes "https://") url

abbrev pub is_none : Option EventSource → Bool
is_none none = true
is_none (some es) = false

module _ (lib : UrlLibrary) where
  -- The cases of `getCommandURL`: an endpoint that is resolved against the server, and none.
  abbrev pub against : Url → Bytes → Bytes
  against base endpoint = elim (lib.parse_url endpoint) [
    | err e ↦ lib.print_url (record base { path = [] }) ++ endpoint
    | ok relative ↦ lib.print_url (lib.resolve (record base { path = [] }) relative)
  ]

  unfoldable pub resolved : Bytes → Bytes → Bytes
  resolved server_url endpoint = elim (lib.parse_url server_url) [
    | err e ↦ server_url ++ endpoint
    | ok base ↦ against base endpoint
  ]

  unfoldable pub derived : Bytes → Bytes
  derived server_url = elim (lib.parse_url server_url) [
    | err e ↦ server_url ++ codes "/message"
    | ok u ↦ lib.print_url (record u { path = codes "/message" })
  ]

  -- `getCommandURL`.
  unfoldable pub get_command_url : SseTransport → Bytes
  get_command_url t =
      if is_nil t.command_endpoint
      then derived t.server_url
      else if is_absolute t.command_endpoint
      then t.command_endpoint
      else resolved t.server_url t.command_endpoint

  -- The request of `Send`.
  unfoldable pub send_request : SseTransport → Bytes → Bytes → Request
  send_request t token message = record {
    method = codes "POST";
    url = get_command_url t;
    headers = header_set content_type_name json_type (with_token token (set_all t.headers []));
    body = message;
  }

  module _ (to_lower : Bytes → Bytes) where
    -- `Send` behind the answer.
    unfoldable pub on_response : Response → Option SendError
    on_response resp =
        if resp.status == unauthorized_status
        then some (unauthorized_error (unauthorized_from_response to_lower resp))
        else if not (resp.status == ok_status) && not (resp.status == accepted_status)
        then some (bad_status resp.status resp.body)
        else none

    abbrev pub on_answer : Result Bytes Response → Option SendError
    on_answer (ok resp) = on_response resp
    on_answer (err e) = some (request_failed e)

    -- `Send`: the requests made and the error. A URL that gives no request counts as a request that
    -- fails.
    unfoldable pub send : Client → SseTransport → Bytes → Bytes → List Request × Option SendError
    send client t token message =
        if is_none t.event_source && is_nil t.command_endpoint
        then ([], some not_connected)
        else (send_request t token message ∷ [], on_answer (client (send_request t token message)))
