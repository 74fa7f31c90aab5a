-- ===== src/Streamable.antt =====
-- proxy/transport_streamable.go: the Streamable HTTP transport.
pub mod Session
pub mod Notify
use mcp_remote_go.Base.{
  ℕ, suc, Bool, true, false, not, ◌&&◌, ◌||◌, List, [], ◌∷◌, ◌++◌, Option, none, some, ◌==◌,
  if◌then◌else◌, Bytes, codes, is_nil, Result, ok, err,
}
use mcp_remote_go.Text.{has_prefix}
use mcp_remote_go.Sse.{Failure, eof, SseEvent, stream_of, read_sse_events}
use mcp_remote_go.Auth.Challenge.{Fault}
use mcp_remote_go.Http.{
  HeaderLines, header_get, header_set, set_all, Request, Response, UnauthorizedError, Client,
  ok_status, accepted_status, unauthorized_status, method_not_allowed_status,
  unauthorized_from_response,
}

-- `StreamableHTTPTransport`. The client and `getAuthToken` are arguments of the operations. The
-- callback `onMessage` is there or not; the model lists its calls.
pub record Transport : Type 0 where
  pub endpoint : Bytes
  pub headers : List (Bytes × Bytes)
  pub session_id : Bytes
  pub last_event_id : Bytes
  pub has_on_message : Bool

-- The errors of the transport, and a panic in the parser of a challenge.
pub data SendError : Type 0 where
  request_failed : Bytes → SendError
  unauthorized : UnauthorizedError → SendError
  bad_status : ℕ → Bytes → SendError
  read_failed : Failure → SendError
  not_supported : SendError
  panicked : Fault → SendError

-- `NewStreamableHTTPTransport`.
unfoldable pub new_transport : Bytes → List (Bytes × Bytes) → Transport
new_transport endpoint headers = record {
  endpoint = endpoint;
  headers = headers;
  session_id = [];
  last_event_id = [];
  has_on_message = false;
}

abbrev pub session_id_name : Bytes
session_id_name = codes "Mcp-Session-Id"

abbrev pub protocol_version_name : Bytes
protocol_version_name = codes "Mcp-Protocol-Version"

abbrev pub protocol_version : Bytes
protocol_version = codes "2025-11-25"

abbrev pub authorization_name : Bytes
authorization_name = codes "Authorization"

abbrev pub content_type_name : Bytes
content_type_name = codes "Content-Type"

abbrev pub accept_name : Bytes
accept_name = codes "Accept"

abbrev pub last_event_id_name : Bytes
last_event_id_name = codes "Last-Event-ID"

abbrev pub json_type : Bytes
json_type = codes "application/json"

abbrev pub event_stream_type : Bytes
event_stream_type = codes "text/event-stream"

-- Sets a header unless its value is empty.
unfoldable pub set_if_any : Bytes → Bytes → Bytes → HeaderLines → HeaderLines
set_if_any name value line hs = if is_nil value then hs else header_set name line hs

-- `setCommonHeaders`; `token` is what `getAuthToken` returns, empty if there is no such function.
unfoldable pub set_common_headers : Transport → Bytes → HeaderLines → HeaderLines
set_common_headers t token hs = set_if_any session_id_name t.session_id t.session_id (
    header_set protocol_version_name protocol_version
      (set_if_any authorization_name token (codes "Bearer " ++ token) (set_all t.headers hs)))

-- The request of `Send`.
unfoldable pub send_request : Transport → Bytes → Bytes → Request
send_request t token message = record {
  method = codes "POST";
  url = t.endpoint;
  headers =
      header_set accept_name (codes "application/json, text/event-stream")
        (header_set content_type_name json_type (set_common_headers t token []));
  body = message;
}

-- What `Send` leaves behind: the state, the calls of `onMessage`, the error, and the response that
-- a goroutine goes on to read, if there is one.
pub record Sent : Type 0 where
  pub state : Transport
  pub messages : List (Bytes × Bytes)
  pub error : Option SendError
  pub background : Option Response

abbrev pub done_with : Transport → List (Bytes × Bytes) → Option SendError → Sent
done_with t ms e = record { state = t; messages = ms; error = e; background = none }

abbrev pub unauthorized_error : Result Fault UnauthorizedError → SendError
unauthorized_error (ok u) = unauthorized u
unauthorized_error (err e) = panicked e

-- `errors.Is(err, nil)` of `io.ReadAll`: the body ends in `io.EOF`.
abbrev pub is_eof : Failure → Bool
is_eof eof = true
is_eof _ = false

-- The case of `application/json`.
unfoldable pub on_json : Transport → Response → Sent
on_json t resp =
    if not (resp.status == ok_status)
    then done_with t [] (some (bad_status resp.status resp.body))
    else if not (is_eof resp.body_end)
    then done_with t [] (some (read_failed resp.body_end))
    else if t.has_on_message && not (is_nil resp.body)
    then done_with t ((codes "message", resp.body) ∷ []) none
    else done_with t [] none

-- The session id of a response is taken over, whatever its status.
unfoldable pub take_session : Transport → Response → Transport
take_session t resp =
    if is_nil (header_get session_id_name resp.headers)
    then t
    else record t { session_id = header_get session_id_name resp.headers }

-- `Send` behind the answer, on the state with the session id.
unfoldable pub on_response : (Bytes → Bytes) → Transport → Response → Sent
on_response to_lower t resp =
    let content_type = header_get content_type_name resp.headers in
    if resp.status == unauthorized_status
    then done_with t [] (some (unauthorized_error (unauthorized_from_response to_lower resp)))
    else if resp.status == accepted_status
    then done_with t [] none
    else if has_prefix event_stream_type content_type
    then record { state = t; messages = []; error = none; background = some resp }
    else if has_prefix json_type content_type
    then on_json t resp
    else if not (resp.status == ok_status)
    then done_with t [] (some (bad_status resp.status resp.body))
    else done_with t [] none

abbrev pub on_answer : (Bytes → Bytes) → Transport → Result Bytes Response → Sent
on_answer to_lower t (ok resp) = on_response to_lower (take_session t resp) resp
on_answer to_lower t (err e) = done_with t [] (some (request_failed e))

-- `Send`.
unfoldable pub send : (Bytes → Bytes) → Client → Transport → Bytes → Bytes → Sent
send to_lower client t token message = on_answer to_lower t (client (send_request t token message))

-- The handler of events in `openNotificationStream` and `readSSEResponse`.
unfoldable pub on_event : Transport → SseEvent → Transport × List (Bytes × Bytes)
on_event t evt = (
  (if is_nil evt.id then t else record t { last_event_id = evt.id }),
  if t.has_on_message then (evt.event, evt.payload) ∷ [] else [],
)

unfoldable pub on_events : Transport → List SseEvent → Transport × List (Bytes × Bytes)
on_events t [] = (t, [])
on_events t (evt ∷ evts) = (
  (on_events (on_event t evt).0 evts).0,
  (on_event t evt).1 ++ (on_events (on_event t evt).0 evts).1,
)

-- What the reading of a body leaves behind: the state, the calls of `onMessage` and the failure.
abbrev pub read_body :
    (ℕ → Option Failure)
    → Transport
    → Response
    → (Transport × List (Bytes × Bytes)) × Option Failure
read_body ctx t resp = (
  on_events t (read_sse_events ctx (stream_of resp.body resp.body_end)).0,
  (read_sse_events ctx (stream_of resp.body resp.body_end)).1,
)

-- `readSSEResponse`; the failure goes to `onError`, if that is there.
unfoldable pub read_sse_response :
    (ℕ → Option Failure)
    → Transport
    → Response
    → (Transport × List (Bytes × Bytes)) × Option Failure
unfolding on_events on_event
read_sse_response = read_body

-- The request of `openNotificationStream`.
unfoldable pub stream_request : Transport → Bytes → Request
stream_request t token = record {
  method = codes "GET";
  url = t.endpoint;
  headers =
      set_if_any last_event_id_name t.last_event_id t.last_event_id
        (header_set accept_name event_stream_type (set_common_headers t token []));
  body = [];
}

abbrev pub read_error : Option Failure → Option SendError
read_error none = none
read_error (some f) = some (read_failed f)

-- `openNotificationStream`: the state, the calls of `onMessage` and the error.
unfoldable pub on_stream_response :
    (Bytes → Bytes)
    → (ℕ → Option Failure)
    → Transport
    → Response
    → (Transport × List (Bytes × Bytes)) × Option SendError
on_stream_response to_lower ctx t resp =
    if resp.status == method_not_allowed_status
    then ((t, []), some not_supported)
    else if resp.status == unauthorized_status
    then ((t, []), some (unauthorized_error (unauthorized_from_response to_lower resp)))
    else if not (resp.status == ok_status)
    then ((t, []), some (bad_status resp.status resp.body))
    else ((read_body ctx t resp).0, read_error (read_body ctx t resp).1)

unfoldable pub open_notification_stream :
    (Bytes → Bytes)
    → Client
    → (ℕ → Option Failure)
    → Transport
    → Bytes
    → (Transport × List (Bytes × Bytes)) × Option SendError
open_notification_stream to_lower client ctx t token = elim (client (stream_request t token)) [
  | err e ↦ ((t, []), some (request_failed e))
  | ok resp ↦ on_stream_response to_lower ctx t resp
]
