-- ===== src/EventSource.antt =====
-- proxy/eventsource.go: the client of Server-Sent Events that the legacy transport uses.
pub mod Wire
pub mod Connect
use mcp_remote_go.Base.{
  ℕ, suc, Bool, true, false, not, List, [], ◌∷◌, ◌++◌, Option, none, some, ◌==◌, if◌then◌else◌,
  Bytes, codes, drop, is_nil, Result, ok, err,
}
use mcp_remote_go.Text.{has_prefix, trim_space, text_eq}
use mcp_remote_go.Sse.{Failure, is_clean_end, Stream, stream_of}
use mcp_remote_go.Auth.Challenge.{Fault}
use mcp_remote_go.Http.{
  Request, Response, UnauthorizedError, Client, header_get, header_set, ok_status,
  unauthorized_status, unauthorized_from_response,
}

-- `EventSource`. `done` tells whether its context is cancelled, and `closed` whether the body of its
-- response is.
pub record EventSource : Type 0 where
  pub request : Request
  pub last_id : Bytes
  pub reconnect : Bool
  pub done : Bool
  pub connected : Bool
  pub response : Option Response
  pub closed : Bool

-- The errors of `Connect`, and a panic in the parser of a challenge.
pub data ConnectError : Type 0 where
  request_failed : Bytes → ConnectError
  unauthorized : UnauthorizedError → ConnectError
  bad_status : ℕ → Bytes → ConnectError
  bad_content_type : Bytes → ConnectError
  panicked : Fault → ConnectError

-- `NewEventSource`.
unfoldable pub new_event_source : Request → EventSource
new_event_source request = record {
  request = request;
  last_id = [];
  reconnect = true;
  done = false;
  connected = false;
  response = none;
  closed = false;
}

abbrev pub last_event_id_name : Bytes
last_event_id_name = codes "Last-Event-ID"

abbrev pub content_type_name : Bytes
content_type_name = codes "Content-Type"

abbrev pub event_stream_type : Bytes
event_stream_type = codes "text/event-stream"

-- The request that `Connect` sends.
unfoldable pub with_last_id : EventSource → EventSource
with_last_id es = if is_nil es.last_id then es else record es {
  request = record (es.request) {
    headers = header_set last_event_id_name es.last_id es.request.headers;
  };
}

abbrev pub unauthorized_error : Result Fault UnauthorizedError → ConnectError
unauthorized_error (ok u) = unauthorized u
unauthorized_error (err e) = panicked e

-- `Connect` behind the answer of the server.
unfoldable pub on_response :
    (Bytes → Bytes) → EventSource → Response → EventSource × Option ConnectError
on_response to_lower es resp =
    if resp.status == unauthorized_status
    then (es, some (unauthorized_error (unauthorized_from_response to_lower resp)))
    else if not (resp.status == ok_status)
    then (es, some (bad_status resp.status resp.body))
    else if not (text_eq (header_get content_type_name resp.headers) event_stream_type)
    then (es, some (bad_content_type (header_get content_type_name resp.headers)))
    else (record es { response = some resp; connected = true; closed = false }, none)

abbrev pub on_answer :
    (Bytes → Bytes) → EventSource → Result Bytes Response → EventSource × Option ConnectError
on_answer to_lower es (ok resp) = on_response to_lower es resp
on_answer to_lower es (err e) = (es, some (request_failed e))

-- `Connect`.
unfoldable pub connect : (Bytes → Bytes) → Client → EventSource → EventSource × Option ConnectError
connect to_lower client es =
    if es.connected
    then (es, none)
    else on_answer to_lower (with_last_id es) (client (with_last_id es).request)

-- Whether the body of the response is closed behind `Body.Close`, if there is a response.
abbrev pub body_closed : EventSource → Bool
body_closed es = elim es.response [ none ↦ es.closed | some resp ↦ true ]

-- `Close`.
unfoldable pub close : EventSource → EventSource
close es =
    if es.connected
    then record es { done = true; connected = false; closed = body_closed es }
    else es

-- The variables of `readEvents`, with the field `lastID`.
pub record Reading : Type 0 where
  pub event : Bytes
  pub payload : Bytes
  pub last_id : Bytes

-- One line of `readEvents`, trimmed; the second part is the call of `OnMessage`.
unfoldable pub read_trimmed : Reading → Bytes → Reading × Option (Bytes × Bytes)
unfolding has_prefix
read_trimmed st [] =
    if is_nil st.payload
    then (st, none)
    else (record st { event = []; payload = [] }, some (st.event, st.payload))
read_trimmed st (c ∷ l) =
    if has_prefix (codes "event:") (c ∷ l)
    then (record st { event = trim_space (drop 6 (c ∷ l)) }, none)
    else if has_prefix (codes "data:") (c ∷ l)
    then (record st { payload = st.payload ++ trim_space (drop 5 (c ∷ l)) }, none)
    else if has_prefix (codes "id:") (c ∷ l)
    then (record st { last_id = trim_space (drop 3 (c ∷ l)) }, none)
    else (st, none)

unfoldable pub read_line : Reading → Bytes → Reading × Option (Bytes × Bytes)
read_line st line = read_trimmed st (trim_space line)

abbrev pub emit : Option (Bytes × Bytes) → List (Bytes × Bytes) → List (Bytes × Bytes)
emit none ms = ms
emit (some m) ms = m ∷ ms

-- What a run of `readEvents` does: the calls of `OnMessage`, the call of `OnError` if there is one,
-- and the last event id that it leaves.
pub record Outcome : Type 0 where
  pub messages : List (Bytes × Bytes)
  pub failure : Option Failure
  pub last_id : Bytes

-- The loop of `readEvents`; `ctx n` tells whether the context is done at the head of round `n`. A
-- read that fails drops the bytes in front of the failure and the event that is not complete.
unfoldable pub read_loop : (ℕ → Bool) → ℕ → Reading → List Bytes → Failure → Outcome
read_loop ctx n st [] failure = record {
  messages = [];
  failure = if ctx n then none else if is_clean_end failure then none else some failure;
  last_id = st.last_id;
}
read_loop ctx n st (line ∷ lines) failure = elim (ctx n) [
  | true ↦ record { messages = []; failure = none; last_id = st.last_id }
  | false ↦
      let (st', call) = read_line st line in
      let later = read_loop ctx (suc n) st' lines failure in
      record {
        messages = emit call later.messages;
        failure = later.failure;
        last_id = later.last_id;
      }
]

-- `readEvents`, and the state that it leaves.
unfoldable pub read_events : (ℕ → Bool) → EventSource → Stream → EventSource × Outcome
read_events ctx es s =
    let out =
      read_loop ctx 0 (record { event = []; payload = []; last_id = es.last_id }) s.lines
        s.failure in
    (record es { connected = false; closed = body_closed es; last_id = out.last_id }, out)
