-- ===== src/Tests/Transports.antt =====
-- The Streamable HTTP transport: proxy/transport_streamable.go.
use mcp_remote_go.Base.{
  ℕ, ◌≡◌, ◌⊎◌, refl, true, false, List, [], ◌∷◌, none, some, Bytes, codes, is_nil, ok,
}
use mcp_remote_go.Sse.{eof}
use mcp_remote_go.Http.{
  Response, UnauthorizedError, Client, header_get, header_values, ok_status,
  unauthorized_from_response,
}
use mcp_remote_go.Auth.Challenge.{best_www_authenticate_header, best_loop}
use mcp_remote_go.Streamable.{
  Transport, session_id_name, send_request, send, on_stream_response, open_notification_stream,
}
use mcp_remote_go.Streamable.Session.{send-session, send_messages}
use mcp_remote_go.Streamable.Notify.{
  Round, needs_auth, end_of, after_attempt, notify_loop, notify_loop-needs_auth,
}

abbrev same : Bytes → Bytes
same s = s

abbrev transport : Transport
transport = record {
  endpoint = codes "http://a/mcp";
  headers =
      (codes "authorization", codes "Basic x") ∷ (codes "mcp-protocol-version", codes "1") ∷ [];
  session_id = [];
  last_event_id = [];
  has_on_message = true;
}

abbrev json_response : Response
json_response = record {
  status = 200;
  headers =
      (codes "content-type", codes "application/json") ∷ (codes "mcp-session-id", codes "s1") ∷ [];
  body = codes "{}";
  body_end = eof;
}

abbrev answering : Client
answering request = ok json_response

send-session_example :
    header_get session_id_name
      (send_request
        (send same answering transport (codes "t") (codes "{}")).state
        (codes "t")
        (codes "[]")).headers
    ≡ header_get session_id_name json_response.headers
send-session_example =
    send-session same answering transport (codes "t") (codes "{}") json_response refl (codes "t")
      (codes "[]") (unfold header_get in refl)

send_messages_example :
    (((send same answering transport [] (codes "{}")).messages ≡ [])
      ⊎ (((send same answering transport [] (codes "{}")).messages
            ≡ (codes "message", codes "{}") ∷ [])
          × (json_response.status ≡ ok_status)
          × (json_response.body_end ≡ eof)
          × (is_nil json_response.body ≡ false)
          × ((send same answering transport [] (codes "{}")).error ≡ none)))
    × (((send same answering transport [] (codes "{}")).error ≡ none)
        ⊎ (((send same answering transport [] (codes "{}")).messages ≡ [])
            × ((send same answering transport [] (codes "{}")).background ≡ none)))
send_messages_example = send_messages same answering transport [] (codes "{}") json_response refl

abbrev refusal : ℕ → Response
refusal status = record { status = status; headers = []; body = []; body_end = eof }

abbrev round : ℕ → Round
round status = record {
  client = λ request. ok (refusal status);
  token = [];
  ctx = λ n. none;
  done_before = false;
  done_after = false;
  done_waiting = false;
}

-- A server that fails twice and then asks for a token.
abbrev rounds : List Round
rounds = round 500 ∷ round 503 ∷ round 401 ∷ []

abbrev refused : UnauthorizedError
refused = record { status_code = 401; www_authenticate = [] }

rounds_end : (notify_loop same rounds transport).ended ≡ some (needs_auth refused)
unfolding notify_loop open_notification_stream on_stream_response after_attempt end_of
    unauthorized_from_response header_values best_www_authenticate_header best_loop
rounds_end = refl

notify_loop-needs_auth_example : refused.status_code ≡ 401
notify_loop-needs_auth_example = notify_loop-needs_auth same rounds transport rounds_end
