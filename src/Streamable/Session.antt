-- ===== src/Streamable/Session.antt =====
-- proxy/transport_streamable.go: sessions, headers and errors of `Send`.
use mcp_remote_go.Base.{
  ◌≡◌, refl, ◌∙◌, ◌⊎◌, inl, inr, false, [], ◌∷◌, ◌++◌, none, some, arith, Bytes, codes, is_nil,
  Option-cases, ok,
}
use mcp_remote_go.Text.{equal_fold}
use mcp_remote_go.Sse.{eof}
use mcp_remote_go.Http.{HeaderLines, header_get, Response, Client, ok_status}
use mcp_remote_go.Http.Headers.{header_get-set, header_get-set_self}
use mcp_remote_go.Streamable.{
  Transport, SendError, set_if_any, set_common_headers, send_request, on_json, take_session,
  on_response, send, session_id_name, protocol_version_name, protocol_version, authorization_name,
  content_type_name, accept_name,
}

header_get-set_if_any :
    (name other value line : Bytes) (hs : HeaderLines)
    → equal_fold other name ≡ false
    → header_get name (set_if_any other value line hs) ≡ header_get name hs
unfolding set_if_any
header_get-set_if_any name other value line hs h = ground (arith, header_get-set name other line hs)

header_get-set_if_any_self :
    (name value line : Bytes) (hs : HeaderLines)
    → is_nil value ≡ false
    → header_get name (set_if_any name value line hs) ≡ line
unfolding set_if_any
header_get-set_if_any_self name value line hs h = rw h (header_get-set_self name line hs)

-- The two headers that `Send` sets last are neither of these.
send_headers :
    (name : Bytes) (t : Transport) (token message : Bytes)
    → equal_fold accept_name name ≡ false
    → equal_fold content_type_name name ≡ false
    → header_get name (send_request t token message).headers
      ≡ header_get name (set_common_headers t token [])
unfolding send_request
send_headers name t token message a c = rw (header_get-set, a, header_get-set, c)

-- Whatever headers the user configured, every message is posted with the protocol version of the
-- transport.
pub send_request-version :
    (t : Transport) (token message : Bytes)
    → header_get protocol_version_name (send_request t token message).headers ≡ protocol_version
unfolding set_common_headers equal_fold
send_request-version t token message =
    send_headers protocol_version_name t token message refl refl
    ∙ header_get-set_if_any protocol_version_name session_id_name t.session_id t.session_id _ refl
    ∙ header_get-set_self protocol_version_name protocol_version _

-- A stored access token takes the place of every `Authorization` header that the user configured.
pub send_request-token :
    (t : Transport) (token message : Bytes)
    → is_nil token ≡ false
    → header_get authorization_name (send_request t token message).headers
      ≡ codes "Bearer " ++ token
unfolding set_common_headers equal_fold
send_request-token t token message h =
    send_headers authorization_name t token message refl refl
    ∙ header_get-set_if_any authorization_name session_id_name t.session_id t.session_id _ refl
    ∙ rw (header_get-set)
        (header_get-set_if_any_self authorization_name token (codes "Bearer " ++ token) _ h)

send_request-session :
    (t : Transport) (token message : Bytes)
    → is_nil t.session_id ≡ false
    → header_get session_id_name (send_request t token message).headers ≡ t.session_id
unfolding set_common_headers equal_fold
send_request-session t token message h =
    send_headers session_id_name t token message refl refl
    ∙ header_get-set_if_any_self session_id_name t.session_id t.session_id _ h

module _ (to_lower : Bytes → Bytes) where
  on_response-state : (t : Transport) (resp : Response) → (on_response to_lower t resp).state ≡ t
  unfolding on_response on_json
  on_response-state t resp = ground arith

  module _ (client : Client) (t : Transport) (token message : Bytes) (resp : Response)
      (got : client (send_request t token message) ≡ ok resp) where
    send_answer :
        send to_lower client t token message ≡ on_response to_lower (take_session t resp) resp
    unfolding send
    send_answer = rw got

    -- A response with a session id, whatever else it says, starts that session: the next message is
    -- posted with this id, whatever headers the user configured.
    pub send-session :
        (token' message' : Bytes)
        → is_nil (header_get session_id_name resp.headers) ≡ false
        → header_get session_id_name
            (send_request (send to_lower client t token message).state token' message').headers
          ≡ header_get session_id_name resp.headers
    unfolding take_session
    send-session token' message' h =
        rw (send_answer, on_response-state)
          (rw h (
            send_request-session (record t { session_id = header_get session_id_name resp.headers })
              token' message' h))

  on_response-messages :
      (t : Transport) (resp : Response)
      → ((on_response to_lower t resp).messages ≡ [])
        ⊎ (((on_response to_lower t resp).messages ≡ (codes "message", resp.body) ∷ [])
            × (resp.status ≡ ok_status)
            × (resp.body_end ≡ eof)
            × (is_nil resp.body ≡ false)
            × ((on_response to_lower t resp).error ≡ none))
  unfolding on_response on_json
  on_response-messages t resp = ground arith

  on_response-error :
      (t : Transport) (resp : Response) {e : SendError}
      → (on_response to_lower t resp).error ≡ some e
      → ((on_response to_lower t resp).messages ≡ [])
        × ((on_response to_lower t resp).background ≡ none)
  unfolding on_response on_json
  on_response-error t resp h = ground arith

  module _ (client : Client) (t : Transport) (token message : Bytes) (resp : Response)
      (got : client (send_request t token message) ≡ ok resp) where
    -- `Send` calls `onMessage` at most once, with the whole body of the response, and only for a 200
    -- whose body is not empty and was read to its end; it then reports no error. If it reports an
    -- error it has called nothing and left nothing to be read in the background.
    pub send_messages :
        (((send to_lower client t token message).messages ≡ [])
          ⊎ (((send to_lower client t token message).messages ≡ (codes "message", resp.body) ∷ [])
              × (resp.status ≡ ok_status)
              × (resp.body_end ≡ eof)
              × (is_nil resp.body ≡ false)
              × ((send to_lower client t token message).error ≡ none)))
        × (((send to_lower client t token message).error ≡ none)
            ⊎ (((send to_lower client t token message).messages ≡ [])
                × ((send to_lower client t token message).background ≡ none)))
    send_messages = rw (send_answer client t token message resp got) (
      on_response-messages (take_session t resp) resp,
      elim (Option-cases (on_response to_lower (take_session t resp) resp).error) [
        | inl clean ↦ inl clean
        | inr (e, bad) ↦ inr (on_response-error (take_session t resp) resp bad)
      ],
    )
