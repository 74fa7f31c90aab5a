-- ===== src/Streamable/Notify.antt =====
-- proxy/transport_streamable.go: the goroutine of `startNotificationStream`.
use mcp_remote_go.Base.{
  ℕ, ◌≡◌, sym, ◌∙◌, inl, inr, Bool, true, false, List, [], ◌∷◌, ◌++◌, Option, none, some, arith,
  if◌then◌else◌, Bytes, Result, ok, err, Bool-cases, Option-cases, Result-cases,
}
use mcp_remote_go.Sse.{Failure}
use mcp_remote_go.Auth.Challenge.{Fault}
use mcp_remote_go.Http.{
  Request, Response, UnauthorizedError, Client, unauthorized_from_response,
  method_not_allowed_status, unauthorized_status,
}
use mcp_remote_go.Streamable.{
  Transport, SendError, request_failed, unauthorized, bad_status, read_failed, not_supported,
  panicked, unauthorized_error, stream_request, on_stream_response, open_notification_stream,
}

-- What one round of the loop meets: the server, the token, the context while the stream is read,
-- and whether the context is done at the head of the round, when an error has come back, and at the
-- end of the three seconds that the loop waits.
pub record Round : Type 0 where
  pub client : Client
  pub token : Bytes
  pub ctx : ℕ → Option Failure
  pub done_before : Bool
  pub done_after : Bool
  pub done_waiting : Bool

-- How the goroutine ends.
pub data LoopEnd : Type 0 where
  cancelled unsupported : LoopEnd
  needs_auth : UnauthorizedError → LoopEnd
  crashed : Fault → LoopEnd

-- Behind an error: the end, or `none` where the loop goes on.
unfoldable pub end_of : Round → SendError → Option LoopEnd
end_of r not_supported = some unsupported
end_of r (unauthorized u) = some (needs_auth u)
end_of r (panicked e) = some (crashed e)
end_of r (request_failed m) = if r.done_waiting then some cancelled else none
end_of r (bad_status s b) = if r.done_waiting then some cancelled else none
end_of r (read_failed f) = if r.done_waiting then some cancelled else none

unfoldable pub after_attempt : Round → Option SendError → Option LoopEnd
unfolding end_of
after_attempt r none = none
after_attempt r (some (panicked e)) = some (crashed e)
after_attempt r (some e) = if r.done_after then some cancelled else end_of r e

-- A run of the loop over rounds: the state, the requests that were sent, the calls of `onMessage`,
-- and the end; it is `none` if the loop is still running behind these rounds.
pub record Run : Type 0 where
  pub state : Transport
  pub requests : List Request
  pub messages : List (Bytes × Bytes)
  pub ended : Option LoopEnd

module _ (to_lower : Bytes → Bytes) where
  abbrev attempt : Round → Transport → (Transport × List (Bytes × Bytes)) × Option SendError
  attempt r t = open_notification_stream to_lower r.client r.ctx t r.token

  unfoldable pub notify_loop : List Round → Transport → Run
  notify_loop [] t = record { state = t; requests = []; messages = []; ended = none }
  notify_loop (r ∷ rs) t =
      let ((t', ms), error) = attempt r t in
      let rest = notify_loop rs t' in
      elim r.done_before [
        | true ↦ record { state = t; requests = []; messages = []; ended = some cancelled }
        | false ↦ elim (after_attempt r error) [
          | some e ↦ record {
            state = t';
            requests = stream_request t r.token ∷ [];
            messages = ms;
            ended = some e;
          }
          | none ↦ record {
            state = rest.state;
            requests = stream_request t r.token ∷ rest.requests;
            messages = ms ++ rest.messages;
            ended = rest.ended;
          }
        ]
      ]

  open_notification_stream_lem :
      (client : Client) (ctx : ℕ → Option Failure) (t : Transport) (token : Bytes) (resp : Response)
      → client (stream_request t token) ≡ ok resp
      → open_notification_stream to_lower client ctx t token
        ≡ on_stream_response to_lower ctx t resp
  unfolding open_notification_stream
  open_notification_stream_lem client ctx t token resp got = rw (got, open_notification_stream)

  on_stream_response_unsupported :
      (ctx : ℕ → Option Failure) (t : Transport) (resp : Response)
      → resp.status ≡ method_not_allowed_status
      → on_stream_response to_lower ctx t resp ≡ ((t, []), some not_supported)
  unfolding on_stream_response
  on_stream_response_unsupported ctx t resp h = rw h

  notify_loop_end :
      (r : Round) (rs : List Round) (t t' : Transport) (ms : List (Bytes × Bytes))
      (o : Option SendError) (e : LoopEnd)
      → r.done_before ≡ false
      → attempt r t ≡ ((t', ms), o)
      → after_attempt r o ≡ some e
      → notify_loop (r ∷ rs) t ≡ record {
        state = t';
        requests = stream_request t r.token ∷ [];
        messages = ms;
        ended = some e;
      }
  unfolding notify_loop
  notify_loop_end r rs t t' ms o e h a s = ground arith

  notify_loop_on :
      (r : Round) (rs : List Round) (t : Transport)
      → r.done_before ≡ false
      → after_attempt r (attempt r t).1 ≡ none
      → (notify_loop (r ∷ rs) t).ended ≡ (notify_loop rs (attempt r t).0.0).ended
  unfolding notify_loop
  notify_loop_on r rs t h s = ground arith

  notify_loop_stop :
      (r : Round) (rs : List Round) (t : Transport) (e : LoopEnd)
      → r.done_before ≡ false
      → after_attempt r (attempt r t).1 ≡ some e
      → (notify_loop (r ∷ rs) t).ended ≡ some e
  unfolding notify_loop
  notify_loop_stop r rs t e h s = ground arith

  -- A server that answers 405 is asked once: the loop ends with that round, with no call of
  -- `onMessage`, whatever rounds would have come behind it.
  pub notify_loop-unsupported :
      (r : Round) (rs : List Round) (t : Transport) (resp : Response)
      → r.done_before ≡ false
      → r.done_after ≡ false
      → r.client (stream_request t r.token) ≡ ok resp
      → resp.status ≡ method_not_allowed_status
      → notify_loop (r ∷ rs) t ≡ record {
        state = t;
        requests = stream_request t r.token ∷ [];
        messages = [];
        ended = some unsupported;
      }
  unfolding after_attempt
  notify_loop-unsupported r rs t resp before after got s =
      notify_loop_end r rs t t [] (some not_supported) unsupported before
        (open_notification_stream_lem r.client r.ctx t r.token resp got
          ∙ on_stream_response_unsupported r.ctx t resp s)
        (rw after)

  unauthorized_from_response-status :
      (resp : Response) {u : UnauthorizedError}
      → unauthorized_from_response to_lower resp ≡ ok u
      → u.status_code ≡ resp.status
  unfolding unauthorized_from_response
  unauthorized_from_response-status resp h = ground arith

  unauthorized_error-eq :
      (r : Result Fault UnauthorizedError) {u : UnauthorizedError}
      → unauthorized_error r ≡ unauthorized u
      → r ≡ ok u
  unauthorized_error-eq (ok v) h = ground arith
  unauthorized_error-eq (err e) h = absurd (ground arith)

  on_stream_response-unauthorized :
      (ctx : ℕ → Option Failure) (t : Transport) (resp : Response) {u : UnauthorizedError}
      → (on_stream_response to_lower ctx t resp).1 ≡ some (unauthorized u)
      → u.status_code ≡ unauthorized_status
  unfolding on_stream_response
  on_stream_response-unauthorized ctx t resp {u} h = ground (
    arith,
    unauthorized_error-eq (unauthorized_from_response to_lower resp) {u = u},
    unauthorized_from_response-status resp {u = u},
  )

  open_notification_stream-unauthorized :
      (client : Client) (ctx : ℕ → Option Failure) (t : Transport) (token : Bytes)
      {u : UnauthorizedError}
      → (open_notification_stream to_lower client ctx t token).1 ≡ some (unauthorized u)
      → u.status_code ≡ unauthorized_status
  open_notification_stream-unauthorized client ctx t token h =
      elim (Result-cases (client (stream_request t token))) [
        | inl (resp, got) ↦
            on_stream_response-unauthorized ctx t resp
              (rw (open_notification_stream_lem client ctx t token resp got) at h)
        | inr (e, failed) ↦ absurd (go e failed)
      ]
    where
      go : (e : Bytes) → client (stream_request t token) ≡ err e → ⊥
      go e failed = unfold open_notification_stream in ground arith

  after_attempt-needs_auth :
      (r : Round) (o : Option SendError) {u : UnauthorizedError}
      → after_attempt r o ≡ some (needs_auth u)
      → o ≡ some (unauthorized u)
  unfolding after_attempt
  after_attempt-needs_auth r o h = ground arith

  -- The loop hands an error to `onError`, and ends, only for a 401 of the server: the error that it
  -- hands over carries that status.
  pub notify_loop-needs_auth :
      (rs : List Round) (t : Transport) {u : UnauthorizedError}
      → (notify_loop rs t).ended ≡ some (needs_auth u)
      → u.status_code ≡ unauthorized_status
  unfolding notify_loop
  notify_loop-needs_auth [] t h = ground arith
  notify_loop-needs_auth (r ∷ rs) t {u} h = elim (Bool-cases r.done_before) [
    | inl stop ↦ ground arith
    | inr go ↦ elim (Option-cases (after_attempt r (attempt r t).1)) [
      | inl on ↦ notify_loop-needs_auth rs (attempt r t).0.0 (sym (notify_loop_on r rs t go on) ∙ h)
      | inr (e, end) ↦ open_notification_stream-unauthorized r.client r.ctx t r.token (
          after_attempt-needs_auth r (attempt r t).1
            (end ∙ sym (notify_loop_stop r rs t e go end) ∙ h))
    ]
  ]
