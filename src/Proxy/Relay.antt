-- ===== src/Proxy/Relay.antt =====
-- proxy/proxy.go: what the proxy does once it is connected, over the interface of proxy/transport.go.
pub mod Stdin
pub mod Stdout
pub mod Reconnect
use mcp_remote_go.Base.{
  ℕ, Bool, true, false, ◌&&◌, ◌||◌, not, List, [], ◌∷◌, ◌++◌, Option, none, some, if◌then◌else◌,
  Bytes, codes, is_nil, Result, ok, err,
}
use mcp_remote_go.Text.{text_eq}
use mcp_remote_go.Http.{Request, Client, UnauthorizedError}
use mcp_remote_go.Streamable as Streamable
use mcp_remote_go.LegacySse as LegacySse
use mcp_remote_go.Proxy.{
  Proxy, Round, ProxyError, Pass, connected, stopped, again, handle_authentication,
  connect_to_server,
}

-- What a call of a transport does: the state behind it, the requests it makes, the calls of
-- `onMessage`, and whether it returns an error.
pub record Effect (S : Type 0) : Type 0 where
  pub state : S
  pub requests : List Request
  pub messages : List (Bytes × Bytes)
  pub failed : Bool

-- What a call meets: the server, the requests that `http.NewRequestWithContext` fails for, and the
-- token that `getAuthToken` returns.
pub record World : Type 0 where
  pub client : Client
  pub refuses : Request → Bool
  pub token : Bytes

-- `Transport`: `Send` and `Close`, over the state of an implementation.
pub record Transport (S : Type 0) : Type 0 where
  pub send : World → S → Bytes → Effect S
  pub close : World → S → Effect S

-- The request cannot be made: `Send` returns the error.
abbrev pub not_sent : {S : Type 0} → S → Effect S
not_sent s = record { state = s; requests = []; messages = []; failed = true }

abbrev is_error {ℓ} : {A : Type ℓ} → Option A → Bool
is_error none = false
is_error (some e) = true

-- The request of `Close` of the Streamable HTTP transport.
unfoldable pub close_request : Streamable.Transport → Bytes → Request
close_request t token = record {
  method = codes "DELETE";
  url = t.endpoint;
  headers = Streamable.set_common_headers t token [];
  body = [];
}

module _ (to_lower : Bytes → Bytes) where
  unfoldable pub streamable_transport : Transport Streamable.Transport
  streamable_transport = record {
    send = λ w t message.
        let sent = Streamable.send to_lower w.client t w.token message in
        let request = Streamable.send_request t w.token message in
        if w.refuses request then not_sent t else record {
          state = sent.state;
          requests = request ∷ [];
          messages = sent.messages;
          failed = is_error sent.error;
        };
    close = λ w t. record {
      state = t;
      requests =
          if is_nil t.session_id || w.refuses (close_request t w.token)
          then []
          else close_request t w.token ∷ [];
      messages = [];
      failed = false;
    };
  }

  unfoldable pub sse_transport : LegacySse.UrlLibrary → Transport LegacySse.SseTransport
  sse_transport lib = record {
    send = λ w t message.
        let (requests, error) = LegacySse.send lib to_lower w.client t w.token message in
        if w.refuses (LegacySse.send_request lib t w.token message)
        then not_sent t
        else record { state = t; requests = requests; messages = []; failed = is_error error };
    close =
        λ w t. record { state = LegacySse.close t; requests = []; messages = []; failed = false };
  }

-- What `ReadString('\n')` gives: a line with its '\n', the bytes in front of the end of the input,
-- or the bytes in front of another error.
pub data Reading : Type 0 where
  line : Bytes → Reading
  ended : Bytes → Reading
  broken : Bytes → Reading

-- One round of the loop of `processStdioInput`: whether the context is done, and what is read.
pub record StdioRound : Type 0 where
  pub world : World
  pub is_done : Bool
  pub reading : Reading

-- How the loop ends: `waiting` if the rounds do not suffice.
pub data StdioEnd : Type 0 where
  canceled input_closed waiting : StdioEnd

-- What the loop leaves behind: the transport, the requests of `Send` and of `Close`, the calls of
-- `onMessage`, and the end.
pub record Relayed (S : Type 0) : Type 0 where
  pub transport : Option S
  pub sent : List Request
  pub closing : List Request
  pub messages : List (Bytes × Bytes)
  pub end : StdioEnd

module _ {S : Type 0} (ops : Transport S) where
  abbrev pub nothing : Option S → StdioEnd → Relayed S
  nothing t e = record { transport = t; sent = []; closing = []; messages = []; end = e }

  -- The call of `Close` at the end of the input.
  abbrev pub close_all : World → Option S → Relayed S
  close_all w none = nothing none input_closed
  close_all w (some s) = record {
    transport = some (ops.close w s).state;
    sent = [];
    closing = (ops.close w s).requests;
    messages = (ops.close w s).messages;
    end = input_closed;
  }

  -- `Shutdown`; the context is then done.
  unfoldable pub shutdown : World → Option S → Relayed S
  shutdown w t = record (close_all w t) { end = canceled }

  -- What a round sends: a line, unless there is no transport.
  abbrev pub send_line : World → Option S → Bytes → Option (Effect S)
  send_line w none l = none
  send_line w (some s) l = some (ops.send w s l)

  abbrev pub state_behind : Option S → Option (Effect S) → Option S
  state_behind t none = t
  state_behind t (some e) = some e.state

  abbrev pub behind : Option (Effect S) → Relayed S → Relayed S
  behind none run = run
  behind (some e) run = record run {
    sent = e.requests ++ run.sent;
    messages = e.messages ++ run.messages;
  }

  -- The line of a round.
  abbrev pub line_of : World → Option S → Reading → Option (Effect S)
  line_of w t (line l) = send_line w t l
  line_of w t (ended partial) = none
  line_of w t (broken partial) = none

  -- `processStdioInput`. An error of `Send` is logged.
  unfoldable pub process_stdio_input : List StdioRound → Option S → Relayed S
  process_stdio_input [] t = nothing t waiting
  process_stdio_input (r ∷ rs) t =
      let effect = line_of r.world t r.reading in
      let rest = process_stdio_input rs (state_behind t effect) in
      if r.is_done then nothing t canceled else elim r.reading [
        | line l ↦ behind effect rest
        | ended partial ↦ close_all r.world t
        | broken partial ↦ rest
      ]

-- `handleServerMessage` with `writeToStdout`: the bytes that are written.
unfoldable pub handle_server_message : Bytes → Bytes → Bytes
handle_server_message event payload =
    if not (text_eq event (codes "message")) && not (is_nil event) then [] else payload ++ 10 ∷ []

-- The bytes written for the calls of `onMessage`.
unfoldable pub written : List (Bytes × Bytes) → Bytes
written [] = []
written (m ∷ ms) = handle_server_message m.0 m.1 ++ written ms

-- What `handleServerError` tells apart.
pub data TransportError : Type 0 where
  context_canceled : TransportError
  unauthorized : UnauthorizedError → TransportError
  other : Bytes → TransportError

pub data Recovery : Type 0 where
  untouched : Recovery
  recovered : Proxy → Recovery
  shut_down : ProxyError → Recovery
  still_waiting : Recovery

abbrev pub recovery_of : Pass → Recovery
recovery_of (connected p) = recovered p
recovery_of (stopped e) = shut_down e
recovery_of again = still_waiting

module _ (to_lower : Bytes → Bytes) (is_json_rpc : Bytes → Bool) where
  -- `handleAuthentication`, with its call of `connectToServer`.
  unfoldable pub authenticate : List Round → Proxy → Bytes → Pass
  authenticate [] p www = again
  authenticate (r ∷ rs) p www = elim (handle_authentication to_lower is_json_rpc r www) [
    | connected p' ↦ connected p'
    | stopped e ↦ stopped e
    | again ↦ connect_to_server to_lower is_json_rpc rs p
  ]

  -- `handleServerError`; `shut_down` stands for the call of `Shutdown`.
  unfoldable pub handle_server_error : List Round → Proxy → TransportError → Recovery
  handle_server_error rs p context_canceled = untouched
  handle_server_error rs p (unauthorized u) = recovery_of (authenticate rs p u.www_authenticate)
  handle_server_error rs p (other e) = recovery_of (connect_to_server to_lower is_json_rpc rs p)
