-- ===== src/Proxy.antt =====
-- proxy/proxy.go: how the proxy finds a transport and connects, and the connection of the legacy
-- transport in proxy/transport_sse.go.
pub mod Connected
pub mod Login
pub mod Relay
pub mod Setup
use mcp_remote_go.Base.{
  ℕ, Bool, true, false, not, ◌&&◌, ◌||◌, List, [], ◌∷◌, ◌++◌, Option, none, some, ◌==◌,
  if◌then◌else◌, Bytes, codes, is_nil, Result, ok, err,
}
use mcp_remote_go.Text.{text_eq}
use mcp_remote_go.Auth.Challenge.{
  Fault, BearerChallenge, parse_www_authenticate, best_www_authenticate_header,
}
use mcp_remote_go.Http.{
  header_set, header_values, set_all, Request, Response, Client, ok_status, accepted_status,
  unauthorized_status, not_found_status, method_not_allowed_status, www_authenticate_name,
  UnauthorizedError,
}
use mcp_remote_go.EventSource as EventSource
use mcp_remote_go.EventSource.{ConnectError}
use mcp_remote_go.LegacySse as LegacySse
use mcp_remote_go.LegacySse.{new_sse_transport}
use mcp_remote_go.Streamable.{
  set_if_any, authorization_name, accept_name, content_type_name, protocol_version_name,
  protocol_version, event_stream_type, json_type,
}

-- `TransportMode`: a string type, with a name for each string of the source.
abbrev pub TransportMode : Type 0
TransportMode = Bytes

abbrev pub auto : TransportMode
auto = codes "auto"

abbrev pub streamable_http : TransportMode
streamable_http = codes "streamable-http"

abbrev pub sse : TransportMode
sse = codes "sse"

-- `Proxy`, as far as connecting goes: `transport` is the mode that the transport was created for,
-- if there is one.
pub record Proxy : Type 0 where
  pub server_url : Bytes
  pub headers : List (Bytes × Bytes)
  pub transport_mode : TransportMode
  pub transport : Option TransportMode

-- What one pass of `connectToServer` meets: the server, the stored token, and the authorization
-- flow, from the address of the resource metadata, if the server gave one, to its error.
pub record Round : Type 0 where
  pub client : Client
  pub token : Bytes
  pub authorize : Option Bytes → Option Bytes

pub data ProxyError : Type 0 where
  connect_failed : ConnectError → ProxyError
  authorization_failed : Bytes → ProxyError
  panicked : Fault → ProxyError

-- How a pass ends: `again` stands for the call of `connectToServer` behind an authorization.
pub data Pass : Type 0 where
  connected : Proxy → Pass
  stopped : ProxyError → Pass
  again : Pass

-- The request that `negotiateTransport` probes the server with.
unfoldable pub probe_request : Proxy → Round → Request
probe_request p r = record {
  method = codes "POST";
  url = p.server_url;
  headers = header_set protocol_version_name protocol_version (
      header_set accept_name (codes "application/json, text/event-stream") (
        header_set content_type_name json_type (
          set_if_any authorization_name r.token (codes "Bearer " ++ r.token)
            (set_all p.headers []))));
  body = codes "{\"jsonrpc\":\"2.0\",\"method\":\"ping\",\"id\":0}";
}

-- What the answer to the probe decides.
pub data Plan : Type 0 where
  use_mode : TransportMode → Plan
  needs_auth : Bytes → Plan

-- `strings.ToLower`, and `json.Valid` with the decoding in `isJSONRPCResponse`, are parameters.
module _ (to_lower : Bytes → Bytes) (is_json_rpc : Bytes → Bool) where
  -- The switch of `negotiateTransport`.
  unfoldable pub plan_of : Response → Bytes → Plan
  plan_of resp www_auth =
      if resp.status == ok_status || resp.status == accepted_status
      then use_mode streamable_http
      else if resp.status == unauthorized_status
      then needs_auth www_auth
      else if resp.status == not_found_status || resp.status == method_not_allowed_status
      then use_mode sse
      else if not (is_nil resp.body) && is_json_rpc resp.body
      then use_mode streamable_http
      else use_mode sse

  -- The error of `Connect` of the transport that `createTransport` makes for a mode. That of the
  -- Streamable HTTP transport gives none.
  unfoldable pub dial : Proxy → Round → TransportMode → Option ConnectError
  dial p r mode =
      if text_eq mode streamable_http
      then none
      else (LegacySse.connect to_lower r.client (new_sse_transport p.server_url p.headers)
          r.token).1

  -- `handleAuthentication` up to its call of `connectToServer`.
  abbrev pub after_authorize : Option Bytes → Pass
  after_authorize none = again
  after_authorize (some e) = stopped (authorization_failed e)

  abbrev pub metadata_of : Option BearerChallenge → Option Bytes
  metadata_of none = none
  metadata_of (some c) = if is_nil c.resource_metadata then none else some c.resource_metadata

  unfoldable pub handle_authentication : Round → Bytes → Pass
  handle_authentication r www =
      if is_nil www
      then after_authorize (r.authorize none)
      else elim (parse_www_authenticate to_lower www) [
        | err e ↦ stopped (panicked e)
        | ok c ↦ after_authorize (r.authorize (metadata_of c))
      ]

  abbrev pub after_dial : Proxy → Round → TransportMode → Option ConnectError → Pass
  after_dial p r mode none = connected (record p { transport = some mode; transport_mode = mode })
  after_dial p r mode (some (EventSource.unauthorized u)) =
      handle_authentication r u.www_authenticate
  after_dial p r mode (some (EventSource.panicked e)) = stopped (panicked e)
  after_dial p r mode (some (EventSource.request_failed e)) =
      stopped (connect_failed (EventSource.request_failed e))
  after_dial p r mode (some (EventSource.bad_status s b)) =
      stopped (connect_failed (EventSource.bad_status s b))
  after_dial p r mode (some (EventSource.bad_content_type t)) =
      stopped (connect_failed (EventSource.bad_content_type t))

  -- `connectWithMode`, and `connectToServer` with a mode that is not `auto`.
  unfoldable pub connect_with_mode : Proxy → Round → TransportMode → Pass
  connect_with_mode p r mode = after_dial p r mode (dial p r mode)

  abbrev pub follow : Proxy → Round → Plan → Pass
  follow p r (use_mode mode) = connect_with_mode p r mode
  follow p r (needs_auth www) = handle_authentication r www

  -- `negotiateTransport` behind the answer to the probe.
  unfoldable pub on_probe : Proxy → Round → Result Bytes Response → Pass
  on_probe p r (err e) = connect_with_mode p r sse
  on_probe p r (ok resp) =
      elim (best_www_authenticate_header to_lower
        (header_values www_authenticate_name resp.headers)) [
          | err e ↦ stopped (panicked e)
          | ok www ↦ follow p r (plan_of resp www)
        ]

  -- One pass of `connectToServer`, with `negotiateTransport`.
  unfoldable pub one_pass : Proxy → Round → Pass
  one_pass p r =
      if text_eq p.transport_mode auto
      then on_probe p r (r.client (probe_request p r))
      else connect_with_mode p r p.transport_mode

  -- `connectToServer`, which an authorization calls again; `again` if the passes do not suffice.
  unfoldable pub connect_to_server : List Round → Proxy → Pass
  connect_to_server [] p = again
  connect_to_server (r ∷ rs) p =
      let rest = connect_to_server rs p in
      elim (one_pass p r) [ connected p' ↦ connected p' | stopped e ↦ stopped e | again ↦ rest ]
