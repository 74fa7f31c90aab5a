-- ===== src/Tests/Proxies.antt =====
-- How the proxy connects: proxy/proxy.go.
use mcp_remote_go.Base.{ℕ, ◌≡◌, refl, Bool, false, [], ◌∷◌, none, some, Bytes, codes, ok}
use mcp_remote_go.Text.{text_eq}
use mcp_remote_go.Sse.{eof}
use mcp_remote_go.Auth.Challenge.{best_www_authenticate_header, best_loop}
use mcp_remote_go.Http.{header_values}
use mcp_remote_go.Proxy.{
  TransportMode, auto, streamable_http, Proxy, Round, connected, probe_request, plan_of, dial,
  handle_authentication, connect_with_mode, on_probe, one_pass, connect_to_server,
}
use mcp_remote_go.Proxy.Connected.{
  Dials, settled, Reason, one_pass-Reason, connect_to_server-settled,
}

abbrev same : Bytes → Bytes
same s = s

abbrev not_json : Bytes → Bool
not_json s = false

abbrev proxy : Proxy
proxy = record {
  server_url = codes "http://a/mcp";
  headers = [];
  transport_mode = auto;
  transport = none;
}

-- A server that answers with this status, and an authorization that succeeds.
abbrev round : ℕ → Round
round status = record {
  client = λ request. ok (record { status = status; headers = []; body = []; body_end = eof });
  token = [];
  authorize = λ metadata. none;
}

second_pass :
    connect_to_server same not_json (round 401 ∷ round 202 ∷ []) proxy
    ≡ connected
        (record proxy { transport = some streamable_http; transport_mode = streamable_http })
unfolding connect_to_server one_pass on_probe plan_of connect_with_mode dial handle_authentication
    text_eq header_values best_www_authenticate_header best_loop
second_pass = refl

first_pass :
    one_pass same not_json proxy (round 202)
    ≡ connected
        (record proxy { transport = some streamable_http; transport_mode = streamable_http })
unfolding one_pass on_probe plan_of connect_with_mode dial text_eq header_values
    best_www_authenticate_header best_loop
first_pass = refl

connect_to_server-settled_example :
    (mode : TransportMode) × (record proxy {
      transport = some streamable_http;
      transport_mode = streamable_http;
    }
      ≡ settled same not_json proxy mode)
    × (text_eq mode auto ≡ false)
    × Dials same not_json proxy mode (round 401 ∷ round 202 ∷ [])
connect_to_server-settled_example =
    connect_to_server-settled same not_json (round 401 ∷ round 202 ∷ []) proxy second_pass

one_pass-Reason_example :
    (mode : TransportMode) × (record proxy {
      transport = some streamable_http;
      transport_mode = streamable_http;
    }
      ≡ settled same not_json proxy mode)
    × Reason same not_json ((round 202).client (probe_request proxy (round 202))) mode
one_pass-Reason_example =
    one_pass-Reason same not_json proxy (round 202) (unfold text_eq in refl) first_pass
