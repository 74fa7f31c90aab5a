-- ===== src/Tests/Starts.antt =====
-- How the proxy is started and recovers: cmd/mcp-remote-go/main.go and proxy/proxy.go; forms:
-- internal/httpclient/client.go.
use mcp_remote_go.Base.{
  ◌≢◌, ℕ, ℤ, pos, ◌≡◌, inr, refl, false, List, [], ◌∷◌, ◌++◌, Option, none, some, Bytes, codes,
  Result, ok, err,
}
use mcp_remote_go.Text.{text_eq, has_prefix, equal_fold, contains}
use mcp_remote_go.Http.{Request, Client, header_get}
use mcp_remote_go.Auth.Resource.{Url}
use mcp_remote_go.Proxy.{
  Proxy, Round, streamable_http, handle_authentication, connect_to_server, one_pass,
  connect_with_mode, dial,
}
use mcp_remote_go.Proxy.Relay.Reconnect.{IsBack, handle_server_error-IsBack}
use mcp_remote_go.Proxy.Relay.{
  TransportError, unauthorized, context_canceled, recovered, handle_server_error, authenticate,
}
use mcp_remote_go.Proxy.Setup.{build_http_client, new_proxy}
use mcp_remote_go.Cli.{CliConfig}
use mcp_remote_go.Cli.Args.{
  parse_remaining_args, scan_args, single_argument, is_flag, is_assignment, take_positional,
}
use mcp_remote_go.Cli.Headers.{header_map}
use mcp_remote_go.Cli.Env.{
  Environment, apply_env_overrides, override_server_url, override_transport, override_port,
  override_proxy, override_allow_http, append_all, append_headers, append_auth_header,
  has_authorization, mcpb_env,
}
use mcp_remote_go.Cli.Start.{check_config, configure, start, IsSafe, IsVia, start-IsSafe}
use mcp_remote_go.HttpClient.{Config, default_config}
use mcp_remote_go.HttpClient.Requests.{
  Server, exchange_of, post_form_request, content_type, form_type, exchange_of-post_form_request,
}

abbrev same : Bytes → Bytes
same s = s

abbrev refused : Client
refused request = err (codes "refused")

abbrev web_url : Url
web_url = record {
  scheme = codes "http";
  host = codes "p";
  path = [];
  raw_query = [];
  fragment = [];
  opaque = [];
  user = [];
  raw_path = [];
  raw_fragment = [];
  force_query = false;
  omit_host = false;
}

abbrev parse : Bytes → Result Bytes Url
parse s = ok web_url

abbrev no_int : Bytes → Option ℤ
no_int s = none

abbrev flags : CliConfig
flags = record {
  server_url = [];
  callback_port = pos 3334;
  allow_http = false;
  transport_mode = codes "sse";
  http_proxy = codes "http://p";
  headers = [];
}

abbrev unset : Environment
unset name = []

abbrev started : Proxy
started = record {
  server_url = codes "https://a";
  headers = [];
  transport_mode = codes "sse";
  transport = none;
}

url_argument :
    start parse no_int (ok tt) (configure parse no_int (ok tt) unset (codes "https://a" ∷ []) flags)
    ≡ ok (started, some web_url)
unfolding start check_config new_proxy build_http_client header_map parse_remaining_args scan_args
    single_argument is_flag is_assignment take_positional apply_env_overrides override_server_url
    override_transport override_port override_proxy override_allow_http append_all append_headers
    append_auth_header has_authorization mcpb_env contains text_eq has_prefix
url_argument = refl

start-IsSafe_example :
    IsSafe (configure parse no_int (ok tt) unset (codes "https://a" ∷ []) flags)
    × (started.server_url
        ≡ (configure parse no_int (ok tt) unset (codes "https://a" ∷ []) flags).server_url)
    × (started.transport_mode
        ≡ (configure parse no_int (ok tt) unset (codes "https://a" ∷ []) flags).transport_mode)
    × (started.transport ≡ none)
    × IsVia parse no_int
        (ok tt)
        (configure parse no_int (ok tt) unset (codes "https://a" ∷ []) flags).http_proxy
        (some web_url)
start-IsSafe_example =
    start-IsSafe parse no_int (ok tt) unset (codes "https://a" ∷ []) flags started (some web_url)
      url_argument

-- The server sends the body of a request back.
abbrev echo_server : Server
echo_server = record {
  answer = λ n request. ok (record { status_code = 200; body_bytes = request.body });
  done_after = λ n. none;
  done_waiting = λ n. none;
}

abbrev join_form : List (Bytes × Bytes) → Bytes
join_form [] = []
join_form ((k, v) ∷ form) = k ++ b'=' ∷ (v ++ join_form form)

abbrev json_default : Config
json_default = record default_config {
  default_headers = (codes "content-type", codes "application/json") ∷ [];
}

exchange_of-post_form_request_example :
    (sent : Request) × ((n : ℕ)
      → exchange_of echo_server json_default
          (post_form_request join_form
            (codes "https://a/token")
            ((codes "code", codes "c") ∷ [])
            ((codes "Accept", codes "x") ∷ []))
          n
        ≡ echo_server.answer n sent)
    × (sent.method ≡ codes "POST")
    × (sent.url ≡ codes "https://a/token")
    × (sent.body ≡ codes "code=c")
    × (header_get content_type sent.headers ≡ form_type)
exchange_of-post_form_request_example =
    exchange_of-post_form_request echo_server json_default join_form (codes "https://a/token")
      ((codes "code", codes "c") ∷ []) ((codes "Accept", codes "x") ∷ [])
      (inr (unfold equal_fold in refl, tt))

-- A proxy that has settled on Streamable HTTP recovers with a new authorization.
abbrev settled_proxy : Proxy
settled_proxy = record started {
  transport = some streamable_http;
  transport_mode = streamable_http;
}

abbrev round : Round
round = record { client = refused; token = []; authorize = λ metadata. none }

abbrev lost : TransportError
lost = unauthorized (record { status_code = 401; www_authenticate = [] })

comes_back :
    handle_server_error same (λ s. false) (round ∷ round ∷ []) settled_proxy lost
    ≡ recovered settled_proxy
unfolding handle_server_error authenticate handle_authentication connect_to_server one_pass
    connect_with_mode dial text_eq
comes_back = refl

handle_server_error-IsBack_example :
    IsBack same
      (λ s. false)
      settled_proxy
      (unfold text_eq in refl)
      settled_proxy
      (round ∷ round ∷ [])
    × (lost ≢ context_canceled)
handle_server_error-IsBack_example =
    handle_server_error-IsBack same (λ s. false) settled_proxy (unfold text_eq in refl)
      (round ∷ round ∷ []) lost comes_back
