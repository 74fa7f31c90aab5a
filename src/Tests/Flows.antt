-- ===== src/Tests/Flows.antt =====
-- The OAuth flow: auth/auth.go, and `handleAuthentication` of proxy/proxy.go.
use mcp_remote_go.Base.{
  Bool, false, ℕ, ◌+◌, ◌<◌, ◌≡◌, ◌⊎◌, refl, true, List, [], ◌∷◌, none, Bytes, codes, Result, ok,
  err,
}
use mcp_remote_go.Text.{
  text_eq, contains, trim_space, skip_space, space_width, space_width_back, has_prefix,
}
use mcp_remote_go.HttpClient.Requests.{
  get_request, post_request, post_form_request, body_bytes, http_request, exchange_of, send_request,
  map_set, map_has,
}
use mcp_remote_go.HttpClient.{
  do_single, before_attempt, after_attempt, do_loop, send, default_config,
}
use mcp_remote_go.Http.{Client}
use mcp_remote_go.Auth.Pkce.{generate_code_verifier}
use mcp_remote_go.Auth.Resource.{
  canonical_resource_uri, canonical_resource_url, check_url, canonical, canonical_path,
  without_slashes, trim_slashes, drop_slashes, ends_in_slash, protected_resource_well_known_url,
}
use mcp_remote_go.Auth.Discovery.{
  json, build_well_known_url, prm_address, fetch, fetch_metadata, standard_discover,
  resource_discover, run_strategy, discover_loop, discover,
}
use mcp_remote_go.Auth.Store.{ClientInfo, read_file, write_file, load, save}
use mcp_remote_go.Auth.Store.Json.{is_utf8, is_tokens, is_client, is_metadata}
use mcp_remote_go.Auth.Store.Cell.{
  put_metadata, put_client, put_tokens, replay, view, store, view-store,
}
use mcp_remote_go.Auth.Coordinator.{
  new_coordinator, AuthError, no_port, registration_request, token_request,
}
use mcp_remote_go.Auth.Coordinator.Operations.{
  find_port, attempts, start_callback_server, ensure_callback_server, discover_and_save,
  discover_server_metadata, register_client, register_if_possible, load_or_register_client,
  build_authorization_url, initialize_auth,
}
use mcp_remote_go.Auth.Coordinator.Binding.{IsBound, exchange_code-initialize_auth}
use mcp_remote_go.Auth.Coordinator.Clients.{load_or_register_client-again}
use mcp_remote_go.Auth.Coordinator.Ports.{AllBusy, start_callback_server-cases}
use mcp_remote_go.Sse.{eof}
use mcp_remote_go.Proxy.{Proxy}
use mcp_remote_go.Tests.Codecs.{codecs, metadata-IsLawful, client-IsLawful, tokens-IsLawful}
use mcp_remote_go.Tests.Worlds.{
  metadata, client, tokens, empty, os, os-IsHealthy, locking, locking-IsFree, kit, zeros, world,
  session, answer,
}

view-store_example :
    view codecs os locking (
      store codecs os locking
        (put_tokens tokens ∷ put_client client ∷ put_metadata metadata ∷ [])
        empty)
    ≡ replay
        (put_tokens tokens ∷ put_client client ∷ put_metadata metadata ∷ [])
        (view codecs os locking empty)
view-store_example =
    view-store codecs os locking locking-IsFree os-IsHealthy metadata-IsLawful client-IsLawful
      tokens-IsLawful (put_tokens tokens ∷ put_client client ∷ put_metadata metadata ∷ []) empty
      (unfold is_tokens is_client is_metadata is_utf8 in (refl, (refl, (refl, tt))))

start_callback_server-cases_example :
    ((k : ℕ) × (k < attempts kit world)
      × AllBusy kit world session.coordinator.callback_port k
      × (world.listen_error (session.coordinator.callback_port + k) ≡ none)
      × (start_callback_server kit world session ≡ (
        ok tt,
        record session {
          coordinator = record (session.coordinator) {
            callback_port = session.coordinator.callback_port + k;
            callback_running = true;
          };
        },
      )))
    ⊎ (AllBusy kit world session.coordinator.callback_port (attempts kit world)
        × ((e : Bytes) × (start_callback_server kit world session ≡ (err (no_port e), session))))
start_callback_server-cases_example = start_callback_server-cases kit world session

third_port : (start_callback_server kit world session).1.coordinator.callback_port ≡ 3336
unfolding start_callback_server find_port new_coordinator
third_port = refl

abbrev registered : ClientInfo
registered = record client { registered_issuer = codes "https://as" }

registered_now : (load_or_register_client kit world metadata session).0 ≡ ok registered
unfolding registration_request token_request is_utf8 is_tokens is_client is_metadata get_request
    post_request post_form_request body_bytes http_request exchange_of send_request map_set map_has
    load_or_register_client load read_file register_if_possible register_client json save write_file
    send do_loop before_attempt after_attempt do_single default_config new_coordinator
registered_now = refl

load_or_register_client-again_example :
    ((registered.registered_issuer ≡ []) ⊎ (registered.registered_issuer ≡ metadata.issuer))
    × (load_or_register_client kit
          (record world { register = answer (codes "none") })
          metadata
          (record {
            coordinator = new_coordinator 1;
            disk = (load_or_register_client kit world metadata session).1.disk;
          })
        ≡ (
          ok registered,
          record {
            coordinator = new_coordinator 1;
            disk = (load_or_register_client kit world metadata session).1.disk;
          },
        ))
load_or_register_client-again_example =
    load_or_register_client-again kit world metadata client-IsLawful os-IsHealthy
      (unfold is_utf8 in refl) session (new_coordinator 1) (answer (codes "none")) registered_now

abbrev server_url : Bytes
server_url = codes "https://a/mcp"

abbrev text_of : Result AuthError Bytes → Bytes
text_of (ok s) = s
text_of (err e) = []

abbrev url : Bytes
url = text_of (initialize_auth kit world server_url [] session).0

initialized : (initialize_auth kit world server_url [] session).0 ≡ ok url
unfolding registration_request token_request is_utf8 is_tokens is_client is_metadata get_request
    post_request post_form_request body_bytes http_request exchange_of send_request map_set map_has
    initialize_auth canonical_resource_uri canonical_resource_url check_url canonical canonical_path
    without_slashes trim_slashes drop_slashes ends_in_slash discover_server_metadata
    discover_and_save discover discover_loop run_strategy resource_discover prm_address
    protected_resource_well_known_url fetch json standard_discover build_well_known_url
    fetch_metadata ensure_callback_server start_callback_server find_port load_or_register_client
    load read_file register_if_possible register_client save write_file send do_loop before_attempt
    after_attempt do_single default_config new_coordinator build_authorization_url
    generate_code_verifier text_eq contains trim_space skip_space space_width space_width_back
    has_prefix
initialized = refl

exchange_code-initialize_auth_example :
    IsBound kit world server_url url
      (codes "code")
      (initialize_auth kit world server_url [] session).1
exchange_code-initialize_auth_example =
    exchange_code-initialize_auth kit world server_url [] (codes "code") (zeros 64) session refl
      refl initialized

-- A request without a code comes in first.
abbrev callbacks : List Bytes
callbacks = [] ∷ codes "code" ∷ []

abbrev proxy : Proxy
proxy = record {
  server_url = server_url;
  headers = (codes "authorization", codes "Basic x") ∷ [];
  transport_mode = codes "auto";
  transport = none;
}

-- A server that wants an authorization, and one that cannot be reached.
abbrev refusing : Client
refusing request = ok (record { status = 401; headers = []; body = []; body_end = eof })

abbrev unreachable : Client
unreachable request = err (codes "refused")

abbrev no_text : AuthError → Bytes
no_text e = []

abbrev not_json : Bytes → Bool
not_json s = false
