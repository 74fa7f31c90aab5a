-- ===== src/Tests/Discoveries.antt =====
-- How the metadata of an authorization server is found: auth/discovery.go.
use mcp_remote_go.Base.{
  false, ℕ, ◌≡◌, ◌⊎◌, refl, [], ◌∷◌, ◌++◌, none, some, Bytes, codes, Result, ok, err, if◌then◌else◌,
}
use mcp_remote_go.Text.{
  text_eq, trim_space, skip_space, space_width, space_width_back, contains, has_prefix,
}
use mcp_remote_go.HttpClient as HttpClient
use mcp_remote_go.HttpClient.Requests.{
  get_request, body_bytes, http_request, exchange_of, send_request,
}
use mcp_remote_go.HttpClient.{
  do_single, before_attempt, after_attempt, do_loop, send, default_config,
}
use mcp_remote_go.Auth.Resource.{
  Url, validate_prm_resource, canonical_resource_uri, canonical_resource_url, check_url, canonical,
  canonical_path, without_slashes, trim_slashes, drop_slashes, ends_in_slash,
}
use mcp_remote_go.Auth.Discovery.{
  ServerMetadata, ResourceMetadata, Library, DiscoveryError, nil_error, Web, resource,
  strategies_of, Context, json, build_well_known_url, validate_prm_url, prm_address, check_resource,
  fetch, fetch_metadata, standard_discover, first_server, resource_discover, run_strategy, discover,
}
use mcp_remote_go.Auth.Discovery.Order.{first_success, discover-first_success}
use mcp_remote_go.Auth.Discovery.Servers.{IsOneOf, IsFoundAt, resource_discover-IsFoundAt}
use mcp_remote_go.Auth.Discovery.Strategies.{IsWebAddress, Extends, discover-metadata_url}

abbrev same : Bytes → Bytes
same s = s

abbrev server : Bytes
server = codes "https://a/mcp"

abbrev prm_url : Bytes
prm_url = codes "https://a/prm"

abbrev server_parsed : Url
server_parsed = record {
  scheme = codes "https";
  host = codes "a";
  path = codes "/mcp";
  raw_query = [];
  fragment = [];
  opaque = [];
  user = [];
  raw_path = [];
  raw_fragment = [];
  force_query = false;
  omit_host = false;
}

-- A parser that knows three URLs, and no other.
abbrev parse : Bytes → Result Bytes Url
parse s =
    if text_eq s server
    then ok server_parsed
    else if text_eq s prm_url
    then ok (record server_parsed { path = codes "/prm" })
    else if text_eq s (codes "https://as")
    then ok (record server_parsed { host = codes "as"; path = [] })
    else err (codes "no URL")

abbrev metadata : ServerMetadata
metadata = record {
  issuer = codes "https://as";
  authorization_endpoint = codes "https://as/authorize";
  token_endpoint = codes "https://as/token";
  registration_endpoint = [];
  jwks_uri = [];
  scopes_supported = [];
  response_types_supported = [];
  grant_types_supported = [];
}

-- Each body is taken for the same documents.
abbrev library : Library
library = record {
  to_lower = same;
  parse_url = parse;
  print_url = λ u. u.scheme ++ (codes "://" ++ (u.host ++ u.path));
  decode_metadata = λ b. ok metadata;
  decode_resource = λ b. ok (record {
    resource = server;
    authorization_servers = codes "https://as" ∷ [];
    scopes_supported = [];
  });
}

abbrev always : Context
always = record { done_before = λ n. none; done_after = λ n. none }

-- The server answers each request with this status.
abbrev web : ℕ → Web
web status tr = record {
  answer = λ n request. ok (record { status_code = status; body_bytes = codes "{}" });
  done_after = λ n. none;
  done_waiting = λ n. none;
}

discover-first_success_example :
    (discover library (web 404) always server [] []
      ≡ first_success library (web 404) always server (strategies_of []) nil_error [])
    × (m : ServerMetadata) × ((discover library (web 404) always server [] []).0 ≡ ok m)
discover-first_success_example =
    discover-first_success library (web 404) always server (λ n. refl) (λ n. refl) [] []
      server_parsed (unfold text_eq in refl) refl refl

discover-metadata_url_example :
    (IsWebAddress library prm_url
      × Extends (prm_url ∷ []) (discover library (web 200) always server prm_url []).1)
    ⊎ ((¬ IsWebAddress library prm_url)
        × (e : DiscoveryError) × (run_strategy library (web 200) server (resource prm_url) []
            ≡ (err e, [])))
discover-metadata_url_example =
    discover-metadata_url library (web 200) server prm_url [] refl always refl

-- An address that is no URL is not requested.
bad_address : (e : DiscoveryError) × (validate_prm_url library (codes "file") ≡ some e)
unfolding validate_prm_url text_eq
bad_address = (DiscoveryError.invalid_url (codes "no URL"), refl)

found_at_as : (resource_discover library (web 200) prm_url server []).0 ≡ ok metadata
unfolding get_request body_bytes http_request exchange_of send_request resource_discover prm_address
    validate_prm_url fetch json check_resource validate_prm_resource canonical_resource_uri
    canonical_resource_url check_url canonical canonical_path without_slashes trim_slashes
    drop_slashes ends_in_slash first_server standard_discover build_well_known_url fetch_metadata
    send do_loop before_attempt after_attempt do_single default_config text_eq trim_space skip_space
    space_width space_width_back contains has_prefix
found_at_as = refl

resource_discover-IsFoundAt_example :
    (url : Bytes) × (prm_address library prm_url server ≡ ok url)
    × (resp : HttpClient.Response) × ((fetch library (web 200) url []).0 ≡ ok resp)
    × (prm : ResourceMetadata) × (json library.decode_resource resp ≡ ok prm)
    × (validate_prm_resource same parse library.print_url prm.resource server ≡ none)
    × (s : Bytes) × IsOneOf s prm.authorization_servers
    × IsFoundAt library (web 200) s metadata
resource_discover-IsFoundAt_example =
    resource_discover-IsFoundAt library (web 200) prm_url server [] found_at_as
