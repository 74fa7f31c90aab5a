-- ===== src/Auth/Discovery.antt =====
-- auth/discovery.go: how the metadata of the authorization server is found.
pub mod Strategies
pub mod Servers
pub mod Order
use mcp_remote_go.Base.{
  map_err, ℕ, suc, Bool, true, false, not, ◌&&◌, ◌||◌, List, [], ◌∷◌, ◌++◌, Option, none, some,
  if◌then◌else◌, Bytes, codes, is_nil, Result, ok, err,
}
use mcp_remote_go.Text.{text_eq}
use mcp_remote_go.HttpClient.Requests.{Server, get_request, send_request}
use mcp_remote_go.HttpClient.{ClientError, no_attempt, Outcome, default_config}
use mcp_remote_go.HttpClient as HttpClient
use mcp_remote_go.Auth.Resource.{
  Url, UriError, ResourceError, protected_resource_well_known_url, validate_prm_resource,
}

-- `ServerMetadata` of auth/auth.go.
pub record ServerMetadata : Type 0 where
  pub issuer : Bytes
  pub authorization_endpoint : Bytes
  pub token_endpoint : Bytes
  pub registration_endpoint : Bytes
  pub jwks_uri : Bytes
  pub scopes_supported : List Bytes
  pub response_types_supported : List Bytes
  pub grant_types_supported : List Bytes

-- `ProtectedResourceMetadata`.
pub record ResourceMetadata : Type 0 where
  pub resource : Bytes
  pub authorization_servers : List Bytes
  pub scopes_supported : List Bytes

-- The library functions that discovery calls: `strings.ToLower`, `url.Parse`, `URL.String`, and
-- `json.Unmarshal` at two types.
pub record Library : Type 0 where
  pub to_lower : Bytes → Bytes
  pub parse_url : Bytes → Result Bytes Url
  pub print_url : Url → Bytes
  pub decode_metadata : Bytes → Result Bytes ServerMetadata
  pub decode_resource : Bytes → Result Bytes ResourceMetadata

pub data DiscoveryError : Type 0 where
  invalid_url parse_failed bad_scheme cancelled : Bytes → DiscoveryError
  missing_host no_authorization_servers no_metadata : DiscoveryError
  invalid_server : UriError → DiscoveryError
  fetch_failed : ClientError → DiscoveryError
  bad_resource : ResourceError → DiscoveryError
  -- `all discovery methods failed, last error: %w`
  all_failed : DiscoveryError → DiscoveryError
  -- `lastErr` before any strategy has failed
  nil_error : DiscoveryError

-- The addresses that were requested, the last one first.
abbrev pub Trace : Type 0
Trace = List Bytes

-- The servers that a `Get` meets may depend on the requests before it.
abbrev pub Web : Type 0
Web = Trace → Server

-- A computation that makes requests; they stay made behind an error.
abbrev pub Search : Type 0 → Type 0
Search A = Trace → Result DiscoveryError A × Trace

module _ {A : Type 0} where
  abbrev pub give : Result DiscoveryError A → Search A
  give r tr = (r, tr)

  -- `if err == nil { return … }`, and otherwise the next attempt.
  abbrev pub or_else : Search A → Search A → Search A
  or_else m next tr = elim (m tr).0 [ ok a ↦ (ok a, (m tr).1) | err e ↦ next (m tr).1 ]

infixl 5 ◌>>=◌ ◌>>◌
abbrev pub ◌>>=◌ : {A B : Type 0} → Search A → (A → Search B) → Search B
◌>>=◌ m f tr = elim (m tr).0 [ ok a ↦ f a (m tr).1 | err e ↦ (err e, (m tr).1) ]

abbrev pub ◌>>◌ : {A B : Type 0} → Search A → Search B → Search B
m >> next = m >>= λ _. next

-- A response without an error, or an error. `Do` gives one of the two.
abbrev pub result_of : Outcome → Result ClientError HttpClient.Response
result_of (some resp, none) = ok resp
result_of (none, none) = err no_attempt
result_of (_, some e) = err e

-- `Response.JSON`.
unfoldable pub json : {A : Type 0} → (Bytes → Result Bytes A) → HttpClient.Response → Result Bytes A
json decode resp =
    if is_nil resp.body_bytes then err (codes "empty response body") else decode resp.body_bytes

-- The strategies; `resource` carries the address from a `WWW-Authenticate` header, if there is one.
pub data Strategy : Type 0 where
  resource : Bytes → Strategy
  standard openid fallback : Strategy

-- The order of `MetadataDiscoveryService.Discover`.
abbrev pub strategies_of : Bytes → List Strategy
strategies_of metadata_url = resource metadata_url ∷ standard ∷ openid ∷ fallback ∷ []

-- When the context is done: at the head of round `n` of the loop, and behind its failure.
pub record Context : Type 0 where
  pub done_before : ℕ → Option Bytes
  pub done_after : ℕ → Option Bytes

module _ (lib : Library) where
  -- `buildWellKnownURL` of both discoveries.
  unfoldable pub build_well_known_url : Bytes → Bytes → Result DiscoveryError Bytes
  build_well_known_url server_url endpoint = elim (lib.parse_url server_url) [
    | err e ↦ err (invalid_url e)
    | ok u ↦ ok (u.scheme ++ (codes "://" ++ (u.host ++ (codes "/.well-known/" ++ endpoint))))
  ]

  -- `validatePRMURL`.
  abbrev pub check_prm_url : Url → Option DiscoveryError
  check_prm_url u =
      if not (text_eq u.scheme (codes "http")) && not (text_eq u.scheme (codes "https"))
      then some (bad_scheme u.scheme)
      else if is_nil u.host
      then some missing_host
      else none

  unfoldable pub validate_prm_url : Bytes → Option DiscoveryError
  validate_prm_url raw = elim (lib.parse_url raw) [
    | err e ↦ some (invalid_url e)
    | ok u ↦ check_prm_url u
  ]

  -- The address of the protected resource metadata.
  abbrev pub checked : Bytes → Option DiscoveryError → Result DiscoveryError Bytes
  checked raw none = ok raw
  checked raw (some e) = err e

  unfoldable pub prm_address : Bytes → Bytes → Result DiscoveryError Bytes
  unfolding validate_prm_url
  prm_address metadata_url server_url =
      if is_nil metadata_url
      then map_err invalid_server
          (protected_resource_well_known_url lib.to_lower lib.parse_url server_url)
      else checked metadata_url (validate_prm_url metadata_url)

  -- What is required of the protected resource metadata.
  unfoldable pub check_resource : Bytes → ResourceMetadata → Result DiscoveryError (List Bytes)
  check_resource server_url prm =
      elim (validate_prm_resource lib.to_lower lib.parse_url lib.print_url prm.resource
        server_url) [
          | some e ↦ err (bad_resource e)
          | none ↦
              if is_nil prm.authorization_servers
              then err no_authorization_servers
              else ok prm.authorization_servers
        ]

  -- `FallbackDiscovery.Discover`.
  abbrev pub fallback_metadata : Url → ServerMetadata
  fallback_metadata u =
      let base = u.scheme ++ (codes "://" ++ u.host) in
      record {
        issuer = base;
        authorization_endpoint = base ++ codes "/oauth/authorize";
        token_endpoint = base ++ codes "/oauth/token";
        registration_endpoint = base ++ codes "/oauth/register";
        jwks_uri = [];
        scopes_supported = codes "mcp" ∷ codes "offline_access" ∷ [];
        response_types_supported = codes "code" ∷ [];
        grant_types_supported = codes "authorization_code" ∷ codes "refresh_token" ∷ [];
      }

  unfoldable pub fallback_discover : Bytes → Result DiscoveryError ServerMetadata
  fallback_discover server_url = elim (lib.parse_url server_url) [
    | err e ↦ err (invalid_url e)
    | ok u ↦ if is_nil u.scheme || is_nil u.host then err missing_host else ok (fallback_metadata u)
  ]

  module _ (web : Web) where
    -- `Client.Get` with the default configuration.
    unfoldable pub fetch : Bytes → Search HttpClient.Response
    fetch url tr = (
      map_err fetch_failed
          (result_of (send_request (web tr) default_config (get_request url [])).1),
      url ∷ tr,
    )

    -- `fetchMetadata` of both discoveries.
    unfoldable pub fetch_metadata : Bytes → Search ServerMetadata
    fetch_metadata url = do
      resp ← fetch url
      give (map_err parse_failed (json lib.decode_metadata resp))

    -- `StandardOAuthDiscovery.Discover` and `OpenIDConnectDiscovery.Discover`.
    unfoldable pub standard_discover : Bytes → Search ServerMetadata
    standard_discover server_url = do
      url ← give (build_well_known_url server_url (codes "oauth-authorization-server"))
      fetch_metadata url

    unfoldable pub openid_discover : Bytes → Search ServerMetadata
    openid_discover server_url = do
      url ← give (build_well_known_url server_url (codes "openid-configuration"))
      fetch_metadata url

    -- The loop over the authorization servers.
    unfoldable pub first_server : List Bytes → Search ServerMetadata
    first_server [] = give (err no_metadata)
    first_server (server ∷ servers) =
        or_else (standard_discover server) (or_else (openid_discover server) (first_server servers))

    -- `ProtectedResourceDiscovery.Discover`.
    unfoldable pub resource_discover : Bytes → Bytes → Search ServerMetadata
    resource_discover metadata_url server_url = do
      url ← give (prm_address metadata_url server_url)
      resp ← fetch url
      prm ← give (map_err parse_failed (json lib.decode_resource resp))
      servers ← give (check_resource server_url prm)
      first_server servers

    unfoldable pub run_strategy : Bytes → Strategy → Search ServerMetadata
    run_strategy server_url (resource metadata_url) = resource_discover metadata_url server_url
    run_strategy server_url standard = standard_discover server_url
    run_strategy server_url openid = openid_discover server_url
    run_strategy server_url fallback = give (fallback_discover server_url)

    module _ (ctx : Context) (server_url : Bytes) where
      -- The loop of `MetadataDiscoveryService.Discover` from round `n`.
      unfoldable pub discover_loop : ℕ → List Strategy → DiscoveryError → Search ServerMetadata
      discover_loop n [] last tr = (err (all_failed last), tr)
      discover_loop n (s ∷ ss) last tr = elim (ctx.done_before n) [
        | some c ↦ (err (cancelled c), tr)
        | none ↦ elim (run_strategy server_url s tr).0 [
          | ok m ↦ (ok m, (run_strategy server_url s tr).1)
          | err e ↦ elim (ctx.done_after n) [
            | some c ↦ (err (cancelled c), (run_strategy server_url s tr).1)
            | none ↦ discover_loop (suc n) ss e (run_strategy server_url s tr).1
          ]
        ]
      ]

      -- `MetadataDiscoveryService.Discover`; no address from a header is the empty text.
      unfoldable pub discover : Bytes → Search ServerMetadata
      discover metadata_url = discover_loop 0 (strategies_of metadata_url) nil_error
