-- ===== src/Auth/Coordinator.antt =====
-- auth/auth.go: the OAuth flow of the coordinator.
pub mod Operations
pub mod Flow
pub mod Ready
pub mod Binding
pub mod Clients
pub mod Ports
use mcp_remote_go.Base.{
  if◌then◌else◌, ℕ, Bool, true, false, List, [], ◌∷◌, ◌++◌, Option, none, some, Bytes, codes,
  is_nil, Result, ok, err,
}
use mcp_remote_go.Text.{text_eq}
use mcp_remote_go.HttpClient.Requests.{
  Server, ClientRequest, to_marshal, post_request, post_form_request,
}
use mcp_remote_go.HttpClient.{ClientError}
use mcp_remote_go.Auth.Pkce.{compute_code_challenge}
use mcp_remote_go.Auth.Resource.{UriError}
use mcp_remote_go.Auth.Discovery.{ServerMetadata, Library, DiscoveryError, Web, Context}
use mcp_remote_go.Auth.Store.{ClientInfo, Disk, StoreError, Os, Locking}
use mcp_remote_go.Auth.Store.Cell.{Codecs}

-- `Coordinator`; `callback_running` tells whether `callbackServer` is there.
pub record Coordinator : Type 0 where
  pub callback_port : ℕ
  pub callback_running : Bool
  pub client_info : Option ClientInfo
  pub server_metadata : Option ServerMetadata
  pub resource : Bytes
  pub code_verifier : Bytes

-- `NewCoordinator`, once its directory is there.
unfoldable pub new_coordinator : ℕ → Coordinator
new_coordinator port = record {
  callback_port = port;
  callback_running = false;
  client_info = none;
  server_metadata = none;
  resource = [];
  code_verifier = [];
}

pub data AuthError : Type 0 where
  bad_server : UriError → AuthError
  discovery_failed : DiscoveryError → AuthError
  no_port no_random bad_endpoint bad_response : Bytes → AuthError
  request_failed : ClientError → AuthError
  not_saved : StoreError → AuthError
  no_registration not_initialized timeout : AuthError

-- The body of the registration request.
pub record Registration : Type 0 where
  pub client_name : Bytes
  pub redirect_uris : List Bytes
  pub token_endpoint_auth_method : Bytes
  pub scope : Bytes
  pub grant_types : List Bytes

abbrev pub Form : Type 0
Form = List (Bytes × Bytes)

-- The library functions: those of discovery, JSON, `%d`, SHA-256, base64url and `Values.Encode`.
pub record Toolkit : Type 0 where
  pub lib : Library
  pub codecs : Codecs
  pub print_int : ℕ → Bytes
  pub sha256 : Bytes → Bytes
  pub base64url : Bytes → Bytes
  pub encode_values : Form → Bytes
  pub encode_registration : Registration → Result Bytes Bytes

-- What the flow meets: servers, contexts, ports, the random source, the disk.
pub record Surroundings : Type 0 where
  pub web : Web
  pub context : Context
  pub listen_error : ℕ → Option Bytes
  pub random : Result Bytes Bytes
  pub register : Server
  pub exchange : Server
  pub os : Os
  pub locking : Locking

pub record Session : Type 0 where
  pub coordinator : Coordinator
  pub disk : Disk

-- The state stays as it was left behind an error.
abbrev pub Flow : Type 0 → Type 0
Flow A = Session → Result AuthError A × Session

module _ {A : Type 0} where
  abbrev pub give : Result AuthError A → Flow A
  give r s = (r, s)

  abbrev pub gets : (Session → Result AuthError A) → Flow A
  gets f s = (f s, s)

abbrev pub change : (Coordinator → Coordinator) → Flow (Unit {0})
change f s = (ok tt, record s { coordinator = f s.coordinator })

infixl 5 ◌>>=◌ ◌>>◌
abbrev pub ◌>>=◌ : {A B : Type 0} → Flow A → (A → Flow B) → Flow B
◌>>=◌ m f s = elim (m s).0 [ ok a ↦ f a (m s).1 | err e ↦ (err e, (m s).1) ]

abbrev pub ◌>>◌ : {A B : Type 0} → Flow A → Flow B → Flow B
m >> next = m >>= λ _. next

-- `callbackServer`'s handler: the answer to a request with this `code`, and whether the code is sent
-- on. `waiting` tells whether `WaitForAuthCode` receives.
pub data Reply : Type 0 where
  no_code not_in_progress : Reply
  delivered : Bytes → Reply

unfoldable pub on_callback : Bool → Bytes → Reply
on_callback waiting code =
    if is_nil code then no_code else if waiting then delivered code else not_in_progress

-- `WaitForAuthCode` over the codes of the requests that come in before its five minutes are over.
unfoldable pub wait_for_auth_code : List Bytes → Result AuthError Bytes
wait_for_auth_code [] = err timeout
wait_for_auth_code (code ∷ later) = elim (on_callback true code) [
  | delivered c ↦ ok c
  | no_code ↦ wait_for_auth_code later
  | not_in_progress ↦ wait_for_auth_code later
]

-- `clientInfoMatchesServer`.
unfoldable pub client_info_matches_server : Option ServerMetadata → ClientInfo → Bool
client_info_matches_server none info = true
client_info_matches_server (some m) info =
    if is_nil info.registered_issuer then true else text_eq info.registered_issuer m.issuer

module _ (kit : Toolkit) where
  abbrev pub redirect_uri : ℕ → Bytes
  redirect_uri port = codes "http://localhost:" ++ (kit.print_int port ++ codes "/callback")

  -- The parameters of the authorization URL, in the order in which they are set.
  unfoldable pub authorization_params : Coordinator → ClientInfo → Form
  authorization_params c info =
      (codes "client_id", info.client_id)
      ∷ (codes "redirect_uri", redirect_uri c.callback_port)
      ∷ (codes "response_type", codes "code")
      ∷ (codes "scope", codes "mcp offline_access")
      ∷ (codes "code_challenge", compute_code_challenge kit.sha256 kit.base64url c.code_verifier)
      ∷ (codes "code_challenge_method", codes "S256")
      ∷ (if is_nil c.resource then [] else (codes "resource", c.resource) ∷ [])

  abbrev pub field_if_any : Bytes → Bytes → Form
  field_if_any name value = if is_nil value then [] else (name, value) ∷ []

  -- The form of the token request.
  unfoldable pub token_form : Coordinator → ClientInfo → Bytes → Form
  token_form c info code =
      (codes "grant_type", codes "authorization_code")
      ∷ (codes "code", code)
      ∷ (codes "redirect_uri", redirect_uri c.callback_port)
      ∷ (codes "client_id", info.client_id)
      ∷ (field_if_any (codes "resource") c.resource
          ++ (field_if_any (codes "code_verifier") c.code_verifier
              ++ field_if_any (codes "client_secret") info.client_secret))

  unfoldable pub registration : ℕ → Registration
  registration port = record {
    client_name = codes "MCP Remote Go Client";
    redirect_uris = redirect_uri port ∷ [];
    token_endpoint_auth_method = codes "none";
    scope = codes "mcp offline_access";
    grant_types = codes "authorization_code" ∷ [];
  }

  -- The requests of `loadOrRegisterClient` and of `ExchangeCode`.
  unfoldable pub registration_request : ServerMetadata → ℕ → ClientRequest
  registration_request m port =
      post_request m.registration_endpoint
        (to_marshal (kit.encode_registration (registration port))) []

  unfoldable pub token_request : ServerMetadata → Coordinator → ClientInfo → Bytes → ClientRequest
  token_request m c info code =
      post_form_request kit.encode_values m.token_endpoint (token_form c info code) []
