-- ===== src/Proxy/Login/Retry.antt =====
-- proxy/proxy.go: a pass of `connectToServer` that logs in, and the pass behind it.
use mcp_remote_go.Base.{◌≡◌, Bool, List, [], Option, none, some, Bytes, Result, ok, err}
use mcp_remote_go.Http.{Client}
use mcp_remote_go.EventSource as EventSource
use mcp_remote_go.Auth.Coordinator.{AuthError, Toolkit, Surroundings, Session}
use mcp_remote_go.Proxy.{Proxy, Round}
use mcp_remote_go.Proxy.Login.{get_auth_token, login}

-- The address that `InitializeAuth` gets.
abbrev pub address_of : Option Bytes → Bytes
address_of none = []
address_of (some url) = url

abbrev error_of : Result AuthError (Unit {0}) → (AuthError → Bytes) → Option Bytes
error_of (ok _) text = none
error_of (err e) text = some (text e)

-- What a pass meets whose login is that of the coordinator; `text` is the text of an error.
abbrev pub round_of :
    Toolkit → Surroundings → (AuthError → Bytes) → Bytes → Client → List Bytes → Session → Round
round_of kit w text server_url client callbacks s = record {
  client = client;
  token = get_auth_token kit w s.disk;
  authorize =
      λ metadata. error_of (login kit w server_url (address_of metadata) callbacks s).0 text;
}

module _ (to_lower : Bytes → Bytes) (is_json_rpc : Bytes → Bool) where
  -- The login of the round succeeds with some address of resource metadata.
  abbrev pub Authorizes : Round → Type 0
  Authorizes r = (metadata : Option Bytes) × (r.authorize metadata ≡ none)
