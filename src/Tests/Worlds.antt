-- ===== src/Tests/Worlds.antt =====
-- A server, a disk and a library for runs of the OAuth flow of auth/auth.go.
use mcp_remote_go.Base.{
  false, ℕ, zero, suc, pos, refl, [], ◌∷◌, ◌++◌, none, some, Bytes, codes, Result, ok, err,
  if◌then◌else◌, ltb,
}
use mcp_remote_go.FileLock.{new, exists, created, lock}
use mcp_remote_go.HttpClient.Requests.{Server}
use mcp_remote_go.Auth.Resource.{Url}
use mcp_remote_go.Auth.Discovery.{ServerMetadata, Library}
use mcp_remote_go.Auth.Store.{Tokens, ClientInfo, Disk, Os, Locking}
use mcp_remote_go.Auth.Store.Cell.{IsHealthy, IsFree}
use mcp_remote_go.Auth.Coordinator.{new_coordinator, Toolkit, Surroundings, Session, Form}
use mcp_remote_go.Tests.Codecs.{codecs}

abbrev pub same : Bytes → Bytes
same s = s

abbrev pub metadata : ServerMetadata
metadata = record {
  issuer = codes "https://as";
  authorization_endpoint = codes "https://as/authorize";
  token_endpoint = codes "https://as/token";
  registration_endpoint = codes "https://as/register";
  jwks_uri = [];
  scopes_supported = [];
  response_types_supported = [];
  grant_types_supported = [];
}

abbrev pub client : ClientInfo
client = record {
  client_id = codes "c1";
  client_secret = [];
  client_id_issued_at = pos 0;
  client_secret_expires_at = pos 0;
  redirect_uris = [];
  token_endpoint_auth_method = codes "none";
  registered_issuer = [];
}

abbrev pub tokens : Tokens
tokens = record {
  access_token = codes "t1";
  refresh_token = [];
  expires_in = pos 3600;
  token_type = codes "Bearer";
}

abbrev pub empty : Disk
empty = record { server_metadata = none; client_info = none; tokens = none }

abbrev pub os : Os
os = record { read_error = λ file. none; write_error = λ file. none; torn = λ file b. none }

pub os-IsHealthy : IsHealthy os
os-IsHealthy = record { reads = λ file. refl; writes = λ file. refl }

-- Another process holds the lock during the first attempt.
abbrev pub locking : Locking
locking = record {
  path = codes "tokens.json";
  openings = exists ∷ created ∷ [];
  closing = record { close_error = none; remove_error = none };
}

pub locking-IsFree : IsFree locking
unfolding lock new
locking-IsFree = refl

abbrev pub any_url : Url
any_url = record {
  scheme = codes "https";
  host = codes "a";
  path = codes "/mcp";
  raw_query = [];
  fragment = [];
  opaque = [];
  user = [];
  raw_path = [];
  raw_fragment = [];
  force_query = false;
  omit_host = false;
}

abbrev pub library : Library
library = record {
  to_lower = same;
  parse_url = λ s. ok any_url;
  print_url = λ u. u.scheme ++ (codes "://" ++ (u.host ++ (u.path ++ u.raw_query)));
  decode_metadata = λ b. ok metadata;
  decode_resource = λ b. err (codes "no resource metadata");
}

abbrev pub join_form : Form → Bytes
join_form [] = []
join_form ((k, v) ∷ form) = k ++ b'=' ∷ (v ++ join_form form)

abbrev pub kit : Toolkit
kit = record {
  lib = library;
  codecs = codecs;
  print_int = λ n. n ∷ [];
  sha256 = same;
  base64url = same;
  encode_values = join_form;
  encode_registration = λ r. ok r.client_name;
}

abbrev pub zeros : ℕ → Bytes
zeros zero = []
zeros (suc n) = 0 ∷ zeros n

-- Every attempt gets a 200 with this body.
abbrev pub answer : Bytes → Server
answer body = record {
  answer = λ n request. ok (record { status_code = 200; body_bytes = body });
  done_after = λ n. none;
  done_waiting = λ n. none;
}

abbrev pub encoded : Result Bytes Bytes → Bytes
encoded (ok b) = b
encoded (err e) = []

-- The first two ports are taken.
abbrev pub world : Surroundings
world = record {
  web = λ tr. answer (codes "{}");
  context = record { done_before = λ n. none; done_after = λ n. none };
  listen_error = λ port. if ltb port 3336 then some (codes "in use") else none;
  random = ok (zeros 64);
  register = answer (encoded (codecs.client.encode client));
  exchange = answer (encoded (codecs.tokens.encode tokens));
  os = os;
  locking = locking;
}

abbrev pub session : Session
session = record { coordinator = new_coordinator 3334; disk = empty }
