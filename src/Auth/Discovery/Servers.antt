-- ===== src/Auth/Discovery/Servers.antt =====
-- auth/discovery.go: whose metadata `ProtectedResourceDiscovery` returns.
use mathlib.Core.Path.{subst}
use mcp_remote_go.Base.{
  map_err, map_err-ok, err-ne-ok, ◌≡◌, ◌⊎◌, refl, sym, ◌∙◌, true, false, List, [], ◌∷◌, none, arith,
  Bytes, ok, Result-cases, inl, inr,
}
use mcp_remote_go.HttpClient as HttpClient
use mcp_remote_go.Auth.Resource.{validate_prm_resource}
use mcp_remote_go.Auth.Discovery.{
  ServerMetadata, ResourceMetadata, Library, parse_failed, Trace, Web, Search, give, or_else, ◌>>=◌,
  json, prm_address, check_resource, fetch, standard_discover, openid_discover, first_server,
  resource_discover,
}

abbrev pub IsOneOf : Bytes → List Bytes → Type 0
IsOneOf s [] = true ≡ false
IsOneOf s (t ∷ ts) = (s ≡ t) ⊎ IsOneOf s ts

bind-ok :
    {A B : Type 0} (m : Search A) (f : A → Search B) (tr : Trace) {b : B}
    → ((m >>= f) tr).0 ≡ ok b
    → (a : A) × ((m tr).0 ≡ ok a) × ((f a (m tr).1).0 ≡ ok b)
bind-ok m f tr h = elim (Result-cases (m tr).0) [
  | inl (a, e) ↦ (a, e, rw (e, ◌>>=◌) at h)
  | inr (e, bad) ↦ absurd (err-ne-ok _ refl (rw (bad, ◌>>=◌) at h))
]

or_else-ok :
    {A : Type 0} (m next : Search A) (tr : Trace) {a : A}
    → (or_else m next tr).0 ≡ ok a
    → ((m tr).0 ≡ ok a) ⊎ ((next (m tr).1).0 ≡ ok a)
or_else-ok m next tr h = elim (Result-cases (m tr).0) [
  | inl (b, e) ↦ inl (e ∙ (rw (e, or_else) at h))
  | inr (e, bad) ↦ inr (rw (bad, or_else) at h)
]

module _ (lib : Library) (web : Web) where
  -- One of the two well-known documents of this server gave the metadata.
  abbrev pub IsFoundAt : Bytes → ServerMetadata → Type 0
  IsFoundAt server m =
      (tr : Trace) × (((standard_discover lib web server tr).0 ≡ ok m)
        ⊎ ((openid_discover lib web server tr).0 ≡ ok m))

  first_server-ok :
      (servers : List Bytes) (tr : Trace) {m : ServerMetadata}
      → (first_server lib web servers tr).0 ≡ ok m
      → (s : Bytes) × IsOneOf s servers × IsFoundAt s m
  unfolding first_server
  first_server-ok [] tr h = absurd (ground arith)
  first_server-ok (s ∷ ss) tr h =
      elim (or_else-ok (standard_discover lib web s)
        (or_else (openid_discover lib web s) (first_server lib web ss)) tr h) [
          | inl found ↦ (s, inl refl, (tr, inl found))
          | inr later ↦
              elim (or_else-ok (openid_discover lib web s) (first_server lib web ss)
                (standard_discover lib web s tr).1 later) [
                  | inl found ↦ (s, inl refl, ((standard_discover lib web s tr).1, inr found))
                  | inr rest ↦ let (t, among, at) = first_server-ok ss _ rest in (t, inr among, at)
                ]
        ]

  check_resource-ok :
      (server_url : Bytes) (prm : ResourceMetadata) {servers : List Bytes}
      → check_resource lib server_url prm ≡ ok servers
      → (validate_prm_resource lib.to_lower lib.parse_url lib.print_url prm.resource server_url
          ≡ none)
        × (prm.authorization_servers ≡ servers)
  unfolding check_resource
  check_resource-ok server_url prm h = ground arith

  -- What `resource_discover` does behind each of its steps.
  module _ (server_url : Bytes) where
    abbrev behind_resource : ResourceMetadata → Search ServerMetadata
    behind_resource prm = give (check_resource lib server_url prm) >>= first_server lib web

    abbrev behind_response : HttpClient.Response → Search ServerMetadata
    behind_response resp =
        give (map_err parse_failed (json lib.decode_resource resp)) >>= behind_resource

    abbrev behind_address : Bytes → Search ServerMetadata
    behind_address url = fetch lib web url >>= behind_response

  -- Metadata that `ProtectedResourceDiscovery` returns was published by an authorization server
  -- that the resource metadata lists, and that resource metadata is about the MCP server: its
  -- `resource` was accepted by `ValidatePRMResource`.
  pub resource_discover-IsFoundAt :
      (metadata_url server_url : Bytes) (tr : Trace) {m : ServerMetadata}
      → (resource_discover lib web metadata_url server_url tr).0 ≡ ok m
      → (url : Bytes) × (prm_address lib metadata_url server_url ≡ ok url)
        × (resp : HttpClient.Response) × ((fetch lib web url tr).0 ≡ ok resp)
        × (prm : ResourceMetadata) × (json lib.decode_resource resp ≡ ok prm)
        × (validate_prm_resource lib.to_lower lib.parse_url lib.print_url prm.resource server_url
            ≡ none)
        × (s : Bytes) × IsOneOf s prm.authorization_servers
        × IsFoundAt s m
  unfolding resource_discover
  resource_discover-IsFoundAt metadata_url server_url tr h =
      let (url, address, h1) =
        bind-ok (give (prm_address lib metadata_url server_url)) (behind_address server_url) tr h in
      let (resp, got, h2) = bind-ok (fetch lib web url) (behind_response server_url) tr h1 in
      let (prm, read, h3) =
        bind-ok (give (map_err parse_failed (json lib.decode_resource resp)))
          (behind_resource server_url) (fetch lib web url tr).1 h2 in
      let (servers, checked, h4) =
        bind-ok (give (check_resource lib server_url prm)) (first_server lib web)
          (fetch lib web url tr).1 h3 in
      let (valid, same) = check_resource-ok server_url prm checked in
      let (s, among, at) = first_server-ok servers (fetch lib web url tr).1 h4 in
      (
        url,
        address,
        resp,
        got,
        prm,
        map_err-ok parse_failed (json lib.decode_resource resp) read,
        valid,
        s,
        subst (IsOneOf s) (sym same) among,
        at,
      )
