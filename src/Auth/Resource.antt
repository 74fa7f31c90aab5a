-- ===== src/Auth/Resource.antt =====
-- auth/resource_uri.go: the canonical URI of an MCP server.
pub mod Canonical
use mcp_remote_go.Base.{
  ℕ, Bool, true, false, not, ◌&&◌, ◌||◌, List, [], ◌∷◌, ◌++◌, reverse, Option, none, some, ltb,
  ◌==◌, if◌then◌else◌, Bytes, codes, length, is_nil, Result, ok, err,
}
use mcp_remote_go.Text.{text_eq, contains, trim_space}

-- `url.URL`, with the text of its user information.
pub record Url : Type 0 where
  pub scheme : Bytes
  pub host : Bytes
  pub path : Bytes
  pub raw_query : Bytes
  pub fragment : Bytes
  pub opaque : Bytes
  pub user : Bytes
  pub raw_path : Bytes
  pub raw_fragment : Bytes
  pub force_query : Bool
  pub omit_host : Bool

-- The errors of `canonicalResourceURL`.
pub data UriError : Type 0 where
  empty_url missing_scheme missing_host has_fragment : UriError
  invalid_url : Bytes → UriError

abbrev pub starts_with_slash : Bytes → Bool
starts_with_slash [] = false
starts_with_slash (c ∷ s) = c == b'/'

-- `strings.HasSuffix(s, "/")`.
unfoldable pub ends_in_slash : Bytes → Bool
ends_in_slash s = starts_with_slash (reverse s)

unfoldable pub drop_slashes : Bytes → Bytes
drop_slashes [] = []
drop_slashes (c ∷ s) = if c == b'/' then drop_slashes s else c ∷ s

-- `strings.TrimRight(s, "/")`.
unfoldable pub trim_slashes : Bytes → Bytes
unfolding drop_slashes
trim_slashes s = reverse (drop_slashes (reverse s))

-- What becomes of the path.
unfoldable pub without_slashes : Bytes → Bytes
without_slashes path = if ltb 1 (length path) && ends_in_slash path then trim_slashes path else path

unfoldable pub canonical_path : Bytes → Bytes
canonical_path path =
    if text_eq (without_slashes path) (codes "/") then [] else without_slashes path

-- The errors of `ValidatePRMResource`.
pub data ResourceError : Type 0 where
  missing_resource : ResourceError
  invalid_server : UriError → ResourceError
  mismatch : Bytes → Bytes → ResourceError

abbrev pub well_known_suffix : Bytes
well_known_suffix = codes "/.well-known/oauth-protected-resource"

abbrev pub map_ok : (Url → Bytes) → Result UriError Url → Result UriError Bytes
map_ok f (ok u) = ok (f u)
map_ok f (err e) = err e

-- What `ProtectedResourceWellKnownURL` makes of the canonical URL.
abbrev pub well_known_url : Url → Bytes
well_known_url u =
    let out = u.scheme ++ (codes "://" ++ (u.host ++ (well_known_suffix ++ u.path))) in
    if is_nil u.raw_query then out else out ++ b'?' ∷ u.raw_query

-- The end of `ValidatePRMResource`.
abbrev pub compare_uri : Bytes → Bytes → Result UriError Bytes → Option ResourceError
compare_uri resource expected (err e) = some (mismatch resource expected)
compare_uri resource expected (ok actual) =
    if text_eq actual expected then none else some (mismatch actual expected)

-- `strings.ToLower`, `url.Parse` and `URL.String` are parameters.
module _ (to_lower : Bytes → Bytes) where
  unfoldable pub canonical : Url → Url
  canonical u = record {
    scheme = to_lower u.scheme;
    host = to_lower u.host;
    path = canonical_path u.path;
    raw_query = u.raw_query;
    fragment = [];
    opaque = [];
    user = [];
    raw_path = [];
    raw_fragment = [];
    force_query = false;
    omit_host = false;
  }

  -- `canonicalResourceURL` behind the parser.
  unfoldable pub check_url : Bytes → Url → Result UriError Url
  check_url server_url u =
      if is_nil u.scheme
      then err missing_scheme
      else if is_nil u.host
      then err missing_host
      else if not (is_nil u.fragment) || contains (codes "#") server_url
      then err has_fragment
      else ok (canonical u)

  abbrev pub on_parsed : Bytes → Result Bytes Url → Result UriError Url
  on_parsed server_url (ok u) = check_url server_url u
  on_parsed server_url (err e) = err (invalid_url e)

  module _ (parse : Bytes → Result Bytes Url) where
    -- `canonicalResourceURL`.
    unfoldable pub canonical_resource_url : Bytes → Result UriError Url
    canonical_resource_url server_url =
        if is_nil server_url then err empty_url else on_parsed server_url (parse server_url)

    -- `ProtectedResourceWellKnownURL`.
    unfoldable pub protected_resource_well_known_url : Bytes → Result UriError Bytes
    protected_resource_well_known_url server_url =
        map_ok well_known_url (canonical_resource_url server_url)

    module _ (print : Url → Bytes) where
      -- `CanonicalResourceURI`.
      unfoldable pub canonical_resource_uri : Bytes → Result UriError Bytes
      canonical_resource_uri server_url = map_ok print (canonical_resource_url server_url)

      -- `ValidatePRMResource` behind the canonical URI of the server.
      abbrev pub compare_resource : Bytes → Result UriError Bytes → Option ResourceError
      compare_resource resource (err e) = some (invalid_server e)
      compare_resource resource (ok expected) =
          if text_eq resource expected
          then none
          else compare_uri resource expected (canonical_resource_uri resource)

      -- `ValidatePRMResource`; `none` is no error.
      unfoldable pub validate_prm_resource : Bytes → Bytes → Option ResourceError
      validate_prm_resource resource server_url =
          if is_nil (trim_space resource)
          then some missing_resource
          else compare_resource resource (canonical_resource_uri server_url)
