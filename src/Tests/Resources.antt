-- ===== src/Tests/Resources.antt =====
-- Resource URIs: auth/resource_uri.go.
use mcp_remote_go.Base.{
  ℕ, ◌≡◌, ◌↔◌, refl, false, [], ◌∷◌, ◌++◌, map, none, arith, Bytes, codes, is_nil, Result, ok, err,
  if◌then◌else◌,
}
use mcp_remote_go.Text.{lower_byte, text_eq, trim_space, contains, has_prefix}
use mcp_remote_go.Auth.Resource.{
  Url, canonical, check_url, canonical_path, without_slashes, trim_slashes, drop_slashes,
  ends_in_slash, canonical_resource_url, canonical_resource_uri, protected_resource_well_known_url,
  validate_prm_resource,
}
use mcp_remote_go.Auth.Resource.Canonical.{
  PrintsBack, Lowers, canonical_resource_uri-canonical, validate_prm_resource_iff,
}

abbrev lower : Bytes → Bytes
lower s = map lower_byte s

lower_byte-lower_byte : (c : ℕ) → lower_byte (lower_byte c) ≡ lower_byte c
unfolding lower_byte
lower_byte-lower_byte c = ground arith

lower-lower : (s : Bytes) → lower (lower s) ≡ lower s
lower-lower [] = refl
lower-lower (c ∷ s) = rw (lower_byte-lower_byte c, lower-lower s)

is_nil-lower : (s : Bytes) → is_nil (lower s) ≡ is_nil s
is_nil-lower [] = refl
is_nil-lower (c ∷ s) = refl

lower-Lowers : Lowers lower
lower-Lowers = record { twice = lower-lower; full = is_nil-lower }

abbrev written : Url
written = record {
  scheme = codes "HTTPS";
  host = codes "Example.com";
  path = codes "/mcp//";
  raw_query = [];
  fragment = [];
  opaque = [];
  user = [];
  raw_path = [];
  raw_fragment = [];
  force_query = false;
  omit_host = false;
}

abbrev normal : Url
normal = record {
  scheme = codes "https";
  host = codes "example.com";
  path = codes "/mcp";
  raw_query = [];
  fragment = [];
  opaque = [];
  user = [];
  raw_path = [];
  raw_fragment = [];
  force_query = false;
  omit_host = false;
}

-- A parser that knows two URLs.
abbrev parse : Bytes → Result Bytes Url
parse s =
    if text_eq s (codes "HTTPS://Example.com/mcp//")
    then ok written
    else if text_eq s (codes "https://example.com/mcp")
    then ok normal
    else err (codes "no URL")

abbrev print : Url → Bytes
print u = u.scheme ++ (codes "://" ++ (u.host ++ u.path))

normal_url : canonical_resource_url lower parse (codes "HTTPS://Example.com/mcp//") ≡ ok normal
unfolding canonical_resource_url check_url canonical canonical_path without_slashes trim_slashes
    drop_slashes ends_in_slash text_eq contains has_prefix lower_byte
normal_url = refl

normal-PrintsBack : PrintsBack parse print normal
unfolding text_eq contains has_prefix
normal-PrintsBack = record { parses = refl; full = refl; no_hash = refl }

well_known :
    protected_resource_well_known_url lower parse (codes "https://example.com/mcp")
    ≡ ok (codes "https://example.com/.well-known/oauth-protected-resource/mcp")
unfolding protected_resource_well_known_url canonical_resource_url check_url canonical
    canonical_path without_slashes trim_slashes drop_slashes ends_in_slash text_eq contains
    has_prefix lower_byte
well_known = refl

canonical_resource_uri-canonical_example :
    (lower normal.scheme ≡ normal.scheme)
    × (lower normal.host ≡ normal.host)
    × (ends_in_slash normal.path ≡ false)
    × (canonical_resource_uri lower parse print (print normal) ≡ ok (print normal))
canonical_resource_uri-canonical_example =
    canonical_resource_uri-canonical lower lower-Lowers parse print
      (codes "HTTPS://Example.com/mcp//") normal_url normal-PrintsBack

validate_prm_resource_iff_example :
    (validate_prm_resource lower parse print
        (codes "https://example.com/mcp")
        (codes "HTTPS://Example.com/mcp//")
      ≡ none)
    ↔ ((is_nil (trim_space (codes "https://example.com/mcp")) ≡ false)
        × (canonical_resource_uri lower parse print (codes "https://example.com/mcp")
            ≡ ok (codes "https://example.com/mcp")))
validate_prm_resource_iff_example =
    validate_prm_resource_iff lower lower-Lowers parse print (codes "https://example.com/mcp")
      (codes "HTTPS://Example.com/mcp//") normal_url normal-PrintsBack
