-- ===== src/Auth/Store/Json.antt =====
-- auth/auth.go: the values that a file keeps as they are. JSON has texts of Unicode, so a string of
-- Go that is not valid UTF-8 comes back changed, and a number has to fit into an `int64`.
use mcp_remote_go.Base.{
  ℕ, zero, suc, ℤ, pos, negsuc, Bool, true, false, ◌&&◌, List, [], ◌∷◌, leb, ltb, ◌==◌,
  if◌then◌else◌, Bytes, ◌≡◌, &&_iff,
}
use mcp_remote_go.Auth.Discovery.{ServerMetadata}
use mcp_remote_go.Auth.Store.{Tokens, ClientInfo}

-- Behind the first byte of a character: how many bytes follow, and the bounds of the next one.
abbrev follow_of : ℕ → ℕ × ℕ × ℕ
follow_of c =
    if ltb c 128
    then (0, 0, 0)
    else if leb 194 c && leb c 223
    then (1, 128, 191)
    else if c == 224
    then (2, 160, 191)
    else if c == 237
    then (2, 128, 159)
    else if leb 225 c && leb c 239
    then (2, 128, 191)
    else if c == 240
    then (3, 144, 191)
    else if leb 241 c && leb c 243
    then (3, 128, 191)
    else if c == 244
    then (3, 128, 143)
    else (1, 1, 0)

-- The text goes on with `more` bytes of a character, the next one within bounds.
utf8_from : ℕ → ℕ → ℕ → Bytes → Bool
utf8_from zero low high [] = true
utf8_from (suc more) low high [] = false
utf8_from zero low high (c ∷ s) =
    let (more, low', high') = follow_of c in utf8_from more low' high' s
utf8_from (suc more) low high (c ∷ s) = leb low c && leb c high && utf8_from more 128 191 s

-- The text is valid UTF-8.
unfoldable pub is_utf8 : Bytes → Bool
unfolding utf8_from
is_utf8 s = utf8_from 0 0 0 s

abbrev pub are_utf8 : List Bytes → Bool
are_utf8 [] = true
are_utf8 (s ∷ ss) = is_utf8 s && are_utf8 ss

-- The number is an `int64`.
abbrev pub is_int64 : ℤ → Bool
is_int64 (pos n) = ltb n 9223372036854775808
is_int64 (negsuc n) = ltb n 9223372036854775808

-- The values that JSON keeps.
unfoldable pub is_tokens : Tokens → Bool
is_tokens t =
    is_utf8 t.access_token
    && is_utf8 t.refresh_token
    && is_int64 t.expires_in
    && is_utf8 t.token_type

unfoldable pub is_client : ClientInfo → Bool
is_client c =
    is_utf8 c.registered_issuer
    && (is_utf8 c.client_id
        && is_utf8 c.client_secret
        && is_int64 c.client_id_issued_at
        && is_int64 c.client_secret_expires_at
        && are_utf8 c.redirect_uris
        && is_utf8 c.token_endpoint_auth_method)

unfoldable pub is_metadata : ServerMetadata → Bool
is_metadata m =
    is_utf8 m.issuer
    && is_utf8 m.authorization_endpoint
    && is_utf8 m.token_endpoint
    && is_utf8 m.registration_endpoint
    && is_utf8 m.jwks_uri
    && are_utf8 m.scopes_supported
    && are_utf8 m.response_types_supported
    && are_utf8 m.grant_types_supported

-- A client that JSON keeps is also kept with another issuer.
pub is_client-issuer :
    (c : ClientInfo) (issuer : Bytes)
    → is_client c ≡ true
    → is_utf8 issuer ≡ true
    → is_client (record c { registered_issuer = issuer }) ≡ true
unfolding is_client
is_client-issuer c issuer h valid =
    let (_, others) = (&&_iff (is_utf8 c.registered_issuer) _).0 h in
    (&&_iff (is_utf8 issuer) _).1 (valid, others)
