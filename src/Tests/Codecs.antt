-- ===== src/Tests/Codecs.antt =====
-- A concrete encoding of what auth/auth.go keeps on disk: each text behind its length.
use mcp_remote_go.Base.{
  Bool, true, if◌then◌else◌, Bool-cases, inl, inr, err-ne-ok, ok-inj, ℕ, zero, suc, ℤ, pos, negsuc,
  ◌≡◌, refl, ap, ◌∙◌, List, [], ◌∷◌, ◌++◌, Bytes, codes, length, take, drop, Result, ok, err,
}
use mcp_remote_go.Text.Laws.{drop-append}
use mcp_remote_go.Auth.Discovery.{ServerMetadata}
use mcp_remote_go.Auth.Store.{Tokens, ClientInfo, Codec}
use mcp_remote_go.Auth.Store.Json.{is_tokens, is_client, is_metadata}
use mcp_remote_go.Auth.Store.Cell.{IsLawful, Codecs}

take-append : (p s : Bytes) → take (length p) (p ++ s) ≡ p
take-append [] s = refl
take-append (c ∷ p) s = ap (λ t. c ∷ t) (take-append p s)

abbrev put_all : List Bytes → Bytes
put_all [] = []
put_all (s ∷ ss) = length s ∷ (s ++ put_all ss)

abbrev put : List Bytes → Bytes
put ss = length ss ∷ put_all ss

abbrev get_all : ℕ → Bytes → List Bytes
get_all zero s = []
get_all (suc n) [] = []
get_all (suc n) (k ∷ s) = take k s ∷ get_all n (drop k s)

abbrev get : Bytes → List Bytes
get [] = []
get (n ∷ s) = get_all n s

get-put : (ss : List Bytes) → get (put ss) ≡ ss
get-put [] = refl
get-put (s ∷ ss) =
    rw (take-append s (put_all ss), drop-append s (put_all ss)) (ap (λ ts. s ∷ ts) (get-put ss))

abbrev put_int : ℤ → Bytes
put_int (pos n) = 0 ∷ n ∷ []
put_int (negsuc n) = 1 ∷ n ∷ []

abbrev get_int : Bytes → ℤ
get_int (suc m ∷ n ∷ []) = negsuc n
get_int (zero ∷ n ∷ []) = pos n
get_int _ = pos 0

get_int-put_int : (z : ℤ) → get_int (put_int z) ≡ z
get_int-put_int (pos n) = refl
get_int-put_int (negsuc n) = refl

-- The encodings of three records, as lists of texts.
abbrev tokens_fields : Tokens → List Bytes
tokens_fields t = t.access_token ∷ t.refresh_token ∷ put_int t.expires_in ∷ t.token_type ∷ []

abbrev tokens_of : List Bytes → Result Bytes Tokens
tokens_of (a ∷ r ∷ e ∷ t ∷ []) =
    ok (record { access_token = a; refresh_token = r; expires_in = get_int e; token_type = t })
tokens_of _ = err (codes "no tokens")

tokens_of-tokens_fields : (t : Tokens) → tokens_of (tokens_fields t) ≡ ok t
tokens_of-tokens_fields t =
    ap (λ e. ok (record t { expires_in = e })) (get_int-put_int t.expires_in)

abbrev client_fields : ClientInfo → List Bytes
client_fields c =
    c.client_id
    ∷ c.client_secret
    ∷ put_int c.client_id_issued_at
    ∷ put_int c.client_secret_expires_at
    ∷ put c.redirect_uris
    ∷ c.token_endpoint_auth_method
    ∷ c.registered_issuer
    ∷ []

abbrev client_of : List Bytes → Result Bytes ClientInfo
client_of (i ∷ s ∷ a ∷ x ∷ u ∷ m ∷ r ∷ []) = ok (record {
  client_id = i;
  client_secret = s;
  client_id_issued_at = get_int a;
  client_secret_expires_at = get_int x;
  redirect_uris = get u;
  token_endpoint_auth_method = m;
  registered_issuer = r;
})
client_of _ = err (codes "no client")

client_of-client_fields : (c : ClientInfo) → client_of (client_fields c) ≡ ok c
client_of-client_fields c = λ i. ok (record c {
  client_id_issued_at = get_int-put_int c.client_id_issued_at i;
  client_secret_expires_at = get_int-put_int c.client_secret_expires_at i;
  redirect_uris = get-put c.redirect_uris i;
})

abbrev metadata_fields : ServerMetadata → List Bytes
metadata_fields m =
    m.issuer
    ∷ m.authorization_endpoint
    ∷ m.token_endpoint
    ∷ m.registration_endpoint
    ∷ m.jwks_uri
    ∷ put m.scopes_supported
    ∷ put m.response_types_supported
    ∷ put m.grant_types_supported
    ∷ []

abbrev metadata_of : List Bytes → Result Bytes ServerMetadata
metadata_of (i ∷ a ∷ t ∷ r ∷ j ∷ s ∷ p ∷ g ∷ []) = ok (record {
  issuer = i;
  authorization_endpoint = a;
  token_endpoint = t;
  registration_endpoint = r;
  jwks_uri = j;
  scopes_supported = get s;
  response_types_supported = get p;
  grant_types_supported = get g;
})
metadata_of _ = err (codes "no metadata")

metadata_of-metadata_fields : (m : ServerMetadata) → metadata_of (metadata_fields m) ≡ ok m
metadata_of-metadata_fields m = λ i. ok (record m {
  scopes_supported = get-put m.scopes_supported i;
  response_types_supported = get-put m.response_types_supported i;
  grant_types_supported = get-put m.grant_types_supported i;
})

-- What is decoded has to be a value that JSON keeps.
abbrev checked : {A : Type 0} → (A → Bool) → Result Bytes A → Result Bytes A
checked is_kept (ok a) = if is_kept a then ok a else err (codes "bad value")
checked is_kept (err e) = err e

abbrev pub codec :
    {A : Type 0} → (A → Bool) → (A → List Bytes) → (List Bytes → Result Bytes A) → Codec A
codec is_kept fields back = record {
  encode = λ a. ok (put (fields a));
  decode = λ b. checked is_kept (back (get b));
}

module _ {A : Type 0} (is_kept : A → Bool) where
  checked-ok : (a : A) → is_kept a ≡ true → checked is_kept (ok a) ≡ ok a
  checked-ok a h = rw h

  checked-is_kept : (r : Result Bytes A) (a : A) → checked is_kept r ≡ ok a → is_kept a ≡ true
  checked-is_kept (err e) a h = absurd (err-ne-ok _ refl h)
  checked-is_kept (ok x) a h = elim (Bool-cases (is_kept x)) [
    | inl good ↦ rw (← ok-inj (ok x) refl (rw good at h)) good
    | inr bad ↦ absurd (err-ne-ok _ refl (rw bad at h))
  ]

  codec-IsLawful :
      (fields : A → List Bytes) (back : List Bytes → Result Bytes A)
      → ((a : A) → back (fields a) ≡ ok a)
      → IsLawful is_kept (codec is_kept fields back)
  codec-IsLawful fields back law = record {
    encodes = λ a h. (
      put (fields a),
      refl,
      ap (checked is_kept) (ap back (get-put (fields a)) ∙ law a) ∙ checked-ok a h,
    );
    decodes = λ b a h. checked-is_kept (back (get b)) a h;
  }

abbrev pub codecs : Codecs
codecs = record {
  metadata = codec is_metadata metadata_fields metadata_of;
  client = codec is_client client_fields client_of;
  tokens = codec is_tokens tokens_fields tokens_of;
}

pub metadata-IsLawful : IsLawful is_metadata codecs.metadata
metadata-IsLawful =
    codec-IsLawful is_metadata metadata_fields metadata_of metadata_of-metadata_fields

pub client-IsLawful : IsLawful is_client codecs.client
client-IsLawful = codec-IsLawful is_client client_fields client_of client_of-client_fields

pub tokens-IsLawful : IsLawful is_tokens codecs.tokens
tokens-IsLawful = codec-IsLawful is_tokens tokens_fields tokens_of tokens_of-tokens_fields
