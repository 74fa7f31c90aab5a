-- ===== src/Auth/Resource/Canonical.antt =====
-- auth/resource_uri.go: the canonical URI, and the comparison of a resource with a server.
use mathlib.Core.Bool.{false≢true}
use mathlib.Core.Path.{subst}
use mcp_remote_go.Base.{
  ◌≡◌, ◌↔◌, refl, sym, ap, ◌∙◌, Bool, true, false, ◌&&◌, [], ◌∷◌, reverse, reverse-reverse, none,
  arith, ltb, if◌then◌else◌, Bytes, codes, length, is_nil, Result, ok, err, Bool-cases,
  Result-cases, inl, inr,
}
use mcp_remote_go.Text.{text_eq, contains, trim_space}
use mcp_remote_go.Text.Laws.{text_eq_iff}
use mcp_remote_go.Auth.Resource.{
  Url, UriError, starts_with_slash, ends_in_slash, drop_slashes, trim_slashes, without_slashes,
  canonical_path, canonical, check_url, canonical_resource_url, canonical_resource_uri, compare_uri,
  validate_prm_resource,
}

&&_true : (b : Bool) → (b && true) ≡ b
&&_true b = ground arith

&&_false : (b : Bool) → (b && false) ≡ false
&&_false b = ground arith

drop_slashes-start : (s : Bytes) → starts_with_slash (drop_slashes s) ≡ false
unfolding drop_slashes
drop_slashes-start [] = refl
drop_slashes-start (c ∷ s) = ground (arith, drop_slashes-start s)

ends_in_slash-trim_slashes : (s : Bytes) → ends_in_slash (trim_slashes s) ≡ false
unfolding ends_in_slash trim_slashes
ends_in_slash-trim_slashes s =
    rw (reverse-reverse (drop_slashes (reverse s))) (drop_slashes-start (reverse s))

ends_in_slash-short :
    (path : Bytes)
    → ltb 1 (length path) ≡ false
    → text_eq path (codes "/") ≡ false
    → ends_in_slash path ≡ false
unfolding ends_in_slash text_eq
ends_in_slash-short [] h n = refl
ends_in_slash-short (c ∷ []) h n = ground arith
ends_in_slash-short (c ∷ d ∷ s) h n = absurd (ground arith)

ends_in_slash_nil : ends_in_slash [] ≡ false
unfolding ends_in_slash
ends_in_slash_nil = refl

ends_in_slash_slash : (path : Bytes) → text_eq path (codes "/") ≡ true → ends_in_slash path ≡ true
unfolding ends_in_slash
ends_in_slash_slash path h = rw ((text_eq_iff path (codes "/")).0 h)

ends_in_slash-without_slashes :
    (path : Bytes)
    → text_eq (without_slashes path) (codes "/") ≡ false
    → ends_in_slash (without_slashes path) ≡ false
unfolding without_slashes
ends_in_slash-without_slashes path h =
    elim (Bool-cases (ltb 1 (length path) && ends_in_slash path)) [
      | inl trim ↦ rw trim (ends_in_slash-trim_slashes path)
      | inr keep ↦ rw keep (elim (Bool-cases (ends_in_slash path)) [
        | inr done ↦ done
        | inl slash ↦
            ends_in_slash-short path
              (sym (&&_true (ltb 1 (length path)))
                ∙ ap (λ b. ltb 1 (length path) && b) (sym slash)
                ∙ keep)
              (rw keep at h)
      ])
    ]

-- The path of a canonical URI ends in no slash.
ends_in_slash-canonical_path : (path : Bytes) → ends_in_slash (canonical_path path) ≡ false
unfolding canonical_path
ends_in_slash-canonical_path path = elim (Bool-cases (text_eq (without_slashes path) (codes "/"))) [
  | inl slash ↦ rw slash ends_in_slash_nil
  | inr other ↦ rw other (ends_in_slash-without_slashes path other)
]

without_slashes_fixed : (path : Bytes) → ends_in_slash path ≡ false → without_slashes path ≡ path
unfolding without_slashes
without_slashes_fixed path h = rw (h, &&_false (ltb 1 (length path)))

text_eq_slash : (path : Bytes) → ends_in_slash path ≡ false → text_eq path (codes "/") ≡ false
text_eq_slash path h = elim (Bool-cases (text_eq path (codes "/"))) [
  | inl slash ↦ absurd (false≢true (sym h ∙ ends_in_slash_slash path slash))
  | inr other ↦ other
]

canonical_path_fixed : (path : Bytes) → ends_in_slash path ≡ false → canonical_path path ≡ path
unfolding canonical_path
canonical_path_fixed path h = rw (without_slashes_fixed path h, text_eq_slash path h)

-- What `URL.String` and `url.Parse` have to do with a canonical URL: its text is parsed back to it,
-- is not empty, and holds no `#`.
pub record PrintsBack (parse : Bytes → Result Bytes Url) (print : Url → Bytes) (u : Url)
    : Type 0 where
  pub parses : parse (print u) ≡ ok u
  pub full : is_nil (print u) ≡ false
  pub no_hash : contains (codes "#") (print u) ≡ false

-- What `strings.ToLower` does to a text twice, and to a text that is not empty.
pub record Lowers (to_lower : Bytes → Bytes) : Type 0 where
  pub twice : (s : Bytes) → to_lower (to_lower s) ≡ to_lower s
  pub full : (s : Bytes) → is_nil (to_lower s) ≡ is_nil s

module _ (to_lower : Bytes → Bytes) (lowers : Lowers to_lower) where
  -- A URL that `canonicalResourceURL` can return.
  abbrev IsCanonical : Url → Type 0
  IsCanonical u =
      (canonical to_lower u ≡ u)
      × (is_nil u.scheme ≡ false)
      × (is_nil u.host ≡ false)
      × (is_nil u.fragment ≡ true)

  canonical-canonical : (u : Url) → canonical to_lower (canonical to_lower u) ≡ canonical to_lower u
  unfolding canonical
  canonical-canonical u = rw (
    lowers.twice u.scheme,
    lowers.twice u.host,
    canonical_path_fixed (canonical_path u.path) (ends_in_slash-canonical_path u.path),
  )

  canonical-IsCanonical :
      (u : Url)
      → is_nil u.scheme ≡ false
      → is_nil u.host ≡ false
      → IsCanonical (canonical to_lower u)
  unfolding canonical
  canonical-IsCanonical u scheme host =
      (canonical-canonical u, lowers.full u.scheme ∙ scheme, lowers.full u.host ∙ host, refl)

  check_url-ok :
      (s : Bytes) (u : Url) {v : Url}
      → check_url to_lower s u ≡ ok v
      → (canonical to_lower u ≡ v) × (is_nil u.scheme ≡ false) × (is_nil u.host ≡ false)
  unfolding check_url
  check_url-ok s u h = ground arith

  check_url-IsCanonical :
      (s : Bytes) (u : Url) {v : Url} → check_url to_lower s u ≡ ok v → IsCanonical v
  check_url-IsCanonical s u h =
      let (same, scheme, host) = check_url-ok s u h in
      subst IsCanonical same (canonical-IsCanonical u scheme host)

  check_url-fixed :
      (s : Bytes) (v : Url)
      → IsCanonical v
      → contains (codes "#") s ≡ false
      → check_url to_lower s v ≡ ok v
  unfolding check_url
  check_url-fixed s v (same, scheme, host, fragment) h = rw (scheme, host, fragment, h, same)

  module _ (parse : Bytes → Result Bytes Url) (print : Url → Bytes) where
    canonical_resource_url-IsCanonical :
        (s : Bytes) {v : Url} → canonical_resource_url to_lower parse s ≡ ok v → IsCanonical v
    unfolding canonical_resource_url
    canonical_resource_url-IsCanonical s {v} h = elim (Result-cases (parse s)) [
      | inl (u, parsed) ↦ check_url-IsCanonical s u (ground (arith, parsed))
      | inr (e, failed) ↦ absurd (ground arith)
    ]

    canonical_resource_uri_again :
        (s : Bytes) {u : Url}
        → canonical_resource_url to_lower parse s ≡ ok u
        → PrintsBack parse print u
        → canonical_resource_uri to_lower parse print (print u) ≡ ok (print u)
    unfolding canonical_resource_uri canonical_resource_url
    canonical_resource_uri_again s {u} h back = rw (
      back.full,
      back.parses,
      check_url-fixed (print u) u (canonical_resource_url-IsCanonical s h) back.no_hash,
    )

    -- The canonical URI is a normal form: its scheme and host are in lower case, its path ends in no
    -- slash, also where it was exactly `/`, and where its text is parsed back, the canonical URI of it
    -- is that text again.
    pub canonical_resource_uri-canonical :
        (s : Bytes) {u : Url}
        → canonical_resource_url to_lower parse s ≡ ok u
        → PrintsBack parse print u
        → (to_lower u.scheme ≡ u.scheme)
          × (to_lower u.host ≡ u.host)
          × (ends_in_slash u.path ≡ false)
          × (canonical_resource_uri to_lower parse print (print u) ≡ ok (print u))
    unfolding canonical
    canonical_resource_uri-canonical s {u} h back =
        let same = (canonical_resource_url-IsCanonical s h).0 in
        (
          ap (λ v. v.scheme) same,
          ap (λ v. v.host) same,
          sym (ap (λ v. ends_in_slash v.path) same) ∙ ends_in_slash-canonical_path u.path,
          canonical_resource_uri_again s h back,
        )

    uri :
        (s : Bytes) {u : Url}
        → canonical_resource_url to_lower parse s ≡ ok u
        → canonical_resource_uri to_lower parse print s ≡ ok (print u)
    unfolding canonical_resource_uri
    uri s h = rw h

    validate_blank :
        (resource server_url expected : Bytes)
        → is_nil (trim_space resource) ≡ true
        → (validate_prm_resource to_lower parse print resource server_url ≡ none) ↔ (
            (is_nil (trim_space resource) ≡ false)
            × (canonical_resource_uri to_lower parse print resource ≡ ok expected))
    unfolding validate_prm_resource
    validate_blank resource server_url expected h = ground arith

    validate_full :
        (resource server_url expected : Bytes)
        → is_nil (trim_space resource) ≡ false
        → canonical_resource_uri to_lower parse print server_url ≡ ok expected
        → validate_prm_resource to_lower parse print resource server_url ≡ (
            if text_eq resource expected
            then none
            else compare_uri resource expected
                (canonical_resource_uri to_lower parse print resource))
    unfolding validate_prm_resource
    validate_full resource server_url expected full h = rw (full, h)

    compare_uri-none :
        (resource expected : Bytes) (r : Result UriError Bytes)
        → (compare_uri resource expected r ≡ none) ↔ (r ≡ ok expected)
    compare_uri-none resource expected (ok actual) = ground (arith, text_eq_iff actual expected)
    compare_uri-none resource expected (err e) = ground arith

    -- `ValidatePRMResource` accepts a resource exactly if it is not blank and its canonical URI is
    -- that of the server, where the text of the server's canonical URL is parsed back: comparing the
    -- texts first accepts nothing more.
    pub validate_prm_resource_iff :
        (resource server_url : Bytes) {u : Url}
        → canonical_resource_url to_lower parse server_url ≡ ok u
        → PrintsBack parse print u
        → (validate_prm_resource to_lower parse print resource server_url ≡ none) ↔ (
            (is_nil (trim_space resource) ≡ false)
            × (canonical_resource_uri to_lower parse print resource ≡ ok (print u)))
    validate_prm_resource_iff resource server_url {u} h back =
        elim (Bool-cases (is_nil (trim_space resource))) [
          | inl blank ↦ validate_blank resource server_url (print u) blank
          | inr full ↦
              rw (validate_full resource server_url (print u) full (uri server_url h))
                (elim (Bool-cases (text_eq resource (print u))) [
                  | inl equal ↦
                      let same = (text_eq_iff resource (print u)).0 equal in
                      (
                        λ accepted.
                            (full, rw same (canonical_resource_uri_again server_url h back)),
                        λ good. rw equal refl,
                      )
                  | inr other ↦
                      let (sound, complete) =
                        compare_uri-none resource (print u)
                          (canonical_resource_uri to_lower parse print resource) in
                      rw other ((λ accepted. (full, sound accepted)), λ good. complete good.1)
                ])
        ]
