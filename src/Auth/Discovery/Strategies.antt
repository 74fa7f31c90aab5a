-- ===== src/Auth/Discovery/Strategies.antt =====
-- auth/discovery.go: which addresses are requested, and in which order.
use mcp_remote_go.Base.{
  codes, ◌↔◌, arith, map_err, ℕ, suc, ◌≡◌, refl, sym, ap, ◌∙◌, append_assoc, false, List, [], ◌∷◌,
  ◌++◌, none, some, Bytes, is_nil, Result, ok, err, Result-cases, Option-cases, inl, inr, ◌⊎◌,
}
use mcp_remote_go.Text.Laws.{text_eq_iff}
use mcp_remote_go.Auth.Resource.{Url}
use mcp_remote_go.Auth.Discovery.{
  check_prm_url, Library, DiscoveryError, parse_failed, Trace, Web, Search, give, or_else, ◌>>=◌,
  json, Strategy, resource, standard, openid, fallback, Context, validate_prm_url, prm_address,
  check_resource, fallback_discover, fetch, fetch_metadata, standard_discover, openid_discover,
  first_server, resource_discover, run_strategy, discover_loop, discover,
}

-- Requests were only added.
abbrev pub Extends : Trace → Trace → Type 0
Extends old new = (more : Trace) × (new ≡ more ++ old)

Extends-refl : (tr : Trace) → Extends tr tr
Extends-refl tr = ([], refl)

Extends-trans : (a b c : Trace) → Extends a b → Extends b c → Extends a c
Extends-trans a b c (more, e) (more', e') =
    (more' ++ more, e' ∙ ap (λ t. more' ++ t) e ∙ sym (append_assoc more' more a))

pub record Grows {A : Type 0} (m : Search A) : Type 0 where
  pub grows : (tr : Trace) → Extends tr (m tr).1

Grows-give : {A : Type 0} (r : Result DiscoveryError A) → Grows (give r)
Grows-give r = record { grows = Extends-refl }

Grows-bind :
    {A B : Type 0} (m : Search A) (f : A → Search B)
    → Grows m
    → ((a : A) → Grows (f a))
    → Grows (m >>= f)
Grows-bind m f hm hf = record {
  grows = λ tr. elim (Result-cases (m tr).0) [
    | inl (a, e) ↦
        rw (e, ◌>>=◌)
          (Extends-trans tr (m tr).1 (f a (m tr).1).1 (hm.grows tr) ((hf a).grows (m tr).1))
    | inr (e, bad) ↦ rw (bad, ◌>>=◌) (hm.grows tr)
  ];
}

Grows-or_else : {A : Type 0} (m next : Search A) → Grows m → Grows next → Grows (or_else m next)
Grows-or_else m next hm hn = record {
  grows = λ tr. elim (Result-cases (m tr).0) [
    | inl (a, e) ↦ rw (e, or_else) (hm.grows tr)
    | inr (e, bad) ↦
        rw (bad, or_else)
          (Extends-trans tr (m tr).1 (next (m tr).1).1 (hm.grows tr) (hn.grows (m tr).1))
  ];
}

module _ (lib : Library) (web : Web) where
  Grows-fetch : (url : Bytes) → Grows (fetch lib web url)
  unfolding fetch
  Grows-fetch url = record { grows = λ tr. (url ∷ [], refl) }

  Grows-fetch_metadata : (url : Bytes) → Grows (fetch_metadata lib web url)
  unfolding fetch_metadata
  Grows-fetch_metadata url = search (Grows-bind, Grows-give, Grows-fetch)

  Grows-standard_discover : (server_url : Bytes) → Grows (standard_discover lib web server_url)
  unfolding standard_discover
  Grows-standard_discover server_url = search (Grows-bind, Grows-give, Grows-fetch_metadata)

  Grows-openid_discover : (server_url : Bytes) → Grows (openid_discover lib web server_url)
  unfolding openid_discover
  Grows-openid_discover server_url = search (Grows-bind, Grows-give, Grows-fetch_metadata)

  Grows-first_server : (servers : List Bytes) → Grows (first_server lib web servers)
  unfolding first_server
  Grows-first_server [] = search (Grows-give)
  Grows-first_server (s ∷ ss) =
      Grows-or_else (standard_discover lib web s)
        (or_else (openid_discover lib web s) (first_server lib web ss)) (Grows-standard_discover s)
        (Grows-or_else (openid_discover lib web s) (first_server lib web ss)
          (Grows-openid_discover s) (Grows-first_server ss))

  Grows-resource_discover :
      (metadata_url server_url : Bytes) → Grows (resource_discover lib web metadata_url server_url)
  unfolding resource_discover
  Grows-resource_discover metadata_url server_url =
      search (Grows-bind, Grows-give, Grows-fetch, Grows-first_server)

  pub Grows-run_strategy :
      (server_url : Bytes) (s : Strategy) → Grows (run_strategy lib web server_url s)
  unfolding run_strategy
  Grows-run_strategy server_url (resource u) = Grows-resource_discover u server_url
  Grows-run_strategy server_url standard = Grows-standard_discover server_url
  Grows-run_strategy server_url openid = Grows-openid_discover server_url
  Grows-run_strategy server_url fallback = Grows-give (fallback_discover lib server_url)

  module _ (ctx : Context) (server_url : Bytes) where
    Grows-discover_loop :
        (n : ℕ) (ss : List Strategy) (last : DiscoveryError)
        → Grows (discover_loop lib web ctx server_url n ss last)
    unfolding discover_loop
    Grows-discover_loop n [] last = record { grows = Extends-refl }
    Grows-discover_loop n (s ∷ ss) last = record {
      grows = λ tr. elim (Option-cases (ctx.done_before n)) [
        | inr (c, stop) ↦ rw (stop, discover_loop) (Extends-refl tr)
        | inl go ↦ elim (Result-cases (run_strategy lib web server_url s tr).0) [
          | inl (m, found) ↦
              rw (go, found, discover_loop) ((Grows-run_strategy server_url s).grows tr)
          | inr (e, failed) ↦ elim (Option-cases (ctx.done_after n)) [
            | inr (c, stop) ↦
                rw (go, failed, stop, discover_loop) ((Grows-run_strategy server_url s).grows tr)
            | inl on ↦
                let after = (run_strategy lib web server_url s tr).1 in
                rw (go, failed, on, discover_loop)
                  (Extends-trans tr after
                    (discover_loop lib web ctx server_url (suc n) ss e after).1
                    ((Grows-run_strategy server_url s).grows tr)
                    ((Grows-discover_loop (suc n) ss e).grows after))
          ]
        ]
      ];
    }

Extends-bind :
    {A B : Type 0} (m : Search A) (f : A → Search B) (tr : Trace)
    → ((a : A) → Grows (f a))
    → Extends (m tr).1 ((m >>= f) tr).1
Extends-bind m f tr hf = elim (Result-cases (m tr).0) [
  | inl (a, e) ↦ rw (e, ◌>>=◌) ((hf a).grows (m tr).1)
  | inr (e, bad) ↦ rw (bad, ◌>>=◌) (Extends-refl (m tr).1)
]

module _ (lib : Library) (raw : Bytes) where
  -- The text is a URL, http or https, with a host.
  abbrev pub IsWebAddress : Type 0
  IsWebAddress =
      (u : Url) × (lib.parse_url raw ≡ ok u)
      × ((u.scheme ≡ codes "http") ⊎ (u.scheme ≡ codes "https"))
      × (is_nil u.host ≡ false)

  check_prm_url_iff :
      (u : Url)
      → (check_prm_url lib u ≡ none)
        ↔ (((u.scheme ≡ codes "http") ⊎ (u.scheme ≡ codes "https")) × (is_nil u.host ≡ false))
  check_prm_url_iff u =
      ground (arith, text_eq_iff u.scheme (codes "http"), text_eq_iff u.scheme (codes "https"))

  validate_prm_url-ok :
      (u : Url) → lib.parse_url raw ≡ ok u → validate_prm_url lib raw ≡ check_prm_url lib u
  unfolding validate_prm_url
  validate_prm_url-ok u h = rw (h, validate_prm_url) refl

  validate_prm_url-err :
      (e : Bytes) → lib.parse_url raw ≡ err e → validate_prm_url lib raw ≡ none → ⊥
  unfolding validate_prm_url
  validate_prm_url-err e bad h = ground arith

  validate_prm_url-none : validate_prm_url lib raw ≡ none → IsWebAddress
  validate_prm_url-none h = elim (Result-cases (lib.parse_url raw)) [
    | inl (u, parsed) ↦
        let (scheme, host) = (check_prm_url_iff u).0 (sym (validate_prm_url-ok u parsed) ∙ h) in
        (u, parsed, scheme, host)
    | inr (e, bad) ↦ absurd (validate_prm_url-err e bad h)
  ]

  validate_prm_url-some : (e : DiscoveryError) → validate_prm_url lib raw ≡ some e → ¬ IsWebAddress
  validate_prm_url-some e h (u, parsed, scheme, host) =
      let none' = validate_prm_url-ok u parsed ∙ (check_prm_url_iff u).1 (scheme, host) in
      ground arith

module _ (lib : Library) (web : Web) (server_url metadata_url : Bytes) (tr : Trace) where
  resource_discover-ok :
      (url : Bytes)
      → prm_address lib metadata_url server_url ≡ ok url
      → Extends (url ∷ tr) (resource_discover lib web metadata_url server_url tr).1
  unfolding resource_discover fetch
  resource_discover-ok url h =
      rw (h, ◌>>=◌)
        (Extends-bind (fetch lib web url)
          (λ resp. give (map_err parse_failed (json lib.decode_resource resp)) >>= λ prm.
            give (check_resource lib server_url prm) >>= λ servers. first_server lib web servers)
          tr (λ resp. search (Grows-bind, Grows-give, Grows-first_server lib web)))

  resource_discover-err :
      (e : DiscoveryError)
      → prm_address lib metadata_url server_url ≡ err e
      → resource_discover lib web metadata_url server_url tr ≡ (err e, tr)
  unfolding resource_discover
  resource_discover-err e h = rw (h, ◌>>=◌)

  module _ (given : is_nil metadata_url ≡ false) where
    prm_address-valid :
        validate_prm_url lib metadata_url ≡ none
        → prm_address lib metadata_url server_url ≡ ok metadata_url
    unfolding prm_address
    prm_address-valid h = rw (given, h)

    prm_address-bad :
        (e : DiscoveryError)
        → validate_prm_url lib metadata_url ≡ some e
        → prm_address lib metadata_url server_url ≡ err e
    unfolding prm_address
    prm_address-bad e h = rw (given, h)

    module _ (ctx : Context) (go : ctx.done_before 0 ≡ none) where
      Extends-discover :
          Extends
            (resource_discover lib web metadata_url server_url tr).1
            (discover lib web ctx server_url metadata_url tr).1
      unfolding discover discover_loop run_strategy
      Extends-discover =
          elim (Result-cases (resource_discover lib web metadata_url server_url tr).0) [
            | inl (m, found) ↦ rw (go, found, discover_loop) (Extends-refl _)
            | inr (e, failed) ↦ elim (Option-cases (ctx.done_after 0)) [
              | inr (c, stop) ↦ rw (go, failed, stop, discover_loop) (Extends-refl _)
              | inl on ↦
                  rw (go, failed, on, discover_loop)
                    ((Grows-discover_loop lib web ctx server_url 1
                        (standard ∷ openid ∷ fallback ∷ []) e).grows
                      (resource_discover lib web metadata_url server_url tr).1)
            ]
          ]

      -- An address of the resource metadata that came with a `WWW-Authenticate` header is the first
      -- one that discovery requests, if it is a URL, http or https, with a host; otherwise it is not
      -- requested by its strategy, which fails without any request. The context is not done at the
      -- start.
      pub discover-metadata_url :
          (IsWebAddress lib metadata_url
            × Extends (metadata_url ∷ tr) (discover lib web ctx server_url metadata_url tr).1)
          ⊎ ((¬ IsWebAddress lib metadata_url)
              × (e : DiscoveryError) × (run_strategy lib web server_url (resource metadata_url) tr
                  ≡ (err e, tr)))
      unfolding run_strategy
      discover-metadata_url = elim (Option-cases (validate_prm_url lib metadata_url)) [
        | inl valid ↦ inl (
          validate_prm_url-none lib metadata_url valid,
          Extends-trans (metadata_url ∷ tr) (resource_discover lib web metadata_url server_url tr).1
              (discover lib web ctx server_url metadata_url tr).1
              (resource_discover-ok metadata_url (prm_address-valid valid)) Extends-discover,
        )
        | inr (e, bad) ↦ inr (
          validate_prm_url-some lib metadata_url e bad,
          e,
          resource_discover-err e (prm_address-bad e bad),
        )
      ]
