-- ===== src/Auth/Discovery/Order.antt =====
-- auth/discovery.go: the strategies one after the other.
use mcp_remote_go.Base.{
  ℕ, suc, ◌≡◌, refl, ap, ◌∙◌, false, List, [], ◌∷◌, ◌++◌, none, Bytes, is_nil, ok, err,
  Result-cases, inl, inr,
}
use mcp_remote_go.Auth.Resource.{Url}
use mcp_remote_go.Auth.Discovery.{
  ServerMetadata, Library, DiscoveryError, all_failed, Trace, Web, Search, Strategy, resource,
  standard, openid, fallback, strategies_of, Context, fallback_metadata, fallback_discover,
  run_strategy, discover_loop, discover,
}

module _ (lib : Library) (web : Web) (ctx : Context) (server_url : Bytes) where
  -- The first strategy that succeeds.
  abbrev pub first_success : List Strategy → DiscoveryError → Search ServerMetadata
  first_success [] last tr = (err (all_failed last), tr)
  first_success (s ∷ ss) last tr = elim (run_strategy lib web server_url s tr).0 [
    | ok m ↦ (ok m, (run_strategy lib web server_url s tr).1)
    | err e ↦ first_success ss e (run_strategy lib web server_url s tr).1
  ]

  module _ (before : (n : ℕ) → ctx.done_before n ≡ none)
      (after : (n : ℕ) → ctx.done_after n ≡ none) where
    discover_loop-first_success :
        (n : ℕ) (ss : List Strategy) (last : DiscoveryError) (tr : Trace)
        → discover_loop lib web ctx server_url n ss last tr ≡ first_success ss last tr
    unfolding discover_loop
    discover_loop-first_success n [] last tr = refl
    discover_loop-first_success n (s ∷ ss) last tr =
        elim (Result-cases (run_strategy lib web server_url s tr).0) [
          | inl (m, found) ↦ rw (before n, found, discover_loop, first_success)
          | inr (e, failed) ↦
              rw (before n, failed, after n, discover_loop, first_success)
                (discover_loop-first_success (suc n) ss e (run_strategy lib web server_url s tr).1)
        ]

    fallback_discover-ok :
        (u : Url)
        → lib.parse_url server_url ≡ ok u
        → is_nil u.scheme ≡ false
        → is_nil u.host ≡ false
        → fallback_discover lib server_url ≡ ok (fallback_metadata lib u)
    unfolding fallback_discover
    fallback_discover-ok u parsed scheme host = rw (parsed, fallback_discover) (rw (scheme, host))

    first_success-ok :
        (u : Url) (ss : List Strategy) (last : DiscoveryError) (tr : Trace)
        → fallback_discover lib server_url ≡ ok (fallback_metadata lib u)
        → (m : ServerMetadata) × ((first_success (ss ++ fallback ∷ []) last tr).0 ≡ ok m)
    unfolding run_strategy
    first_success-ok u [] last tr h = (fallback_metadata lib u, rw (h, first_success))
    first_success-ok u (s ∷ ss) last tr h =
        elim (Result-cases (run_strategy lib web server_url s tr).0) [
          | inl (m, found) ↦ (m, rw (found, first_success))
          | inr (e, failed) ↦
              let (m, found) = first_success-ok u ss e (run_strategy lib web server_url s tr).1 h in
              (m, rw (failed, first_success) found)
        ]

    -- Under a context that is not done, discovery is the first strategy that succeeds, and it does
    -- find metadata, whatever the servers answer, if the server's URL has a scheme and a host.
    pub discover-first_success :
        (metadata_url : Bytes) (tr : Trace) (u : Url)
        → lib.parse_url server_url ≡ ok u
        → is_nil u.scheme ≡ false
        → is_nil u.host ≡ false
        → (discover lib web ctx server_url metadata_url tr
            ≡ first_success (strategies_of metadata_url) DiscoveryError.nil_error tr)
          × (m : ServerMetadata) × ((discover lib web ctx server_url metadata_url tr).0 ≡ ok m)
    unfolding discover
    discover-first_success metadata_url tr u parsed scheme host =
        let same =
          discover_loop-first_success 0 (strategies_of metadata_url) DiscoveryError.nil_error tr in
        let (m, found) =
          first_success-ok u (resource metadata_url ∷ standard ∷ openid ∷ [])
            DiscoveryError.nil_error tr (fallback_discover-ok u parsed scheme host) in
        (same, m, ap (λ r. r.0) same ∙ found)
