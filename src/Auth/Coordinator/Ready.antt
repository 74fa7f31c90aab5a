-- ===== src/Auth/Coordinator/Ready.antt =====
-- auth/auth.go: the coordinator behind an `InitializeAuth` that gives a URL.
use mcp_remote_go.Base.{
  map_err, map_err-ok, ◌≡◌, refl, sym, ap, ◌∙◌, Option, some, arith, Bytes, ok, Result-cases, inl,
  inr,
}
use mcp_remote_go.Auth.Pkce.{generate_code_verifier}
use mcp_remote_go.Auth.Resource.{Url, canonical_resource_uri}
use mcp_remote_go.Auth.Discovery.{ServerMetadata}
use mcp_remote_go.Auth.Store.{ClientInfo}
use mcp_remote_go.Auth.Coordinator.{
  Coordinator, bad_server, no_random, Toolkit, Surroundings, Session, Flow, give, gets, change,
  ◌>>=◌, ◌>>◌,
}
use mcp_remote_go.Auth.Coordinator.Operations.{
  ensure_callback_server, discover_server_metadata, load_or_register_client, with_params, url_for,
  is_initialized, build_authorization_url, initialize_auth,
}
use mcp_remote_go.Auth.Coordinator.Flow.{
  bind-ok, discover_server_metadata-coordinator, load_or_register_client-coordinator,
  ensure_callback_server-coordinator,
}

module _ (kit : Toolkit) (w : Surroundings) where
  -- A coordinator behind an `InitializeAuth` that gave this URL for this server.
  pub record IsReady (server_url url : Bytes) (c : Coordinator) : Type 0 where
    pub metadata : ServerMetadata
    pub info : ClientInfo
    pub endpoint : Url
    pub has_metadata : c.server_metadata ≡ some metadata
    pub has_info : c.client_info ≡ some info
    pub parses : kit.lib.parse_url metadata.authorization_endpoint ≡ ok endpoint
    pub generated : generate_code_verifier w.random ≡ ok c.code_verifier
    pub canonical :
        canonical_resource_uri kit.lib.to_lower kit.lib.parse_url kit.lib.print_url server_url
        ≡ ok c.resource
    pub built : url ≡ with_params kit w c info endpoint

  url_for-ok :
      (c : Coordinator) (m : ServerMetadata) (info : ClientInfo) {url : Bytes}
      → url_for kit w c (some m) (some info) ≡ ok url
      → (u : Url) × (kit.lib.parse_url m.authorization_endpoint ≡ ok u)
        × (url ≡ with_params kit w c info u)
  url_for-ok c m info {url} h = elim (Result-cases (kit.lib.parse_url m.authorization_endpoint)) [
    | inl (u, parsed) ↦ (u, parsed, ground arith)
    | inr (e, bad) ↦ absurd (ground arith)
  ]

  -- Behind the steps of `build_authorization_url`.
  abbrev to_url : Flow Bytes
  to_url =
      gets
        (λ s. url_for kit w s.coordinator s.coordinator.server_metadata s.coordinator.client_info)

  abbrev with_verifier : Bytes → Flow Bytes
  with_verifier v = change (λ c. record c { code_verifier = v }) >> to_url

  module _ (server_url : Bytes) (s : Session) (m : ServerMetadata) (info : ClientInfo)
      (has_metadata : s.coordinator.server_metadata ≡ some m)
      (has_info : s.coordinator.client_info ≡ some info)
      (resource : canonical_resource_uri kit.lib.to_lower kit.lib.parse_url kit.lib.print_url
          server_url
        ≡ ok s.coordinator.resource) where
    is_initialized-ok : is_initialized kit w s.coordinator ≡ ok tt
    is_initialized-ok = ground arith

    build_authorization_url-IsReady :
        {url : Bytes}
        → (build_authorization_url kit w s).0 ≡ ok url
        → IsReady server_url url (build_authorization_url kit w s).1.coordinator
    unfolding build_authorization_url
    build_authorization_url-IsReady {url} h =
        let (_, _, step) =
          bind-ok (gets (λ t. is_initialized kit w t.coordinator))
            (λ _. give (map_err no_random (generate_code_verifier w.random)) >>= with_verifier) s
            h in
        let (v, made, step') =
          bind-ok (give (map_err no_random (generate_code_verifier w.random))) with_verifier s
            (sym (ap (λ r. r.0) step) ∙ h) in
        let c = record (s.coordinator) { code_verifier = v } in
        let (u, parsed, built) = url_for-ok c m info (
          ap (λ (p : Option ServerMetadata × Option ClientInfo). url_for kit w c p.0 p.1)
            (λ i. (sym has_metadata i, sym has_info i))
          ∙ sym (ap (λ r. r.0) (step ∙ step'))
          ∙ h) in
        rw (step ∙ step') (record {
          metadata = m;
          info = info;
          endpoint = u;
          has_metadata = has_metadata;
          has_info = has_info;
          parses = parsed;
          generated = map_err-ok no_random (generate_code_verifier w.random) made;
          canonical = resource;
          built = built;
        })

  -- Behind the steps of `initialize_auth`.
  abbrev with_info : ClientInfo → Flow Bytes
  with_info info =
      change (λ c. record c { client_info = some info }) >> build_authorization_url kit w

  abbrev with_server : ServerMetadata → Flow Bytes
  with_server m = load_or_register_client kit w m >>= with_info

  abbrev with_metadata : ServerMetadata → Flow Bytes
  with_metadata m =
      change (λ c. record c { server_metadata = some m })
      >> ensure_callback_server kit w
      >> with_server m

  abbrev with_resource : Bytes → Bytes → Bytes → Flow Bytes
  with_resource server_url metadata_url r =
      change (λ c. record c { resource = r })
      >> discover_server_metadata kit w server_url metadata_url
      >>= with_metadata

  with_server-IsReady :
      (server_url : Bytes) (m : ServerMetadata) (s : Session) {url : Bytes}
      → s.coordinator.server_metadata ≡ some m
      → canonical_resource_uri kit.lib.to_lower kit.lib.parse_url kit.lib.print_url server_url
        ≡ ok s.coordinator.resource
      → (with_server m s).0 ≡ ok url
      → IsReady server_url url (with_server m s).1.coordinator
  with_server-IsReady server_url m s has resource h =
      let (info, _, step) = bind-ok (load_or_register_client kit w m) with_info s h in
      let kept = load_or_register_client-coordinator kit w m s in
      let t : Session = record (load_or_register_client kit w m s).1 {
        coordinator = record ((load_or_register_client kit w m s).1.coordinator) {
          client_info = some info;
        };
      } in
      rw step (
        build_authorization_url-IsReady server_url t m info (ap (λ c. c.server_metadata) kept ∙ has)
          refl (resource ∙ ap (λ (c : Coordinator). ok c.resource) (sym kept))
          (sym (ap (λ r. r.0) step) ∙ h))

  -- An `InitializeAuth` that succeeds leaves a coordinator that is ready for the code.
  pub initialize_auth-IsReady :
      (server_url metadata_url : Bytes) (s : Session) {url : Bytes}
      → (initialize_auth kit w server_url metadata_url s).0 ≡ ok url
      → IsReady server_url url (initialize_auth kit w server_url metadata_url s).1.coordinator
  unfolding initialize_auth
  initialize_auth-IsReady server_url metadata_url s h =
      let uri =
        canonical_resource_uri kit.lib.to_lower kit.lib.parse_url kit.lib.print_url server_url in
      let (r, canonical, step) =
        bind-ok (give (map_err bad_server uri)) (with_resource server_url metadata_url) s h in
      let s1 : Session = record s { coordinator = record (s.coordinator) { resource = r } } in
      let h1 = sym (ap (λ p. p.0) step) ∙ h in
      let (m, _, step1) =
        bind-ok (discover_server_metadata kit w server_url metadata_url) with_metadata s1 h1 in
      let found = (discover_server_metadata kit w server_url metadata_url s1).1 in
      let s2 : Session = record found {
        coordinator = record (found.coordinator) { server_metadata = some m };
      } in
      let h2 = sym (ap (λ p. p.0) step1) ∙ h1 in
      let (_, _, step2) = bind-ok (ensure_callback_server kit w) (λ _. with_server m) s2 h2 in
      let (same_metadata, same_resource) = ensure_callback_server-coordinator kit w s2 in
      let found_resource =
        ap (λ (c : Coordinator). c.resource)
          (discover_server_metadata-coordinator kit w server_url metadata_url s1) in
      rw (step ∙ step1 ∙ step2) (
        with_server-IsReady server_url m (ensure_callback_server kit w s2).1 same_metadata
          (map_err-ok bad_server uri canonical ∙ ap ok (sym (same_resource ∙ found_resource)))
          (sym (ap (λ p. p.0) step2) ∙ h2))
