-- ===== src/Proxy/Login.antt =====
-- proxy/proxy.go: `handleAuthentication` with the coordinator, and the token that requests carry.
pub mod Retry
use mcp_remote_go.Base.{
  refl, Bool, err-ne-ok, map_err, map_err-ok, Option-cases, ◌≡◌, ◌⊎◌, sym, ap, ◌∙◌, true, false, [],
  ◌++◌, none, some, arith, Bytes, codes, is_nil, List, Result, ok, err, Bool-cases, inl, inr,
}
use mcp_remote_go.Text.{equal_fold}
use mcp_remote_go.Auth.Store.{Tokens, StoreError, tokens_json, Disk, load_tokens, save, save_tokens}
use mcp_remote_go.Text.{text_eq}
use mcp_remote_go.HttpClient as HttpClient
use mcp_remote_go.Http.{Request}
use mcp_remote_go.EventSource as EventSource
use mcp_remote_go.EventSource.{new_event_source}
use mcp_remote_go.LegacySse as LegacySse
use mcp_remote_go.LegacySse.{SseTransport, new_sse_transport, connect_request}
use mcp_remote_go.Auth.Discovery.{json}
use mcp_remote_go.Auth.Store.Json.{is_tokens}
use mcp_remote_go.Auth.Store.Cell.{
  json-is_kept, IsLawful, IsHealthy, IsFree, load-save, load_tokens-free, save_tokens-free,
}
use mcp_remote_go.Auth.Coordinator.{
  AuthError, bad_response, not_saved, Toolkit, Surroundings, Session, Flow, give, ◌>>=◌,
  wait_for_auth_code,
}
use mcp_remote_go.Auth.Coordinator.Operations.{initialize_auth, exchange_code}
use mcp_remote_go.Auth.Coordinator.Flow.{bind-ok}
use mcp_remote_go.Http.{HeaderLines, set_all, header_get}
use mcp_remote_go.Http.Headers.{header_get-set, header_get-set_self}
use mcp_remote_go.Streamable.{authorization_name, set_if_any}
use mcp_remote_go.Proxy.{Proxy, Round, sse, dial, probe_request}

header_get-set_token :
    (token : Bytes) (hs : HeaderLines)
    → is_nil token ≡ false
    → header_get authorization_name
        (set_if_any authorization_name token (codes "Bearer " ++ token) hs)
      ≡ codes "Bearer " ++ token
unfolding set_if_any
header_get-set_token token hs h =
    rw h (header_get-set_self authorization_name (codes "Bearer " ++ token) hs)

connect_request-token :
    (t : SseTransport) (token : Bytes)
    → is_nil token ≡ false
    → header_get authorization_name (connect_request t token).headers ≡ codes "Bearer " ++ token
unfolding connect_request equal_fold
connect_request-token t token h =
    rw (header_get-set, header_get-set, header_get-set)
      (header_get-set_token token (set_all t.headers []) h)

probe_request-token :
    (p : Proxy) (r : Round)
    → is_nil r.token ≡ false
    → header_get authorization_name (probe_request p r).headers ≡ codes "Bearer " ++ r.token
unfolding probe_request equal_fold
probe_request-token p r h =
    rw (header_get-set, header_get-set, header_get-set)
      (header_get-set_token r.token (set_all p.headers []) h)

-- The requests with which a pass probes the server, or connects to its legacy stream.
pub record Carries (token : Bytes) (p : Proxy) (r : Round) : Type 0 where
  pub probe : header_get authorization_name (probe_request p r).headers ≡ codes "Bearer " ++ token
  pub request : Request
  pub dialled :
      (to_lower : Bytes → Bytes) (is_json_rpc : Bytes → Bool)
      → dial to_lower is_json_rpc p r sse
        ≡ (EventSource.connect to_lower r.client (new_event_source request)).1
  pub connect : header_get authorization_name request.headers ≡ codes "Bearer " ++ token

Carries-token :
    (token : Bytes) (p : Proxy) (r : Round)
    → r.token ≡ token
    → is_nil token ≡ false
    → Carries token p r
unfolding dial LegacySse.connect text_eq
Carries-token token p r same full =
    let filled = ap is_nil same ∙ full in
    let t = new_sse_transport p.server_url p.headers in
    record {
      probe = probe_request-token p r filled ∙ ap (λ x. codes "Bearer " ++ x) same;
      request = connect_request t r.token;
      dialled = λ to_lower is_json_rpc. refl;
      connect = connect_request-token t r.token filled ∙ ap (λ x. codes "Bearer " ++ x) same;
    }

module _ (kit : Toolkit) (w : Surroundings) where
  -- `getAuthToken`.
  abbrev pub access_of : Result StoreError Tokens → Bytes
  access_of (ok t) = t.access_token
  access_of (err e) = []

  unfoldable pub get_auth_token : Disk → Bytes
  get_auth_token d = access_of (load_tokens kit.codecs.tokens w.os w.locking d)

  -- `SaveTokens` at the end of `handleAuthentication`.
  unfoldable pub keep_tokens : Tokens → Flow (Unit {0})
  keep_tokens t s = elim (save_tokens kit.codecs.tokens w.os w.locking t s.disk).1 [
    | none ↦ (ok tt, record s { disk = (save_tokens kit.codecs.tokens w.os w.locking t s.disk).0 })
    | some e ↦ (
      err (not_saved e),
      record s { disk = (save_tokens kit.codecs.tokens w.os w.locking t s.disk).0 },
    )
  ]

  -- `handleAuthentication` up to its call of `connectToServer`, from the address of the resource
  -- metadata on. `callbacks` are the codes that come in while it waits.
  unfoldable pub login : Bytes → Bytes → List Bytes → Flow (Unit {0})
  login server_url metadata_url callbacks = do
    url ← initialize_auth kit w server_url metadata_url
    code ← give (wait_for_auth_code callbacks)
    tokens ← exchange_code kit w code
    keep_tokens tokens

  abbrev behind_code : Bytes → Flow (Unit {0})
  behind_code code = exchange_code kit w code >>= keep_tokens

  abbrev behind_url : List Bytes → Bytes → Flow (Unit {0})
  behind_url callbacks url = give (wait_for_auth_code callbacks) >>= behind_code

  module _ (law : IsLawful is_tokens kit.codecs.tokens) (healthy : IsHealthy w.os)
      (free : IsFree w.locking) where
    keep_tokens-disk :
        (t : Tokens) (s : Session)
        → (keep_tokens t s).1.disk ≡ (save_tokens kit.codecs.tokens w.os w.locking t s.disk).0
    unfolding keep_tokens
    keep_tokens-disk t s = ground arith

    with_response :
        (r : Result AuthError HttpClient.Response) (t : Tokens)
        → elim r [
          | err e ↦ err e
          | ok resp ↦ map_err bad_response (json kit.codecs.tokens.decode resp)
        ]
          ≡ ok t
        → is_tokens t ≡ true
    with_response (err e) t h = absurd (err-ne-ok _ refl h)
    with_response (ok resp) t h =
        json-is_kept kit.codecs.tokens is_tokens law resp t (map_err-ok bad_response _ h)

    -- The tokens come out of JSON.
    exchange_code-is_tokens :
        (code : Bytes) (s : Session) (t : Tokens)
        → (exchange_code kit w code s).0 ≡ ok t
        → is_tokens t ≡ true
    unfolding exchange_code
    exchange_code-is_tokens code s t h = elim (Option-cases s.coordinator.server_metadata) [
      | inl missing ↦ absurd (err-ne-ok _ refl (rw (missing, exchange_code) at h))
      | inr (m, metadata) ↦ elim (Option-cases s.coordinator.client_info) [
        | inl missing ↦
            absurd (
              err-ne-ok _ refl (rw (missing, exchange_code) at (rw (metadata, exchange_code) at h)))
        | inr (info, client) ↦
            with_response _ t (rw (client, exchange_code) at (rw (metadata, exchange_code) at h))
      ]
    ]

    keep_tokens-kept :
        (t : Tokens) (s : Session)
        → is_tokens t ≡ true
        → load_tokens kit.codecs.tokens w.os w.locking (keep_tokens t s).1.disk ≡ ok t
    keep_tokens-kept t s valid = rw (keep_tokens-disk t s) (
        rw (save_tokens-free kit.codecs w.os w.locking free t s.disk) (
          load_tokens-free kit.codecs w.os w.locking free
            (save kit.codecs.tokens w.os tokens_json t s.disk).0
          ∙ load-save kit.codecs.tokens w.os healthy is_tokens law tokens_json t s.disk valid))

    -- What is on disk behind a login.
    login-kept :
        (server_url metadata_url : Bytes) (callbacks : List Bytes) (s : Session)
        → (login server_url metadata_url callbacks s).0 ≡ ok tt
        → (code : Bytes) × (wait_for_auth_code callbacks ≡ ok code)
          × (t : Tokens) × ((exchange_code kit w code
                (initialize_auth kit w server_url metadata_url s).1).0
              ≡ ok t)
          × (load_tokens kit.codecs.tokens w.os w.locking
                (login server_url metadata_url callbacks s).1.disk
              ≡ ok t)
    unfolding login
    login-kept server_url metadata_url callbacks s h =
        let (url, _, step) =
          bind-ok (initialize_auth kit w server_url metadata_url) (behind_url callbacks) s h in
        let s1 = (initialize_auth kit w server_url metadata_url s).1 in
        let h1 = sym (ap (λ p. p.0) step) ∙ h in
        let (code, came, step1) = bind-ok (give (wait_for_auth_code callbacks)) behind_code s1 h1 in
        let h2 = sym (ap (λ p. p.0) step1) ∙ h1 in
        let (t, exchanged, step2) = bind-ok (exchange_code kit w code) keep_tokens s1 h2 in
        (
          code,
          came,
          t,
          exchanged,
          ap
                (λ (p : Result AuthError (Unit {0}) × Session).
                  load_tokens kit.codecs.tokens w.os w.locking p.1.disk)
                (step ∙ step1 ∙ step2)
              ∙ keep_tokens-kept t (exchange_code kit w code s1).1
                  (exchange_code-is_tokens code s1 t exchanged),
        )

    -- A `handleAuthentication` that succeeds has exchanged the first code that came in for tokens, and
    -- the requests of a pass with what `getAuthToken` then gives carry their access token, unless
    -- that token is empty.
    pub login-Carries :
        (server_url metadata_url : Bytes) (callbacks : List Bytes) (s : Session) (p : Proxy)
        (r : Round)
        → (login server_url metadata_url callbacks s).0 ≡ ok tt
        → r.token ≡ get_auth_token (login server_url metadata_url callbacks s).1.disk
        → (code : Bytes) × (wait_for_auth_code callbacks ≡ ok code)
          × (t : Tokens) × ((exchange_code kit w code
                (initialize_auth kit w server_url metadata_url s).1).0
              ≡ ok t)
          × ((is_nil t.access_token ≡ true) ⊎ Carries t.access_token p r)
    unfolding get_auth_token
    login-Carries server_url metadata_url callbacks s p r h token =
        let (code, came, t, exchanged, kept) = login-kept server_url metadata_url callbacks s h in
        (
          code,
          came,
          t,
          exchanged,
          elim (Bool-cases (is_nil t.access_token)) [
            | inl empty ↦ inl empty
            | inr full ↦ inr (Carries-token t.access_token p r (token ∙ ap access_of kept) full)
          ],
        )
