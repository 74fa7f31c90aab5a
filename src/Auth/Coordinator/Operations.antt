-- ===== src/Auth/Coordinator/Operations.antt =====
-- auth/auth.go: the steps of the flow, and what `InitializeAuth` and `ExchangeCode` make of them.
use mcp_remote_go.Base.{
  map_err, ℕ, zero, suc, true, [], Option, none, some, if◌then◌else◌, Bytes, is_nil, Result, ok,
  err,
}
use mcp_remote_go.HttpClient.Requests.{send_request}
use mcp_remote_go.HttpClient.{default_config}
use mcp_remote_go.Auth.Pkce.{generate_code_verifier}
use mcp_remote_go.Auth.Resource.{Url, canonical_resource_uri}
use mcp_remote_go.Auth.Discovery.{ServerMetadata, result_of, json, discover}
use mcp_remote_go.Auth.Store.{
  Tokens, ClientInfo, server_metadata_json, client_info_json, load, save,
}
use mcp_remote_go.Auth.Coordinator.{
  Coordinator, Toolkit, Surroundings, Flow, give, gets, change, ◌>>=◌, ◌>>◌,
  client_info_matches_server, authorization_params, registration_request, token_request, AuthError,
  bad_server, discovery_failed, no_port, no_random, bad_endpoint, bad_response, request_failed,
  not_saved, no_registration, not_initialized,
}

module _ (kit : Toolkit) (w : Surroundings) where
  -- The loop of `startCallbackServer`, with so many ports left to try.
  unfoldable pub find_port : ℕ → ℕ → Bytes → Result Bytes ℕ
  find_port zero port last = err last
  find_port (suc left) port last = elim (w.listen_error port) [
    | none ↦ ok port
    | some e ↦ find_port left (suc port) e
  ]

  abbrev pub attempts : ℕ
  attempts = 100

  -- `startCallbackServer`.
  unfoldable pub start_callback_server : Flow (Unit {0})
  start_callback_server = do
    port ← gets (λ s. map_err no_port (find_port attempts s.coordinator.callback_port []))
    change (λ c. record c { callback_port = port; callback_running = true })

  unfoldable pub ensure_callback_server : Flow (Unit {0})
  ensure_callback_server s =
      if s.coordinator.callback_running then (ok tt, s) else start_callback_server s

  -- `discoverServerMetadata` where the cache is not used; that it cannot be saved is logged.
  unfoldable pub discover_and_save : Bytes → Bytes → Flow ServerMetadata
  discover_and_save server_url metadata_url s =
      let found = (discover kit.lib w.web w.context server_url metadata_url []).0 in
      elim found [
        | err e ↦ (err (discovery_failed e), s)
        | ok m ↦ (
          ok m,
          record s { disk = (save kit.codecs.metadata w.os server_metadata_json m s.disk).0 },
        )
      ]

  -- `discoverServerMetadata`.
  unfoldable pub discover_server_metadata : Bytes → Bytes → Flow ServerMetadata
  discover_server_metadata server_url metadata_url s =
      if is_nil metadata_url
      then elim (load kit.codecs.metadata w.os server_metadata_json s.disk) [
        | ok m ↦ (ok m, s)
        | err e ↦ discover_and_save server_url metadata_url s
      ]
      else discover_and_save server_url metadata_url s

  -- The registration in `loadOrRegisterClient`, from the answer on.
  abbrev pub save_client : ClientInfo → Flow ClientInfo
  save_client info s = elim (save kit.codecs.client w.os client_info_json info s.disk).1 [
    | none ↦
        (ok info, record s { disk = (save kit.codecs.client w.os client_info_json info s.disk).0 })
    | some e ↦ (
      err (not_saved e),
      record s { disk = (save kit.codecs.client w.os client_info_json info s.disk).0 },
    )
  ]

  unfoldable pub register_client : ServerMetadata → Flow ClientInfo
  register_client m = do
    port ← gets (λ s. ok s.coordinator.callback_port)
    resp ← give (
        map_err request_failed
          (result_of (send_request w.register default_config (registration_request kit m port)).1))
    info ← give (map_err bad_response (json kit.codecs.client.decode resp))
    save_client (record info { registered_issuer = m.issuer })

  unfoldable pub register_if_possible : ServerMetadata → Flow ClientInfo
  register_if_possible m s =
      if is_nil m.registration_endpoint then (err no_registration, s) else register_client m s

  -- `loadOrRegisterClient`.
  unfoldable pub load_or_register_client : ServerMetadata → Flow ClientInfo
  load_or_register_client m s = elim (load kit.codecs.client w.os client_info_json s.disk) [
    | err e ↦ register_if_possible m s
    | ok info ↦
        if client_info_matches_server (some m) info then (ok info, s) else register_if_possible m s
  ]

  -- `buildAuthorizationURL`.
  abbrev pub with_params : Coordinator → ClientInfo → Url → Bytes
  with_params c info u =
      kit.lib.print_url
        (record u { raw_query = kit.encode_values (authorization_params kit c info) })

  abbrev pub url_for :
      Coordinator → Option ServerMetadata → Option ClientInfo → Result AuthError Bytes
  url_for c (some m) (some info) = elim (kit.lib.parse_url m.authorization_endpoint) [
    | err e ↦ err (bad_endpoint e)
    | ok u ↦ ok (with_params c info u)
  ]
  url_for c _ _ = err not_initialized

  abbrev pub is_initialized : Coordinator → Result AuthError (Unit {0})
  is_initialized c = elim c.server_metadata [
    | none ↦ err not_initialized
    | some m ↦ elim c.client_info [ none ↦ err not_initialized | some info ↦ ok tt ]
  ]

  unfoldable pub build_authorization_url : Flow Bytes
  build_authorization_url = do
    gets (λ s. is_initialized s.coordinator)
    verifier ← give (map_err no_random (generate_code_verifier w.random))
    change (λ c. record c { code_verifier = verifier })
    gets (λ s. url_for s.coordinator s.coordinator.server_metadata s.coordinator.client_info)

  -- `InitializeAuth`; no address of resource metadata is the empty text.
  unfoldable pub initialize_auth : Bytes → Bytes → Flow Bytes
  initialize_auth server_url metadata_url = do
    resource ← give (
        map_err bad_server
          (canonical_resource_uri kit.lib.to_lower kit.lib.parse_url kit.lib.print_url server_url))
    change (λ c. record c { resource = resource })
    metadata ← discover_server_metadata server_url metadata_url
    change (λ c. record c { server_metadata = some metadata })
    ensure_callback_server
    info ← load_or_register_client metadata
    change (λ c. record c { client_info = some info })
    build_authorization_url

  -- `ExchangeCode`.
  abbrev pub tokens_of : Coordinator → ServerMetadata → ClientInfo → Bytes → Result AuthError Tokens
  tokens_of c m info code =
      elim (map_err request_failed
        (result_of (send_request w.exchange default_config (token_request kit m c info code)).1)) [
          | err e ↦ err e
          | ok resp ↦ map_err bad_response (json kit.codecs.tokens.decode resp)
        ]

  unfoldable pub exchange_code : Bytes → Flow Tokens
  exchange_code code s = elim s.coordinator.server_metadata [
    | none ↦ (err not_initialized, s)
    | some m ↦ elim s.coordinator.client_info [
      | none ↦ (err not_initialized, s)
      | some info ↦ (tokens_of s.coordinator m info code, s)
    ]
  ]
