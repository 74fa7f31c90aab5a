-- ===== src/Proxy/Connected.antt =====
-- proxy/proxy.go: a proxy that has connected, and the transport that it uses.
use mcp_remote_go.Base.{
  ◌≡◌, ◌⊎◌, ◌≢◌, refl, sym, ◌∙◌, inl, inr, Bool, true, false, List, [], ◌∷◌, Option, none, some,
  arith, Bytes, is_nil, Result, ok, err, Bool-cases, Result-cases,
}
use mcp_remote_go.Text.{text_eq}
use mcp_remote_go.Auth.Challenge.{Fault, best_www_authenticate_header}
use mcp_remote_go.Http.{
  Response, header_values, www_authenticate_name, ok_status, accepted_status, unauthorized_status,
  not_found_status, method_not_allowed_status,
}
use mcp_remote_go.EventSource as EventSource
use mcp_remote_go.EventSource.{ConnectError}
use mcp_remote_go.Proxy.{
  TransportMode, auto, streamable_http, sse, Proxy, Round, ProxyError, Pass, connected, stopped,
  again, probe_request, use_mode, needs_auth, plan_of, dial, after_authorize, handle_authentication,
  after_dial, connect_with_mode, follow, on_probe, one_pass, connect_to_server,
}

connected-inj : {p q : Proxy} → connected p ≡ connected q → p ≡ q
connected-inj h = ground arith

module _ (to_lower : Bytes → Bytes) (is_json_rpc : Bytes → Bool) where
  -- In one of the passes, the transport of this mode connected.
  abbrev pub Dials : Proxy → TransportMode → List Round → Type 0
  Dials p mode [] = true ≡ false
  Dials p mode (r ∷ rs) = (dial to_lower is_json_rpc p r mode ≡ none) ⊎ Dials p mode rs

  abbrev pub settled : Proxy → TransportMode → Proxy
  settled p mode = record p { transport = some mode; transport_mode = mode }

  after_authorize-not :
      (o : Option Bytes) {q : Proxy} → after_authorize to_lower is_json_rpc o ≡ connected q → ⊥
  after_authorize-not none h = ground arith
  after_authorize-not (some e) h = ground arith

  pub handle_authentication-not :
      (r : Round) (www : Bytes) {q : Proxy}
      → handle_authentication to_lower is_json_rpc r www ≡ connected q
      → ⊥
  unfolding handle_authentication
  handle_authentication-not r www h = ground arith

  after_dial-connected :
      (p : Proxy) (r : Round) (mode : TransportMode) (o : Option ConnectError) {q : Proxy}
      → after_dial to_lower is_json_rpc p r mode o ≡ connected q
      → (o ≡ none) × (q ≡ settled p mode)
  after_dial-connected p r mode none h = (refl, sym (connected-inj h))
  after_dial-connected p r mode (some (EventSource.unauthorized u)) h =
      absurd (handle_authentication-not r u.www_authenticate h)
  after_dial-connected p r mode (some (EventSource.panicked e)) h = absurd (ground arith)
  after_dial-connected p r mode (some (EventSource.request_failed e)) h = absurd (ground arith)
  after_dial-connected p r mode (some (EventSource.bad_status s b)) h = absurd (ground arith)
  after_dial-connected p r mode (some (EventSource.bad_content_type t)) h = absurd (ground arith)

  -- The mode of a pass that connects.
  abbrev pub Settles : Proxy → Round → Proxy → TransportMode → Type 0
  Settles p r q mode =
      (q ≡ settled p mode)
      × (text_eq mode auto ≡ false)
      × (dial to_lower is_json_rpc p r mode ≡ none)

  pub connect_with_mode-connected :
      (p : Proxy) (r : Round) (mode : TransportMode) {q : Proxy}
      → text_eq mode auto ≡ false
      → connect_with_mode to_lower is_json_rpc p r mode ≡ connected q
      → Settles p r q mode
  unfolding connect_with_mode
  connect_with_mode-connected p r mode concrete h =
      let (dialled, same) = after_dial-connected p r mode (dial to_lower is_json_rpc p r mode) h in
      (same, concrete, dialled)

  sse-concrete : text_eq sse auto ≡ false
  unfolding text_eq
  sse-concrete = refl

  streamable_http-concrete : text_eq streamable_http auto ≡ false
  unfolding text_eq
  streamable_http-concrete = refl

  -- The answer to a probe shows that the server speaks Streamable HTTP: a 200 or a 202, or a body of
  -- JSON-RPC with a status other than 401, 404 and 405.
  abbrev pub Speaks : Response → Type 0
  Speaks resp =
      (resp.status ≡ ok_status)
      ⊎ (resp.status ≡ accepted_status)
      ⊎ ((is_json_rpc resp.body ≡ true)
          × (is_nil resp.body ≡ false)
          × (resp.status ≢ unauthorized_status)
          × (resp.status ≢ not_found_status)
          × (resp.status ≢ method_not_allowed_status))

  plan_of-cases :
      (resp : Response) (www : Bytes)
      → ((plan_of to_lower is_json_rpc resp www ≡ use_mode streamable_http) × Speaks resp)
        ⊎ (plan_of to_lower is_json_rpc resp www ≡ use_mode sse)
        ⊎ (plan_of to_lower is_json_rpc resp www ≡ needs_auth www)
  unfolding plan_of
  plan_of-cases resp www = ground arith

  -- Why a pass that negotiates settles on a mode.
  abbrev pub Reason : Result Bytes Response → TransportMode → Type 0
  Reason answer mode =
      (mode ≡ sse)
      ⊎ ((mode ≡ streamable_http) × (resp : Response) × (answer ≡ ok resp) × Speaks resp)

  follow-connected :
      (p : Proxy) (r : Round) (resp : Response) (www : Bytes) {q : Proxy}
      → follow to_lower is_json_rpc p r (plan_of to_lower is_json_rpc resp www) ≡ connected q
      → (mode : TransportMode) × Settles p r q mode × Reason (ok resp) mode
  follow-connected p r resp www h = elim (plan_of-cases resp www) [
    | inl (plan, speaks) ↦ (
      streamable_http,
      connect_with_mode-connected p r streamable_http streamable_http-concrete (rw plan at h),
      inr (refl, resp, refl, speaks),
    )
    | inr (inl plan) ↦
        (sse, connect_with_mode-connected p r sse sse-concrete (rw plan at h), inl refl)
    | inr (inr plan) ↦ absurd (handle_authentication-not r www (rw plan at h))
  ]

  pub on_probe_ok :
      (p : Proxy) (r : Round) (resp : Response) (www : Bytes)
      → best_www_authenticate_header to_lower (header_values www_authenticate_name resp.headers)
        ≡ ok www
      → on_probe to_lower is_json_rpc p r (ok resp)
        ≡ follow to_lower is_json_rpc p r (plan_of to_lower is_json_rpc resp www)
  unfolding on_probe
  on_probe_ok p r resp www h = rw (h, on_probe)

  pub on_probe_err :
      (p : Proxy) (r : Round) (resp : Response) (e : Fault)
      → best_www_authenticate_header to_lower (header_values www_authenticate_name resp.headers)
        ≡ err e
      → on_probe to_lower is_json_rpc p r (ok resp) ≡ stopped (ProxyError.panicked e)
  unfolding on_probe
  on_probe_err p r resp e h = rw (h, on_probe)

  pub on_probe_failed :
      (p : Proxy) (r : Round) (e : Bytes)
      → on_probe to_lower is_json_rpc p r (err e) ≡ connect_with_mode to_lower is_json_rpc p r sse
  unfolding on_probe
  on_probe_failed p r e = refl

  on_probe-connected :
      (p : Proxy) (r : Round) (answer : Result Bytes Response) {q : Proxy}
      → on_probe to_lower is_json_rpc p r answer ≡ connected q
      → (mode : TransportMode) × Settles p r q mode × Reason answer mode
  on_probe-connected p r (err e) h = (
    sse,
    connect_with_mode-connected p r sse sse-concrete (sym (on_probe_failed p r e) ∙ h),
    inl refl,
  )
  on_probe-connected p r (ok resp) {q} h =
      elim (Result-cases (
        best_www_authenticate_header to_lower (header_values www_authenticate_name resp.headers))) [
          | inl (www, read) ↦
              follow-connected p r resp www (sym (on_probe_ok p r resp www read) ∙ h)
          | inr (e, fault) ↦ absurd (stopped-not (sym (on_probe_err p r resp e fault) ∙ h))
        ]
    where
      stopped-not : {e : ProxyError} → stopped e ≡ connected q → ⊥
      stopped-not s = ground arith

  pub one_pass-auto :
      (p : Proxy) (r : Round)
      → text_eq p.transport_mode auto ≡ true
      → one_pass to_lower is_json_rpc p r
        ≡ on_probe to_lower is_json_rpc p r (r.client (probe_request p r))
  unfolding one_pass
  one_pass-auto p r h = rw h

  pub one_pass-concrete :
      (p : Proxy) (r : Round)
      → text_eq p.transport_mode auto ≡ false
      → one_pass to_lower is_json_rpc p r
        ≡ connect_with_mode to_lower is_json_rpc p r p.transport_mode
  unfolding one_pass
  one_pass-concrete p r h = rw h

  one_pass-connected :
      (p : Proxy) (r : Round) {q : Proxy}
      → one_pass to_lower is_json_rpc p r ≡ connected q
      → (mode : TransportMode) × Settles p r q mode
  one_pass-connected p r h = elim (Bool-cases (text_eq p.transport_mode auto)) [
    | inl negotiate ↦
        let (mode, settles, _) =
          on_probe-connected p r (r.client (probe_request p r))
            (sym (one_pass-auto p r negotiate) ∙ h) in
        (mode, settles)
    | inr concrete ↦ (
      p.transport_mode,
      connect_with_mode-connected p r p.transport_mode concrete
          (sym (one_pass-concrete p r concrete) ∙ h),
    )
  ]

  -- A pass that negotiates and connects has settled on one of two transports: on Streamable HTTP
  -- only if the server answered the probe and the answer shows that it speaks it.
  pub one_pass-Reason :
      (p : Proxy) (r : Round) {q : Proxy}
      → text_eq p.transport_mode auto ≡ true
      → one_pass to_lower is_json_rpc p r ≡ connected q
      → (mode : TransportMode) × (q ≡ settled p mode) × Reason (r.client (probe_request p r)) mode
  one_pass-Reason p r negotiate h =
      let (mode, settles, reason) =
        on_probe-connected p r (r.client (probe_request p r))
          (sym (one_pass-auto p r negotiate) ∙ h) in
      (mode, settles.0, reason)

  pub Pass-cases :
      (o rest : Pass) {q : Proxy}
      → (elim o [ connected p' ↦ connected p' | stopped e ↦ stopped e | again ↦ rest ])
        ≡ connected q
      → (o ≡ connected q) ⊎ ((o ≡ again) × (rest ≡ connected q))
  Pass-cases (connected p') rest h = inl h
  Pass-cases (stopped e) rest h = absurd (ground arith)
  Pass-cases again rest h = inr (refl, h)

  -- If `connectToServer` returns no error, whatever authorizations went before, the proxy has a
  -- transport of the mode that it keeps, which is no longer `auto`, so that it does not negotiate
  -- again; that transport connected in one of the passes. Nothing else of the proxy has changed.
  pub connect_to_server-settled :
      (rs : List Round) (p : Proxy) {q : Proxy}
      → connect_to_server to_lower is_json_rpc rs p ≡ connected q
      → (mode : TransportMode) × (q ≡ settled p mode)
        × (text_eq mode auto ≡ false)
        × Dials p mode rs
  unfolding connect_to_server
  connect_to_server-settled [] p h = absurd (ground arith)
  connect_to_server-settled (r ∷ rs) p h =
      elim (Pass-cases (one_pass to_lower is_json_rpc p r)
        (connect_to_server to_lower is_json_rpc rs p) h) [
          | inl now ↦
              let (mode, settles) = one_pass-connected p r now in
              (mode, settles.0, settles.1, inl settles.2)
          | inr (_, later) ↦
              let (mode, same, concrete, dials) = connect_to_server-settled rs p later in
              (mode, same, concrete, inr dials)
        ]
