-- ===== src/Proxy/Relay/Reconnect.antt =====
-- proxy/proxy.go: `handleServerError` of a proxy that has been connected.
use mcp_remote_go.Base.{◌≡◌, ◌≢◌, sym, ◌∙◌, inl, inr, Bool, false, List, [], ◌∷◌, arith, Bytes}
use mcp_remote_go.Text.{text_eq}
use mcp_remote_go.Proxy.{
  Proxy, Round, Pass, connected, stopped, again, auto, handle_authentication, one_pass,
  connect_to_server,
}
use mcp_remote_go.Proxy.Connected.{
  Dials, settled, Pass-cases, handle_authentication-not, connect_with_mode-connected,
  one_pass-concrete,
}
use mcp_remote_go.Proxy.Relay.{
  TransportError, context_canceled, unauthorized, other, recovered, recovery_of, authenticate,
  handle_server_error,
}

recovery_of-recovered : (o : Pass) {q : Proxy} → recovery_of o ≡ recovered q → o ≡ connected q
recovery_of-recovered (connected p) h = ground arith
recovery_of-recovered (stopped e) h = absurd (ground arith)
recovery_of-recovered again h = absurd (ground arith)

module _ (to_lower : Bytes → Bytes) (is_json_rpc : Bytes → Bool) (p : Proxy)
    (concrete : text_eq p.transport_mode auto ≡ false) where
  -- The proxy is as it was, with a transport of its own mode that connected in one of the passes.
  abbrev pub IsBack : Proxy → List Round → Type 0
  IsBack q rs =
      (q ≡ settled to_lower is_json_rpc p p.transport_mode)
      × Dials to_lower is_json_rpc p p.transport_mode rs

  connect_to_server-IsBack :
      (rs : List Round) {q : Proxy}
      → connect_to_server to_lower is_json_rpc rs p ≡ connected q
      → IsBack q rs
  unfolding connect_to_server
  connect_to_server-IsBack [] h = absurd (ground arith)
  connect_to_server-IsBack (r ∷ rs) h =
      elim (Pass-cases to_lower is_json_rpc (one_pass to_lower is_json_rpc p r)
        (connect_to_server to_lower is_json_rpc rs p) h) [
          | inl now ↦
              let (same, _, dials) =
                connect_with_mode-connected to_lower is_json_rpc p r p.transport_mode concrete
                  (sym (one_pass-concrete to_lower is_json_rpc p r concrete) ∙ now) in
              (same, inl dials)
          | inr (_, later) ↦
              let (same, dials) = connect_to_server-IsBack rs later in (same, inr dials)
        ]

  authenticate-IsBack :
      (rs : List Round) (www : Bytes) {q : Proxy}
      → authenticate to_lower is_json_rpc rs p www ≡ connected q
      → IsBack q rs
  unfolding authenticate
  authenticate-IsBack [] www h = absurd (ground arith)
  authenticate-IsBack (r ∷ rs) www h =
      elim (Pass-cases to_lower is_json_rpc (handle_authentication to_lower is_json_rpc r www)
        (connect_to_server to_lower is_json_rpc rs p) h) [
          | inl now ↦ absurd (handle_authentication-not to_lower is_json_rpc r www now)
          | inr (_, later) ↦
              let (same, dials) = connect_to_server-IsBack rs later in (same, inr dials)
        ]

  -- A proxy that has settled on a mode and recovers from an error of its transport, with or without
  -- a new authorization, has the same mode and a transport of it, which connected in one of the
  -- passes; nothing else of the proxy has changed, and the error was not the cancelled context.
  pub handle_server_error-IsBack :
      (rs : List Round) (e : TransportError) {q : Proxy}
      → handle_server_error to_lower is_json_rpc rs p e ≡ recovered q
      → IsBack q rs × (e ≢ context_canceled)
  unfolding handle_server_error
  handle_server_error-IsBack rs context_canceled h = absurd (ground arith)
  handle_server_error-IsBack rs (unauthorized u) h =
      (authenticate-IsBack rs u.www_authenticate (recovery_of-recovered _ h), λ c. ground arith)
  handle_server_error-IsBack rs (other e) h =
      (connect_to_server-IsBack rs (recovery_of-recovered _ h), λ c. ground arith)
