-- ===== src/Cli/Start.antt =====
-- cmd/mcp-remote-go/main.go: `main` from the flags to the start of the proxy.
use mcp_remote_go.Base.{
  ℤ, ◌≡◌, ◌⊎◌, Bool, true, false, not, ◌&&◌, ◌||◌, List, [], reverse, Option, none, some, arith,
  if◌then◌else◌, Bytes, codes, is_nil, Result, ok, err,
}
use mcp_remote_go.Text.{text_eq, has_prefix}
use mcp_remote_go.Auth.Resource.{Url}
use mcp_remote_go.Cli.{CliConfig}
use mcp_remote_go.Cli.Args.{parse_remaining_args}
use mcp_remote_go.Cli.Env.{Environment, apply_env_overrides}
use mcp_remote_go.Cli.Headers.{header_map}
use mcp_remote_go.Proxy.{Proxy, TransportMode, auto, streamable_http, sse}
use mcp_remote_go.Proxy.Setup.{SetupError, is_web, build_http_client, new_proxy}

pub data StartError : Type 0 where
  no_server_url insecure_url bad_mode : StartError
  no_proxy : SetupError → StartError

abbrev pub is_mode : TransportMode → Bool
is_mode mode = text_eq mode auto || text_eq mode streamable_http || text_eq mode sse

-- The checks of `main`: the error it exits with.
unfoldable pub check_config : CliConfig → Option StartError
check_config cfg =
    if is_nil cfg.server_url
    then some no_server_url
    else if not cfg.allow_http && not (has_prefix (codes "https://") cfg.server_url)
    then some insecure_url
    else if is_mode cfg.transport_mode
    then none
    else some bad_mode

-- A configuration that `main` may go on with.
pub record IsSafe (cfg : CliConfig) : Type 0 where
  pub named : is_nil cfg.server_url ≡ false
  pub secure : (cfg.allow_http ≡ true) ⊎ (has_prefix (codes "https://") cfg.server_url ≡ true)
  pub mode : is_mode cfg.transport_mode ≡ true

check_config-parts :
    (cfg : CliConfig)
    → check_config cfg ≡ none
    → (is_nil cfg.server_url ≡ false)
      × ((cfg.allow_http ≡ true) ⊎ (has_prefix (codes "https://") cfg.server_url ≡ true))
      × (is_mode cfg.transport_mode ≡ true)
unfolding check_config
check_config-parts cfg h = ground arith

check_config-IsSafe : (cfg : CliConfig) → check_config cfg ≡ none → IsSafe cfg
check_config-IsSafe cfg h =
    let (named, secure, mode) = check_config-parts cfg h in
    record { named = named; secure = secure; mode = mode }

-- `url.Parse`, `fmt.Sscanf` and what `NewCoordinator` gives are parameters.
module _ (parse_url : Bytes → Result Bytes Url) (sscanf : Bytes → Option ℤ)
    (coordinator : Result Bytes (Unit {0})) where
  -- The configuration that `main` goes on with, from what the package `flag` leaves.
  abbrev pub configure : Environment → List Bytes → CliConfig → CliConfig
  configure getenv args flags =
      apply_env_overrides sscanf getenv (parse_remaining_args sscanf args flags)

  abbrev pub made : Result SetupError (Proxy × Option Url) → Result StartError (Proxy × Option Url)
  made (ok p) = ok p
  made (err e) = err (no_proxy e)

  -- `main` up to `NewProxyWithOptions`, on a configuration. The header map is given in the order in
  -- which it is filled, so that of several entries for a name the last one counts.
  unfoldable pub start : CliConfig → Result StartError (Proxy × Option Url)
  start cfg = elim (check_config cfg) [
    | some e ↦ err e
    | none ↦ made (
        new_proxy parse_url coordinator cfg.server_url (reverse (header_map cfg.headers []))
          cfg.transport_mode cfg.http_proxy)
  ]

  -- The HTTP proxy that was asked for.
  abbrev pub IsVia : Bytes → Option Url → Type 0
  IsVia url none = is_nil url ≡ true
  IsVia url (some u) = (parse_url url ≡ ok u) × (is_web u ≡ true) × (is_nil u.host ≡ false)

  build_http_client-IsVia :
      (url : Bytes) (via : Option Url) → build_http_client parse_url url ≡ ok via → IsVia url via
  unfolding build_http_client
  build_http_client-IsVia url none h = ground arith
  build_http_client-IsVia url (some u) h = ground arith

  start_ok :
      (cfg : CliConfig) (r : Proxy × Option Url)
      → start cfg ≡ ok r
      → (check_config cfg ≡ none)
        × (new_proxy parse_url coordinator cfg.server_url
              (reverse (header_map cfg.headers []))
              cfg.transport_mode
              cfg.http_proxy
            ≡ ok r)
  unfolding start
  start_ok cfg r h = ground arith

  new_proxy_ok :
      (c : Result Bytes (Unit {0})) (url : Bytes) (headers : List (Bytes × Bytes))
      (mode : TransportMode) (proxy_url : Bytes) (p : Proxy) (via : Option Url)
      → new_proxy parse_url c url headers mode proxy_url ≡ ok (p, via)
      → (p.server_url ≡ url)
        × (p.transport_mode ≡ mode)
        × (p.transport ≡ none)
        × (build_http_client parse_url proxy_url ≡ ok via)
  unfolding new_proxy
  new_proxy_ok (err e) url headers mode proxy_url p via h = absurd (ground arith)
  new_proxy_ok (ok _) url headers mode proxy_url p via h = ground arith

  -- If `main` gets as far as a proxy, whatever stands on the command line and in the environment,
  -- the server URL is not empty and starts with `https://` unless HTTP was allowed, the mode is one
  -- of the three, and the HTTP proxy is the parsed one that was asked for, with a host and the
  -- scheme http or https, or none was asked for; the proxy has this URL and this mode, and no
  -- transport yet.
  pub start-IsSafe :
      (getenv : Environment) (args : List Bytes) (flags : CliConfig) (p : Proxy) (via : Option Url)
      → start (configure getenv args flags) ≡ ok (p, via)
      → IsSafe (configure getenv args flags)
        × (p.server_url ≡ (configure getenv args flags).server_url)
        × (p.transport_mode ≡ (configure getenv args flags).transport_mode)
        × (p.transport ≡ none)
        × IsVia (configure getenv args flags).http_proxy via
  start-IsSafe getenv args flags p via h =
      let cfg = configure getenv args flags in
      let (checked, made') = start_ok cfg (p, via) h in
      let (url, mode, fresh, built) =
        new_proxy_ok coordinator cfg.server_url (reverse (header_map cfg.headers []))
          cfg.transport_mode cfg.http_proxy p via made' in
      (
        check_config-IsSafe cfg checked,
        url,
        mode,
        fresh,
        build_http_client-IsVia cfg.http_proxy via built,
      )
