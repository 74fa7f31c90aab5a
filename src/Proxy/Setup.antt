-- ===== src/Proxy/Setup.antt =====
-- proxy/proxy.go: how a proxy is made, and what is opened in the browser.
use mcp_remote_go.Base.{
  Bool, not, ◌&&◌, List, Option, none, some, if◌then◌else◌, Bytes, codes, is_nil, Result, ok, err,
}
use mcp_remote_go.Text.{text_eq}
use mcp_remote_go.Auth.Resource.{Url}
use mcp_remote_go.Proxy.{Proxy, TransportMode}

pub data SetupError : Type 0 where
  no_coordinator : Bytes → SetupError
  bad_proxy_url : Bytes → SetupError
  bad_proxy_scheme no_proxy_host : SetupError

abbrev pub is_web : Url → Bool
is_web u = not (not (text_eq u.scheme (codes "http")) && not (text_eq u.scheme (codes "https")))

-- `url.Parse` is a parameter.
module _ (parse_url : Bytes → Result Bytes Url) where
  -- `buildHTTPClient`: the HTTP proxy that the client goes through, if there is one.
  unfoldable pub build_http_client : Bytes → Result SetupError (Option Url)
  build_http_client proxy_url = if is_nil proxy_url then ok none else elim (parse_url proxy_url) [
    | err e ↦ err (bad_proxy_url e)
    | ok parsed ↦
        if not (is_web parsed)
        then err bad_proxy_scheme
        else if is_nil parsed.host
        then err no_proxy_host
        else ok (some parsed)
  ]

  -- `NewProxyWithOptions`; `coordinator` is what `NewCoordinator` gives.
  unfoldable pub new_proxy :
      Result Bytes (Unit {0})
      → Bytes
      → List (Bytes × Bytes)
      → TransportMode
      → Bytes
      → Result SetupError (Proxy × Option Url)
  new_proxy (err e) server_url headers mode proxy_url = err (no_coordinator e)
  new_proxy (ok _) server_url headers mode proxy_url = elim (build_http_client proxy_url) [
    | err e ↦ err e
    | ok via ↦ ok (
      record {
        server_url = server_url;
        headers = headers;
        transport_mode = mode;
        transport = none;
      },
      via,
    )
  ]

  -- `openBrowser`: the error, or `none` where the browser is called.
  unfoldable pub open_browser : Bytes → Option Bytes
  open_browser url = elim (parse_url url) [
    | err e ↦ some e
    | ok parsed ↦
        if is_web parsed then none else some (codes "only http and https URLs are allowed")
  ]
