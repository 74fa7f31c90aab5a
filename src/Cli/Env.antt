-- ===== src/Cli/Env.antt =====
-- cmd/mcp-remote-go/main.go: `mcpbEnv` and `applyEnvOverrides`.
pub mod Precedence
use mcp_remote_go.Base.{
  ℤ, ℕ, Bool, true, false, not, ◌&&◌, ◌||◌, List, [], ◌∷◌, ◌++◌, Option, none, some, if◌then◌else◌,
  Bytes, codes, is_nil,
}
use mcp_remote_go.Text.{text_eq, contains, cut, trim_space, equal_fold}
use mcp_remote_go.Cli.{CliConfig, is_default_port}
use mcp_remote_go.Cli.Headers.{parse_header_lines}

-- `os.Getenv` is a function; a variable that is not set is empty.
abbrev pub Environment : Type 0
Environment = Bytes → Bytes

-- `mcpbEnv`.
unfoldable pub mcpb_env : Environment → Bytes → Bytes
unfolding contains
mcpb_env getenv name = if contains (codes "${user_config.") (getenv name) then [] else getenv name

-- The overrides of single values, in the order of the source.
unfoldable pub override_server_url : Environment → CliConfig → CliConfig
override_server_url getenv cfg =
    let v = mcpb_env getenv (codes "MCP_SERVER_URL") in
    if not (is_nil v) && is_nil cfg.server_url then record cfg { server_url = v } else cfg

unfoldable pub override_transport : Environment → CliConfig → CliConfig
unfolding text_eq
override_transport getenv cfg =
    let v = mcpb_env getenv (codes "MCP_TRANSPORT") in
    if not (is_nil v) && text_eq cfg.transport_mode (codes "auto")
    then record cfg { transport_mode = v }
    else cfg

unfoldable pub override_port : (Bytes → Option ℤ) → Environment → CliConfig → CliConfig
override_port sscanf getenv cfg =
    let v = mcpb_env getenv (codes "MCP_PORT") in
    if not (is_nil v) && is_default_port cfg.callback_port
    then elim (sscanf v) [ none ↦ cfg | some n ↦ record cfg { callback_port = n } ]
    else cfg

unfoldable pub override_proxy : Environment → CliConfig → CliConfig
override_proxy getenv cfg =
    let v = mcpb_env getenv (codes "MCP_HTTPS_PROXY") in
    if not (is_nil v) && is_nil cfg.http_proxy then record cfg { http_proxy = v } else cfg

-- This variable is read without `mcpbEnv`.
unfoldable pub override_allow_http : Environment → CliConfig → CliConfig
unfolding text_eq
override_allow_http getenv cfg =
    if text_eq (getenv (codes "MCP_ALLOW_HTTP")) (codes "true") && not cfg.allow_http
    then record cfg { allow_http = true }
    else cfg

-- The entries of one variable are appended; the lines of an empty value are none.
unfoldable pub append_headers : Environment → Bytes → CliConfig → CliConfig
append_headers getenv name cfg =
    let v = mcpb_env getenv name in
    if is_nil v then cfg else record cfg { headers = cfg.headers ++ parse_header_lines v }

-- `MCP_HEADERS`, then `MCP_HEADER_1` to `MCP_HEADER_5`.
abbrev pub header_variables : List Bytes
header_variables =
    codes "MCP_HEADERS"
    ∷ codes "MCP_HEADER_1"
    ∷ codes "MCP_HEADER_2"
    ∷ codes "MCP_HEADER_3"
    ∷ codes "MCP_HEADER_4"
    ∷ codes "MCP_HEADER_5"
    ∷ []

unfoldable pub append_all : Environment → List Bytes → CliConfig → CliConfig
unfolding append_headers
append_all getenv [] cfg = cfg
append_all getenv (name ∷ names) cfg = append_all getenv names (append_headers getenv name cfg)

-- Whether a header is named `Authorization`.
unfoldable pub is_authorization : Bytes → Bool
unfolding cut equal_fold
is_authorization h = elim (cut b':' h) [
  | none ↦ false
  | some (name, value) ↦ equal_fold (trim_space name) (codes "Authorization")
]

unfoldable pub has_authorization : List Bytes → Bool
unfolding is_authorization
has_authorization [] = false
has_authorization (h ∷ hs) = is_authorization h || has_authorization hs

unfoldable pub append_auth_header : Environment → CliConfig → CliConfig
unfolding has_authorization
append_auth_header getenv cfg =
    let v = mcpb_env getenv (codes "MCP_AUTH_HEADER") in
    if not (is_nil v) && not (has_authorization cfg.headers)
    then record cfg { headers = cfg.headers ++ (codes "Authorization:" ++ v) ∷ [] }
    else cfg

-- `applyEnvOverrides`.
unfoldable pub apply_env_overrides : (Bytes → Option ℤ) → Environment → CliConfig → CliConfig
apply_env_overrides sscanf getenv cfg = append_auth_header getenv (
    append_all getenv header_variables (
      override_allow_http getenv (
        override_proxy getenv (
          override_port sscanf getenv
            (override_transport getenv (override_server_url getenv cfg))))))
