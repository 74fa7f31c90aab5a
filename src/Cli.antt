-- ===== src/Cli.antt =====
-- cmd/mcp-remote-go/main.go: the configuration from the command line and the environment.
pub mod Headers
pub mod Args
pub mod Env
pub mod Start
use mcp_remote_go.Base.{ℤ, pos, negsuc, ℕ, Bool, true, false, List, Bytes, ◌==◌}

-- `cliConfig`.
pub record CliConfig : Type 0 where
  pub server_url : Bytes
  pub callback_port : ℤ
  pub allow_http : Bool
  pub transport_mode : Bytes
  pub http_proxy : Bytes
  pub headers : List Bytes

-- `*callbackPort == 3334`.
abbrev pub is_default_port : ℤ → Bool
is_default_port (pos n) = n == 3334
is_default_port (negsuc n) = false
