-- ===== src/Cli/Args.antt =====
-- cmd/mcp-remote-go/main.go: `parseRemainingArgs`.
pub mod RoundTrip
use mcp_remote_go.Base.{
  ℤ, ℕ, Bool, true, false, not, ◌&&◌, ◌||◌, List, [], ◌∷◌, ◌++◌, Option, none, some, if◌then◌else◌,
  Bytes, codes, is_nil, drop,
}
use mcp_remote_go.Text.{text_eq, has_prefix, cut}
use mcp_remote_go.Cli.{CliConfig}

-- `--name` or `-name`.
unfoldable pub is_flag : Bytes → Bytes → Bool
unfolding text_eq
is_flag name arg = text_eq arg (codes "--" ++ name) || text_eq arg (codes "-" ++ name)

-- A text that begins with `--name=` or `-name=`.
unfoldable pub is_assignment : Bytes → Bytes → Bool
unfolding has_prefix
is_assignment name arg =
    has_prefix (codes "--" ++ (name ++ b'=' ∷ [])) arg
    || has_prefix (codes "-" ++ (name ++ b'=' ∷ [])) arg

-- `strings.SplitN(arg, "=", 2)[1]` of a text with an `=`.
unfoldable pub assigned : Bytes → Bytes
unfolding cut
assigned arg = elim (cut b'=' arg) [ none ↦ [] | some (name, value) ↦ value ]

-- `fmt.Sscanf(s, "%d", &n)` is a parameter; `none` is its error.
module _ (sscanf : Bytes → Option ℤ) where
  -- A port that cannot be read is logged, and the old one stays.
  unfoldable pub set_port : Bytes → CliConfig → CliConfig
  set_port s cfg = elim (sscanf s) [ none ↦ cfg | some n ↦ record cfg { callback_port = n } ]

  -- The cases of the switch that take the next argument, `value`.
  unfoldable pub flag_with_value : CliConfig → Bytes → Bytes → Option CliConfig
  flag_with_value cfg arg value =
      if is_flag (codes "transport") arg
      then some (record cfg { transport_mode = value })
      else if is_flag (codes "header") arg
      then some (record cfg { headers = cfg.headers ++ value ∷ [] })
      else if is_flag (codes "https-proxy") arg
      then some (record cfg { http_proxy = value })
      else if is_flag (codes "port") arg
      then some (set_port value cfg)
      else none

  -- The other cases; the positional arguments are the second part.
  unfoldable pub single_argument : CliConfig → List Bytes → Bytes → CliConfig × List Bytes
  single_argument cfg positional arg =
      if is_assignment (codes "transport") arg
      then (record cfg { transport_mode = assigned arg }, positional)
      else if is_assignment (codes "header") arg
      then (record cfg { headers = cfg.headers ++ assigned arg ∷ [] }, positional)
      else if is_assignment (codes "https-proxy") arg
      then (record cfg { http_proxy = assigned arg }, positional)
      else if is_flag (codes "allow-http") arg
      then (record cfg { allow_http = true }, positional)
      else (cfg, positional ++ arg ∷ [])

  -- The loop.
  unfoldable pub scan_args : CliConfig → List Bytes → List Bytes → CliConfig × List Bytes
  scan_args cfg positional [] = (cfg, positional)
  scan_args cfg positional (arg ∷ []) = single_argument cfg positional arg
  scan_args cfg positional (arg ∷ value ∷ rest) = elim (flag_with_value cfg arg value) [
    | some cfg' ↦ scan_args cfg' positional rest
    | none ↦
        scan_args (single_argument cfg positional arg).0 (single_argument cfg positional arg).1
          (value ∷ rest)
  ]

  -- What stands behind the loop.
  unfoldable pub take_positional : CliConfig → List Bytes → CliConfig
  take_positional cfg [] = cfg
  take_positional cfg (url ∷ []) =
      if is_nil cfg.server_url then record cfg { server_url = url } else cfg
  take_positional cfg (url ∷ port ∷ more) =
      if is_nil cfg.server_url then set_port port (record cfg { server_url = url }) else cfg

  -- `parseRemainingArgs`.
  unfoldable pub parse_remaining_args : List Bytes → CliConfig → CliConfig
  parse_remaining_args remaining defaults =
      take_positional (scan_args defaults [] remaining).0 (scan_args defaults [] remaining).1
