-- ===== src/Tests/Commands.antt =====
-- The command line and the environment: cmd/mcp-remote-go/main.go.
use mcp_remote_go.Base.{
  ℤ, pos, ◌≡◌, refl, true, false, [], ◌∷◌, Option, none, some, arith, Bytes, codes, All,
  if◌then◌else◌,
}
use mcp_remote_go.Text.{
  text_eq, has_prefix, cut, trim_space, skip_space, space_width, space_width_back,
}
use mcp_remote_go.Text.Trim.{is_tidy}
use mcp_remote_go.Cli.{CliConfig}
use mcp_remote_go.Cli.Headers.{
  parse_header_lines, header_map, map_get, has_line_break, unescape_lines, split_breaks,
  header_entries, header_entry, is_valid_header_name,
}
use mcp_remote_go.Cli.Headers.Valid.{IsEntry, parse_header_lines-IsEntry, map_get-header_map}
use mcp_remote_go.Cli.Args.{
  parse_remaining_args, take_positional, scan_args, single_argument, is_flag, is_assignment,
  set_port,
}
use mcp_remote_go.Cli.Args.RoundTrip.{header, port, allow_http, parse_remaining_args-flags}
use mcp_remote_go.Cli.Env.{Environment, apply_env_overrides}
use mcp_remote_go.Cli.Env.Precedence.{IsOverridden, Extends, apply_env_overrides-IsOverridden}

-- Reads one decimal digit.
abbrev one_digit : Bytes → Option ℤ
one_digit [] = none
one_digit (c ∷ s) = if text_eq s [] then some (pos c) else none

abbrev defaults : CliConfig
defaults = record {
  server_url = [];
  callback_port = pos 3334;
  allow_http = false;
  transport_mode = codes "auto";
  http_proxy = [];
  headers = [];
}

parse_remaining_args-flags_example :
    parse_remaining_args one_digit
      (codes "--port"
        ∷ codes "7"
        ∷ codes "http://a"
        ∷ codes "--header"
        ∷ codes "A: b"
        ∷ codes "--allow-http"
        ∷ [])
      defaults
    ≡ record defaults {
      server_url = codes "http://a";
      callback_port = pos 55;
      headers = codes "A: b" ∷ [];
      allow_http = true;
    }
unfolding take_positional set_port text_eq
parse_remaining_args-flags_example =
    parse_remaining_args-flags one_digit (port (codes "7") ∷ [])
      (header (codes "A: b") ∷ allow_http ∷ []) (codes "http://a") defaults
      (unfold has_prefix in refl)

-- `--port=7` is no flag: it is taken for the server URL.
port_assignment :
    parse_remaining_args one_digit (codes "--port=7" ∷ []) defaults
    ≡ record defaults { server_url = codes "--port=7" }
unfolding parse_remaining_args scan_args single_argument is_flag is_assignment text_eq has_prefix
    take_positional
port_assignment = refl

parse_header_lines-IsEntry_example :
    All IsEntry (parse_header_lines (codes "A: b\\nbad name: c\\nno colon"))
parse_header_lines-IsEntry_example =
    parse_header_lines-IsEntry (codes "A: b\\nbad name: c\\nno colon")

header_lines :
    parse_header_lines (codes "A: b\\nbad name: c\\nno colon\\n D:e")
    ≡ codes "A: b" ∷ codes "D:e" ∷ []
unfolding parse_header_lines has_line_break unescape_lines split_breaks header_entries header_entry
    is_valid_header_name cut trim_space skip_space space_width space_width_back
header_lines = refl

map_get-header_map_example :
    map_get
      (codes "A")
      (header_map (codes "A: cli" ∷ codes "A: env" ∷ codes "B: other" ∷ codes "no header" ∷ []) [])
    ≡ some (codes "env")
unfolding trim_space skip_space space_width space_width_back
map_get-header_map_example =
    map_get-header_map (codes "A: cli" ∷ []) (codes "A") (codes " env")
      (codes "B: other" ∷ codes "no header" ∷ []) (unfold is_tidy in refl) (ground arith)
      (unfold cut text_eq in (refl, (tt, tt)))

abbrev environment : Environment
environment name =
    if text_eq name (codes "MCP_SERVER_URL")
    then codes "http://env"
    else if text_eq name (codes "MCP_TRANSPORT")
    then codes "${user_config.transport}"
    else if text_eq name (codes "MCP_HEADER_1")
    then codes "A: env"
    else []

abbrev given : CliConfig
given = record defaults { server_url = codes "http://cli"; headers = codes "A: cli" ∷ [] }

apply_env_overrides-IsOverridden_example :
    IsOverridden environment one_digit given (apply_env_overrides one_digit environment given)
    × Extends given.headers (apply_env_overrides one_digit environment given).headers
apply_env_overrides-IsOverridden_example =
    apply_env_overrides-IsOverridden environment one_digit given
