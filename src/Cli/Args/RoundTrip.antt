-- ===== src/Cli/Args/RoundTrip.antt =====
-- cmd/mcp-remote-go/main.go: `parseRemainingArgs` on flags around a server URL.
use mcp_remote_go.Base.{
  ℤ, ◌≡◌, refl, sym, ap, ◌∙◌, true, false, List, [], ◌∷◌, ◌++◌, append-nil, append_assoc, Option,
  none, arith, Bytes, codes,
}
use mcp_remote_go.Text.{has_prefix}
use mcp_remote_go.Cli.{CliConfig}
use mcp_remote_go.Cli.Args.{
  is_flag, is_assignment, set_port, flag_with_value, single_argument, scan_args, take_positional,
  parse_remaining_args,
}

-- The flags that the loop understands, each with its value.
pub data Flag : Type 0 where
  transport header https_proxy port : Bytes → Flag
  allow_http : Flag

abbrev pub print_flag : Flag → List Bytes
print_flag (transport v) = codes "--transport" ∷ v ∷ []
print_flag (header v) = codes "--header" ∷ v ∷ []
print_flag (https_proxy v) = codes "--https-proxy" ∷ v ∷ []
print_flag (port v) = codes "--port" ∷ v ∷ []
print_flag allow_http = codes "--allow-http" ∷ []

abbrev pub print_flags : List Flag → List Bytes
print_flags [] = []
print_flags (f ∷ fs) = print_flag f ++ print_flags fs

-- The text is no flag: it does not begin with a dash.
abbrev pub IsPositional : Bytes → Type 0
IsPositional arg = has_prefix (codes "-") arg ≡ false

is_flag-positional : (name arg : Bytes) → IsPositional arg → is_flag name arg ≡ false
unfolding is_flag has_prefix
is_flag-positional name [] h = refl
is_flag-positional name (c ∷ s) h = ground arith

is_assignment-positional : (name arg : Bytes) → IsPositional arg → is_assignment name arg ≡ false
unfolding is_assignment
is_assignment-positional name [] h = refl
is_assignment-positional name (c ∷ s) h = ground arith

module _ (sscanf : Bytes → Option ℤ) where
  -- What a flag means.
  abbrev pub set_flag : Flag → CliConfig → CliConfig
  set_flag (transport v) cfg = record cfg { transport_mode = v }
  set_flag (header v) cfg = record cfg { headers = cfg.headers ++ v ∷ [] }
  set_flag (https_proxy v) cfg = record cfg { http_proxy = v }
  set_flag (port v) cfg = set_port sscanf v cfg
  set_flag allow_http cfg = record cfg { allow_http = true }

  abbrev pub set_flags : List Flag → CliConfig → CliConfig
  set_flags [] cfg = cfg
  set_flags (f ∷ fs) cfg = set_flags fs (set_flag f cfg)

  scan_args-flag :
      (f : Flag) (cfg : CliConfig) (positional rest : List Bytes)
      → scan_args sscanf cfg positional (print_flag f ++ rest)
        ≡ scan_args sscanf (set_flag f cfg) positional rest
  unfolding scan_args flag_with_value single_argument is_flag is_assignment
  scan_args-flag (transport v) cfg positional rest = refl
  scan_args-flag (header v) cfg positional rest = refl
  scan_args-flag (https_proxy v) cfg positional rest = refl
  scan_args-flag (port v) cfg positional rest = refl
  scan_args-flag allow_http cfg positional [] = refl
  scan_args-flag allow_http cfg positional (a ∷ rest) = refl

  scan_args-flags :
      (fs : List Flag) (cfg : CliConfig) (positional rest : List Bytes)
      → scan_args sscanf cfg positional (print_flags fs ++ rest)
        ≡ scan_args sscanf (set_flags fs cfg) positional rest
  scan_args-flags [] cfg positional rest = refl
  scan_args-flags (f ∷ fs) cfg positional rest =
      rw (append_assoc (print_flag f) (print_flags fs) rest) (
        scan_args-flag f cfg positional (print_flags fs ++ rest)
        ∙ scan_args-flags fs (set_flag f cfg) positional rest)

  flag_with_value-positional :
      (cfg : CliConfig) (arg value : Bytes)
      → IsPositional arg
      → flag_with_value sscanf cfg arg value ≡ none
  unfolding flag_with_value
  flag_with_value-positional cfg arg value h = rw (
    is_flag-positional (codes "transport") arg h,
    is_flag-positional (codes "header") arg h,
    is_flag-positional (codes "https-proxy") arg h,
    is_flag-positional (codes "port") arg h,
  )

  single_argument-positional :
      (cfg : CliConfig) (positional : List Bytes) (arg : Bytes)
      → IsPositional arg
      → single_argument sscanf cfg positional arg ≡ (cfg, positional ++ arg ∷ [])
  unfolding single_argument
  single_argument-positional cfg positional arg h = rw (
    is_assignment-positional (codes "transport") arg h,
    is_assignment-positional (codes "header") arg h,
    is_assignment-positional (codes "https-proxy") arg h,
    is_flag-positional (codes "allow-http") arg h,
  )

  scan_args-positional :
      (cfg : CliConfig) (positional : List Bytes) (arg : Bytes) (rest : List Bytes)
      → IsPositional arg
      → scan_args sscanf cfg positional (arg ∷ rest)
        ≡ scan_args sscanf cfg (positional ++ arg ∷ []) rest
  unfolding scan_args
  scan_args-positional cfg positional arg [] h = single_argument-positional cfg positional arg h
  scan_args-positional cfg positional arg (value ∷ rest) h = rw (
    flag_with_value-positional cfg arg value h,
    single_argument-positional cfg positional arg h,
    scan_args,
  )

  scan_args_nil :
      (cfg : CliConfig) (positional : List Bytes)
      → scan_args sscanf cfg positional [] ≡ (cfg, positional)
  unfolding scan_args
  scan_args_nil cfg positional = refl

  scan_args-url :
      (before after : List Flag) (url : Bytes) (cfg : CliConfig)
      → IsPositional url
      → scan_args sscanf cfg [] (print_flags before ++ url ∷ print_flags after)
        ≡ (set_flags after (set_flags before cfg), url ∷ [])
  scan_args-url before after url cfg h =
      scan_args-flags before cfg [] (url ∷ print_flags after)
      ∙ scan_args-positional (set_flags before cfg) [] url (print_flags after) h
      ∙ ap (scan_args sscanf (set_flags before cfg) (url ∷ []))
          (sym (append-nil (print_flags after)))
      ∙ scan_args-flags after (set_flags before cfg) (url ∷ []) []
      ∙ scan_args_nil (set_flags after (set_flags before cfg)) (url ∷ [])

  -- The flags may stand in front of the server URL and behind it: each is applied, in order, and the
  -- URL is taken over if the configuration has none. The URL does not begin with a dash; the values
  -- of the flags are arbitrary.
  pub parse_remaining_args-flags :
      (before after : List Flag) (url : Bytes) (defaults : CliConfig)
      → IsPositional url
      → parse_remaining_args sscanf (print_flags before ++ url ∷ print_flags after) defaults
        ≡ take_positional sscanf (set_flags after (set_flags before defaults)) (url ∷ [])
  unfolding parse_remaining_args
  parse_remaining_args-flags before after url defaults h =
      rw (scan_args-url before after url defaults h)
