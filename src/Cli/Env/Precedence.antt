-- ===== src/Cli/Env/Precedence.antt =====
-- cmd/mcp-remote-go/main.go: the command line and the environment in `applyEnvOverrides`.
use mcp_remote_go.Base.{
  ℤ, ◌≡◌, refl, sym, ap, ◌∙◌, not, ◌&&◌, ◌||◌, List, [], ◌∷◌, ◌++◌, append_assoc, append-nil,
  Option, none, some, arith, if◌then◌else◌, Bytes, codes, is_nil, Bool-cases, inl, inr,
}
use mcp_remote_go.Text.{text_eq}
use mcp_remote_go.Cli.{CliConfig, is_default_port}
use mcp_remote_go.Cli.Headers.{parse_header_lines}
use mcp_remote_go.Cli.Env.{
  Environment, mcpb_env, override_server_url, override_transport, override_port, override_proxy,
  override_allow_http, append_headers, append_all, header_variables, has_authorization,
  append_auth_header, apply_env_overrides,
}

-- What the environment leaves of a configuration but for its headers.
abbrev pub SameValues : CliConfig → CliConfig → Type 0
SameValues a b =
    (a.server_url ≡ b.server_url)
    × (a.callback_port ≡ b.callback_port)
    × (a.allow_http ≡ b.allow_http)
    × (a.transport_mode ≡ b.transport_mode)
    × (a.http_proxy ≡ b.http_proxy)

-- Headers were only appended.
abbrev pub Extends : List Bytes → List Bytes → Type 0
Extends old new = (more : List Bytes) × (new ≡ old ++ more)

Extends-trans : (a b c : List Bytes) → Extends a b → Extends b c → Extends a c
Extends-trans a b c (more, e) (more', e') =
    (more ++ more', e' ∙ ap (λ x. x ++ more') e ∙ append_assoc a more more')

module _ (getenv : Environment) where
  append_headers-Extends :
      (name : Bytes) (cfg : CliConfig)
      → SameValues (append_headers getenv name cfg) cfg
        × Extends cfg.headers (append_headers getenv name cfg).headers
  unfolding append_headers
  append_headers-Extends name cfg = elim (Bool-cases (is_nil (mcpb_env getenv name))) [
    | inl unset ↦ rw unset ((refl, refl, refl, refl, refl), ([], sym (append-nil cfg.headers)))
    | inr set' ↦
        rw set' ((refl, refl, refl, refl, refl), (parse_header_lines (mcpb_env getenv name), refl))
  ]

  append_all-Extends :
      (names : List Bytes) (cfg : CliConfig)
      → SameValues (append_all getenv names cfg) cfg
        × Extends cfg.headers (append_all getenv names cfg).headers
  unfolding append_all
  append_all-Extends [] cfg = ((refl, refl, refl, refl, refl), ([], sym (append-nil cfg.headers)))
  append_all-Extends (name ∷ names) cfg =
      let (same, extended) = append_headers-Extends name cfg in
      let (same', extended') = append_all-Extends names (append_headers getenv name cfg) in
      (
        (same'.0 ∙ same.0, same'.1 ∙ same.1, same'.2 ∙ same.2, same'.3 ∙ same.3, same'.4 ∙ same.4),
        Extends-trans cfg.headers (append_headers getenv name cfg).headers
            (append_all getenv names (append_headers getenv name cfg)).headers extended extended',
      )

  append_auth_header-Extends :
      (cfg : CliConfig)
      → SameValues (append_auth_header getenv cfg) cfg
        × Extends cfg.headers (append_auth_header getenv cfg).headers
  unfolding append_auth_header
  append_auth_header-Extends cfg =
      elim (Bool-cases (
        not (is_nil (mcpb_env getenv (codes "MCP_AUTH_HEADER")))
        && not (has_authorization cfg.headers))) [
          | inl add ↦ rw add (
            (refl, refl, refl, refl, refl),
            ((codes "Authorization:" ++ mcpb_env getenv (codes "MCP_AUTH_HEADER")) ∷ [], refl),
          )
          | inr keep ↦ rw keep ((refl, refl, refl, refl, refl), ([], sym (append-nil cfg.headers)))
        ]

  module _ (sscanf : Bytes → Option ℤ) (cfg : CliConfig) where
    -- The configuration before the headers are appended.
    base : CliConfig
    base = override_allow_http getenv (
        override_proxy getenv (
          override_port sscanf getenv (override_transport getenv (override_server_url getenv cfg))))

    abbrev pub port_of : Bytes → ℤ
    port_of v = elim (sscanf v) [ none ↦ cfg.callback_port | some n ↦ n ]

    -- What each value is to be, by the variable of the environment and the command line's value.
    pub record IsOverridden (out : CliConfig) : Type 0 where
      pub server_url : out.server_url ≡ (
          if is_nil cfg.server_url
          then mcpb_env getenv (codes "MCP_SERVER_URL")
          else cfg.server_url)
      pub transport_mode : out.transport_mode ≡ (
          if text_eq cfg.transport_mode (codes "auto")
            && not (is_nil (mcpb_env getenv (codes "MCP_TRANSPORT")))
          then mcpb_env getenv (codes "MCP_TRANSPORT")
          else cfg.transport_mode)
      pub callback_port : out.callback_port ≡ (
          if is_default_port cfg.callback_port && not (is_nil (mcpb_env getenv (codes "MCP_PORT")))
          then port_of (mcpb_env getenv (codes "MCP_PORT"))
          else cfg.callback_port)
      pub http_proxy : out.http_proxy ≡ (
          if is_nil cfg.http_proxy
          then mcpb_env getenv (codes "MCP_HTTPS_PROXY")
          else cfg.http_proxy)
      pub allow_http :
          out.allow_http
          ≡ (cfg.allow_http || text_eq (getenv (codes "MCP_ALLOW_HTTP")) (codes "true"))

    base-IsOverridden : IsOverridden base
    unfolding base override_server_url override_transport override_port override_proxy
        override_allow_http
    base-IsOverridden = record {
      server_url = ground arith;
      transport_mode = ground arith;
      callback_port = ground arith;
      http_proxy = ground arith;
      allow_http = ground arith;
    }

    base_headers : base.headers ≡ cfg.headers
    unfolding base override_server_url override_transport override_port override_proxy
        override_allow_http
    base_headers = ground arith

    SameValues-IsOverridden : (out : CliConfig) → SameValues out base → IsOverridden out
    SameValues-IsOverridden out same = record {
      server_url = same.0 ∙ base-IsOverridden.server_url;
      transport_mode = same.3 ∙ base-IsOverridden.transport_mode;
      callback_port = same.1 ∙ base-IsOverridden.callback_port;
      http_proxy = same.4 ∙ base-IsOverridden.http_proxy;
      allow_http = same.2 ∙ base-IsOverridden.allow_http;
    }

    -- A value of the command line that is not its default is kept, and a default gives way to its
    -- variable, if that is set; a port that cannot be read leaves the default; HTTP is allowed if
    -- either allows it. The headers of the command line stay, in front of those of the environment.
    pub apply_env_overrides-IsOverridden :
        IsOverridden (apply_env_overrides sscanf getenv cfg)
        × Extends cfg.headers (apply_env_overrides sscanf getenv cfg).headers
    unfolding apply_env_overrides base
    apply_env_overrides-IsOverridden =
        let (same, extended) = append_all-Extends header_variables base in
        let (same', extended') =
          append_auth_header-Extends (append_all getenv header_variables base) in
        (
          SameValues-IsOverridden (apply_env_overrides sscanf getenv cfg) (
            same'.0 ∙ same.0,
            same'.1 ∙ same.1,
            same'.2 ∙ same.2,
            same'.3 ∙ same.3,
            same'.4 ∙ same.4,
          ),
          Extends-trans cfg.headers base.headers (apply_env_overrides sscanf getenv cfg).headers
              ([], base_headers ∙ sym (append-nil cfg.headers))
              (Extends-trans base.headers (append_all getenv header_variables base).headers
                (apply_env_overrides sscanf getenv cfg).headers extended extended'),
        )
