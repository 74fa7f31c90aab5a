-- ===== src/Auth/Coordinator/Binding.antt =====
-- auth/auth.go: the authorization URL and the token request belong together.
use mcp_remote_go.Base.{
  ℕ, Result, err, map_err, ◌++◌, ok-inj, ◌≡◌, refl, ap, ◌∙◌, false, [], ◌∷◌, Option, none, some,
  arith, Bytes, codes, is_nil, length, if◌then◌else◌, ok,
}
use mcp_remote_go.Text.{text_eq}
use mcp_remote_go.Http.{Request, header_get}
use mcp_remote_go.HttpClient.{Exchange, send, default_config}
use mcp_remote_go.HttpClient.Requests.{
  content_type, form_type, exchange_of, send_request, exchange_of-post_form_request,
}
use mcp_remote_go.Auth.Pkce.{
  code_verifier_length, generate_code_verifier, generate_code_verifier-unreserved,
  compute_code_challenge,
}
use mcp_remote_go.Auth.Resource.{Url, canonical_resource_uri}
use mcp_remote_go.Auth.Discovery.{ServerMetadata, result_of, json}
use mcp_remote_go.Auth.Store.{ClientInfo, Tokens}
use mcp_remote_go.Auth.Coordinator.{
  redirect_uri, token_request, AuthError, request_failed, bad_response, Coordinator, Form, Toolkit,
  Surroundings, Session, authorization_params, token_form, field_if_any,
}
use mcp_remote_go.Auth.Coordinator.Operations.{initialize_auth, tokens_of, exchange_code}
use mcp_remote_go.Auth.Coordinator.Ready.{initialize_auth-IsReady}

-- The value of a field of a form.
abbrev pub value_of : Bytes → Form → Option Bytes
value_of name [] = none
value_of name ((k, v) ∷ form) = if text_eq k name then some v else value_of name form

-- The value of a field that is sent only if it has one.
abbrev pub if_any : Bytes → Option Bytes
if_any v = if is_nil v then none else some v

module _ (kit : Toolkit) (w : Surroundings) where
  -- What the tokens are read from: the answers of the server to the attempts of one request.
  abbrev pub answer_to : Request → Result AuthError Tokens
  answer_to sent =
      elim (map_err request_failed (
        result_of
          (send
            (record {
              exchange = λ n. w.exchange.answer n sent;
              done_after = w.exchange.done_after;
              done_waiting = w.exchange.done_waiting;
            })
            default_config).1)) [
              | err e ↦ err e
              | ok resp ↦ map_err bad_response (json kit.codecs.tokens.decode resp)
            ]

  -- The parameters of the authorization URL: for this client, redirect URI and resource, with the
  -- challenge of a verifier.
  pub record IsAuthorization (client_id redirect target secret : Bytes) (params : Form)
      : Type 0 where
    pub response_type : value_of (codes "response_type") params ≡ some (codes "code")
    pub client : value_of (codes "client_id") params ≡ some client_id
    pub redirect_uri : value_of (codes "redirect_uri") params ≡ some redirect
    pub resource : value_of (codes "resource") params ≡ if_any target
    pub challenge :
        value_of (codes "code_challenge") params ≡ some (kit.base64url (kit.sha256 secret))
    pub challenge_method : value_of (codes "code_challenge_method") params ≡ some (codes "S256")

  -- The form of the token request, likewise, with the code and the verifier itself.
  pub record IsTokenForm (client_id redirect target secret value : Bytes) (form : Form)
      : Type 0 where
    pub grant_type : value_of (codes "grant_type") form ≡ some (codes "authorization_code")
    pub code : value_of (codes "code") form ≡ some value
    pub client : value_of (codes "client_id") form ≡ some client_id
    pub redirect_uri : value_of (codes "redirect_uri") form ≡ some redirect
    pub resource : value_of (codes "resource") form ≡ if_any target
    pub verifier : value_of (codes "code_verifier") form ≡ some secret

  -- The request that the attempts of the exchange send.
  pub record IsTokenRequest (m : ServerMetadata) (form : Form) (sent : Request) : Type 0 where
    pub method : sent.method ≡ codes "POST"
    pub address : sent.url ≡ m.token_endpoint
    pub type : header_get content_type sent.headers ≡ form_type
    pub body : sent.body ≡ kit.encode_values form

  -- A session in which the URL is built and the code may come in.
  pub record IsBound (server_url url code : Bytes) (t : Session) : Type 0 where
    pub metadata : ServerMetadata
    pub info : ClientInfo
    pub endpoint : Url
    pub params : Form
    pub form : Form
    pub sent : Request
    pub has_metadata : t.coordinator.server_metadata ≡ some metadata
    pub has_client : t.coordinator.client_info ≡ some info
    pub made : generate_code_verifier w.random ≡ ok t.coordinator.code_verifier
    pub resource :
        canonical_resource_uri kit.lib.to_lower kit.lib.parse_url kit.lib.print_url server_url
        ≡ ok t.coordinator.resource
    pub parses : kit.lib.parse_url metadata.authorization_endpoint ≡ ok endpoint
    pub built : url ≡ kit.lib.print_url (record endpoint { raw_query = kit.encode_values params })
    pub asked :
        IsAuthorization info.client_id
          (redirect_uri kit t.coordinator.callback_port)
          t.coordinator.resource
          t.coordinator.code_verifier
          params
    pub exchanged : exchange_code kit w code t ≡ (answer_to sent, t)
    pub request : IsTokenRequest metadata form sent
    pub given :
        IsTokenForm info.client_id
          (redirect_uri kit t.coordinator.callback_port)
          t.coordinator.resource
          t.coordinator.code_verifier
          code
          form

  authorization_params-IsAuthorization :
      (c : Coordinator) (info : ClientInfo)
      → IsAuthorization info.client_id
          (redirect_uri kit c.callback_port)
          c.resource
          c.code_verifier
          (authorization_params kit c info)
  unfolding authorization_params compute_code_challenge text_eq
  authorization_params-IsAuthorization c info = record {
    response_type = refl;
    client = refl;
    redirect_uri = refl;
    resource = resource_param c.resource;
    challenge = refl;
    challenge_method = refl;
  }
    where
      resource_param :
          (r : Bytes)
          → value_of (codes "resource") (if is_nil r then [] else (codes "resource", r) ∷ [])
            ≡ if_any r
      resource_param [] = refl
      resource_param (b ∷ r) = refl

  token_form-IsTokenForm :
      (c : Coordinator) (info : ClientInfo) (code : Bytes)
      → is_nil c.code_verifier ≡ false
      → IsTokenForm info.client_id
          (redirect_uri kit c.callback_port)
          c.resource
          c.code_verifier
          code
          (token_form kit c info code)
  unfolding token_form text_eq
  token_form-IsTokenForm c info code h = record {
    grant_type = refl;
    code = refl;
    client = refl;
    redirect_uri = refl;
    resource = resource_field c.resource c.code_verifier info.client_secret;
    verifier = verifier_field c.resource c.code_verifier info.client_secret h;
  }
    where
      resource_field :
          (r v s : Bytes)
          → value_of (codes "resource") (
              field_if_any kit (codes "resource") r
              ++ (field_if_any kit (codes "code_verifier") v
                  ++ field_if_any kit (codes "client_secret") s))
            ≡ if_any r
      resource_field (b ∷ r) v s = refl
      resource_field [] [] [] = refl
      resource_field [] [] (b ∷ s) = refl
      resource_field [] (b ∷ v) [] = refl
      resource_field [] (b ∷ v) (a ∷ s) = refl

      verifier_field :
          (r v s : Bytes)
          → is_nil v ≡ false
          → value_of (codes "code_verifier") (
              field_if_any kit (codes "resource") r
              ++ (field_if_any kit (codes "code_verifier") v
                  ++ field_if_any kit (codes "client_secret") s))
            ≡ some v
      verifier_field r [] s full = absurd (ground arith)
      verifier_field [] (b ∷ v) s full = refl
      verifier_field (a ∷ r) (b ∷ v) s full = refl

  exchange_code-tokens_of :
      (t : Session) (m : ServerMetadata) (info : ClientInfo) (code : Bytes)
      → t.coordinator.server_metadata ≡ some m
      → t.coordinator.client_info ≡ some info
      → exchange_code kit w code t ≡ (tokens_of kit w t.coordinator m info code, t)
  unfolding exchange_code
  exchange_code-tokens_of t m info code metadata client =
      simp (metadata, client, exchange_code) refl

  tokens_of-answer_to :
      (c : Coordinator) (m : ServerMetadata) (info : ClientInfo) (code : Bytes) (sent : Request)
      → ((n : ℕ)
          → exchange_of w.exchange default_config (token_request kit m c info code) n
            ≡ w.exchange.answer n sent)
      → tokens_of kit w c m info code ≡ answer_to sent
  unfolding send_request
  tokens_of-answer_to c m info code sent same =
      ap
        (λ (f : ℕ → Exchange).
          elim (map_err request_failed (
            result_of
              (send
                (record {
                  exchange = f;
                  done_after = w.exchange.done_after;
                  done_waiting = w.exchange.done_waiting;
                })
                default_config).1)) [
                  | err e ↦ err e
                  | ok resp ↦ map_err bad_response (json kit.codecs.tokens.decode resp)
                ])
        (λ i n. same n i)

  verifier-ne-nil :
      (random v : Bytes)
      → w.random ≡ ok random
      → length random ≡ code_verifier_length
      → generate_code_verifier w.random ≡ ok v
      → is_nil v ≡ false
  verifier-ne-nil random v filled len made =
      let (v', same, _, long, _) = generate_code_verifier-unreserved random len in
      long_ne_nil v (
        rw (ok-inj (generate_code_verifier w.random) (ap generate_code_verifier filled ∙ same) made)
          at long)
    where
      long_ne_nil : (s : Bytes) → length s ≡ 64 → is_nil s ≡ false
      long_ne_nil [] h = absurd (omega arith)
      long_ne_nil (c ∷ s) h = refl

  -- Whatever servers, ports, files and caches it met, an `InitializeAuth` that gives a URL leaves a
  -- session in which this URL and the token request for any code belong together. The URL is the
  -- authorization endpoint with the client, redirect URI and canonical resource of the session and
  -- the S256 challenge of its verifier. `ExchangeCode` returns what the server answers to a `POST` of
  -- a form to the token endpoint, with the code, the verifier, and the same client, redirect URI and
  -- resource. The random source filled its buffer.
  pub exchange_code-initialize_auth :
      (server_url metadata_url code random : Bytes) (s : Session) {url : Bytes}
      → w.random ≡ ok random
      → length random ≡ code_verifier_length
      → (initialize_auth kit w server_url metadata_url s).0 ≡ ok url
      → IsBound server_url url code (initialize_auth kit w server_url metadata_url s).1
  unfolding token_request
  exchange_code-initialize_auth server_url metadata_url code random s filled len h =
      let t = (initialize_auth kit w server_url metadata_url s).1 in
      let ready = initialize_auth-IsReady kit w server_url metadata_url s h in
      let form = token_form kit t.coordinator ready.info code in
      let (sent, same, method, address, body, type) =
        exchange_of-post_form_request w.exchange default_config kit.encode_values
          ready.metadata.token_endpoint form [] tt in
      record {
        metadata = ready.metadata;
        info = ready.info;
        endpoint = ready.endpoint;
        params = authorization_params kit t.coordinator ready.info;
        form = form;
        sent = sent;
        has_metadata = ready.has_metadata;
        has_client = ready.has_info;
        made = ready.generated;
        resource = ready.canonical;
        parses = ready.parses;
        built = ready.built;
        asked = authorization_params-IsAuthorization t.coordinator ready.info;
        exchanged =
            exchange_code-tokens_of t ready.metadata ready.info code ready.has_metadata
              ready.has_info
            ∙ ap (λ r. (r, t))
                (tokens_of-answer_to t.coordinator ready.metadata ready.info code sent same);
        request = record { method = method; address = address; type = type; body = body };
        given =
            token_form-IsTokenForm t.coordinator ready.info code
              (verifier-ne-nil random t.coordinator.code_verifier filled len ready.generated);
      }
