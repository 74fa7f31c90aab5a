-- ===== src/HttpClient.antt =====
-- internal/httpclient/client.go: requests with retries.
pub mod Retries
pub mod Requests
use mcp_remote_go.Base.{
  ℕ, zero, suc, ◌+◌, Bool, true, false, not, ◌&&◌, List, [], ◌∷◌, Option, none, some, leb, ltb,
  ◌==◌, if◌then◌else◌, Bytes, is_nil, Result, ok, err,
}

-- `Config`, times in milliseconds.
pub record Config : Type 0 where
  pub timeout : ℕ
  pub max_retries : ℕ
  pub retry_delay : ℕ
  pub default_headers : List (Bytes × Bytes)

-- `DefaultConfig`.
unfoldable pub default_config : Config
default_config = record {
  timeout = 30000;
  max_retries = 3;
  retry_delay = 1000;
  default_headers = [];
}

-- `Response`: the status and `BodyBytes`.
pub record Response : Type 0 where
  pub status_code : ℕ
  pub body_bytes : Bytes

pub data ClientError : Type 0 where
  -- the request cannot be built, sent, or its response read
  transport_failed : Bytes → ClientError
  -- `HTTP %d - %s`
  http_status : ℕ → Bytes → ClientError
  -- `ctx.Err()`
  context_done : Bytes → ClientError
  -- `request failed after %d attempts: %w`
  attempts_failed : ℕ → ClientError → ClientError
  -- an `AttemptsError` with no cause: `lastErr` is nil
  no_attempt : ClientError

-- What one attempt meets: the error before there is a response, or the response.
abbrev pub Exchange : Type 0
Exchange = Result Bytes Response

-- `doSingle`: both parts are there for a status of 400 or more.
unfoldable pub do_single : Exchange → Option Response × Option ClientError
do_single (err e) = (none, some (transport_failed e))
do_single (ok resp) = (
  some resp,
  if leb 400 resp.status_code then some (http_status resp.status_code resp.body_bytes) else none,
)

-- The world that the loop of `Do` meets: attempt `n`, the context behind it (`ctx.Err()`), and the
-- context during the wait in front of attempt `n`.
pub record World : Type 0 where
  pub exchange : ℕ → Exchange
  pub done_after : ℕ → Option Bytes
  pub done_waiting : ℕ → Option Bytes

abbrev pub Outcome : Type 0
Outcome = Option Response × Option ClientError

abbrev pub is_client_error : Option Response → Bool
is_client_error none = false
is_client_error (some resp) = leb 400 resp.status_code && ltb resp.status_code 500

-- Behind attempt `n`: what `Do` returns, or `none` where the loop goes on.
unfoldable pub after_attempt : World → ℕ → Option Outcome
unfolding do_single
after_attempt w n =
    let (resp, error) = do_single (w.exchange n) in
    elim error [
      | none ↦ some (resp, none)
      | some e ↦ elim (w.done_after n) [
        | some c ↦ some (none, some (context_done c))
        | none ↦ if is_client_error resp then some (resp, some e) else none
      ]
    ]

-- What the wait in front of attempt `n` returns, if it does.
unfoldable pub before_attempt : World → ℕ → Option Outcome
before_attempt w zero = none
before_attempt w (suc n) = elim (w.done_waiting (suc n)) [
  | none ↦ none
  | some c ↦ some (none, some (context_done c))
]

-- The loop of `Do` from attempt `n` with `left` attempts left: the requests sent and the outcome.
unfoldable pub do_loop : World → ℕ → ℕ → ℕ → Option ClientError → ℕ × Outcome
do_loop w total zero n last =
    (0, (none, some (attempts_failed total (elim last [ none ↦ no_attempt | some e ↦ e ]))))
do_loop w total (suc left) n last =
    let rest = do_loop w total left (suc n) (do_single (w.exchange n)).1 in
    elim (before_attempt w n) [
      | some o ↦ (0, o)
      | none ↦ elim (after_attempt w n) [ some o ↦ (1, o) | none ↦ (suc rest.0, rest.1) ]
    ]

-- `Do`.
unfoldable pub send : World → Config → ℕ × Outcome
unfolding do_loop
send w config = do_loop w (suc config.max_retries) (suc config.max_retries) 0 none
