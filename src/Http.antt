-- ===== src/Http.antt =====
-- What the program uses of Go's `net/http`, and proxy/auth_error.go.
pub mod Headers
use mcp_remote_go.Base.{
  ℕ, Bool, true, false, List, [], ◌∷◌, ◌++◌, Option, none, some, if◌then◌else◌, Bytes, codes,
  Result, ok, err,
}
use mcp_remote_go.Text.{equal_fold}
use mcp_remote_go.Sse.{Failure}
use mcp_remote_go.Auth.Challenge.{Fault, best_www_authenticate_header}

-- Header lines. Names are compared without regard to the case of ASCII letters, as their canonical
-- forms are.
abbrev pub HeaderLines : Type 0
HeaderLines = List (Bytes × Bytes)

-- `Header.Values(name)`.
unfoldable pub header_values : Bytes → HeaderLines → List Bytes
unfolding equal_fold
header_values name [] = []
header_values name ((k, v) ∷ hs) =
    if equal_fold k name then v ∷ header_values name hs else header_values name hs

-- `Header.Get(name)`.
unfoldable pub header_get : Bytes → HeaderLines → Bytes
unfolding equal_fold
header_get name [] = []
header_get name ((k, v) ∷ hs) = if equal_fold k name then v else header_get name hs

-- `Header.Del(name)`.
unfoldable pub header_del : Bytes → HeaderLines → HeaderLines
unfolding equal_fold
header_del name [] = []
header_del name ((k, v) ∷ hs) =
    if equal_fold k name then header_del name hs else (k, v) ∷ header_del name hs

-- `Header.Set(name, value)`.
unfoldable pub header_set : Bytes → Bytes → HeaderLines → HeaderLines
unfolding header_del
header_set name value hs = (name, value) ∷ header_del name hs

-- The loop `for k, v := range headers { req.Header.Set(k, v) }`, in the order of the range.
unfoldable pub set_all : List (Bytes × Bytes) → HeaderLines → HeaderLines
unfolding header_set
set_all [] hs = hs
set_all ((k, v) ∷ m) hs = set_all m (header_set k v hs)

pub record Request : Type 0 where
  pub method : Bytes
  pub url : Bytes
  pub headers : HeaderLines
  pub body : Bytes

-- A response: its body is the bytes that can be read and the failure behind them.
pub record Response : Type 0 where
  pub status : ℕ
  pub headers : HeaderLines
  pub body : Bytes
  pub body_end : Failure

-- `UnauthorizedError`.
pub record UnauthorizedError : Type 0 where
  pub status_code : ℕ
  pub www_authenticate : Bytes

-- What `http.NewRequestWithContext` and `client.Do` give for a request: a response, or the text of an
-- error.
abbrev pub Client : Type 0
Client = Request → Result Bytes Response

abbrev pub ok_status : ℕ
ok_status = 200

abbrev pub unauthorized_status : ℕ
unauthorized_status = 401

abbrev pub accepted_status : ℕ
accepted_status = 202

abbrev pub not_found_status : ℕ
not_found_status = 404

abbrev pub method_not_allowed_status : ℕ
method_not_allowed_status = 405

abbrev pub www_authenticate_name : Bytes
www_authenticate_name = codes "WWW-Authenticate"

-- `unauthorizedFromResponse`.
unfoldable pub unauthorized_from_response :
    (Bytes → Bytes) → Response → Result Fault UnauthorizedError
unauthorized_from_response to_lower resp =
    elim (best_www_authenticate_header to_lower
      (header_values www_authenticate_name resp.headers)) [
        | ok h ↦ ok (record { status_code = resp.status; www_authenticate = h })
        | err e ↦ err e
      ]
