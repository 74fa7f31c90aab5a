-- ===== src/AppError.antt =====
-- internal/errors/errors.go: structured errors and chains of wrapped errors.
pub mod Types
use mcp_remote_go.Base.{
  ℕ, Bool, true, false, not, ◌&&◌, List, [], ◌∷◌, ◌++◌, Option, none, some, leb, ltb, ◌==◌,
  if◌then◌else◌, Bytes, codes, is_nil,
}
use mcp_remote_go.Text.{text_eq}

-- `ErrorType`: a string type, with a name for each string of the source.
abbrev pub ErrorType : Type 0
ErrorType = Bytes

abbrev pub authentication_error : ErrorType
authentication_error = codes "authentication_error"

abbrev pub authorization_error : ErrorType
authorization_error = codes "authorization_error"

abbrev pub network_error : ErrorType
network_error = codes "network_error"

abbrev pub configuration_error : ErrorType
configuration_error = codes "configuration_error"

abbrev pub validation_error : ErrorType
validation_error = codes "validation_error"

abbrev pub server_error : ErrorType
server_error = codes "server_error"

abbrev pub timeout_error : ErrorType
timeout_error = codes "timeout_error"

-- A Go `error`: `AppError` with its fields `Type`, `Message`, `Details`, `StatusCode` and `Cause`,
-- an error of another type with an `Unwrap` method, one without, or nil.
pub data GoError : Type 0 where
  nil : GoError
  plain : Bytes → GoError
  wrapped : Bytes → GoError → GoError
  app : ErrorType → Bytes → Bytes → ℕ → GoError → GoError

-- `*AppError`.
pub record AppError : Type 0 where
  pub error_type : ErrorType
  pub message : Bytes
  pub details : Bytes
  pub status_code : ℕ
  pub cause : GoError

abbrev pub to_error : AppError → GoError
to_error e = app e.error_type e.message e.details e.status_code e.cause

-- `New`.
unfoldable pub new : ErrorType → Bytes → AppError
new error_type message = record {
  error_type = error_type;
  message = message;
  details = [];
  status_code = 0;
  cause = nil;
}

-- `Wrap`.
unfoldable pub wrap : GoError → ErrorType → Bytes → AppError
unfolding new
wrap err error_type message = record (new error_type message) { cause = err }

-- `WithDetails`.
unfoldable pub with_details : AppError → Bytes → AppError
with_details e details = record e { details = details }

-- `WithStatusCode`.
unfoldable pub with_status_code : AppError → ℕ → AppError
with_status_code e code = record e { status_code = code }

-- `Unwrap`.
unfoldable pub unwrap : AppError → GoError
unwrap e = e.cause

-- `Error`.
unfoldable pub error_text : AppError → Bytes
error_text e =
    let head = e.error_type ++ (codes ": " ++ e.message) in
    if is_nil e.details then head else head ++ (codes " (" ++ (e.details ++ codes ")"))

-- `As` with a target of type `**AppError`: the first `AppError` of the chain.
unfoldable pub as_app_error : GoError → Option AppError
as_app_error nil = none
as_app_error (plain m) = none
as_app_error (wrapped m e) = as_app_error e
as_app_error (app t m d s c) =
    some (record { error_type = t; message = m; details = d; status_code = s; cause = c })

-- `IsType`.
unfoldable pub is_type : GoError → ErrorType → Bool
is_type err error_type = elim (as_app_error err) [
  | none ↦ false
  | some e ↦ text_eq e.error_type error_type
]

-- The convenience constructors.
unfoldable pub new_authentication_error : Bytes → AppError
unfolding new with_status_code
new_authentication_error message = with_status_code (new authentication_error message) 401

unfoldable pub new_authorization_error : Bytes → AppError
unfolding new with_status_code
new_authorization_error message = with_status_code (new authorization_error message) 403

unfoldable pub new_network_error : Bytes → AppError
unfolding new with_status_code
new_network_error message = with_status_code (new network_error message) 503

unfoldable pub new_configuration_error : Bytes → AppError
unfolding new with_status_code
new_configuration_error message = with_status_code (new configuration_error message) 500

unfoldable pub new_validation_error : Bytes → AppError
unfolding new with_status_code
new_validation_error message = with_status_code (new validation_error message) 400

unfoldable pub new_server_error : Bytes → AppError
unfolding new with_status_code
new_server_error message = with_status_code (new server_error message) 500

unfoldable pub new_timeout_error : Bytes → AppError
unfolding new with_status_code
new_timeout_error message = with_status_code (new timeout_error message) 408

-- The switch of `FromHTTPStatus`. A status is an `int`; a negative one falls under `default`, as 0
-- does, and is left out.
unfoldable pub type_of_status : ℕ → ErrorType
type_of_status status_code =
    if status_code == 401
    then authentication_error
    else if status_code == 403
    then authorization_error
    else if leb 400 status_code && ltb status_code 500
    then validation_error
    else if leb 500 status_code
    then server_error
    else network_error

-- `FromHTTPStatus`.
unfoldable pub from_http_status : ℕ → Bytes → AppError
unfolding type_of_status new with_status_code
from_http_status status_code message =
    with_status_code (new (type_of_status status_code) message) status_code
