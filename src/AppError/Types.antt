-- ===== src/AppError/Types.antt =====
-- internal/errors/errors.go: the type of an error and of its wrappers.
use mcp_remote_go.Base.{ℕ, ◌≡◌, ◌↔◌, ◌≤◌, refl, ◌∙◌, true, List, [], ◌∷◌, some, arith, Bytes}
use mcp_remote_go.Text.{text_eq}
use mcp_remote_go.Text.Laws.{text_eq_iff}
use mcp_remote_go.AppError.{
  ErrorType, authentication_error, authorization_error, server_error, GoError, wrapped, AppError,
  to_error, as_app_error, is_type, type_of_status, from_http_status, new, with_status_code,
}

-- An error wrapped by `fmt.Errorf` with `%w`, once for each message.
abbrev pub wrap_all : List Bytes → GoError → GoError
wrap_all [] e = e
wrap_all (m ∷ ms) e = wrapped m (wrap_all ms e)

as_app_error-wrap_all :
    (ms : List Bytes) (e : GoError) → as_app_error (wrap_all ms e) ≡ as_app_error e
unfolding as_app_error
as_app_error-wrap_all [] e = refl
as_app_error-wrap_all (m ∷ ms) e = as_app_error-wrap_all ms e

as_app_error-to_error : (e : AppError) → as_app_error (to_error e) ≡ some e
unfolding as_app_error
as_app_error-to_error e = refl

is_type_found :
    (e : GoError) (a : AppError) (t : ErrorType)
    → as_app_error e ≡ some a
    → is_type e t ≡ text_eq a.error_type t
unfolding is_type
is_type_found e a t h = ground arith

-- `IsType` finds an `AppError` under any number of wrappers, and answers for the outermost one: its
-- own type counts, whatever it was caused by.
pub is_type-wrap_all :
    (ms : List Bytes) (e : AppError) (t : ErrorType)
    → (is_type (wrap_all ms (to_error e)) t ≡ true) ↔ (e.error_type ≡ t)
is_type-wrap_all ms e t =
    rw
      (is_type_found (wrap_all ms (to_error e)) e t
        (as_app_error-wrap_all ms (to_error e) ∙ as_app_error-to_error e))
      (text_eq_iff e.error_type t)

-- An error made from a status keeps the status, and `IsType` takes it for an authentication error
-- at 401 only, for an authorization error at 403 only, and for a server error from 500 on only.
pub is_type-from_http_status :
    (s : ℕ) (message : Bytes)
    → ((from_http_status s message).status_code ≡ s)
      × ((is_type (to_error (from_http_status s message)) authentication_error ≡ true) ↔ (s ≡ 401))
      × ((is_type (to_error (from_http_status s message)) authorization_error ≡ true) ↔ (s ≡ 403))
      × ((is_type (to_error (from_http_status s message)) server_error ≡ true) ↔ (500 ≤ s))
unfolding from_http_status type_of_status new with_status_code is_type as_app_error text_eq
is_type-from_http_status s message = (refl, ground arith, ground arith, ground arith)
