-- ===== src/AppError.antt =====
-- The errors of internal/pkg/apperror/error.go and the tests on database errors of
-- internal/repository/errors.go, with the result type of every call that may fail.
use go_hermes.Base.{ℕ, String, Bool, true, false, List, [], str_eq, ◌≡◌, refl}

-- The fields of apperror.Error but for the wrapped cause, which `wrapped` below carries.
pub record AppError : Type 0 where
  pub status : ℕ
  pub code : String
  pub message : String
  pub details : List (String × String)

-- What the code tells apart of a Go `error`: an application error, without and with a cause,
-- gorm.ErrRecordNotFound, a PostgreSQL error with its SQLSTATE, and anything else.
pub data Error : Type 0 where
  app : AppError → Error
  wrapped : AppError → Error → Error
  record_not_found : Error
  pg : String → Error
  other : String → Error

pub data Result {ℓ} (A : Type ℓ) : Type ℓ where
  ok : A → Result A
  err : Error → Result A

abbrev pub new : ℕ → String → String → List (String × String) → Error
new status code message details =
    app (record { status = status; code = code; message = message; details = details })

abbrev pub wrap : Error → ℕ → String → String → Error
wrap e status code message =
    wrapped (record { status = status; code = code; message = message; details = [] }) e

abbrev pub validation : List (String × String) → Error
validation details = new 400 "INVALID_REQUEST" "validation error" details

abbrev pub unauthorized : String → Error
unauthorized message = new 401 "UNAUTHORIZED" message []

abbrev pub forbidden : String → Error
forbidden message = new 403 "FORBIDDEN" message []

abbrev pub not_found : String → Error
not_found message = new 404 "NOT_FOUND" message []

abbrev pub conflict : String → Error
conflict message = new 409 "CONFLICT" message []

abbrev pub bad_request : String → Error
bad_request message = new 400 "BAD_REQUEST" message []

abbrev pub internal : Error → Error
internal e = wrap e 500 "INTERNAL_ERROR" "internal server error"

-- `As`: an application error stays, anything else becomes an internal error.
abbrev pub as_app : Error → Error
as_app (app a) = app a
as_app (wrapped a e) = wrapped a e
as_app record_not_found = internal record_not_found
as_app (pg s) = internal (pg s)
as_app (other s) = internal (other s)

-- An `*apperror.Error`.
abbrev pub is_app : Error → Bool
is_app (app a) = true
is_app (wrapped a e) = true
is_app record_not_found = false
is_app (pg s) = false
is_app (other s) = false

pub as_app-is_app : (e : Error) → is_app (as_app e) ≡ true
as_app-is_app (app a) = refl
as_app-is_app (wrapped a e) = refl
as_app-is_app record_not_found = refl
as_app-is_app (pg s) = refl
as_app-is_app (other s) = refl

abbrev pub is_not_found : Error → Bool
is_not_found record_not_found = true
is_not_found (wrapped a e) = is_not_found e
is_not_found (app a) = false
is_not_found (pg s) = false
is_not_found (other s) = false

-- The SQLSTATE of the PostgreSQL error that an error is or wraps.
abbrev pub has_sqlstate : String → Error → Bool
has_sqlstate code (pg s) = str_eq s code
has_sqlstate code (wrapped a e) = has_sqlstate code e
has_sqlstate code (app a) = false
has_sqlstate code record_not_found = false
has_sqlstate code (other s) = false

abbrev pub is_unique_violation : Error → Bool
is_unique_violation = has_sqlstate "23505"

abbrev pub is_check_violation : Error → Bool
is_check_violation = has_sqlstate "23514"

abbrev pub is_foreign_key_violation : Error → Bool
is_foreign_key_violation = has_sqlstate "23503"
