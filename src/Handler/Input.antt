-- ===== src/Handler/Input.antt =====
-- What a handler reads of a request: the bodies of internal/delivery/http/dto, the query, the
-- headers, and the locals of Auth; with the validator, the payload hash and parseInt.
use go_hermes.Base.{String, Option, none, some, List, [], ◌∷◌, map}
use Prim.Native.String.{◌++◌ as str_append}
use go_hermes.Base.Int.{ℤ, pos}
use go_hermes.AppError.{Result, ok, err}
use go_hermes.Pagination.{Params, new_params}

pub record RegisterBody : Type 0 where
  pub name : String
  pub email : String
  pub password : String

pub record LoginBody : Type 0 where
  pub email : String
  pub password : String

pub record TopUpBody : Type 0 where
  pub amount : ℤ
  pub description : Option String

pub record TransferBody : Type 0 where
  pub recipient_wallet_id : String
  pub amount : ℤ
  pub description : Option String

-- fiber.Ctx as a handler sees it: the body, `c.Query`, `c.Params`, `c.Get`, and the user id of
-- `c.Locals`, which Auth has set.
pub record HttpRequest : Type 0 where
  pub body : String
  pub query : String → String
  pub params : String → String
  pub header : String → String
  pub user_id : String

-- The error of `validate.Struct`: the fields with their failed tags, or another error's text.
pub data Invalid : Type 0 where
  fields : List (String × String) → Invalid
  unreadable : String → Invalid

-- The libraries, for a body of the type A: `c.BodyParser`, `validate.Struct`, `json.Marshal`, and the
-- hexadecimal SHA-256 of a text.
pub record BodyLib (A : Type 0) : Type 0 where
  pub body_parser : HttpRequest → Option A
  pub struct : A → Option Invalid
  pub marshal : A → Result String
  pub sha256_hex : String → String

abbrev pub field_detail : String × String → String × String
field_detail f = (f.0, str_append "failed on " f.1)

abbrev pub details_of : Option Invalid → List (String × String)
details_of none = []
details_of (some (Invalid.fields fs)) = map field_detail fs
details_of (some (Invalid.unreadable message)) = ("unknown", message) ∷ []

abbrev pub hashed : (String → String) → Result String → Result String
hashed sha256_hex (ok raw) = ok (sha256_hex raw)
hashed sha256_hex (err e) = err e

unfoldable pub hash_payload : {A : Type 0} → BodyLib A → A → Result String
hash_payload l payload = hashed l.sha256_hex (l.marshal payload)

-- `strconv.Atoi` is a parameter; none is an error.
abbrev pub parse_int : (String → Option ℤ) → String → ℤ → ℤ
parse_int atoi value fallback = elim (atoi value) [ some n ↦ n | none ↦ fallback ]

unfoldable pub page_of : (String → Option ℤ) → HttpRequest → Params
unfolding new_params
page_of atoi c =
    new_params (parse_int atoi (c.query "page") (pos 1)) (parse_int atoi (c.query "limit") (pos 10))
