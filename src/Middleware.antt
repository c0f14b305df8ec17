-- ===== src/Middleware.antt =====
-- The request guards: ParseToken of internal/pkg/auth/jwt.go, internal/middleware/auth.go,
-- internal/middleware/metrics_auth.go and internal/middleware/trace.go. The packages strings and
-- golang-jwt are parameters. A handler that calls c.Next() returns the request with its locals.
pub mod Bearer
use go_hermes.Base.{
  ℕ, String, Bool, true, false, Option, none, some, List, [], ◌∷◌, not, ◌&&◌, ◌==◌, str_eq,
  if◌then◌else◌,
}
use go_hermes.AppError.{Error, Result, ok, err, other, unauthorized, forbidden}
use go_hermes.AuthUsecase.{Claims, JwtManager}
use go_hermes.Entity.{Time, Role}
use go_hermes.Types.{role_text}

-- `jwt.Token`: its claims, if they have the type asked for, and Valid.
pub record Token : Type 0 where
  pub claims : Option Claims
  pub valid : Bool

pub record JwtLib : Type 0 where
  -- ParseWithClaims of a parser with the valid methods and the issuer, under a key function of the
  -- token's method, at a time.
  pub parse_with_claims :
      List String → String → (String → Result String) → Time → String → Result Token

pub record TextLib : Type 0 where
  -- `strings.SplitN`, `strings.Split`, `strings.Trim`, `strings.EqualFold` and Go's `len`.
  pub split_n : String → String → ℕ → List String
  pub split : String → String → List String
  pub trim : String → String → String
  pub equal_fold : String → String → Bool
  pub len : String → ℕ

-- A request: its headers, and the locals that the guards set.
pub record Ctx : Type 0 where
  pub header : String → String
  pub user_id : Option String
  pub role : Option String
  pub trace_id : Option String

abbrev pub hs256 : String
hs256 = "HS256"

abbrev pub key_of : JwtManager → String → Result String
key_of j alg =
    if not (str_eq alg hs256) then err (other "unexpected signing method") else ok j.secret_key

abbrev pub valid_claims : Token → Result Claims
valid_claims t = elim t.claims [
  | some c ↦ if t.valid then ok c else err (other "invalid token")
  | none ↦ err (other "invalid token")
]

abbrev pub checked_token : Result Token → Result Claims
checked_token (ok t) = valid_claims t
checked_token (err e) = err e

unfoldable pub parse_token : JwtLib → JwtManager → Time → String → Result Claims
parse_token l j now token =
    checked_token (l.parse_with_claims (hs256 ∷ []) j.issuer (key_of j) now token)

abbrev pub set_claims : Result Claims → Ctx → Result Ctx
set_claims (ok claims) c = ok (record c { user_id = some claims.user_id; role = some claims.role })
set_claims (err e) c = err (unauthorized "invalid token")

module _ (t : TextLib) where
  abbrev pub invalid_header : Result String
  invalid_header = err (unauthorized "invalid authorization header")

  -- The token after the word Bearer.
  abbrev pub bearer_token : List String → Result String
  bearer_token [] = invalid_header
  bearer_token (scheme ∷ []) = invalid_header
  bearer_token (scheme ∷ (token ∷ [])) =
      if not (t.equal_fold scheme "Bearer") then invalid_header else ok token
  bearer_token (scheme ∷ (token ∷ (more ∷ rest))) = invalid_header

  abbrev pub with_token : JwtLib → JwtManager → Time → Result String → Ctx → Result Ctx
  with_token l j now (ok token) c = set_claims (parse_token l j now token) c
  with_token l j now (err e) c = err e

  unfoldable pub auth : JwtLib → JwtManager → Time → Ctx → Result Ctx
  auth l j now c =
      if str_eq (c.header "Authorization") ""
      then err (unauthorized "missing authorization header")
      else with_token l j now (bearer_token (t.split_n (c.header "Authorization") " " 2)) c

  abbrev pub is_role : Role → Option String → Bool
  is_role role none = false
  is_role role (some current) = str_eq current (role_text role)

  unfoldable pub require_role : Role → Ctx → Result Ctx
  require_role role c =
      if not (is_role role c.role) then err (forbidden "insufficient role") else ok c

  abbrev pub is_bearer : List String → String → Bool
  is_bearer [] token = false
  is_bearer (scheme ∷ []) token = false
  is_bearer (scheme ∷ (given ∷ [])) token = t.equal_fold scheme "Bearer" && str_eq given token
  is_bearer (scheme ∷ (given ∷ (more ∷ rest))) token = false

  unfoldable pub protect_metrics : String → Ctx → Result Ctx
  protect_metrics token c =
      if str_eq token ""
      then ok c
      else if str_eq (c.header "X-Metrics-Token") token
      then ok c
      else if is_bearer (t.split_n (c.header "Authorization") " " 2) token
      then ok c
      else err (unauthorized "invalid metrics token")

  abbrev pub trace_part : List String → String
  trace_part (version ∷ (trace_id ∷ (parent_id ∷ (flags ∷ [])))) =
      if not (t.len trace_id == 32)
      then ""
      else if str_eq (t.trim trace_id "0") ""
      then ""
      else trace_id
  trace_part _ = ""

  unfoldable pub parse_trace_parent : String → String
  parse_trace_parent header = trace_part (t.split header "-")

  unfoldable pub trace_context : Ctx → Ctx
  unfolding parse_trace_parent
  trace_context c =
      let trace_id = parse_trace_parent (c.header "traceparent") in
      if not (str_eq trace_id "") then record c { trace_id = some trace_id } else c
