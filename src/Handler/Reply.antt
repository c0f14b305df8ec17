-- ===== src/Handler/Reply.antt =====
-- internal/delivery/http/response/writer.go: the answer to a request, as its status and what the
-- envelope of internal/pkg/apiresponse/response.go holds.
use go_hermes.Base.{ℕ, String, Option, none, some, List, [], ◌∷◌}
use go_hermes.AppError.{
  AppError, Error, Result, ok, err, app, wrapped, record_not_found, pg, other, as_app, validation,
}
use go_hermes.Handler.Input.{HttpRequest, BodyLib, details_of}
use go_hermes.Json.{Json}

pub data Reply (A : Type 0) : Type 0 where
  -- The status, the data and the meta of a SuccessEnvelope.
  success : ℕ → A → Option Json → Reply A
  -- The status, the message, the code and the details of an ErrorEnvelope.
  failure : ℕ → String → String → List (String × String) → Reply A
  -- The status and the body as it is.
  raw_json : ℕ → Json → Reply A

abbrev pub app_reply : {A : Type 0} → AppError → Reply A
app_reply e = Reply.failure e.status e.message e.code e.details

-- As returns an application error.
abbrev pub reply_of : {A : Type 0} → Error → Reply A
reply_of (app e) = app_reply e
reply_of (wrapped e cause) = app_reply e
reply_of record_not_found = Reply.failure 500 "internal server error" "INTERNAL_ERROR" []
reply_of (pg code) = Reply.failure 500 "internal server error" "INTERNAL_ERROR" []
reply_of (other message) = Reply.failure 500 "internal server error" "INTERNAL_ERROR" []

unfoldable pub error_reply : {A : Type 0} → Error → Reply A
error_reply e = reply_of (as_app e)

-- `if err != nil { return Error(c, err) }`, and what follows.
abbrev pub answer : {S A B : Type 0} → (A → Reply B) → Result A × S → Reply B × S
answer f (ok a, s) = (f a, s)
answer f (err e, s) = (error_reply e, s)

-- The details of the validator are looked at before the rest.
abbrev pub if_valid : {S B : Type 0} → List (String × String) → (S → Reply B × S) → S → Reply B × S
if_valid [] k s = k s
if_valid (d ∷ ds) k s = (error_reply (validation (d ∷ ds)), s)

abbrev pub with_body_of :
    {S A B : Type 0} → BodyLib A → Option A → (A → S → Reply B × S) → S → Reply B × S
with_body_of l none k s = (error_reply (validation (("body", "invalid request body") ∷ [])), s)
with_body_of l (some x) k s = if_valid (details_of (l.struct x)) (k x) s

-- BodyParser and the validator, as every handler with a body begins.
unfoldable pub with_body :
    {S A B : Type 0} → BodyLib A → HttpRequest → (A → S → Reply B × S) → S → Reply B × S
with_body l c k s = with_body_of l (l.body_parser c) k s
