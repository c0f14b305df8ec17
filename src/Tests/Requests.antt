-- ===== src/Tests/Requests.antt =====
-- Requests with a body each.
use go_hermes.Base.{Option, none, some, ◌≡◌, ap, subst, arith, str_eq, if◌then◌else◌}
use go_hermes.Base.Int.{ℤ, pos}
use go_hermes.Base.Int64.{IsInt64}
use go_hermes.AppError.{ok}
use go_hermes.Handler.Input.{HttpRequest, BodyLib, RegisterBody, TopUpBody, TransferBody}

abbrev pub request : HttpRequest
request = record {
  body = "{}";
  query = λ name. "";
  params = λ name. "";
  header = λ name. if str_eq name "Idempotency-Key" then "k" else "";
  user_id = "u-1";
}

-- The libraries where every body parses to the one given and passes the validator.
abbrev bodies : {A : Type 0} → A → BodyLib A
bodies body = record {
  body_parser = λ c. some body;
  struct = λ x. none;
  marshal = λ x. ok "payload";
  sha256_hex = λ text. "h";
}

abbrev pub sign_up_body : BodyLib RegisterBody
sign_up_body = bodies (record { name = "Carol"; email = "carol@x"; password = "secret12" })

abbrev pub top_up_body : BodyLib TopUpBody
top_up_body = bodies (record { amount = pos 30; description = none })

abbrev pub transfer_body : BodyLib TransferBody
transfer_body =
    bodies (record { recipient_wallet_id = "w-20"; amount = pos 10; description = none })

pub top_up_body-IsInt64 :
    (x : TopUpBody) → top_up_body.body_parser request ≡ some x → IsInt64 x.amount
top_up_body-IsInt64 x e =
    subst (λ n. IsInt64 n) (ap (λ o. amount_or o) e)
      (record { low = omega arith; high = omega arith })
  where
    amount_or : Option TopUpBody → ℤ
    amount_or none = pos 0
    amount_or (some y) = y.amount

pub transfer_body-IsInt64 :
    (x : TransferBody) → transfer_body.body_parser request ≡ some x → IsInt64 x.amount
transfer_body-IsInt64 x e =
    subst (λ n. IsInt64 n) (ap (λ o. amount_or o) e)
      (record { low = omega arith; high = omega arith })
  where
    amount_or : Option TransferBody → ℤ
    amount_or none = pos 0
    amount_or (some y) = y.amount
