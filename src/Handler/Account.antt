-- ===== src/Handler/Account.antt =====
-- handler/auth.go, and the reads of handler/user_wallet.go and the check of handler/admin_health.go.
use go_hermes.Base.{String, none}
use go_hermes.AuthUsecase.{
  AuthLib, AuthDraws, JwtManager, RegisterResponse, LoginResponse, register, login,
}
use go_hermes.Entity.{Time}
use go_hermes.Handler.Input.{HttpRequest, BodyLib, RegisterBody, LoginBody}
use go_hermes.Handler.Reply.{Reply, success, answer, with_body}
use go_hermes.Health.{check}
use go_hermes.Json.{Json, text, obj, field, end}
use go_hermes.Store.{Repositories}
use go_hermes.Types.{UserResponse, WalletResponse}
use go_hermes.UserWallet.{BalanceResponse, get_me, get_my_wallet, get_my_balance}
use go_hermes.UuidLib.{UuidLib}

module _ (r : Repositories) (u : UuidLib) where
  unfoldable pub register_handler :
      AuthLib
      → AuthDraws
      → BodyLib RegisterBody
      → HttpRequest
      → r.Db
      → Reply RegisterResponse × r.Db
  unfolding with_body register
  register_handler a d l c = with_body l c λ req s.
      answer (λ result. success 201 result none)
        (register r u a d (record { name = req.name; email = req.email; password = req.password })
          s)

  unfoldable pub login_handler :
      AuthLib
      → AuthDraws
      → JwtManager
      → BodyLib LoginBody
      → HttpRequest
      → r.Db
      → Reply LoginResponse × r.Db
  unfolding with_body login
  login_handler a d j l c = with_body l c λ req s.
      answer (λ result. success 200 result none)
        (login r u a d j (record { email = req.email; password = req.password }) s)

  unfoldable pub me_handler : HttpRequest → r.Db → Reply UserResponse × r.Db
  unfolding get_me
  me_handler c s = answer (λ result. success 200 result none) (get_me r u c.user_id s)

  unfoldable pub wallet_handler : HttpRequest → r.Db → Reply WalletResponse × r.Db
  unfolding get_my_wallet
  wallet_handler c s = answer (λ result. success 200 result none) (get_my_wallet r u c.user_id s)

  unfoldable pub balance_handler :
      (Time → String) → HttpRequest → r.Db → Reply BalanceResponse × r.Db
  unfolding get_my_balance
  balance_handler rfc3339 c s =
      answer (λ result. success 200 result none) (get_my_balance r u rfc3339 c.user_id s)

  unfoldable pub health_handler : r.Db → Reply Json × r.Db
  unfolding check
  health_handler s =
      answer (λ done. success 200 (obj (field "status" (text "ok") end)) none) (check r.health s)
