-- ===== src/UserWallet.antt =====
-- The reads of the caller's own data: internal/usecase/user_wallet.go.
pub mod Agree
use go_hermes.Base.{String, Bool, Option, none, some, if◌then◌else◌}
use go_hermes.Base.Int.{ℤ}
use go_hermes.AppError.{Error, bad_request, not_found, internal, is_not_found}
use go_hermes.Entity.{Time, Wallet}
use go_hermes.Store.{M, Repositories, pure, some_or, map_error, ◌>>=◌}
use go_hermes.Types.{UserResponse, WalletResponse, to_user_response, to_wallet_response}
use go_hermes.UuidLib.{UuidLib}

pub record BalanceResponse : Type 0 where
  pub wallet_id : String
  pub balance : ℤ
  pub currency : String
  pub updated_at : String

-- The response to GetMyBalance; `rfc3339` is time.Time.Format with that layout.
abbrev pub balance_of : UuidLib → (Time → String) → Wallet → BalanceResponse
balance_of u rfc3339 wallet = record {
  wallet_id = u.text wallet.id;
  balance = wallet.balance;
  currency = "IDR";
  updated_at = rfc3339 wallet.updated_at;
}

-- `IsNotFound(err)` becomes a 404 with a message, any other error a 500.
abbrev pub read_error : String → Error → Error
read_error message e = if is_not_found e then not_found message else internal e

module _ (r : Repositories) (u : UuidLib) where
  unfoldable pub get_me : String → M r.Db UserResponse
  unfolding to_user_response
  get_me user_id = do
    parsed ← some_or (u.parse user_id) (bad_request "invalid user id")
    user ← map_error (read_error "user not found") (r.users.get_by_id parsed)
    pure (to_user_response u user)

  unfoldable pub get_my_wallet : String → M r.Db WalletResponse
  unfolding to_wallet_response
  get_my_wallet user_id = do
    parsed ← some_or (u.parse user_id) (bad_request "invalid user id")
    wallet ← map_error (read_error "wallet not found") (r.wallets.get_by_user_id parsed)
    pure (to_wallet_response u wallet)

  unfoldable pub get_my_balance : (Time → String) → String → M r.Db BalanceResponse
  get_my_balance rfc3339 user_id = do
    parsed ← some_or (u.parse user_id) (bad_request "invalid user id")
    wallet ← map_error (read_error "wallet not found") (r.wallets.get_by_user_id parsed)
    pure (balance_of u rfc3339 wallet)
