-- ===== src/Tests/Account.antt =====
-- A registration and the reads of one's own wallet.
use go_hermes.Base.{some, none, String, true, ◌≡◌, refl}
use go_hermes.Base.Int.{pos}
use go_hermes.AppError.{Result, ok, err}
use go_hermes.AuthUsecase.{AuthLib, AuthDraws, RegisterResponse, register}
use go_hermes.AuthUsecase.Account.{IsAccount, register-IsAccount}
use go_hermes.Entity.{Time, User, Wallet}
use go_hermes.Store.{◌>>=◌, require, some_or, map_error}
use go_hermes.Store.View.{View}
use go_hermes.Tables.{tables}
use go_hermes.Tables.Lawful.{tables-IsStore}
use go_hermes.Tables.Accounts.{tables-IsAccountStore}
use go_hermes.Types.{RegisterRequest, to_user_response, to_wallet_response}
use go_hermes.UserWallet.{BalanceResponse, get_my_wallet, get_my_balance, balance_of}
use go_hermes.UserWallet.Agree.{own_wallet_shown}
use go_hermes.Entity.{Uuid, Wallet}
use go_hermes.Gorm.Repositories.{gorm_repositories}
use go_hermes.Gorm.Session.{Session}
use go_hermes.Gorm.Wallets
use go_hermes.Store.View.{wallet_of_user}
use go_hermes.Tables.Sql.{sql}
use go_hermes.Tables.Sql.Documented.{sql-IsGorm}
use go_hermes.Tests.World.{uuid, start, alice}

abbrev pub auth_lib : AuthLib
auth_lib = record {
  trim_space = λ s. s;
  to_lower = λ s. s;
  len = λ s. 8;
  hash_password = λ s. ok "hashed";
  same_password = λ s h. true;
  sign = λ secret claims. ok "token";
}

abbrev pub auth_draws : AuthDraws
auth_draws = record {
  new_user_id = 3;
  new_wallet_id = 30;
  audit_id = 800;
  audit_at = 70;
  token_at = 71;
  issued_at = 72;
}

abbrev pub sign_up : RegisterRequest
sign_up = record { name = "Carol"; email = "carol@x"; password = "secret12" }

abbrev run_register : Result RegisterResponse × View
run_register = register tables uuid auth_lib auth_draws sign_up start

abbrev response_of : Result RegisterResponse → RegisterResponse
response_of (ok x) = x
response_of (err e) = record {
  user = record { id = ""; name = ""; email = ""; role = ""; created_at = 0 };
  wallet = to_wallet_response uuid alice;
}

registers : run_register ≡ (ok (response_of run_register.0), run_register.1)
unfolding register ◌>>=◌ require map_error
registers = refl

register-IsAccount_example :
    (x : User) × (w : Wallet) × IsAccount tables tables-IsStore tables-IsAccountStore uuid auth_lib
      auth_draws sign_up start run_register.1 x w
    × (response_of run_register.0
        ≡ record { user = to_user_response uuid x; wallet = to_wallet_response uuid w })
register-IsAccount_example =
    register-IsAccount tables tables-IsStore tables-IsAccountStore uuid auth_lib auth_draws sign_up
      start run_register.1 (response_of run_register.0) registers

abbrev clock : Time → String
clock t = "2024-01-01T00:00:00Z"

abbrev alice_balance : BalanceResponse
alice_balance = record {
  wallet_id = "id";
  balance = pos 100;
  currency = "IDR";
  updated_at = "2024-01-01T00:00:00Z";
}

abbrev session : Session sql
session = record { ctx = record { tx = none }; db = start }

wallet_read :
    get_my_wallet (gorm_repositories sql uuid 0) uuid "u-1" session
    ≡ (ok (to_wallet_response uuid alice), session)
unfolding get_my_wallet ◌>>=◌ some_or map_error Wallets.get_by_user_id
wallet_read = refl

balance_read :
    get_my_balance (gorm_repositories sql uuid 0) uuid clock "u-1" session
    ≡ (ok alice_balance, session)
unfolding get_my_balance ◌>>=◌ some_or map_error Wallets.get_by_user_id
balance_read = refl

own_wallet_shown_example :
    (i : Uuid) × (w : Wallet) × (uuid.parse "u-1" ≡ some i)
    × (wallet_of_user i start.wallets ≡ some w)
    × (w.user_id ≡ i)
    × (to_wallet_response uuid alice ≡ to_wallet_response uuid w)
    × (alice_balance ≡ balance_of uuid clock w)
    × (start ≡ start)
    × (start ≡ start)
unfolding sql-IsGorm
own_wallet_shown_example =
    own_wallet_shown sql sql-IsGorm uuid 0 clock "u-1" session session session session
      (to_wallet_response uuid alice) alice_balance refl wallet_read balance_read
