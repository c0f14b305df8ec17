-- ===== src/AuthUsecase/Calls.antt =====
-- The function that Register runs in a transaction is built of repository calls.
use go_hermes.AppError.{ok}
use go_hermes.AuthUsecase.{AuthLib, AuthDraws, register_tx}
use go_hermes.Entity.{User, Wallet}
use go_hermes.Store.{Repositories}
use go_hermes.Store.Calls.{IsCalls}
use go_hermes.UuidLib.{UuidLib}

pub register_tx-IsCalls :
    (r : Repositories) (u : UuidLib) (a : AuthLib) (d : AuthDraws) (x : User) (w : Wallet)
    → IsCalls r (User × Wallet) (register_tx r u a d x w)
unfolding register_tx
register_tx-IsCalls r u a d x w P c = c.chained _ _ (c.user_created x) λ user.
    c.chained _ _ (c.wallet_created w)
      λ wallet. c.chained _ _ (c.audit_created _) λ _. c.returned (ok (user, wallet))
