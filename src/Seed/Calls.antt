-- ===== src/Seed/Calls.antt =====
-- The function that seedAdmin runs in a transaction is built of repository calls.
use go_hermes.Base.{not}
use go_hermes.AppError.{Result, ok, err, is_not_found, is_unique_violation}
use go_hermes.AuthUsecase.{AuthLib, lifted}
use go_hermes.Config.{Config}
use go_hermes.Entity.{User}
use go_hermes.Seed.{SeedDraws, seed_rest, seed_new, seed_unless, seed_tx}
use go_hermes.Store.{M, Repositories}
use go_hermes.Store.Calls.{IsCalls, IsClosed, if-closed}

module _ (r : Repositories) (a : AuthLib) (d : SeedDraws) (c : Config) where
  module _ (P : (A : Type 0) → M r.Db A → Type 0) (p : IsClosed r P) where
    lifted-closed : {A : Type 0} (res : Result A) → P A (lifted res)
    lifted-closed (ok x) = p.returned (ok x)
    lifted-closed (err e) = p.returned (err e)

    seed_rest-closed : (res : Result User) → P (Unit {0}) (seed_rest r a d res)
    unfolding seed_rest
    seed_rest-closed (ok admin) = p.chained _ _ (p.wallet_created _) λ wallet. p.audit_created _
    seed_rest-closed (err e) =
        if-closed r P p (is_unique_violation e) (p.returned (ok tt)) (p.returned (err e))

    seed_new-closed : P (Unit {0}) (seed_new r a d c)
    unfolding seed_new
    seed_new-closed =
        p.chained _ _ (lifted-closed (a.hash_password c.seed.admin_password)) λ hash.
          p.chained _ _ (p.attempted _ (p.user_created _)) λ created. seed_rest-closed created

    seed_unless-closed : (res : Result User) → P (Unit {0}) (seed_unless r a d c res)
    unfolding seed_unless
    seed_unless-closed (ok existing) = p.returned (ok tt)
    seed_unless-closed (err e) =
        if-closed r P p (not (is_not_found e)) (p.returned (err e)) seed_new-closed

  pub seed_tx-IsCalls : IsCalls r (Unit {0}) (seed_tx r a d c)
  unfolding seed_tx
  seed_tx-IsCalls P p =
      p.chained _ _ (p.attempted _ (p.user_found c.seed.admin_email))
        λ existing. seed_unless-closed P p existing
