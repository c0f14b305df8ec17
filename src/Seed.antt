-- ===== src/Seed.antt =====
-- seedAdmin of cmd/api/main.go. The values of uuid.New and time.Now are arguments.
pub mod Calls
pub mod Once
use go_hermes.Base.{String, Bool, some, [], not, ◌||◌, str_eq, if◌then◌else◌}
use go_hermes.Base.Int.{pos}
use go_hermes.AppError.{Error, Result, ok, err, is_not_found, is_unique_violation}
use go_hermes.AuthUsecase.{AuthLib, attempted_call, lifted}
use go_hermes.Config.{EnvLib, Config, is_development}
use go_hermes.Entity.{Uuid, Time, Role, User, Wallet, WalletStatus, AuditLog}
use go_hermes.Json.{text, obj, field, end}
use go_hermes.Store.{M, Repositories, pure, ◌>>=◌, ◌>>◌}

pub record SeedDraws : Type 0 where
  pub admin_id : Uuid
  pub wallet_id : Uuid
  pub audit_id : Uuid
  pub audit_at : Time

unfoldable pub seed_user : SeedDraws → Config → String → User
seed_user d c password_hash = record {
  id = d.admin_id;
  name = c.seed.admin_name;
  email = c.seed.admin_email;
  password_hash = password_hash;
  role = Role.admin;
  created_at = 0;
  updated_at = 0;
}

unfoldable pub seed_wallet : SeedDraws → Wallet
seed_wallet d = record {
  id = d.wallet_id;
  user_id = d.admin_id;
  balance = pos 0;
  status = WalletStatus.active;
  created_at = 0;
  updated_at = 0;
}

unfoldable pub seed_audit : SeedDraws → String → AuditLog
seed_audit d email = record {
  id = d.audit_id;
  actor_user_id = some d.admin_id;
  action = "ADMIN_SEEDED";
  entity_type = "user";
  entity_id = some d.admin_id;
  metadata = obj (field "email" (text email) end);
  created_at = d.audit_at;
}

-- `return err`
abbrev pub fail : {Db A : Type 0} → Error → M Db A
fail e s = (err e, s)

abbrev pub is_skipped : EnvLib → Config → Bool
is_skipped e c =
    not (is_development e c.app)
    || (not c.seed.enable_admin_seed
        || (str_eq c.seed.admin_email "" || str_eq c.seed.admin_password ""))

module _ (r : Repositories) (a : AuthLib) (d : SeedDraws) where
  -- After the insert of the administrator.
  unfoldable pub seed_rest : Result User → M r.Db (Unit {0})
  unfolding seed_wallet seed_audit
  seed_rest (ok admin) = do
    wallet ← r.wallets.create (seed_wallet d)
    r.audits.create (seed_audit d admin.email)
  seed_rest (err e) = if is_unique_violation e then pure tt else fail e

  unfoldable pub seed_new : Config → M r.Db (Unit {0})
  unfolding seed_rest seed_user
  seed_new c = do
    password_hash ← lifted (a.hash_password c.seed.admin_password)
    created ← attempted_call (r.users.create (seed_user d c password_hash))
    seed_rest created

  -- The answer to GetByEmail.
  unfoldable pub seed_unless : Config → Result User → M r.Db (Unit {0})
  unfolding seed_new
  seed_unless c (ok existing) = pure tt
  seed_unless c (err e) = if not (is_not_found e) then fail e else seed_new c

  unfoldable pub seed_tx : Config → M r.Db (Unit {0})
  unfolding seed_unless
  seed_tx c = do
    existing ← attempted_call (r.users.get_by_email c.seed.admin_email)
    seed_unless c existing

  unfoldable pub seed_admin : EnvLib → Config → M r.Db (Unit {0})
  unfolding seed_tx
  seed_admin e c =
      if is_skipped e c then pure tt else r.tx.within_transaction (Unit {0}) (seed_tx c)
