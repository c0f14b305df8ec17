-- ===== src/Tests/Access.antt =====
-- Configurations, seeds, tokens and routes at concrete inputs.
use go_hermes.Base.{
  String, Bool, true, false, none, some, [], ◌∷◌, ◌≡◌, ◌≢◌, ◌⊎◌, inl, inr, ◌↔◌, refl, sym, arith,
  ◌&&◌, true_ne_false, str_eq, str_eq_iff, if◌then◌else◌,
}
use go_hermes.Base.Int.{pos}
use go_hermes.AppError.{Result, ok, err, other}
use go_hermes.AuthUsecase.{Claims, JwtManager, AuthLib, AuthDraws, generate_token}
use go_hermes.Config.{EnvLib, Config, load, validate, is_development}
use go_hermes.Config.Safe.{IsSafe, validate-IsSafe}
use go_hermes.Entity.{Role, User}
use go_hermes.Middleware.{JwtLib, TextLib, Ctx, auth, require_role, parse_token}
use go_hermes.Middleware.Bearer.{IsJwt, auth-generate_token}
use go_hermes.Router.{
  Route, Parts, Limit, Method, Action, on, admin_guards, authenticated, register_routes, run_guards,
}
use go_hermes.Router.Starts.{IsAmong}
use go_hermes.Router.Guarded.{IsSigned, register_routes-IsSigned, register_routes-admin}
use go_hermes.Seed.{SeedDraws, seed_admin}
use go_hermes.Seed.Once.{IsSeeded, seed_admin-once}
use go_hermes.Store.{◌>>=◌}
use go_hermes.Gorm.Repositories.{gorm_repositories}
use go_hermes.Gorm.Session.{Session, within_transaction}
use go_hermes.Gorm.Audits
use go_hermes.Gorm.Users
use go_hermes.Gorm.Wallets
use go_hermes.Tables.Sql.{sql}
use go_hermes.Tables.Sql.Documented.{sql-IsGorm}
use go_hermes.Tests.World.{uuid, start}

-- No variable is set.
abbrev environment : EnvLib
environment = record {
  lookup_env = λ key. none;
  atoi = λ s. none;
  parse_bool = λ s. none;
  trim_space = λ s. s;
  to_lower = λ s. s;
  equal_fold = str_eq;
  len = λ s. 9;
  sprintf = λ format xs. format;
}

abbrev defaults : Config
defaults = load environment

validate-IsSafe_example : (validate environment defaults ≡ ok tt) ↔ IsSafe environment defaults
validate-IsSafe_example = validate-IsSafe environment defaults

-- A token is signed for administrators of one id only.
abbrev tokens : AuthLib
tokens = record {
  trim_space = λ s. s;
  to_lower = λ s. s;
  len = λ s. 8;
  hash_password = λ s. ok "hashed";
  same_password = λ s h. true;
  sign = λ key claims.
      if str_eq claims.user_id "id" && str_eq claims.role "admin"
      then ok "token"
      else err (other "no key");
}

abbrev signed_claims : Claims
signed_claims = record {
  user_id = "id";
  role = "admin";
  issuer = "go-hermes";
  subject = "id";
  expires_at = 0;
  issued_at = 0;
}

abbrev parser : JwtLib
parser = record {
  parse_with_claims =
      λ methods issuer keys now token. ok (record { claims = some signed_claims; valid = true });
}

sign-ok :
    (a b : Bool) {token : String}
    → ◌≡◌ {A = Result String} (if a && b then ok "token" else err (other "no key")) (ok token)
    → (a ≡ true) × (b ≡ true)
sign-ok true true h = (refl, refl)
sign-ok true false h = absurd (ground arith)
sign-ok false b h = absurd (ground arith)

parser-IsJwt : IsJwt parser tokens
parser-IsJwt = record {
  signed = λ key claims token keys now made known fresh.
      let (id, role) = sign-ok (str_eq claims.user_id "id") (str_eq claims.role "admin") made in
      (
        signed_claims,
        refl,
        sym ((str_eq_iff claims.user_id "id").0 id),
        sym ((str_eq_iff claims.role "admin").0 role),
      );
}

abbrev text_lib : TextLib
text_lib = record {
  split_n = λ s sep n. "Bearer" ∷ "token" ∷ [];
  split = λ s sep. s ∷ [];
  trim = λ s cutset. s;
  equal_fold = str_eq;
  len = λ s. 0;
}

abbrev root : User
root = record {
  id = 1;
  name = "Root";
  email = "root@x";
  password_hash = "hashed";
  role = Role.admin;
  created_at = 0;
  updated_at = 0;
}

abbrev manager : JwtManager
manager = record { secret_key = "key"; issuer = "go-hermes"; expiry = pos 3600000000000 }

abbrev token_draws : AuthDraws
token_draws = record {
  new_user_id = 3;
  new_wallet_id = 30;
  audit_id = 800;
  audit_at = 70;
  token_at = 71;
  issued_at = 72;
}

abbrev request : Ctx
request = record { header = λ name. "Bearer token"; user_id = none; role = none; trace_id = none }

abbrev let_in : Ctx
let_in = record request { user_id = some "id"; role = some "admin" }

makes_token : generate_token uuid tokens manager token_draws root ≡ ok "token"
unfolding generate_token
makes_token = refl

not_blank : request.header "Authorization" ≢ ""
not_blank h = true_ne_false (sym ((str_eq_iff (request.header "Authorization") "").1 h))

auth-generate_token_example :
    auth text_lib parser manager 100 request
    ≡ ok (record request { user_id = some "id"; role = some "admin" })
auth-generate_token_example =
    auth-generate_token text_lib parser uuid tokens parser-IsJwt manager token_draws root "token"
      "Bearer" 100 request makes_token (omega arith) not_blank refl refl

abbrev all_parts : Parts
all_parts = record {
  login_limit = true;
  top_up_limit = true;
  transfer_limit = true;
  metrics_endpoint = true;
  metrics_auth = true;
  docs_enabled = true;
}

abbrev no_limit : Limit → Ctx → Result Ctx
no_limit kind c = ok c

no_limit-same : (kind : Limit) (c c' : Ctx) → no_limit kind c ≡ ok c' → c' ≡ c
no_limit-same kind c c' h = ground arith

abbrev my_wallet : Route
my_wallet = on Method.get "/api/v1/wallets/me" (authenticated ∷ []) Action.wallet_me

abbrev audit_logs_route : Route
audit_logs_route = on Method.get "/api/v1/admin/audit-logs" admin_guards Action.admin_audit_logs

my_wallet-IsAmong : IsAmong my_wallet (register_routes all_parts)
unfolding register_routes
my_wallet-IsAmong = inr (inr (inr (inr (inr (inr (inr (inl refl)))))))

audit_logs_route-IsAmong : IsAmong audit_logs_route (register_routes all_parts)
unfolding register_routes
audit_logs_route-IsAmong =
    inr
      (inr (inr (inr (inr (inr (inr (inr (inr (inr (inr (inr (inr (inr (inr (inl refl)))))))))))))))

passes_wallet :
    run_guards text_lib parser manager 100 no_limit "" (authenticated ∷ []) request ≡ ok let_in
unfolding run_guards auth parse_token
passes_wallet = refl

passes_admin : run_guards text_lib parser manager 100 no_limit "" admin_guards request ≡ ok let_in
unfolding run_guards auth parse_token require_role
passes_admin = refl

register_routes-IsSigned_example : IsSigned text_lib parser manager 100 request let_in
register_routes-IsSigned_example =
    register_routes-IsSigned text_lib parser manager 100 no_limit "" no_limit-same all_parts
      my_wallet request let_in my_wallet-IsAmong refl passes_wallet

register_routes-admin_example :
    IsSigned text_lib parser manager 100 request let_in × (let_in.role ≡ some "admin")
register_routes-admin_example =
    register_routes-admin text_lib parser manager 100 no_limit "" no_limit-same all_parts
      audit_logs_route request let_in audit_logs_route-IsAmong refl passes_admin

abbrev seeds : SeedDraws
seeds = record { admin_id = 5; wallet_id = 50; audit_id = 500; audit_at = 90 }

abbrev later_seeds : SeedDraws
later_seeds = record { admin_id = 6; wallet_id = 60; audit_id = 600; audit_at = 95 }

abbrev fresh_session : Session sql
fresh_session = record { ctx = record { tx = none }; db = start }

abbrev seeded : Session sql
seeded =
    (seed_admin (gorm_repositories sql uuid 0) tokens seeds environment defaults fresh_session).1

seeds_first :
    seed_admin (gorm_repositories sql uuid 0) tokens seeds environment defaults fresh_session
    ≡ (ok tt, seeded)
unfolding seed_admin within_transaction Users.get_by_email Users.create Wallets.create Audits.create
    ◌>>=◌ load is_development
seeds_first = refl

seeds_again :
    seed_admin (gorm_repositories sql uuid 0) tokens later_seeds environment defaults seeded
    ≡ (ok tt, seeded)
unfolding seed_admin within_transaction Users.get_by_email Users.create Wallets.create Audits.create
    ◌>>=◌ load is_development
seeds_again = refl

seed_admin-once_example :
    ((seeded.db ≡ start)
      × ((seeded.db ≡ seeded.db) ⊎ IsSeeded later_seeds defaults seeded.db seeded.db))
    ⊎ (IsSeeded seeds defaults start seeded.db × (seeded.db ≡ seeded.db))
unfolding sql-IsGorm
seed_admin-once_example =
    seed_admin-once sql sql-IsGorm uuid 0 tokens defaults seeds later_seeds environment
      fresh_session seeded seeded seeds_first seeds_again
