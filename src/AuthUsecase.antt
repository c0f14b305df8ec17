-- ===== src/AuthUsecase.antt =====
-- Registration and login: internal/usecase/auth.go, with the token of internal/pkg/auth/jwt.go. The
-- packages strings, bcrypt and golang-jwt are the parameter AuthLib; the values of uuid.New and
-- time.Now are arguments.
pub mod Calls
pub mod Account
pub mod Failure
use go_hermes.Base.{
  ℕ, String, Bool, true, false, Option, none, some, List, [], ◌∷◌, not, ◌||◌, ◌+◌, ◌-◌, str_eq, ltb,
  if◌then◌else◌,
}
use go_hermes.Base.Int.{ℤ, pos, pos_part, neg_part}
use go_hermes.AppError.{
  Error, Result, ok, err, validation, conflict, unauthorized, internal, is_not_found,
  is_unique_violation,
}
use go_hermes.Entity.{Uuid, Time, Role, User, Wallet, WalletStatus, AuditLog}
use go_hermes.Json.{Json, text, obj, field, end}
use go_hermes.Store.{M, Repositories, pure, require, map_error, ◌>>=◌, ◌>>◌}
use go_hermes.Types.{
  RegisterRequest, LoginRequest, UserResponse, WalletResponse, role_text, to_user_response,
  to_wallet_response,
}
use go_hermes.UuidLib.{UuidLib}

pub record Claims : Type 0 where
  pub user_id : String
  pub role : String
  pub issuer : String
  pub subject : String
  pub expires_at : Time
  pub issued_at : Time

pub record AuthLib : Type 0 where
  -- `strings.TrimSpace`, `strings.ToLower` and Go's `len`.
  pub trim_space : String → String
  pub to_lower : String → String
  pub len : String → ℕ
  -- `hash.Password`, and whether `hash.Compare` returns no error.
  pub hash_password : String → Result String
  pub same_password : String → String → Bool
  -- `token.SignedString` of HS256 under a secret.
  pub sign : String → Claims → Result String

pub record JwtManager : Type 0 where
  pub secret_key : String
  pub issuer : String
  pub expiry : ℤ

-- The results of uuid.New() and time.Now().
pub record AuthDraws : Type 0 where
  pub new_user_id : Uuid
  pub new_wallet_id : Uuid
  pub audit_id : Uuid
  pub audit_at : Time
  pub token_at : Time
  pub issued_at : Time

pub record RegisterResponse : Type 0 where
  pub user : UserResponse
  pub wallet : WalletResponse

pub record LoginResponse : Type 0 where
  pub access_token : String
  pub expires_at : Time
  pub user : UserResponse

-- A call whose error is looked at: `v, err := f()`.
abbrev pub attempted_call : {Db A : Type 0} → M Db A → M Db (Result A)
attempted_call m s = let (res, t) = m s in (ok res, t)

abbrev pub lifted : {Db A : Type 0} → Result A → M Db A
lifted (ok a) s = (ok a, s)
lifted (err e) s = (err e, s)

abbrev pub token_claims : UuidLib → JwtManager → Time → Time → User → Claims
token_claims u j expires_at issued_at x = record {
  user_id = u.text x.id;
  role = role_text x.role;
  issuer = j.issuer;
  subject = u.text x.id;
  expires_at = expires_at;
  issued_at = issued_at;
}

abbrev pub token_expiry : JwtManager → Time → Time
token_expiry j now = now + pos_part j.expiry - neg_part j.expiry

unfoldable pub generate_token : UuidLib → AuthLib → JwtManager → AuthDraws → User → Result String
generate_token u a j d x =
    a.sign j.secret_key (token_claims u j (token_expiry j d.token_at) d.issued_at x)

unfoldable pub new_user : AuthDraws → String → String → String → User
new_user d name email password_hash = record {
  id = d.new_user_id;
  name = name;
  email = email;
  password_hash = password_hash;
  role = Role.user;
  created_at = 0;
  updated_at = 0;
}

unfoldable pub new_wallet : AuthDraws → Wallet
new_wallet d = record {
  id = d.new_wallet_id;
  user_id = d.new_user_id;
  balance = pos 0;
  status = WalletStatus.active;
  created_at = 0;
  updated_at = 0;
}

unfoldable pub register_audit : AuthDraws → User → AuditLog
register_audit d x = record {
  id = d.audit_id;
  actor_user_id = some x.id;
  action = "USER_REGISTERED";
  entity_type = "user";
  entity_id = some x.id;
  metadata = obj (field "email" (text x.email) (field "role" (text (role_text x.role)) end));
  created_at = d.audit_at;
}

unfoldable pub login_audit : AuthDraws → User → AuditLog
login_audit d x = record {
  id = d.audit_id;
  actor_user_id = some x.id;
  action = "USER_LOGGED_IN";
  entity_type = "user";
  entity_id = some x.id;
  metadata = obj (field "email" (text x.email) end);
  created_at = d.audit_at;
}

-- The answer to GetByEmail before a registration.
abbrev pub check_free : {Db : Type 0} → Result User → M Db (Unit {0})
check_free (ok x) s = (err (conflict "email already registered"), s)
check_free (err e) s = if is_not_found e then (ok tt, s) else (err (internal e), s)

abbrev pub register_error : Error → Error
register_error e = if is_unique_violation e then conflict "email already registered" else internal e

abbrev pub login_error : Error → Error
login_error e = if is_not_found e then unauthorized "invalid credentials" else internal e

module _ (r : Repositories) (u : UuidLib) (a : AuthLib) (d : AuthDraws) where
  -- The function that the transaction runs.
  unfoldable pub register_tx : User → Wallet → M r.Db (User × Wallet)
  unfolding register_audit
  register_tx x w = do
    user ← r.users.create x
    wallet ← r.wallets.create w
    r.audits.create (register_audit d user)
    pure (user, wallet)

  -- From the normalized name and email on.
  unfoldable pub register_as : String → String → String → M r.Db RegisterResponse
  unfolding register_tx new_user new_wallet to_user_response to_wallet_response
  register_as name email password = do
    require (not (str_eq name "" || (str_eq email "" || ltb (a.len password) 8))) (
        validation
          (("name/email/password", "name, email, and password minimum 8 chars are required") ∷ []))
    existing ← attempted_call (r.users.get_by_email email)
    check_free existing
    password_hash ← map_error internal (lifted (a.hash_password password))
    created ← map_error register_error (
        r.tx.within_transaction (User × Wallet)
          (register_tx (new_user d name email password_hash) (new_wallet d)))
    pure (record { user = to_user_response u created.0; wallet = to_wallet_response u created.1 })

  unfoldable pub register : RegisterRequest → M r.Db RegisterResponse
  unfolding register_as
  register req =
      register_as (a.trim_space req.name) (a.to_lower (a.trim_space req.email)) req.password

  unfoldable pub login_as : JwtManager → String → String → M r.Db LoginResponse
  unfolding generate_token login_audit to_user_response
  login_as j email password = do
    require (not (str_eq email "" || str_eq password ""))
        (validation (("email/password", "email and password are required") ∷ []))
    user ← map_error login_error (r.users.get_by_email email)
    require (a.same_password password user.password_hash) (unauthorized "invalid credentials")
    token ← map_error internal (lifted (generate_token u a j d user))
    map_error internal (r.audits.create (login_audit d user))
    pure (record {
      access_token = token;
      expires_at = token_expiry j d.token_at;
      user = to_user_response u user;
    })

  unfoldable pub login : JwtManager → LoginRequest → M r.Db LoginResponse
  unfolding login_as
  login j req = login_as j (a.to_lower (a.trim_space req.email)) req.password
