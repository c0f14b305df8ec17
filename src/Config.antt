-- ===== src/Config.antt =====
-- internal/config/config.go over the environment and the packages strings, strconv and fmt, which
-- are the parameter EnvLib.
pub mod Safe
use go_hermes.Base.{
  ℕ, String, Bool, true, false, Option, none, some, List, [], ◌∷◌, not, ◌&&◌, ◌||◌, ltb, str_eq,
  if◌then◌else◌,
}
use go_hermes.Base.Int.{ℤ, pos}
use go_hermes.Base.Int64.{mul64}
use go_hermes.AppError.{Result, ok, err, Error, other}
use go_hermes.Webhook.Create.{WebhookConfig}

pub record EnvLib : Type 0 where
  -- `os.LookupEnv`, `strconv.Atoi` and `strconv.ParseBool`; none is absence or an error.
  pub lookup_env : String → Option String
  pub atoi : String → Option ℤ
  pub parse_bool : String → Option Bool
  -- `strings.TrimSpace`, `strings.ToLower`, `strings.EqualFold` and Go's `len`.
  pub trim_space : String → String
  pub to_lower : String → String
  pub equal_fold : String → String → Bool
  pub len : String → ℕ
  -- `fmt.Sprintf` with the verb %s.
  pub sprintf : String → List String → String

pub record AppConfig : Type 0 where
  pub name : String
  pub env : String
  pub port : String

pub record DbConfig : Type 0 where
  pub host : String
  pub port : String
  pub user : String
  pub password : String
  pub name : String
  pub ssl_mode : String
  pub time_zone : String
  pub max_open_conns : ℤ
  pub max_idle_conns : ℤ
  pub conn_max_lifetime : ℤ

pub record JwtConfig : Type 0 where
  pub secret : String
  pub issuer : String
  pub expiry_minutes : ℤ

pub record RedisConfig : Type 0 where
  pub host : String
  pub port : String
  pub password : String
  pub db : ℤ

pub record RateLimitConfig : Type 0 where
  pub window_seconds : ℤ
  pub login : ℤ
  pub top_up : ℤ
  pub transfer : ℤ

pub record SeedConfig : Type 0 where
  pub enable_admin_seed : Bool
  pub admin_name : String
  pub admin_email : String
  pub admin_password : String

pub record DocsConfig : Type 0 where
  pub enabled : Bool

pub record ObservabilityConfig : Type 0 where
  pub metrics_enabled : Bool
  pub metrics_token : String

pub record Config : Type 0 where
  pub app : AppConfig
  pub db : DbConfig
  pub redis : RedisConfig
  pub rate_limit : RateLimitConfig
  pub jwt : JwtConfig
  pub seed : SeedConfig
  pub docs : DocsConfig
  pub observability : ObservabilityConfig
  pub webhook : WebhookConfig

abbrev pub min_jwt_secret_length : ℕ
min_jwt_secret_length = 32

-- The value, if there is one.
abbrev pub parsed_or {ℓ} : {A : Type ℓ} → Option A → A → A
parsed_or none fallback = fallback
parsed_or (some a) fallback = a

abbrev pub nonempty_or : Option String → String → String
nonempty_or none fallback = fallback
nonempty_or (some value) fallback = if not (str_eq value "") then value else fallback

abbrev pub is_one_of : List String → String → Bool
is_one_of [] s = false
is_one_of (t ∷ ts) s = str_eq s t || is_one_of ts s

-- The default secrets that isWeakJWTSecret knows.
abbrev pub default_secrets : List String
default_secrets =
    "change-me" ∷ "super-secret-change-me" ∷ "dev-only-change-me" ∷ "jwt-secret" ∷ "secret"
    ∷ "test-secret" ∷ []

module _ (e : EnvLib) where
  unfoldable pub get_env : String → String → String
  get_env key fallback = nonempty_or (e.lookup_env key) fallback

  unfoldable pub get_env_as_int : String → ℤ → ℤ
  unfolding get_env
  get_env_as_int key fallback =
      if str_eq (get_env key "") "" then fallback else parsed_or (e.atoi (get_env key "")) fallback

  unfoldable pub get_env_as_bool : String → Bool → Bool
  unfolding get_env
  get_env_as_bool key fallback =
      if str_eq (get_env key "") ""
      then fallback
      else parsed_or (e.parse_bool (get_env key "")) fallback

  unfoldable pub is_development_env : String → Bool
  is_development_env env = e.equal_fold env "development" || e.equal_fold env "dev"

  unfoldable pub is_development : AppConfig → Bool
  unfolding is_development_env
  is_development c = is_development_env c.env

  unfoldable pub is_weak_jwt_secret : String → Bool
  is_weak_jwt_secret secret =
      if ltb (e.len (e.trim_space secret)) min_jwt_secret_length
      then true
      else is_one_of default_secrets (e.to_lower (e.trim_space secret))

  unfoldable pub dsn : DbConfig → String
  dsn c =
      e.sprintf "host=%s port=%s user=%s password=%s dbname=%s sslmode=%s TimeZone=%s"
        (c.host ∷ c.port ∷ c.user ∷ c.password ∷ c.name ∷ c.ssl_mode ∷ c.time_zone ∷ [])

  unfoldable pub address : RedisConfig → String
  address c = e.sprintf "%s:%s" (c.host ∷ c.port ∷ [])

  -- The number of nanoseconds of a time.Minute.
  abbrev pub minutes : ℤ → ℤ
  minutes n = mul64 n (pos 60000000000)

  unfoldable pub load_db : DbConfig
  unfolding get_env get_env_as_int
  load_db = record {
    host = get_env "DB_HOST" "localhost";
    port = get_env "DB_PORT" "5432";
    user = get_env "DB_USER" "postgres";
    password = get_env "DB_PASSWORD" "postgres";
    name = get_env "DB_NAME" "go_hermes";
    ssl_mode = get_env "DB_SSLMODE" "disable";
    time_zone = get_env "DB_TIMEZONE" "Asia/Jakarta";
    max_open_conns = get_env_as_int "DB_MAX_OPEN_CONNS" (pos 25);
    max_idle_conns = get_env_as_int "DB_MAX_IDLE_CONNS" (pos 25);
    conn_max_lifetime = minutes (get_env_as_int "DB_CONN_MAX_LIFETIME_MINUTES" (pos 30));
  }

  unfoldable pub load : Config
  unfolding get_env get_env_as_int get_env_as_bool is_development_env load_db
  load =
      let app_env = get_env "APP_ENV" "development" in
      record {
        app = record {
          name = get_env "APP_NAME" "go-hermes";
          env = app_env;
          port = get_env "APP_PORT" "8080";
        };
        db = load_db;
        redis = record {
          host = get_env "REDIS_HOST" "localhost";
          port = get_env "REDIS_PORT" "6379";
          password = get_env "REDIS_PASSWORD" "";
          db = get_env_as_int "REDIS_DB" (pos 0);
        };
        rate_limit = record {
          window_seconds = get_env_as_int "RATE_LIMIT_WINDOW_SECONDS" (pos 60);
          login = get_env_as_int "RATE_LIMIT_LOGIN" (pos 10);
          top_up = get_env_as_int "RATE_LIMIT_TOPUP" (pos 20);
          transfer = get_env_as_int "RATE_LIMIT_TRANSFER" (pos 20);
        };
        jwt = record {
          secret = get_env "JWT_SECRET" "change-me";
          issuer = get_env "JWT_ISSUER" "go-hermes";
          expiry_minutes = get_env_as_int "JWT_EXPIRY_MINUTES" (pos 60);
        };
        seed = record {
          enable_admin_seed = get_env_as_bool "SEED_ADMIN_ENABLED" (is_development_env app_env);
          admin_name = get_env "SEED_ADMIN_NAME" "System Admin";
          admin_email = get_env "SEED_ADMIN_EMAIL" "admin@gohermes.local";
          admin_password = get_env "SEED_ADMIN_PASSWORD" "ChangeMe123!";
        };
        docs = record { enabled = get_env_as_bool "DOCS_ENABLED" true };
        observability = record {
          metrics_enabled = get_env_as_bool "METRICS_ENABLED" true;
          metrics_token = get_env "METRICS_TOKEN" "";
        };
        webhook = record {
          enabled = get_env_as_bool "WEBHOOK_ENABLED" false;
          target_url = get_env "WEBHOOK_TARGET_URL" "";
          secret = get_env "WEBHOOK_SECRET" "";
          max_retry = get_env_as_int "WEBHOOK_MAX_RETRY" (pos 3);
          retry_interval_seconds = get_env_as_int "WEBHOOK_RETRY_INTERVAL_SECONDS" (pos 30);
          worker_batch_size = get_env_as_int "WEBHOOK_WORKER_BATCH_SIZE" (pos 20);
        };
      }

  unfoldable pub validate : Config → Result (Unit {0})
  unfolding is_development is_weak_jwt_secret
  validate c =
      if str_eq (e.trim_space c.jwt.issuer) ""
      then err (other "JWT_ISSUER must be set")
      else if not (is_development c.app) && is_weak_jwt_secret c.jwt.secret
      then err (
          other
            "JWT_SECRET must be set to a non-default value with at least 32 characters outside development")
      else if c.observability.metrics_enabled
          && (not (is_development c.app) && str_eq (e.trim_space c.observability.metrics_token) "")
      then err (other "METRICS_TOKEN must be set when metrics are enabled outside development")
      else ok tt
