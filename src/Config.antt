-- ===== src/Config.antt =====
-- gorouter/internal/config/config.go: `Load` from the environment and `Validate`. A text's bytes are those of an
-- ASCII text; a number has its 64 bits.
pub mod Loaded
use mathlib.Core.Option
use yi_api_proxy.Base.{
  ℕ, zero, suc, ◌+◌, ◌-◌, ◌*◌, ◌≤◌, String, str_eq, Bool, true, false, List, [], ◌∷◌, Option, none,
  some, if◌then◌else◌, ◌&&◌, ◌||◌, not, leb, ltb, ◌==◌, map,
}
use yi_api_proxy.Base.Int.{ℤ, pos, negsuc, ltb_ℤ}
use yi_api_proxy.Base.Text.{codes, bytes_eq}
use yi_api_proxy.Base.Split.{split_on}
use yi_api_proxy.Aliases.{lower}

pub record AppConfig : Type 0 where
  pub listen_addr : String
  pub log_level : String
  pub database_driver : String
  pub database_dsn : String
  pub session_secret : String
  pub bootstrap_admin_email : String
  pub bootstrap_admin_password : String
  pub secret_encryption_key : String
  pub require_api_key : Bool
  pub redis_url : String
  pub enable_request_body_log : Bool
  pub usage_retention_days : ℤ
  pub request_log_retention_days : ℤ
  pub audit_log_retention_days : ℤ
  pub is_production : Bool
  pub routing_strategy : String
  pub allowed_origins : List (List ℕ)
  pub rtk_enabled : Bool
  pub rtk_default_filter : String
  pub caveman_level : String
  pub online_sync_url : String
  pub online_sync_token : String

-- `os.Getenv`, with "" for a variable that is not set.
abbrev pub Env : Type 0
Env = String → String

unfoldable pub get_env : Env → String → String → String
get_env env key fallback = if str_eq (env key) "" then fallback else env key

-- The value of decimal digits, at least one.
abbrev pub digits_from : ℕ → List ℕ → Option ℕ
digits_from n [] = some n
digits_from n (c ∷ cs) =
    let rest = digits_from (n * 10 + (c - 48)) cs in if leb 48 c && leb c 57 then rest else none

abbrev pub digits : List ℕ → Option ℕ
digits [] = none
digits (c ∷ cs) = digits_from 0 (c ∷ cs)

abbrev pub negated : ℕ → ℤ
negated zero = pos 0
negated (suc n) = negsuc n

abbrev pub at_most : ℕ → Option ℕ → Option ℕ
at_most bound none = none
at_most bound (some n) = if leb n bound then some n else none

-- `strconv.Atoi`, none for an error.
unfoldable pub atoi : List ℕ → Option ℤ
atoi [] = none
atoi (c ∷ cs) =
    if c == 45
    then Option.map negated (at_most 9223372036854775808 (digits cs))
    else Option.map pos
        (at_most 9223372036854775807 (if c == 43 then digits cs else digits (c ∷ cs)))

abbrev pub or_fallback : ℤ → Option ℤ → ℤ
or_fallback fallback none = fallback
or_fallback fallback (some i) = i

unfoldable pub get_env_int : Env → String → ℤ → ℤ
unfolding atoi
get_env_int env key fallback =
    if str_eq (env key) "" then fallback else or_fallback fallback (atoi (codes (env key)))

unfoldable pub get_env_bool : Env → String → Bool → Bool
get_env_bool env key fallback =
    let text = map lower (codes (env key)) in
    if str_eq (env key) ""
    then fallback
    else bytes_eq text (codes "true") || (bytes_eq text (codes "1") || bytes_eq text (codes "yes"))

unfoldable pub is_valid_strategy : String → Bool
is_valid_strategy s =
    str_eq s "priority"
    || (str_eq s "weighted"
        || (str_eq s "latency" || (str_eq s "cost" || (str_eq s "fallback" || str_eq s "tier"))))

abbrev pub strategy_or_priority : String → String
unfolding is_valid_strategy
strategy_or_priority s = if is_valid_strategy s then s else "priority"

abbrev pub origins_of : String → List (List ℕ)
unfolding split_on
origins_of origins = if str_eq origins "*" then codes "*" ∷ [] else split_on 44 (codes origins)

-- `none`: the program has exited.
unfoldable pub load : Env → Option AppConfig
unfolding get_env get_env_int get_env_bool is_valid_strategy split_on
load env =
    let secret = get_env env "GOROUTER_SESSION_SECRET" "" in
    let sealing = get_env env "GOROUTER_SECRET_ENCRYPTION_KEY" "" in
    let production = str_eq (get_env env "APP_ENV" "development") "production" in
    if str_eq secret "" && production
    then none
    else some (record {
      listen_addr = get_env env "GOROUTER_LISTEN_ADDR" ":20128";
      log_level = get_env env "GOROUTER_LOG_LEVEL" "info";
      database_driver = get_env env "GOROUTER_DATABASE_DRIVER" "sqlite";
      database_dsn = get_env env "GOROUTER_DATABASE_DSN" "gorouter.db";
      session_secret = if str_eq secret "" then "dev-secret-change-me" else secret;
      bootstrap_admin_email = get_env env "GOROUTER_BOOTSTRAP_ADMIN_EMAIL" "";
      bootstrap_admin_password = get_env env "GOROUTER_BOOTSTRAP_ADMIN_PASSWORD" "";
      secret_encryption_key =
          if str_eq sealing "" then get_env env "SECRET_ENCRYPTION_KEY" "" else sealing;
      require_api_key = get_env_bool env "GOROUTER_REQUIRE_API_KEY" false;
      redis_url = get_env env "GOROUTER_REDIS_URL" "";
      enable_request_body_log = get_env_bool env "GOROUTER_ENABLE_REQUEST_BODY_LOG" false;
      usage_retention_days = get_env_int env "GOROUTER_USAGE_RETENTION_DAYS" (pos 180);
      request_log_retention_days = get_env_int env "GOROUTER_REQUEST_LOG_RETENTION_DAYS" (pos 30);
      audit_log_retention_days = get_env_int env "GOROUTER_AUDIT_LOG_RETENTION_DAYS" (pos 365);
      is_production = production;
      routing_strategy = strategy_or_priority (get_env env "GOROUTER_ROUTING_STRATEGY" "priority");
      allowed_origins = origins_of (get_env env "GOROUTER_ALLOWED_ORIGINS" "*");
      rtk_enabled = get_env_bool env "GOROUTER_RTK_ENABLED" false;
      rtk_default_filter = get_env env "GOROUTER_RTK_DEFAULT_FILTER" "autodetect";
      caveman_level = get_env env "GOROUTER_CAVEMAN_LEVEL" "";
      online_sync_url = get_env env "GOROUTER_ONLINE_SYNC_URL" "";
      online_sync_token = get_env env "GOROUTER_ONLINE_SYNC_TOKEN" "";
    })

pub data ConfigError : Type 0 where
  unsupported_driver no_session_secret no_admin_password no_encryption_key : ConfigError
  usage_retention request_log_retention audit_log_retention : ConfigError

abbrev pub is_driver : String → Bool
is_driver d =
    str_eq d "json" || (str_eq d "sqlite" || (str_eq d "postgres" || str_eq d "postgresql"))

-- The first error, none for nil.
unfoldable pub validate : AppConfig → Option ConfigError
validate c =
    if not (is_driver c.database_driver)
    then some unsupported_driver
    else if str_eq c.session_secret "" && c.is_production
    then some no_session_secret
    else if not (str_eq c.bootstrap_admin_email "") && str_eq c.bootstrap_admin_password ""
    then some no_admin_password
    else if str_eq c.secret_encryption_key "" && c.is_production
    then some no_encryption_key
    else if ltb_ℤ c.usage_retention_days (pos 1)
    then some usage_retention
    else if ltb_ℤ c.request_log_retention_days (pos 1)
    then some request_log_retention
    else if ltb_ℤ c.audit_log_retention_days (pos 1)
    then some audit_log_retention
    else none

unfoldable pub normalized_driver : AppConfig → String
normalized_driver c =
    if str_eq c.database_driver "postgresql" then "postgres" else c.database_driver
