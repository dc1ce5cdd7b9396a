-- ===== src/Tests/Configs.antt =====
-- gorouter/internal/config/config.go and gorouter/internal/db/cleanup.go: runs on the defaults.
use yi_api_proxy.Base.{
  ℕ, ◌≡◌, refl, String, str_eq, true, false, [], ◌∷◌, none, some, arith, ◌||◌, ◌&&◌, filterb,
  if◌then◌else◌,
}
use yi_api_proxy.Base.Int.{pos, negsuc, ◌≤ℤ◌}
use yi_api_proxy.Base.Text.{codes}
use yi_api_proxy.Db.Types.{UsageEvent}
use yi_api_proxy.Db.Table.{Table, list}
use yi_api_proxy.Retention.{default_retention_policy, is_enabled, run_cleanup, days_long}
use yi_api_proxy.Retention.Kept.{is_kept, run_cleanup_lem}
use yi_api_proxy.Config.{
  AppConfig, Env, load, validate, get_env, get_env_int, get_env_bool, is_valid_strategy,
  normalized_driver, atoi,
}
use yi_api_proxy.Config.Loaded.{validate-load}

abbrev env : Env
env key = if str_eq key "GOROUTER_USAGE_RETENTION_DAYS" then "30" else ""

abbrev config : AppConfig
config = record {
  listen_addr = ":20128";
  log_level = "info";
  database_driver = "sqlite";
  database_dsn = "gorouter.db";
  session_secret = "dev-secret-change-me";
  bootstrap_admin_email = "";
  bootstrap_admin_password = "";
  secret_encryption_key = "";
  require_api_key = false;
  redis_url = "";
  enable_request_body_log = false;
  usage_retention_days = pos 30;
  request_log_retention_days = pos 30;
  audit_log_retention_days = pos 365;
  is_production = false;
  routing_strategy = "priority";
  allowed_origins = codes "*" ∷ [];
  rtk_enabled = false;
  rtk_default_filter = "autodetect";
  caveman_level = "";
  online_sync_url = "";
  online_sync_token = "";
}

validate-load_example :
    (is_valid_strategy "priority" ≡ true)
    × (str_eq "dev-secret-change-me" "" ≡ false)
    × ((str_eq (normalized_driver config) "json"
          || (str_eq (normalized_driver config) "sqlite"
              || str_eq (normalized_driver config) "postgres"))
        ≡ true)
    × ((str_eq "" "" && false) ≡ false)
    × (pos 1 ≤ℤ pos 30)
    × (pos 1 ≤ℤ pos 30)
    × (pos 1 ≤ℤ pos 365)
unfolding load validate get_env get_env_int get_env_bool is_valid_strategy atoi
validate-load_example = validate-load env config refl refl

abbrev event : String → ℕ → UsageEvent
event id created_at = record {
  id = id;
  request_id = "";
  user_id = "u1";
  api_key_id = "";
  requested_model = "gpt-4o";
  final_model = "gpt-4o";
  provider = "openai";
  status_code = 200;
  error_code = "";
  prompt_tokens = pos 1;
  completion_tokens = pos 1;
  total_tokens = pos 2;
  estimated_cost = pos 0;
  latency_ms = pos 9;
  fallback_count = pos 0;
  is_stream = false;
  created_at = created_at;
}

abbrev events : Table UsageEvent
events = some (("old", event "old" 1000) ∷ ("new", event "new" 9000000) ∷ [])

run_cleanup_lem_example :
    (is_enabled (default_retention_policy (pos 30) (pos 30) (pos 365)) ≡ true)
    × (list
          (run_cleanup 9100000000000000
            (default_retention_policy (pos 30) (pos 30) (pos 365))
            (events, none)).0
        ≡ filterb (λ e. is_kept 9100000000000000 30 e.created_at) (list events))
    × (list
          (run_cleanup 9100000000000000
            (default_retention_policy (pos 30) (pos 30) (pos 365))
            (events, none)).1
        ≡ filterb (λ l. is_kept 9100000000000000 365 l.created_at) (list none))
run_cleanup_lem_example =
    run_cleanup_lem 9100000000000000 30 365 (pos 30) events none (omega arith) (omega arith)
      (omega arith) (omega arith)

-- 213504 days do not fit: the retention is 25 minutes.
long_retention_wraps : days_long (pos 213504) ≡ pos 1526290448384
long_retention_wraps = refl

-- 200000 days come out negative, so nothing is deleted.
longer_than_a_duration : days_long (pos 200000) ≡ negsuc 1166744073709551615
longer_than_a_duration = refl
