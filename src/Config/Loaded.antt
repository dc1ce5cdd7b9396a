-- ===== src/Config/Loaded.antt =====
-- gorouter/internal/config/config.go: what holds of a configuration that was loaded and passed `Validate`.
use yi_api_proxy.Base.{
  String, str_eq, ◌≡◌, refl, subst, Bool, true, false, Option, none, some, if◌then◌else◌, ◌&&◌,
  ◌||◌, arith, Bool-cases, inl, inr,
}
use yi_api_proxy.Base.Int.{pos, ◌≤ℤ◌}
use yi_api_proxy.Config.{
  AppConfig, Env, is_valid_strategy, strategy_or_priority, load, validate, is_driver,
  normalized_driver, get_env,
}

strategy_or_priority_lem : (s : String) → is_valid_strategy (strategy_or_priority s) ≡ true
unfolding is_valid_strategy
strategy_or_priority_lem s = elim (Bool-cases (is_valid_strategy s)) [
  | inl e ↦ rw e e
  | inr e ↦ rw e refl
]

module _ (P : AppConfig → Type 0) where
  abbrev Each : Option AppConfig → Type 0
  Each none = Unit
  Each (some c) = P c

module _ (P : AppConfig → Type 0) where
  Each-if : (b : Bool) (c : AppConfig) → P c → Each P (if b then none else some c)
  Each-if true c h = tt
  Each-if false c h = h

abbrev IsUsable : AppConfig → Type 0
IsUsable c = (is_valid_strategy c.routing_strategy ≡ true) × (str_eq c.session_secret "" ≡ false)

dev_secret : (s : String) → str_eq (if str_eq s "" then "dev-secret-change-me" else s) "" ≡ false
dev_secret s = elim (Bool-cases (str_eq s "")) [ inl e ↦ rw e refl | inr e ↦ rw e e ]

load_lem : (env : Env) → Each IsUsable (load env)
unfolding load
load_lem env = Each-if IsUsable _ _ (
  strategy_or_priority_lem (get_env env "GOROUTER_ROUTING_STRATEGY" "priority"),
  dev_secret (get_env env "GOROUTER_SESSION_SECRET" ""),
)

validate_lem :
    (c : AppConfig)
    → validate c ≡ none
    → (is_driver c.database_driver ≡ true)
      × ((str_eq c.secret_encryption_key "" && c.is_production) ≡ false)
      × (pos 1 ≤ℤ c.usage_retention_days)
      × (pos 1 ≤ℤ c.request_log_retention_days)
      × (pos 1 ≤ℤ c.audit_log_retention_days)
unfolding validate
validate_lem c h = ground arith

normalized_driver_lem :
    (c : AppConfig)
    → is_driver c.database_driver ≡ true
    → (str_eq (normalized_driver c) "json"
        || (str_eq (normalized_driver c) "sqlite" || str_eq (normalized_driver c) "postgres"))
      ≡ true
unfolding normalized_driver
normalized_driver_lem c h = elim (Bool-cases (str_eq c.database_driver "postgresql")) [
  | inl e ↦ rw e refl
  | inr e ↦ rw e (ground arith)
]

-- A configuration that `Load` gives and `Validate` accepts, whatever the environment is: the routing strategy is one
-- that the router knows, the session secret is not empty, the driver is json, sqlite or postgres once it is
-- normalized, in production there is a key for the secrets of the providers, and each of the three
-- retentions is at least one day.
pub validate-load :
    (env : Env) (c : AppConfig)
    → load env ≡ some c
    → validate c ≡ none
    → (is_valid_strategy c.routing_strategy ≡ true)
      × (str_eq c.session_secret "" ≡ false)
      × ((str_eq (normalized_driver c) "json"
            || (str_eq (normalized_driver c) "sqlite" || str_eq (normalized_driver c) "postgres"))
          ≡ true)
      × ((str_eq c.secret_encryption_key "" && c.is_production) ≡ false)
      × (pos 1 ≤ℤ c.usage_retention_days)
      × (pos 1 ≤ℤ c.request_log_retention_days)
      × (pos 1 ≤ℤ c.audit_log_retention_days)
validate-load env c e v =
    let usable = subst (Each IsUsable) e (load_lem env) in
    let valid = validate_lem c v in
    (usable.0, usable.1, normalized_driver_lem c valid.0, valid.1, valid.2, valid.3, valid.4)
