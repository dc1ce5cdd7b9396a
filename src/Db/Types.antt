-- ===== src/Db/Types.antt =====
-- gorouter/internal/db/dbmanager.go: the records. A `*time.Time` is an `Option ℕ` of Unix seconds, a
-- `time.Time` is an ℕ of them, an `int` is a ℤ, a price or a cost is a whole number of millionths.
use yi_api_proxy.Base.{ℕ, String, Bool, List, [], ◌∷◌, Option}
use yi_api_proxy.Base.Int.{ℤ}

pub record User : Type 0 where
  pub id : String
  pub email : String
  pub name : String
  pub role : String
  pub status : String
  pub password_hash : String
  pub created_by : Option String
  pub created_at : ℕ
  pub updated_at : ℕ
  pub last_login_at : Option ℕ

-- `key_prefix` is walked by the program, so it is a list of bytes.
pub record ApiKey : Type 0 where
  pub id : String
  pub user_id : String
  pub name : String
  pub key_prefix : List ℕ
  pub key_hash : String
  pub scopes : List String
  pub status : String
  pub expires_at : Option ℕ
  pub last_used_at : Option ℕ
  pub created_at : ℕ
  pub revoked_at : Option ℕ

-- The OAuth fields are in `auth/oauth.go` only and are left out.
pub record ProviderConnection : Type 0 where
  pub id : String
  pub provider : String
  pub name : String
  pub auth_type : String
  pub encrypted_secret : String
  pub base_url : String
  pub priority : ℤ
  pub weight : ℤ
  pub tier : String
  pub status : String
  pub last_latency_ms : ℤ
  pub cooldown_until : Option ℕ
  pub last_error : String
  pub last_error_at : Option ℕ
  pub backoff_level : ℤ
  pub created_by : String
  pub created_at : ℕ
  pub updated_at : ℕ

-- The fields that the modelled parts read.
pub record Model : Type 0 where
  pub id : String
  pub provider_id : String
  pub model_id : String
  pub provider : String
  pub model_name : String
  pub input_cost_per_1k : ℕ
  pub output_cost_per_1k : ℕ
  pub enabled : Bool
  pub created_at : ℕ
  pub updated_at : ℕ

pub record ComboItem : Type 0 where
  pub id : String
  pub combo_id : String
  pub provider_id : String
  pub model_id : String
  pub priority : ℤ
  pub weight : ℤ
  pub max_retries : ℤ
  pub timeout_seconds : ℤ
  pub conditions : String

pub record Combo : Type 0 where
  pub id : String
  pub name : String
  pub description : String
  pub user_id : String
  pub strategy : String
  pub is_active : Bool
  pub items : List ComboItem
  pub created_by : String
  pub created_at : ℕ
  pub updated_at : ℕ

pub record ApiKeyCreated : Type 0 where
  pub id : String
  pub key : List ℕ
  pub name : String
  pub key_prefix : List ℕ
  pub scopes : List String
  pub expires_at : Option ℕ
  pub created_at : ℕ

pub record ApiKeyValidation : Type 0 where
  pub user_id : String
  pub user_role : String
  pub key_id : String
  pub key_prefix : List ℕ
  pub scopes : List String

abbrev pub default_scopes : List String
default_scopes = "chat" ∷ "completion" ∷ "embedding" ∷ []

pub record RateLimit : Type 0 where
  pub id : String
  pub user_id : String
  pub requests_per_minute : ℤ
  pub requests_per_day : ℤ
  pub tokens_per_minute : ℤ
  pub created_at : ℕ
  pub updated_at : ℕ

pub record Quota : Type 0 where
  pub id : String
  pub user_id : String
  pub monthly_token_cap : ℤ
  pub monthly_cost_cap : ℤ
  pub used_tokens : ℤ
  pub used_cost : ℤ
  pub reset_at : ℕ
  pub created_at : ℕ
  pub updated_at : ℕ

pub record ModelAlias : Type 0 where
  pub id : String
  pub name : String
  pub target_id : String
  pub provider : String
  pub description : String
  pub user_id : String
  pub created_by : String
  pub created_at : ℕ

pub record UsageEvent : Type 0 where
  pub id : String
  pub request_id : String
  pub user_id : String
  pub api_key_id : String
  pub requested_model : String
  pub final_model : String
  pub provider : String
  pub status_code : ℕ
  pub error_code : String
  pub prompt_tokens : ℤ
  pub completion_tokens : ℤ
  pub total_tokens : ℤ
  pub estimated_cost : ℤ
  pub latency_ms : ℤ
  pub fallback_count : ℤ
  pub is_stream : Bool
  pub created_at : ℕ

pub record AuditLog : Type 0 where
  pub id : String
  pub actor_id : String
  pub actor_email : String
  pub actor_role : String
  pub action : String
  pub target_type : String
  pub target_id : String
  pub details : String
  pub ip_address : String
  pub user_agent : String
  pub created_at : ℕ
