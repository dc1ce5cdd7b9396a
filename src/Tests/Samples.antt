-- ===== src/Tests/Samples.antt =====
-- Concrete connections, models, limits and requests.
use yi_api_proxy.Base.{ℕ, String, List, [], ◌∷◌, none, true}
use yi_api_proxy.Base.Int.{pos}
use yi_api_proxy.Db.Types.{ProviderConnection, Model, RateLimit, Quota}

abbrev pub small_limit : RateLimit
small_limit = record {
  id = "rl1";
  user_id = "u1";
  requests_per_minute = pos 2;
  requests_per_day = pos 3;
  tokens_per_minute = pos 100;
  created_at = 0;
  updated_at = 0;
}

abbrev pub spent_quota : Quota
spent_quota = record {
  id = "q1";
  user_id = "u1";
  monthly_token_cap = pos 1000;
  monthly_cost_cap = pos 0;
  used_tokens = pos 1000;
  used_cost = pos 0;
  reset_at = 5000;
  created_at = 0;
  updated_at = 0;
}

abbrev pub connection : String → ℕ → ℕ → ProviderConnection
connection id priority weight = record {
  id = id;
  provider = "openai";
  name = id;
  auth_type = "api_key";
  encrypted_secret = "sealed";
  base_url = "";
  priority = pos priority;
  weight = pos weight;
  tier = "subscription";
  status = "active";
  last_latency_ms = pos 120;
  cooldown_until = none;
  last_error = "";
  last_error_at = none;
  backoff_level = pos 0;
  created_by = "admin";
  created_at = 1;
  updated_at = 1;
}

abbrev pub gpt_on : String → Model
gpt_on provider_id = record {
  id = "m-1";
  provider_id = provider_id;
  model_id = "gpt-4o";
  provider = "openai";
  model_name = "GPT-4o";
  input_cost_per_1k = 2500;
  output_cost_per_1k = 10000;
  enabled = true;
  created_at = 1;
  updated_at = 1;
}

abbrev pub two_connections : List ProviderConnection
two_connections = connection "a" 1 3 ∷ connection "b" 5 1 ∷ []
