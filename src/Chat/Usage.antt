-- ===== src/Chat/Usage.antt =====
-- gorouter/internal/handlers/v1/chat.go: `extractUsage`, the costs and `recordUsage`. A cost is rounded down to
-- a whole millionth.
use yi_api_proxy.Base.{
  ℕ, ◌+◌, ◌*◌, ◌/◌, String, str_eq, Bool, List, Option, none, some, if◌then◌else◌, ◌&&◌, not, leb,
  ltb, findb,
}
use yi_api_proxy.Base.Int.{ℤ, pos, negsuc, ◌+ℤ◌, ◌-ℤ◌}
use yi_api_proxy.Base.Assoc.{lookup}
use yi_api_proxy.Db.Types.{Model, UsageEvent, Quota, ApiKeyValidation}
use yi_api_proxy.Db.Table.{Table, after, init}
use yi_api_proxy.Db.Events.{create_usage}
use yi_api_proxy.Db.Quotas.{increment_usage}
use yi_api_proxy.Routing.Select.{names_model}
use yi_api_proxy.UserCombos.{UserContext}
use yi_api_proxy.Chat.{TokenUsage, Field, number, unread, Value, object, text, ignored, Body}

-- int(f), towards zero, of a number of millionths.
abbrev pub truncate : ℤ → ℤ
truncate (pos n) = pos (n / 1000000)
truncate (negsuc n) = pos 0 -ℤ pos ((n + 1) / 1000000)

abbrev pub int_or_zero : Option Field → ℤ
int_or_zero none = pos 0
int_or_zero (some unread) = pos 0
int_or_zero (some (number f)) = truncate f

abbrev pub usage_in : Option Value → Option TokenUsage
usage_in none = none
usage_in (some ignored) = none
usage_in (some (text s)) = none
usage_in (some (object fields)) = some (record {
  prompt_tokens = int_or_zero (lookup "prompt_tokens" fields);
  completion_tokens = int_or_zero (lookup "completion_tokens" fields);
  total_tokens = int_or_zero (lookup "total_tokens" fields);
})

-- `none` is a nil map.
unfoldable pub extract_usage : Option Body → Option TokenUsage
extract_usage none = none
extract_usage (some body) = usage_in (lookup "usage" body)

-- tokens * price / 1000
abbrev pub priced : ℤ → ℕ → ℤ
priced (pos n) price = pos (n * price / 1000)
priced (negsuc n) price = pos 0 -ℤ pos ((n + 1) * price / 1000)

unfoldable pub calculate_cost : ℤ → ℤ → ℕ → ℕ → ℤ
calculate_cost prompt_tokens completion_tokens input_price output_price =
    priced prompt_tokens input_price +ℤ priced completion_tokens output_price

abbrev pub cost_at : ℤ → ℤ → Option Model → ℤ
unfolding calculate_cost
cost_at prompt_tokens completion_tokens none = pos 0
cost_at prompt_tokens completion_tokens (some m) =
    calculate_cost prompt_tokens completion_tokens m.input_cost_per_1k m.output_cost_per_1k

unfoldable pub calculate_model_cost : List Model → String → ℤ → ℤ → ℤ
unfolding calculate_cost
calculate_model_cost models model_id prompt_tokens completion_tokens =
    cost_at prompt_tokens completion_tokens (findb (names_model model_id) models)

-- What `recordUsage` gets: from the context, the clock and the random numbers.
pub record Recording : Type 0 where
  pub usage_id : String
  pub request_id : String
  pub claims : Option UserContext
  pub validation : Option ApiKeyValidation
  pub now : ℕ
  pub latency : ℤ

abbrev pub key_user : Option ApiKeyValidation → String
key_user none = ""
key_user (some av) = av.user_id

-- claims.UserID, or that of the validated key.
abbrev pub user_of : Option UserContext → Option ApiKeyValidation → String
user_of none av = key_user av
user_of (some c) av = if str_eq c.user_id "" then key_user av else c.user_id

abbrev pub key_of : Option ApiKeyValidation → String
key_of none = ""
key_of (some av) = av.key_id

abbrev pub tokens : (TokenUsage → ℤ) → Option TokenUsage → ℤ
tokens field none = pos 0
tokens field (some u) = field u

abbrev pub cost_of : List Model → String → Option TokenUsage → ℤ
cost_of models model none = pos 0
cost_of models model (some u) =
    calculate_model_cost models model u.prompt_tokens u.completion_tokens

unfoldable pub event_of :
    Recording → List Model → String → Bool → ℕ → String → String → Option TokenUsage → UsageEvent
unfolding calculate_model_cost
event_of rec models requested is_stream status model provider usage = record {
  id = rec.usage_id;
  request_id = rec.request_id;
  user_id = user_of rec.claims rec.validation;
  api_key_id = key_of rec.validation;
  requested_model = requested;
  final_model = model;
  provider = provider;
  status_code = status;
  error_code = "";
  prompt_tokens = tokens (λ u. u.prompt_tokens) usage;
  completion_tokens = tokens (λ u. u.completion_tokens) usage;
  total_tokens = tokens (λ u. u.total_tokens) usage;
  estimated_cost = cost_of models model usage;
  latency_ms = rec.latency;
  fallback_count = pos 0;
  is_stream = is_stream;
  created_at = rec.now;
}

-- statusCode >= 200 && statusCode < 300
abbrev pub is_success : ℕ → Bool
is_success status = leb 200 status && ltb status 300

unfoldable pub charge : ℕ → ℕ → String → ℤ → Option TokenUsage → Table Quota → Table Quota
unfolding increment_usage
charge now status user_id cost none t = t
charge now status user_id cost (some u) t =
    if is_success status && not (str_eq user_id "")
    then after t (increment_usage now user_id u.total_tokens cost t)
    else t

-- `recordUsage` on the events and the quotas, with the enabled models.
unfoldable pub record_chat_usage :
    Recording
    → List Model
    → String
    → Bool
    → ℕ
    → String
    → String
    → Option TokenUsage
    → Table UsageEvent × Table Quota
    → Table UsageEvent × Table Quota
unfolding charge create_usage event_of calculate_model_cost
record_chat_usage rec models requested is_stream status model provider usage (events, quotas) = (
  after (init events) (
      create_usage rec.now (event_of rec models requested is_stream status model provider usage)
        events),
  charge rec.now status (user_of rec.claims rec.validation) (cost_of models model usage) usage
      quotas,
)
