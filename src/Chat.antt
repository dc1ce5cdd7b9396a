-- ===== src/Chat.antt =====
-- gorouter/internal/handlers/v1/chat.go: what the handler of chat requests keeps and reads. A float is a whole
-- number of millionths, and a JSON value is what the type assertions of `extractUsage` tell apart.
pub mod Direct
pub mod Decided
pub mod Marked
pub mod Candidates
pub mod Usage
pub mod Handler
pub mod Charged
use yi_api_proxy.Base.{
  ℕ, suc, ◌+◌, ◌/◌, ◌*◌, String, str_eq, Bool, true, false, List, [], ◌∷◌, Option, none, some, ◌⊎◌,
  if◌then◌else◌, ◌||◌, map, leb, ◌==◌,
}
use yi_api_proxy.Base.Int.{ℤ, pos}
use yi_api_proxy.Base.Assoc.{Assoc}
use yi_api_proxy.Db.Types.{ProviderConnection}
use yi_api_proxy.Db.Table.{Table, find_by_id, after}
use yi_api_proxy.Db.Providers.{update_found, mark_cooldown}
use yi_api_proxy.Combo.Data.{NormalizedMessage, NormalizedChatRequest}

pub record ChatMessage : Type 0 where
  pub role : String
  pub content : String

-- The fields that the handler reads.
pub record ChatRequest : Type 0 where
  pub model : String
  pub messages : List ChatMessage
  pub stream : Bool
  pub temperature : Option ℤ
  pub max_tokens : Option ℤ
  pub top_p : Option ℤ

pub record TokenUsage : Type 0 where
  pub prompt_tokens : ℤ
  pub completion_tokens : ℤ
  pub total_tokens : ℤ

-- What one attempt meets: `latency` is the measured time, `now` the clock of its writes, `token` the decrypted
-- secret of the connection.
pub record ChatCalls (HttpRequest : Type 0) : Type 0 where
  pub now : ℕ
  pub latency : ℤ
  pub has_adapter : String → Bool
  pub token : ProviderConnection → Option String
  pub translate_request : String → NormalizedChatRequest → String → String → Option HttpRequest
  pub send : HttpRequest → String ⊎ (ℕ × String)

-- A member of a JSON object in an answer, and an answer: `map[string]any`.
pub data Field : Type 0 where
  number : ℤ → Field
  unread : Field

pub data Value : Type 0 where
  object : Assoc Field → Value
  text : String → Value
  ignored : Value

abbrev pub Body : Type 0
Body = Assoc Value

-- What is written to the client: an error, the provider's status and body, its stream, or the answer of a
-- combo, as JSON or as one chunk.
pub data Reply : Type 0 where
  failure : String → String → String → ℕ → Reply
  passed_on : ℕ → String → Reply
  streamed : String → Reply
  encoded chunked : Option Body → Reply

-- The four results of `executeDirectRequest`, with the reply that it writes.
pub record Outcome : Type 0 where
  pub provider : String
  pub model : String
  pub status_code : ℕ
  pub captured_body : Option String
  pub reply : Reply

abbrev pub convert_chat_messages : List ChatMessage → List NormalizedMessage
convert_chat_messages msgs = map (λ m. record { role = m.role; content = m.content }) msgs

abbrev pub convert_to_map_messages : List ChatMessage → List (Assoc String)
convert_to_map_messages msgs = map (λ m. ("role", m.role) ∷ ("content", m.content) ∷ []) msgs

abbrev pub norm_request : String → ChatRequest → NormalizedChatRequest
norm_request model_id req = record {
  model = model_id;
  messages = convert_chat_messages req.messages;
  stream = req.stream;
  temperature = req.temperature;
  max_tokens = req.max_tokens;
  top_p = req.top_p;
}

abbrev pub with_latency : ℤ → ProviderConnection → ProviderConnection
with_latency latency p = record p { last_latency_ms = latency }

-- `updateProviderLatency`
unfoldable pub update_provider_latency :
    ℕ → String → ℤ → Table ProviderConnection → Table ProviderConnection
update_provider_latency now provider_id latency t =
    if str_eq provider_id ""
    then t
    else after t (update_found (with_latency latency) now t (find_by_id provider_id t))

-- `markProviderCooldown`
unfoldable pub mark_provider_cooldown :
    ℕ → String → String → Table ProviderConnection → Table ProviderConnection
unfolding mark_cooldown
mark_provider_cooldown now provider_id message t =
    if str_eq provider_id ""
    then t
    else after t (mark_cooldown now provider_id (now + 60) message t)

-- resp.StatusCode >= 500 || resp.StatusCode == 429
abbrev pub is_retryable : ℕ → Bool
is_retryable status = leb 500 status || status == 429
