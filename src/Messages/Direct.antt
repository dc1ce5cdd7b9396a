-- ===== src/Messages/Direct.antt =====
-- gorouter/internal/handlers/v1/messages.go: `executeDirectRequest` and `executeStreamingRequest`, which have the
-- same steps up to the exchange. What the first writes is captured.
use yi_api_proxy.Base.{
  ℕ, String, Bool, true, false, Option, none, some, ◌⊎◌, inl, inr, if◌then◌else◌, leb, findb,
}
use yi_api_proxy.Base.Text.{◌+++◌}
use yi_api_proxy.Db.Types.{ProviderConnection, Model}
use yi_api_proxy.Db.Table.{Table, find_by_id}
use yi_api_proxy.Routing.Select.{Listing, failed, listed, names_model}
use yi_api_proxy.Chat.{ChatRequest, ChatCalls, norm_request}

-- Nothing, the JSON of an error, or the body of the provider.
pub data Captured : Type 0 where
  empty : Captured
  error_body : String → String → String → Captured
  provider_body : String → Captured

-- A return before the exchange, or the exchange.
pub data Attempt : Type 0 where
  stopped : String → String → ℕ → Captured → Attempt
  exchanged : String → String → String ⊎ (ℕ × String) → Attempt

module _ {HttpRequest : Type 0} (calls : ChatCalls HttpRequest) (stream : Bool)
    (req : ChatRequest) where
  abbrev pub with_request : ProviderConnection → Model → Option HttpRequest → Attempt
  with_request p m none =
      stopped p.provider m.model_id 502
        (error_body "failed to translate request" "upstream_error" "translate_error")
  with_request p m (some request) = exchanged p.provider m.model_id (calls.send request)

  abbrev pub with_key : ProviderConnection → Model → Option String → Attempt
  with_key p m none =
      stopped p.provider m.model_id 503
        (error_body "failed to decrypt provider secret" "upstream_error" "auth_error")
  with_key p m (some key) = with_request p m (
      calls.translate_request p.provider (record (norm_request m.model_id req) { stream = stream })
        p.base_url key)

  abbrev pub with_provider : Model → Option ProviderConnection → Attempt
  with_provider m none =
      stopped "" m.model_id 503
        (error_body "provider not found" "upstream_error" "provider_not_found")
  with_provider m (some p) =
      if calls.has_adapter p.provider
      then with_key p m (calls.token p)
      else stopped p.provider m.model_id 503 (
          error_body ("adapter not found for provider: " +++ p.provider) "upstream_error"
            "adapter_error")

  abbrev pub with_model : Table ProviderConnection → Option Model → Attempt
  with_model t none =
      stopped "" req.model 400
        (error_body ("model not found: " +++ req.model) "invalid_request_error" "model_not_found")
  with_model t (some m) = with_provider m (find_by_id m.provider_id t)

  unfoldable pub reach : Listing Model → Table ProviderConnection → Attempt
  reach failed t =
      stopped "" req.model 503
        (error_body "failed to load models" "upstream_error" "provider_error")
  reach (listed models) t = with_model t (findb (names_model req.model) models)

pub record Answer (Written : Type 0) : Type 0 where
  pub provider : String
  pub model : String
  pub status_code : ℕ
  pub written : Written

abbrev pub direct_answer : Attempt → Answer Captured
direct_answer (stopped provider model status captured) = record {
  provider = provider;
  model = model;
  status_code = status;
  written = captured;
}
direct_answer (exchanged provider model (inl err)) = record {
  provider = provider;
  model = model;
  status_code = 502;
  written = empty;
}
direct_answer (exchanged provider model (inr (status, body))) = record {
  provider = provider;
  model = model;
  status_code = status;
  written = provider_body body;
}

-- The body of a stream, none for nil.
abbrev pub streaming_answer : Attempt → Answer (Option String)
streaming_answer (stopped provider model status captured) = record {
  provider = provider;
  model = model;
  status_code = status;
  written = none;
}
streaming_answer (exchanged provider model (inl err)) = record {
  provider = provider;
  model = model;
  status_code = 502;
  written = none;
}
streaming_answer (exchanged provider model (inr (status, body))) = record {
  provider = provider;
  model = model;
  status_code = if leb 400 status then status else 200;
  written = if leb 400 status then none else some body;
}

unfoldable pub execute_messages :
    {HttpRequest : Type 0}
    → ChatCalls HttpRequest
    → ChatRequest
    → Listing Model
    → Table ProviderConnection
    → Answer Captured
unfolding reach
execute_messages calls req models t = direct_answer (reach calls false req models t)

unfoldable pub execute_streaming_request :
    {HttpRequest : Type 0}
    → ChatCalls HttpRequest
    → ChatRequest
    → Listing Model
    → Table ProviderConnection
    → Answer (Option String)
unfolding reach
execute_streaming_request calls req models t = streaming_answer (reach calls true req models t)
