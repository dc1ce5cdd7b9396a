-- ===== src/Chat/Direct.antt =====
-- gorouter/internal/handlers/v1/chat.go: `executeDirectRequest`, on the table of the providers.
use yi_api_proxy.Base.{
  ℕ, suc, String, Bool, true, false, List, [], ◌∷◌, Option, none, some, ◌⊎◌, inl, inr,
  if◌then◌else◌, leb, findb,
}
use yi_api_proxy.Base.Int.{ℤ}
use yi_api_proxy.Base.Text.{◌+++◌, itoa}
use yi_api_proxy.Db.Types.{ProviderConnection, Model}
use yi_api_proxy.Db.Table.{Table, find_by_id}
use yi_api_proxy.Routing.Select.{
  Listing, failed, listed, Selection, error, nothing, chosen, panic, names_model,
}
use yi_api_proxy.Chat.{
  ChatRequest, ChatCalls, Outcome, failure, passed_on, streamed, norm_request,
  update_provider_latency, mark_provider_cooldown, is_retryable,
}

-- What an attempt comes to: the next candidate, with the text of `lastErr`, or a return.
pub data Tried : Type 0 where
  next : String → Tried
  finished : Outcome → Tried

abbrev pub rejected : String → String → String → String → String → ℕ → Outcome
rejected model message error_type code provider status = record {
  provider = provider;
  model = model;
  status_code = status;
  captured_body = none;
  reply = failure message error_type code status;
}

-- The return after the loop.
abbrev pub bad_gateway : String → String → Outcome
bad_gateway model last_err = rejected model last_err "upstream_error" "request_failed" "" 502

abbrev pub refused_by : String → String → ℕ → String → Outcome
refused_by provider model status body = record {
  provider = provider;
  model = model;
  status_code = status;
  captured_body = none;
  reply = passed_on status body;
}

-- The two returns for an answer below 400. A streamed answer is not captured.
abbrev pub answered_by : String → String → Bool → String → Outcome
answered_by provider model true body = record {
  provider = provider;
  model = model;
  status_code = 200;
  captured_body = none;
  reply = streamed body;
}
answered_by provider model false body = record {
  provider = provider;
  model = model;
  status_code = 200;
  captured_body = some body;
  reply = passed_on 200 body;
}

-- After `client.Do`
unfoldable pub after_do :
    ℕ
    → ℤ
    → String
    → Bool
    → ProviderConnection
    → Table ProviderConnection
    → String ⊎ (ℕ × String)
    → Tried × Table ProviderConnection
unfolding update_provider_latency mark_provider_cooldown itoa
after_do now latency model stream p t (inl err) = (
  next "upstream request failed",
  mark_provider_cooldown now p.id ("network error: " +++ err)
      (update_provider_latency now p.id latency t),
)
after_do now latency model stream p t (inr (status, body)) =
    if is_retryable status
    then (
      next ("provider returned " +++ itoa status),
      mark_provider_cooldown now p.id ("HTTP " +++ itoa status)
          (update_provider_latency now p.id latency t),
    )
    else if leb 400 status
    then (
      finished (refused_by p.provider model status body),
      update_provider_latency now p.id latency t,
    )
    else (
      finished (answered_by p.provider model stream body),
      update_provider_latency now p.id latency t,
    )

abbrev pub or_continue :
    Tried × Table ProviderConnection
    → (String → Table ProviderConnection → Outcome × Table ProviderConnection)
    → Outcome × Table ProviderConnection
or_continue (next last_err, t) rest = rest last_err t
or_continue (finished out, t) rest = (out, t)

-- The router's list, or nil for an error and for an empty list.
abbrev pub routed_or_nil : Selection (List ProviderConnection) → List ProviderConnection
routed_or_nil (chosen ps) = ps
routed_or_nil error = []
routed_or_nil nothing = []
routed_or_nil panic = []

-- `if len(candidates) == 0`: the provider of the model, whatever its status.
abbrev pub or_own :
    List ProviderConnection → Option ProviderConnection → Option (List ProviderConnection)
or_own [] none = none
or_own [] (some p) = some (p ∷ [])
or_own (p ∷ ps) own = some (p ∷ ps)

unfoldable pub candidates_for :
    Selection (List ProviderConnection)
    → Model
    → Table ProviderConnection
    → Option (List ProviderConnection)
candidates_for routed m t = or_own (routed_or_nil routed) (find_by_id m.provider_id t)

module _ {HttpRequest : Type 0} where
  -- After `adapter.TranslateRequest`
  abbrev pub after_translate :
      ChatCalls HttpRequest
      → String
      → Bool
      → ProviderConnection
      → Table ProviderConnection
      → Option HttpRequest
      → Tried × Table ProviderConnection
  after_translate calls model stream p t none = (next "failed to translate request", t)
  after_translate calls model stream p t (some request) =
      after_do calls.now calls.latency model stream p t (calls.send request)

  -- After the decryption of the secret
  abbrev pub after_token :
      ChatCalls HttpRequest
      → String
      → ChatRequest
      → ProviderConnection
      → Table ProviderConnection
      → Option String
      → Tried × Table ProviderConnection
  after_token calls model req p t none = (next "failed to decrypt provider secret", t)
  after_token calls model req p t (some key) =
      after_translate calls model req.stream p t
        (calls.translate_request p.provider (norm_request model req) p.base_url key)

  -- The body of the loop over the candidates.
  unfoldable pub try_provider :
      ChatCalls HttpRequest
      → String
      → ChatRequest
      → ProviderConnection
      → Table ProviderConnection
      → Tried × Table ProviderConnection
  unfolding after_do
  try_provider calls model req p t =
      if calls.has_adapter p.provider
      then after_token calls model req p t (calls.token p)
      else (next ("adapter not found for provider: " +++ p.provider), t)

  -- The loop from attempt `i` on; at most three candidates are tried.
  unfoldable pub try_candidates :
      (ℕ → ChatCalls HttpRequest)
      → ℕ
      → String
      → String
      → ChatRequest
      → List ProviderConnection
      → Table ProviderConnection
      → Outcome × Table ProviderConnection
  unfolding try_provider
  try_candidates calls i last_err model req [] t = (bad_gateway model last_err, t)
  try_candidates calls i last_err model req (p ∷ ps) t =
      if leb 3 i
      then (bad_gateway model last_err, t)
      else or_continue (try_provider (calls i) model req p t)
          (λ err t'. try_candidates calls (suc i) err model req ps t')

  abbrev pub run_candidates :
      (ℕ → ChatCalls HttpRequest)
      → Model
      → ChatRequest
      → Table ProviderConnection
      → Option (List ProviderConnection)
      → Outcome × Table ProviderConnection
  run_candidates calls m req t none =
      (rejected m.model_id "provider not found" "upstream_error" "provider_not_found" "" 503, t)
  run_candidates calls m req t (some ps) = try_candidates calls 0 "" m.model_id req ps t

  -- `routed` is what the router answers for a model's id.
  abbrev pub on_target :
      (String → Selection (List ProviderConnection))
      → (ℕ → ChatCalls HttpRequest)
      → ChatRequest
      → Table ProviderConnection
      → Option Model
      → Outcome × Table ProviderConnection
  on_target routed calls req t none = (
    rejected req.model ("model not found: " +++ req.model) "invalid_request_error" "model_not_found"
        "" 400,
    t,
  )
  on_target routed calls req t (some m) =
      run_candidates calls m req t (candidates_for (routed m.model_id) m t)

  unfoldable pub execute_direct_request :
      (String → Selection (List ProviderConnection))
      → (ℕ → ChatCalls HttpRequest)
      → ChatRequest
      → Listing Model
      → Table ProviderConnection
      → Outcome × Table ProviderConnection
  unfolding try_candidates candidates_for
  execute_direct_request routed calls req failed t =
      (rejected req.model "failed to load models" "upstream_error" "provider_error" "" 503, t)
  execute_direct_request routed calls req (listed models) t =
      on_target routed calls req t (findb (names_model req.model) models)
