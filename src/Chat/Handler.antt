-- ===== src/Chat/Handler.antt =====
-- gorouter/internal/handlers/v1/chat.go: `ServeHTTP` and what it calls, on the JSON store.
use yi_api_proxy.Base.{
  ℕ, String, str_eq, Bool, true, false, List, [], ◌∷◌, Option, none, some, if◌then◌else◌, ◌||◌,
  findb, ◌==◌,
}
use yi_api_proxy.Base.Assoc.{lookup}
use yi_api_proxy.Db.Types.{ProviderConnection, Model, ModelAlias, Combo, UsageEvent, Quota}
use yi_api_proxy.Db.Table.{Table, find_by_id}
use yi_api_proxy.Db.Models.{list_enabled}
use yi_api_proxy.Db.Combos.{list_active}
use yi_api_proxy.Aliases.{resolve}
use yi_api_proxy.Routing.Select.{listed, Selection}
use yi_api_proxy.Combo.Data.{Calls, ExecuteResponse, Execution, responded, panic}
use yi_api_proxy.Combo.Execute.{execute}
use yi_api_proxy.UserCombos.{UserContext}
use yi_api_proxy.Chat.{
  ChatMessage, ChatRequest, ChatCalls, Outcome, Reply, failure, encoded, chunked, Value, object,
  text, ignored, Body, TokenUsage, convert_to_map_messages,
}
use yi_api_proxy.Chat.Direct.{execute_direct_request}
use yi_api_proxy.Chat.Usage.{Recording, extract_usage, record_chat_usage}

-- The repositories that the handler works on.
pub record ChatState : Type 0 where
  pub providers : Table ProviderConnection
  pub models : Table Model
  pub combos : Table Combo
  pub aliases : Table ModelAlias
  pub events : Table UsageEvent
  pub quotas : Table Quota

-- What the handler gets from elsewhere: the calls of the combo's and of its own attempts, the router on
-- the providers at the time, `json.Unmarshal` of an answer, and what `recordUsage` reads.
pub record Outside (HttpRequest ComboRequest ComboReply : Type 0) : Type 0 where
  pub combo_calls : ℕ → Calls ComboRequest ComboReply
  pub serialize : ComboReply → Body
  pub calls : ℕ → ChatCalls HttpRequest
  pub routed : Table ProviderConnection → String → Selection (List ProviderConnection)
  pub parse_json : String → Option Body
  pub optimize : List ChatMessage → List ChatMessage
  pub recording : Recording

abbrev pub text_or : String → Option Value → String
text_or other none = other
text_or other (some ignored) = other
text_or other (some (object fields)) = other
text_or other (some (text s)) = s

abbrev pub member : String → Option Body → Option Value
member key none = none
member key (some body) = lookup key body

abbrev pub body_usage : (String → Option Body) → Option String → Option TokenUsage
unfolding extract_usage
body_usage parse_json none = none
body_usage parse_json (some body) = extract_usage (parse_json body)

-- json.Unmarshal(capturedBody) and `extractUsage`, for a status of 200 and a body.
unfoldable pub captured_usage : (String → Option Body) → Outcome → Option TokenUsage
unfolding extract_usage
captured_usage parse_json out =
    if out.status_code == 200 then body_usage parse_json out.captured_body else none

-- `comboErr == nil && comboResult != nil && comboResult.Success`
abbrev pub succeeded_with : Option (Execution Body) → Option (ExecuteResponse Body)
succeeded_with none = none
succeeded_with (some panic) = none
succeeded_with (some (responded answer)) = if answer.success then some answer else none

module _ {HttpRequest ComboRequest ComboReply : Type 0}
    (world : Outside HttpRequest ComboRequest ComboReply) where
  unfoldable pub execute_named :
      ChatRequest → ChatState → Option Combo → Option (Execution Body) × Table ProviderConnection
  unfolding execute
  execute_named req s none = (none, s.providers)
  execute_named req s (some c) =
      let ran =
        execute world.serialize world.combo_calls (find_by_id c.id s.combos)
          (record {
            model = req.model;
            messages = convert_to_map_messages req.messages;
            stream = req.stream;
          })
          s.providers in
      (some ran.0, ran.1)

  -- `tryComboExecution`: the first active combo of that name or id; its panic is on an unknown id only.
  unfoldable pub try_combo_execution :
      ChatRequest → ChatState → Option (Execution Body) × Table ProviderConnection
  unfolding execute_named execute list_active
  try_combo_execution req s =
      execute_named req s
        (findb (λ c. str_eq c.name req.model || str_eq c.id req.model) (list_active s.combos))

  -- The handler's call of `recordUsage`.
  unfoldable pub recorded :
      ChatRequest → Bool → ℕ → String → String → Option TokenUsage → ChatState → ChatState
  unfolding record_chat_usage list_enabled
  recorded req is_stream status model provider usage s =
      let tables =
        record_chat_usage world.recording (list_enabled s.models) req.model is_stream status model
          provider usage (s.events, s.quotas) in
      record s { events = tables.0; quotas = tables.1 }

  -- `executeDirectRequest`, and the usage of its answer.
  unfoldable pub run_direct : ChatRequest → Bool → ChatState → Reply × ChatState
  unfolding recorded execute_direct_request captured_usage record_chat_usage list_enabled
  run_direct req is_stream s =
      let ran =
        execute_direct_request (world.routed s.providers) world.calls req
          (listed (list_enabled s.models)) s.providers in
      (
        ran.0.reply,
        recorded req is_stream ran.0.status_code ran.0.model ran.0.provider
            (captured_usage world.parse_json ran.0) (record s { providers = ran.1 }),
      )

  unfoldable pub after_combo :
      ChatRequest → ChatState → Option (ExecuteResponse Body) → Reply × ChatState
  unfolding recorded run_direct extract_usage record_chat_usage list_enabled
  after_combo req s none = run_direct req false s
  after_combo req s (some answer) = (
    encoded answer.response,
    recorded req false 200 answer.model "" (extract_usage answer.response) s,
  )

  unfoldable pub handle_non_streaming : ChatRequest → ChatState → Reply × ChatState
  unfolding after_combo run_direct try_combo_execution extract_usage record_chat_usage list_enabled
  handle_non_streaming req s =
      let tried = try_combo_execution req s in
      after_combo req (record s { providers = tried.1 }) (succeeded_with tried.0)

  unfoldable pub after_combo_stream :
      ChatRequest → ChatState → Option (ExecuteResponse Body) → Reply × ChatState
  unfolding recorded run_direct extract_usage record_chat_usage list_enabled
  after_combo_stream req s none = run_direct req true s
  after_combo_stream req s (some answer) = (
    chunked answer.response,
    recorded req true 200 (text_or req.model (member "model" answer.response))
        (text_or "" (member "provider" answer.response)) (extract_usage answer.response) s,
  )

  unfoldable pub handle_streaming : ChatRequest → ChatState → Reply × ChatState
  unfolding after_combo_stream run_direct try_combo_execution extract_usage record_chat_usage
      list_enabled
  handle_streaming req s =
      let tried = try_combo_execution req s in
      after_combo_stream req (record s { providers = tried.1 }) (succeeded_with tried.0)

  unfoldable pub handle : ChatRequest → ChatState → Reply × ChatState
  unfolding handle_streaming handle_non_streaming
  handle req s = if req.stream then handle_streaming req s else handle_non_streaming req s

  abbrev pub user_id_of : Option UserContext → String
  user_id_of none = ""
  user_id_of (some c) = c.user_id

  -- `if resolvedModel != "" { req.Model = resolvedModel }`
  abbrev pub with_model : String → ChatRequest → ChatRequest
  with_model resolved req = if str_eq resolved "" then req else record req { model = resolved }

  abbrev pub bad_request : String → Reply
  bad_request message = failure message "invalid_request_error" "invalid_request" 400

  unfoldable pub with_messages : ChatRequest → ChatState → List ChatMessage → Reply × ChatState
  unfolding handle handle_streaming handle_non_streaming resolve
  with_messages req s [] = (bad_request "messages is required", s)
  with_messages req s (m ∷ ms) =
      let resolved = resolve req.model (user_id_of world.recording.claims) s.aliases in
      handle (with_model resolved.0 (record req { messages = world.optimize (m ∷ ms) })) s

  -- `none`: the body is not JSON of a request.
  unfoldable pub serve_http : Option ChatRequest → ChatState → Reply × ChatState
  unfolding with_messages handle_streaming handle_non_streaming resolve
  serve_http none s = (bad_request "Failed to parse request body", s)
  serve_http (some req) s =
      if str_eq req.model ""
      then (bad_request "model is required", s)
      else with_messages req s req.messages
