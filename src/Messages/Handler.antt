-- ===== src/Messages/Handler.antt =====
-- gorouter/internal/handlers/v1/messages.go: `ServeHTTP` and what it calls, on the JSON store.
use yi_api_proxy.Base.{
  ℕ, String, str_eq, Bool, true, false, List, [], ◌∷◌, Option, none, some, if◌then◌else◌, ◌==◌,
  ◌||◌,
}
use yi_api_proxy.Db.Types.{UsageEvent}
use yi_api_proxy.Db.Table.{Table, after, init}
use yi_api_proxy.Db.Events.{create_usage}
use yi_api_proxy.Db.Models.{list_enabled}
use yi_api_proxy.Rtk.{Line}
use yi_api_proxy.Routing.Select.{listed}
use yi_api_proxy.Chat.{ChatRequest, ChatCalls}
use yi_api_proxy.Chat.Usage.{Recording, event_of}
use yi_api_proxy.Chat.Handler.{ChatState}
use yi_api_proxy.Messages.{
  Content, ClaudeMessage, MessagesRequest, ChatResponse, MessagesResponse, convert_to_chat_request,
  convert_chat_to_messages,
}
use yi_api_proxy.Messages.Events.{MessageEvent, upstream_failed, ChunkChoice, stream_events}
use yi_api_proxy.Messages.Direct.{Captured, Answer, execute_messages, execute_streaming_request}

-- `errorTypeForStatus`
unfoldable pub error_type_for_status : ℕ → String
error_type_for_status status =
    if status == 400
    then "invalid_request_error"
    else if status == 401
    then "authentication_error"
    else if status == 403
    then "permission_error"
    else if status == 429
    then "rate_limit_error"
    else if status == 500
    then "internal_error"
    else if status == 502 || status == 503
    then "upstream_error"
    else "server_error"

-- A refused request; an answer; an error with the trimmed text of what was captured, or with a text of its own; the
-- events of a stream.
pub data MessagesReply : Type 0 where
  rejected : String → MessagesReply
  answered : MessagesResponse → MessagesReply
  unparsed : MessagesReply
  failed : ℕ → Captured → String → MessagesReply
  streamed : List MessageEvent → MessagesReply

-- What comes from elsewhere: the exchange, `json.Unmarshal` of an answer and of a chunk, the lines that the scanner
-- gives of a stream, the optimizer, the id of the request and what the usage is recorded with.
pub record Surroundings (HttpRequest : Type 0) : Type 0 where
  pub calls : ChatCalls HttpRequest
  pub parse_response : Captured → Option ChatResponse
  pub parse_chunk : Line → Option (List ChunkChoice)
  pub scan : String → List Line
  pub optimize : List ClaudeMessage → Content → List ClaudeMessage × Content
  pub header_id : String
  pub fresh_id : String
  pub recording : Recording

unfoldable pub or_unparsed : Option ChatResponse → MessagesReply
unfolding convert_chat_to_messages
or_unparsed none = unparsed
or_unparsed (some chat) = answered (convert_chat_to_messages chat)

module _ {HttpRequest : Type 0} (world : Surroundings HttpRequest) where
  abbrev pub request_id : String
  request_id = if str_eq world.header_id "" then world.fresh_id else world.header_id

  -- `recordUsage`, which is called without a usage: the event has no tokens and no cost.
  unfoldable pub record_messages_usage :
      ChatRequest → Bool → ℕ → String → String → String → Table UsageEvent → Table UsageEvent
  unfolding event_of create_usage
  record_messages_usage req is_stream status model provider original events = after (init events) (
      create_usage world.recording.now
        (record (event_of world.recording [] original is_stream status model provider none) {
          request_id = "";
        })
        events)

  unfoldable pub direct_reply : Answer Captured → MessagesReply
  unfolding or_unparsed convert_chat_to_messages error_type_for_status
  direct_reply out =
      if out.status_code == 200
      then or_unparsed (world.parse_response out.written)
      else failed out.status_code out.written (error_type_for_status out.status_code)

  unfoldable pub answer_plainly : ChatRequest → String → ChatState → MessagesReply × ChatState
  unfolding direct_reply execute_messages record_messages_usage list_enabled
  answer_plainly req original s =
      let out = execute_messages world.calls req (listed (list_enabled s.models)) s.providers in
      (
        direct_reply out,
        record s {
          events =
              record_messages_usage req false out.status_code out.model out.provider original
                s.events;
        },
      )

  -- The error event where there is no body or another status than 200.
  unfoldable pub stream_reply : String → ℕ → Option String → MessagesReply
  unfolding stream_events
  stream_reply original status none = streamed (upstream_failed ∷ [])
  stream_reply original status (some body) =
      if status == 200
      then streamed (stream_events world.parse_chunk request_id original (world.scan body))
      else streamed (upstream_failed ∷ [])

  unfoldable pub answer_by_stream : ChatRequest → String → ChatState → MessagesReply × ChatState
  unfolding stream_reply execute_streaming_request record_messages_usage list_enabled
  answer_by_stream req original s =
      let out =
        execute_streaming_request world.calls (record req { stream = true })
          (listed (list_enabled s.models)) s.providers in
      (
        stream_reply original out.status_code out.written,
        record s {
          events =
              record_messages_usage req true out.status_code out.model out.provider original
                s.events;
        },
      )

  abbrev pub optimized : MessagesRequest → MessagesRequest
  optimized req =
      let changed = world.optimize req.messages req.system in
      record req { messages = changed.0; system = changed.1 }

  unfoldable pub converted : MessagesRequest → ChatState → MessagesReply × ChatState
  unfolding answer_plainly answer_by_stream convert_to_chat_request
  converted req s =
      if req.stream
      then answer_by_stream (convert_to_chat_request req) req.model s
      else answer_plainly (convert_to_chat_request req) req.model s

  unfoldable pub checked_messages :
      MessagesRequest → List ClaudeMessage → ChatState → MessagesReply × ChatState
  unfolding converted
  checked_messages req [] s = (rejected "messages is required", s)
  checked_messages req (m ∷ ms) s = converted (optimized req) s

  -- `none`: the body is not JSON of a request.
  unfoldable pub serve_messages : Option MessagesRequest → ChatState → MessagesReply × ChatState
  unfolding checked_messages
  serve_messages none s = (rejected "Failed to parse request body", s)
  serve_messages (some req) s =
      if str_eq req.model ""
      then (rejected "model is required", s)
      else checked_messages req req.messages s
