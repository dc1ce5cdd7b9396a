-- ===== src/Messages.antt =====
-- gorouter/internal/handlers/v1/messages.go: the requests and answers in the form of the messages endpoint, and what
-- they are turned into. A JSON value of any type is what the type assertions of the code tell apart; the stop
-- sequences, which no provider is sent, and the tools, which the code does not read, are left out.
pub mod Direct
pub mod Events
pub mod Deltas
pub mod Handler
use yi_api_proxy.Base.{
  ℕ, String, str_eq, Bool, true, false, List, [], ◌∷◌, ◌++◌, Option, none, some, if◌then◌else◌, map,
}
use yi_api_proxy.Base.Int.{ℤ, pos}
use yi_api_proxy.Base.Text.{◌+++◌}
use yi_api_proxy.Base.Assoc.{Assoc, lookup}
use yi_api_proxy.Chat.{ChatMessage, ChatRequest, TokenUsage}

-- An entry of an array: an object, of whose members the texts are kept, or anything else.
abbrev pub Block : Type 0
Block = Option (Assoc (Option String))

-- `interface{}`: nil, a text, an array or anything else.
pub data Content : Type 0 where
  absent : Content
  plain : String → Content
  blocks : List Block → Content
  other : Content

pub record ClaudeMessage : Type 0 where
  pub role : String
  pub content : Content

pub record MessagesRequest : Type 0 where
  pub model : String
  pub messages : List ClaudeMessage
  pub stream : Bool
  pub system : Content
  pub temperature : Option ℤ
  pub max_tokens : Option ℤ
  pub top_p : Option ℤ

-- m[key].(string)
abbrev pub text_at : String → Assoc (Option String) → Option String
text_at key fields = text_or_none (lookup key fields)
  where
    text_or_none : Option (Option String) → Option String
    text_or_none none = none
    text_or_none (some value) = value

abbrev pub is_text : Option String → Bool
is_text none = false
is_text (some kind) = str_eq kind "text"

abbrev pub text_parts : Option String → List String
text_parts none = []
text_parts (some s) = s ∷ []

abbrev pub parts_of : Block → List String
parts_of none = []
parts_of (some fields) =
    if is_text (text_at "type" fields) then text_parts (text_at "text" fields) else []

abbrev pub all_parts : List Block → List String
all_parts [] = []
all_parts (b ∷ bs) = parts_of b ++ all_parts bs

abbrev pub joined : List String → String
joined [] = ""
joined (part ∷ []) = part
joined (part ∷ next ∷ parts) = part +++ "\n" +++ joined (next ∷ parts)

unfoldable pub parse_content_to_string : Content → String
parse_content_to_string absent = ""
parse_content_to_string (plain s) = s
parse_content_to_string (blocks bs) = joined (all_parts bs)
parse_content_to_string other = ""

-- `parseSystemPrompt` has the same body.
unfoldable pub parse_system_prompt : Content → String
unfolding parse_content_to_string
parse_system_prompt system = parse_content_to_string system

abbrev pub system_message : String → List ChatMessage
system_message sys = if str_eq sys "" then [] else record { role = "system"; content = sys } ∷ []

unfoldable pub convert_to_chat_request : MessagesRequest → ChatRequest
unfolding parse_content_to_string parse_system_prompt
convert_to_chat_request req = record {
  model = req.model;
  messages =
      system_message (parse_system_prompt req.system)
      ++ map (λ m. record { role = m.role; content = parse_content_to_string m.content })
          req.messages;
  stream = req.stream;
  temperature = req.temperature;
  max_tokens = req.max_tokens;
  top_p = req.top_p;
}

unfoldable pub map_finish_reason : String → String
map_finish_reason reason =
    if str_eq reason "stop"
    then "end_turn"
    else if str_eq reason "length"
    then "max_tokens"
    else if str_eq reason "tool_calls"
    then "tool_use"
    else "end_turn"

-- `content`: that of the message, where the choice has one.
pub record Choice : Type 0 where
  pub content : Option String
  pub finish_reason : Option String

pub record ChatResponse : Type 0 where
  pub id : String
  pub model : String
  pub choices : List Choice
  pub usage : Option TokenUsage

-- The texts of the blocks, the reason, and the tokens.
pub record MessagesResponse : Type 0 where
  pub id : String
  pub model : String
  pub content : List String
  pub stop_reason : String
  pub input_tokens : ℤ
  pub output_tokens : ℤ

abbrev pub nonempty : Option String → List String
nonempty none = []
nonempty (some s) = if str_eq s "" then [] else s ∷ []

unfoldable pub reason_after : String → Option String → String
unfolding map_finish_reason
reason_after old none = old
reason_after old (some reason) = map_finish_reason reason

-- The loop over the choices.
unfoldable pub add_choices : MessagesResponse → List Choice → MessagesResponse
unfolding reason_after
add_choices resp [] = resp
add_choices resp (c ∷ cs) =
    add_choices
      (record resp {
        content = resp.content ++ nonempty c.content;
        stop_reason = reason_after resp.stop_reason c.finish_reason;
      })
      cs

abbrev pub or_empty_text : List String → List String
or_empty_text [] = "" ∷ []
or_empty_text (s ∷ texts) = s ∷ texts

abbrev pub tokens_in : (TokenUsage → ℤ) → Option TokenUsage → ℤ
tokens_in field none = pos 0
tokens_in field (some u) = field u

unfoldable pub convert_chat_to_messages : ChatResponse → MessagesResponse
unfolding add_choices
convert_chat_to_messages chat =
    let resp =
      add_choices
        (record {
          id = chat.id;
          model = chat.model;
          content = [];
          stop_reason = "end_turn";
          input_tokens = pos 0;
          output_tokens = pos 0;
        })
        chat.choices in
    record resp {
      content = or_empty_text resp.content;
      input_tokens = tokens_in (λ u. u.prompt_tokens) chat.usage;
      output_tokens = tokens_in (λ u. u.completion_tokens) chat.usage;
    }
