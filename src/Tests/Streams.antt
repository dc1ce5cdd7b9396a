-- ===== src/Tests/Streams.antt =====
-- gorouter/internal/handlers/v1/messages.go: runs on a stream of one chunk and on a request with a system prompt.
use yi_api_proxy.Base.{◌≡◌, refl, List, [], ◌∷◌, Option, none, some, false}
use yi_api_proxy.Base.Int.{pos}
use yi_api_proxy.Base.Text.{codes}
use yi_api_proxy.Base.Assoc.{lookup}
use yi_api_proxy.Rtk.{Line}
use yi_api_proxy.Messages.{
  MessagesRequest, plain, blocks, map_finish_reason, convert_to_chat_request,
  parse_content_to_string, parse_system_prompt,
}
use yi_api_proxy.Messages.Events.{
  ChunkChoice, message_start, content_block_start, ping, content_block_delta, content_block_stop,
  message_delta, message_stop, stream_events,
}
use yi_api_proxy.Messages.Deltas.{stop_reason_of, stream_events_lem}

abbrev chunk_of : Line → Option (List ChunkChoice)
chunk_of line = some (
    record { index = pos 0; content = "hi"; finish_reason = none }
    ∷ record { index = pos 0; content = ""; finish_reason = some "length" }
    ∷ [])

abbrev lines : List Line
lines = codes "data: a" ∷ codes "event: b" ∷ codes "data: [DONE]" ∷ codes "data: c" ∷ []

stream_events_lem_example :
    stream_events chunk_of "msg-1" "fast" lines
    ≡ message_start "msg-1" "fast"
      ∷ content_block_start
      ∷ ping
      ∷ content_block_delta (pos 0) "hi"
      ∷ content_block_stop
      ∷ message_delta "max_tokens" 1
      ∷ message_stop
      ∷ []
unfolding stop_reason_of map_finish_reason
stream_events_lem_example = stream_events_lem chunk_of "msg-1" "fast" lines

abbrev request : MessagesRequest
request = record {
  model = "fast";
  messages =
      record {
        role = "user";
        content = blocks (
            some (("type", some "text") ∷ ("text", some "a") ∷ [])
            ∷ none
            ∷ some (("type", some "image") ∷ [])
            ∷ some (("type", some "text") ∷ ("text", some "b") ∷ [])
            ∷ []);
      }
      ∷ [];
  stream = false;
  system = plain "be brief";
  temperature = none;
  max_tokens = none;
  top_p = none;
}

converted_request :
    (convert_to_chat_request request).messages
    ≡ record { role = "system"; content = "be brief" }
      ∷ record { role = "user"; content = "a\nb" }
      ∷ []
unfolding convert_to_chat_request parse_content_to_string parse_system_prompt lookup
converted_request = refl
