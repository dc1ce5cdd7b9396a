-- ===== src/Messages/Events.antt =====
-- gorouter/internal/handlers/v1/messages.go: the events that `handleStreaming` makes of the lines of the provider's
-- stream. `parse` is `json.Unmarshal` of a chunk, with its choices. The test for a done context has no effect, as its
-- `break` leaves the `select` only.
use yi_api_proxy.Base.{
  ℕ, ◌+◌, String, str_eq, List, [], ◌∷◌, ◌++◌, Option, none, some, if◌then◌else◌,
}
use yi_api_proxy.Base.Int.{ℤ}
use yi_api_proxy.Base.Text.{slice_from}
use yi_api_proxy.Rtk.{Line}
use yi_api_proxy.Streaming.{is_data, is_done}
use yi_api_proxy.Messages.{reason_after}

pub data MessageEvent : Type 0 where
  message_start : String → String → MessageEvent
  content_block_start ping content_block_stop message_stop upstream_failed : MessageEvent
  content_block_delta : ℤ → String → MessageEvent
  message_delta : String → ℕ → MessageEvent

-- A choice of a chunk; a reason that is no text counts as none.
pub record ChunkChoice : Type 0 where
  pub index : ℤ
  pub content : String
  pub finish_reason : Option String

-- The events that are sent, `outputTokens` and `stopReason`.
pub record Relayed : Type 0 where
  pub events : List MessageEvent
  pub output_tokens : ℕ
  pub stop_reason : String

abbrev pub with_delta : Relayed → ChunkChoice → Relayed
with_delta r c = if str_eq c.content "" then r else record r {
  events = r.events ++ content_block_delta c.index c.content ∷ [];
  output_tokens = r.output_tokens + 1;
}

unfoldable pub relay_choices : Relayed → List ChunkChoice → Relayed
unfolding reason_after
relay_choices r [] = r
relay_choices r (c ∷ cs) =
    let s = with_delta r c in
    relay_choices (record s { stop_reason = reason_after s.stop_reason c.finish_reason }) cs

abbrev pub or_none : Option (List ChunkChoice) → List ChunkChoice
or_none none = []
or_none (some choices) = choices

module _ (parse : Line → Option (List ChunkChoice)) where
  abbrev pub choices_in : Line → List ChunkChoice
  choices_in line = if is_data line then or_none (parse (slice_from 6 line)) else []

  -- The loop over the lines.
  unfoldable pub relay_lines : Relayed → List Line → Relayed
  unfolding relay_choices
  relay_lines r [] = r
  relay_lines r (line ∷ lines) =
      let rest = relay_lines (relay_choices r (choices_in line)) lines in
      if is_done line then r else rest

abbrev pub or_end_turn : String → String
or_end_turn reason = if str_eq reason "" then "end_turn" else reason

unfoldable pub stream_events :
    (Line → Option (List ChunkChoice)) → String → String → List Line → List MessageEvent
unfolding relay_lines
stream_events parse id model lines =
    let r =
      relay_lines parse
        (record {
          events = message_start id model ∷ content_block_start ∷ ping ∷ [];
          output_tokens = 0;
          stop_reason = "";
        })
        lines in
    r.events
    ++ (content_block_stop
        ∷ message_delta (or_end_turn r.stop_reason) r.output_tokens
        ∷ message_stop
        ∷ [])
