-- ===== src/Messages/Deltas.antt =====
-- gorouter/internal/handlers/v1/messages.go: what a client of a stream is sent.
use mathlib.Core.List.{append_assoc, append-nil}
use yi_api_proxy.Base.{
  ℕ, ◌+◌, ◌≡◌, refl, sym, ap, ◌∙◌, String, str_eq, List, [], ◌∷◌, ◌++◌, Option, none, some,
  if◌then◌else◌, length, length-append, arith, Bool-cases, inl, inr,
}
use yi_api_proxy.Rtk.{Line}
use yi_api_proxy.Streaming.{is_done, before_done}
use yi_api_proxy.Messages.{map_finish_reason, reason_after}
use yi_api_proxy.Messages.Events.{
  MessageEvent, message_start, content_block_start, ping, content_block_delta, content_block_stop,
  message_delta, message_stop, ChunkChoice, Relayed, with_delta, relay_choices, choices_in,
  relay_lines, or_end_turn, stream_events,
}

-- One event for each choice with a text.
abbrev pub deltas_of : List ChunkChoice → List MessageEvent
deltas_of [] = []
deltas_of (c ∷ cs) =
    let rest = deltas_of cs in
    if str_eq c.content "" then rest else content_block_delta c.index c.content ∷ rest

abbrev or_first : Option String → Option String → Option String
or_first none first = first
or_first (some reason) first = some reason

-- The last reason that a choice gives.
abbrev pub last_reason : List ChunkChoice → Option String
last_reason [] = none
last_reason (c ∷ cs) = or_first (last_reason cs) c.finish_reason

unfoldable pub stop_reason_of : Option String → String
unfolding map_finish_reason
stop_reason_of none = "end_turn"
stop_reason_of (some reason) = map_finish_reason reason

module _ (parse : Line → Option (List ChunkChoice)) where
  -- The choices of the chunks in the data lines, in their order.
  abbrev pub choices_of : List Line → List ChunkChoice
  choices_of [] = []
  choices_of (line ∷ lines) = choices_in parse line ++ choices_of lines

relay_choices-append :
    (r : Relayed) (cs ds : List ChunkChoice)
    → relay_choices r (cs ++ ds) ≡ relay_choices (relay_choices r cs) ds
unfolding relay_choices
relay_choices-append r [] ds = refl
relay_choices-append r (c ∷ cs) ds =
    relay_choices-append
      (record (with_delta r c) {
        stop_reason = reason_after (with_delta r c).stop_reason c.finish_reason;
      })
      cs ds

relay_lines_lem :
    (parse : Line → Option (List ChunkChoice)) (r : Relayed) (lines : List Line)
    → relay_lines parse r lines ≡ relay_choices r (choices_of parse (before_done lines).0)
unfolding relay_lines
relay_lines_lem parse r [] = relay_none r
  where
    relay_none : (s : Relayed) → s ≡ relay_choices s []
    relay_none s = unfold relay_choices in refl
relay_lines_lem parse r (line ∷ lines) = elim (Bool-cases (is_done line)) [
  | inl e ↦ rw e (relay_none r)
  | inr e ↦ rw e (
      relay_lines_lem parse (relay_choices r (choices_in parse line)) lines
      ∙ sym
          (relay_choices-append r (choices_in parse line) (choices_of parse (before_done lines).0)))
]
  where
    relay_none : (s : Relayed) → s ≡ relay_choices s []
    relay_none s = unfold relay_choices in refl

-- The state after one choice.
abbrev after_choice : Relayed → ChunkChoice → Relayed
after_choice r c = record (with_delta r c) {
  stop_reason = reason_after (with_delta r c).stop_reason c.finish_reason;
}

module _ (r : Relayed) (c : ChunkChoice) where
  delta-events : (with_delta r c).events ≡ r.events ++ deltas_of (c ∷ [])
  delta-events = elim (Bool-cases (str_eq c.content "")) [
    | inl e ↦ rw e (sym (append-nil r.events))
    | inr e ↦ rw e refl
  ]

  delta-tokens : (with_delta r c).output_tokens ≡ r.output_tokens + length (deltas_of (c ∷ []))
  delta-tokens = elim (Bool-cases (str_eq c.content "")) [
    | inl e ↦ rw e (omega arith)
    | inr e ↦ rw e refl
  ]

  delta-reason : (with_delta r c).stop_reason ≡ r.stop_reason
  delta-reason = elim (Bool-cases (str_eq c.content "")) [ inl e ↦ rw e refl | inr e ↦ rw e refl ]

deltas_of-cons :
    (c : ChunkChoice) (cs : List ChunkChoice)
    → deltas_of (c ∷ cs) ≡ deltas_of (c ∷ []) ++ deltas_of cs
deltas_of-cons c cs = elim (Bool-cases (str_eq c.content "")) [
  | inl e ↦ rw e refl
  | inr e ↦ rw e refl
]

relay_events :
    (r : Relayed) (cs : List ChunkChoice) → (relay_choices r cs).events ≡ r.events ++ deltas_of cs
unfolding relay_choices
relay_events r [] = sym (append-nil r.events)
relay_events r (c ∷ cs) =
    relay_events (after_choice r c) cs
    ∙ ap (λ es. es ++ deltas_of cs) (delta-events r c)
    ∙ append_assoc r.events (deltas_of (c ∷ [])) (deltas_of cs)
    ∙ ap (λ es. r.events ++ es) (sym (deltas_of-cons c cs))

relay_tokens :
    (r : Relayed) (cs : List ChunkChoice)
    → (relay_choices r cs).output_tokens ≡ r.output_tokens + length (deltas_of cs)
unfolding relay_choices
relay_tokens r [] = omega arith
relay_tokens r (c ∷ cs) =
    let later = relay_tokens (after_choice r c) cs in
    let split =
      ap length (deltas_of-cons c cs) ∙ length-append (deltas_of (c ∷ [])) (deltas_of cs) in
    omega (arith, later, delta-tokens r c, split)

reason_after-or_first :
    (old : String) (first o : Option String)
    → reason_after (reason_after old first) o ≡ reason_after old (or_first o first)
unfolding reason_after
reason_after-or_first old first none = refl
reason_after-or_first old first (some reason) = refl

relay_reason :
    (r : Relayed) (cs : List ChunkChoice)
    → (relay_choices r cs).stop_reason ≡ reason_after r.stop_reason (last_reason cs)
unfolding relay_choices reason_after
relay_reason r [] = refl
relay_reason r (c ∷ cs) =
    relay_reason (after_choice r c) cs
    ∙ ap (λ old. reason_after (reason_after old c.finish_reason) (last_reason cs))
        (delta-reason r c)
    ∙ reason_after-or_first r.stop_reason c.finish_reason (last_reason cs)

end_turn_lem : (o : Option String) → or_end_turn (reason_after "" o) ≡ stop_reason_of o
unfolding reason_after stop_reason_of
end_turn_lem none = refl
end_turn_lem (some reason) = named reason
  where
    named : (s : String) → or_end_turn (map_finish_reason s) ≡ map_finish_reason s
    named s =
        unfold map_finish_reason in
        elim (Bool-cases (str_eq s "stop")) [
          | inl e ↦ rw e refl
          | inr e ↦ elim (Bool-cases (str_eq s "length")) [
            | inl f ↦ rw (e, f) refl
            | inr f ↦ elim (Bool-cases (str_eq s "tool_calls")) [
              | inl g ↦ rw (e, f, g) refl
              | inr g ↦ rw (e, f, g) refl
            ]
          ]
        ]

abbrev closed : Relayed → List MessageEvent
closed r =
    r.events
    ++ (content_block_stop
        ∷ message_delta (or_end_turn r.stop_reason) r.output_tokens
        ∷ message_stop
        ∷ [])

closed_lem :
    {events : List MessageEvent} {n : ℕ} {reason : String} (r : Relayed)
    → r.events ≡ events
    → r.output_tokens ≡ n
    → or_end_turn r.stop_reason ≡ reason
    → closed r ≡ events ++ (content_block_stop ∷ message_delta reason n ∷ message_stop ∷ [])
closed_lem r e f g = rw (e, f, g) refl

-- The events that a client of the messages endpoint is sent for a stream of the provider: the start of the message and
-- of its one block, a ping, one delta with the text and the index of each choice that has a text, in the order of
-- the chunks in the data lines before the one that ends the stream, then the stop of the block, the last reason that a
-- choice gives under its name in this protocol, or else "end_turn", with the number of the deltas as the number of
-- tokens, and the stop of the message.
pub stream_events_lem :
    (parse : Line → Option (List ChunkChoice)) (id model : String) (lines : List Line)
    → let choices = choices_of parse (before_done lines).0 in
      stream_events parse id model lines
      ≡ (message_start id model ∷ content_block_start ∷ ping ∷ deltas_of choices)
        ++ (content_block_stop
            ∷ message_delta (stop_reason_of (last_reason choices)) (length (deltas_of choices))
            ∷ message_stop
            ∷ [])
unfolding stream_events
stream_events_lem parse id model lines =
    let choices = choices_of parse (before_done lines).0 in
    let start : Relayed = record {
      events = message_start id model ∷ content_block_start ∷ ping ∷ [];
      output_tokens = 0;
      stop_reason = "";
    } in
    ap closed (relay_lines_lem parse start lines)
    ∙ closed_lem (relay_choices start choices) (relay_events start choices)
        (relay_tokens start choices ∙ from_zero (length (deltas_of choices)))
        (ap or_end_turn (relay_reason start choices) ∙ end_turn_lem (last_reason choices))
  where
    from_zero : (n : ℕ) → 0 + n ≡ n
    from_zero n = omega arith
