-- ===== src/Tokenizer.antt =====
-- gorouter/internal/handlers/v1/tokenizer.go, gorouter/internal/caveman/injector.go and gorouter/internal/caveman/prompts.go:
-- what is done to the messages of a request. `compress` is the filter of gorouter/internal/rtk of that name, on a
-- content; a header that is not set is the empty text, and a level and a filter are bytes.
use yi_api_proxy.Base.{
  ℕ, ◌≡◌, refl, ap, ◌∙◌, String, str_eq, Bool, true, List, [], ◌∷◌, if◌then◌else◌, ◌&&◌, not, map,
  Bool-cases, inl, inr,
}
use yi_api_proxy.Base.Int.{ℤ, pos, ◌+ℤ◌}
use yi_api_proxy.Base.Text.{codes, bytes_eq}
use yi_api_proxy.Aliases.{lower}
use yi_api_proxy.Combo.Data.{NormalizedMessage}
use yi_api_proxy.Chat.{ChatMessage, convert_chat_messages}

pub record TokenOptimizerConfig : Type 0 where
  pub rtk_enabled : Bool
  pub rtk_default_filter : String
  pub caveman_level : String

abbrev pub Headers : Type 0
Headers = String → String

abbrev pub to_lower : String → List ℕ
to_lower s = map lower (codes s)

unfoldable pub should_compress : TokenOptimizerConfig → Headers → Bool
should_compress config header = if str_eq (header "X-RTK") "true" then true else config.rtk_enabled

unfoldable pub rtk_filter : TokenOptimizerConfig → Headers → List ℕ
rtk_filter config header =
    if not (str_eq (header "X-RTK-Filter") "")
    then to_lower (header "X-RTK-Filter")
    else if not (str_eq config.rtk_default_filter "")
    then to_lower config.rtk_default_filter
    else codes "autodetect"

unfoldable pub caveman_level_of : TokenOptimizerConfig → Headers → List ℕ
caveman_level_of config header =
    if not (str_eq (header "X-Caveman") "")
    then to_lower (header "X-Caveman")
    else to_lower config.caveman_level

-- The three texts of prompts.go.
pub record Prompts : Type 0 where
  pub full : String
  pub lite : String
  pub ultra : String

unfoldable pub get_prompt : Prompts → List ℕ → String
get_prompt prompts level =
    if bytes_eq level (codes "full")
    then prompts.full
    else if bytes_eq level (codes "lite")
    then prompts.lite
    else if bytes_eq level (codes "ultra")
    then prompts.ultra
    else ""

-- `Inject`
unfoldable pub inject : Prompts → List NormalizedMessage → List ℕ → List NormalizedMessage
unfolding get_prompt
inject prompts messages level =
    if bytes_eq level []
    then messages
    else if str_eq (get_prompt prompts level) ""
    then messages
    else record { role = "system"; content = get_prompt prompts level } ∷ messages

abbrev pub onto_chat : ChatMessage → String × ℤ → List ChatMessage × ℤ → List ChatMessage × ℤ
onto_chat m (content, saved) (msgs, total) =
    ((record m { content = content }) ∷ msgs, saved +ℤ total)

abbrev pub onto_normalized :
    NormalizedMessage → String × ℤ → List NormalizedMessage × ℤ → List NormalizedMessage × ℤ
onto_normalized m (content, saved) (msgs, total) =
    ((record m { content = content }) ∷ msgs, saved +ℤ total)

module _ (prompts : Prompts) (compress : List ℕ → String → String × ℤ)
    (config : TokenOptimizerConfig) (header : Headers) where
  -- The content and what it saves, as it is without compression.
  unfoldable pub content_of : String → String × ℤ
  unfolding should_compress rtk_filter
  content_of content =
      if should_compress config header
      then compress (rtk_filter config header) content
      else (content, pos 0)

  unfoldable pub compress_chat : List ChatMessage → List ChatMessage × ℤ
  unfolding content_of
  compress_chat [] = ([], pos 0)
  compress_chat (m ∷ msgs) = onto_chat m (content_of m.content) (compress_chat msgs)

  unfoldable pub compress_messages : List NormalizedMessage → List NormalizedMessage × ℤ
  unfolding content_of
  compress_messages [] = ([], pos 0)
  compress_messages (m ∷ msgs) = onto_normalized m (content_of m.content) (compress_messages msgs)

  -- !shouldCompress && level == ""
  abbrev pub is_idle : Bool
  unfolding should_compress caveman_level_of
  is_idle = not (should_compress config header) && bytes_eq (caveman_level_of config header) []

  unfoldable pub apply_to_messages : List NormalizedMessage → List NormalizedMessage × ℤ
  unfolding compress_messages inject should_compress caveman_level_of
  apply_to_messages messages = if is_idle then (messages, pos 0) else (
    inject prompts (compress_messages messages).0 (caveman_level_of config header),
    (compress_messages messages).1,
  )

  -- The prompt as a message in front, where there is one.
  unfoldable pub with_prompt : List ℕ → List ChatMessage → List ChatMessage
  unfolding get_prompt
  with_prompt level msgs =
      if bytes_eq level []
      then msgs
      else if str_eq (get_prompt prompts level) ""
      then msgs
      else record { role = "system"; content = get_prompt prompts level } ∷ msgs

  unfoldable pub apply_to_chat_messages : List ChatMessage → List ChatMessage × ℤ
  unfolding compress_chat with_prompt should_compress caveman_level_of
  apply_to_chat_messages msgs = if is_idle then (msgs, pos 0) else (
    with_prompt (caveman_level_of config header) (compress_chat msgs).0,
    (compress_chat msgs).1,
  )

  convert-with_prompt :
      (level : List ℕ) (msgs : List ChatMessage)
      → convert_chat_messages (with_prompt level msgs)
        ≡ inject prompts (convert_chat_messages msgs) level
  unfolding with_prompt inject
  convert-with_prompt level msgs = elim (Bool-cases (bytes_eq level [])) [
    | inl e ↦ rw e refl
    | inr e ↦ elim (Bool-cases (str_eq (get_prompt prompts level) "")) [
      | inl f ↦ rw (e, f) refl
      | inr f ↦ rw (e, f) refl
    ]
  ]

  abbrev Same : List ChatMessage × ℤ → List NormalizedMessage × ℤ → Type 0
  Same a b = (convert_chat_messages a.0 ≡ b.0) × (a.1 ≡ b.1)

  onto-Same :
      (m : ChatMessage) (c : String × ℤ) (a : List ChatMessage × ℤ) (b : List NormalizedMessage × ℤ)
      → Same a b
      → Same (onto_chat m c a) (onto_normalized (record { role = m.role; content = m.content }) c b)
  onto-Same m (content, saved) (msgs, total) (others, sum) h =
      (ap (λ ms. (record { role = m.role; content = content }) ∷ ms) h.0, ap (λ n. saved +ℤ n) h.1)

  compress-Same :
      (msgs : List ChatMessage)
      → Same (compress_chat msgs) (compress_messages (convert_chat_messages msgs))
  unfolding compress_chat compress_messages
  compress-Same [] = (refl, refl)
  compress-Same (m ∷ msgs) =
      onto-Same m (content_of m.content) (compress_chat msgs)
        (compress_messages (convert_chat_messages msgs)) (compress-Same msgs)

  -- The optimizer does the same to a chat request, whose messages it changes before they are converted, as to the
  -- messages that other requests hand to it converted already: the messages that go to the provider are
  -- the same, with the same prompt in front, and so is the number of bytes saved.
  pub apply_to_chat_messages_lem :
      (msgs : List ChatMessage)
      → (convert_chat_messages (apply_to_chat_messages msgs).0
          ≡ (apply_to_messages (convert_chat_messages msgs)).0)
        × ((apply_to_chat_messages msgs).1 ≡ (apply_to_messages (convert_chat_messages msgs)).1)
  unfolding apply_to_chat_messages apply_to_messages
  apply_to_chat_messages_lem msgs =
      let same = compress-Same msgs in
      let level = caveman_level_of config header in
      elim (Bool-cases is_idle) [
        | inl e ↦ rw e (refl, refl)
        | inr e ↦ rw e (
          convert-with_prompt level (compress_chat msgs).0
              ∙ ap (λ ms. inject prompts ms level) same.0,
          same.1,
        )
      ]
