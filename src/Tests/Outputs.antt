-- ===== src/Tests/Outputs.antt =====
-- gorouter/internal/rtk, gorouter/internal/handlers/v1/tokenizer.go and gorouter/internal/streaming/stream.go: runs on
-- short texts.
use yi_api_proxy.Base.{
  ℕ, ◌≡◌, refl, String, str_eq, List, [], ◌∷◌, none, some, true, false, All, filterb, map, length,
  if◌then◌else◌,
}
use yi_api_proxy.Base.Int.{ℤ, pos, ◌-ℤ◌}
use yi_api_proxy.Base.Text.{codes, itoa}
use yi_api_proxy.Chat.{ChatMessage, convert_chat_messages}
use yi_api_proxy.Rtk.{
  Line, Run, process_log, rejoined, show_run, runs_of, diff_lines, summary_lines, log_runs,
}
use yi_api_proxy.Rtk.Logs.{expand, AreRuns, shown, process_log_lem}
use yi_api_proxy.Base.Split.{join_on, split_on, IsWhole}
use yi_api_proxy.Rtk.Diffs.{is_text}
use yi_api_proxy.Rtk.Headers.{Keeps, HasNoHeader, diff_lines_lem}
use yi_api_proxy.Tokenizer.{
  TokenOptimizerConfig, Headers, Prompts, apply_to_messages, apply_to_chat_messages,
  apply_to_chat_messages_lem,
}
use yi_api_proxy.Streaming.{data_event, empty_line, done_event, stream_lines, stream_response}

abbrev log : List Line
log = codes "retry" ∷ codes "done" ∷ codes "done" ∷ []

process_log_lem_example :
    (first : Line) × (runs : List Run) × AreRuns first runs
    × (join_on 10 (expand runs) ≡ codes "a\na\nb")
    × All (IsWhole 10) (expand runs)
    × (process_log (codes "a\na\nb")
        ≡ (join_on 10 (map shown runs), pos 5 -ℤ pos (length (join_on 10 (map shown runs)))))
process_log_lem_example = process_log_lem (codes "a\na\nb")

short_log : (process_log (codes "a\na\nb")).0 ≡ codes "a (x2)\nb"
unfolding process_log rejoined runs_of log_runs show_run itoa split_on join_on
short_log = refl

two_runs : runs_of (codes "retry" ∷ log) ≡ (codes "retry", 2) ∷ (codes "done", 2) ∷ []
unfolding runs_of log_runs
two_runs = refl

abbrev diff : List Line
diff =
    codes "diff --git a/x b/x"
    ∷ codes "@@ -1,2 +1,2 @@"
    ∷ codes "-a"
    ∷ codes "+b"
    ∷ codes "@@ -9 +9 @@"
    ∷ codes " c"
    ∷ []

diff_lines_lem_example :
    (bodies : List Line) × Keeps diff bodies
    × (filterb is_text (diff_lines [] diff) ≡ filterb is_text bodies)
    × HasNoHeader (diff_lines [] diff)
    × (diff_lines [] (diff_lines [] diff) ≡ diff_lines [] diff)
diff_lines_lem_example = diff_lines_lem diff

shortened : diff_lines [] diff ≡ codes "-a" ∷ codes "+b" ∷ codes "..." ∷ codes " c" ∷ []
unfolding diff_lines
shortened = refl

-- With 21 lines, two of the lines that say that lines are left out stand for the lines 11 and 12.
abbrev numbered : List Line
numbered = map codes (
    "0" ∷ "1" ∷ "2" ∷ "3" ∷ "4" ∷ "5" ∷ "6" ∷ "7" ∷ "8" ∷ "9" ∷ "10" ∷ "11" ∷ "12" ∷ "13" ∷ "14"
    ∷ "15" ∷ "16" ∷ "17" ∷ "18" ∷ "19" ∷ "20" ∷ [])

summary_overwrites :
    summary_lines numbered
    ≡ map codes (
        "0" ∷ "1" ∷ "2" ∷ "3" ∷ "4" ∷ "5" ∷ "6" ∷ "7" ∷ "8" ∷ "9" ∷ "..." ∷ "--- TRUNCATED ---"
        ∷ "..." ∷ "--- TRUNCATED ---" ∷ "..." ∷ "13" ∷ "14" ∷ "15" ∷ "16" ∷ "17" ∷ "18" ∷ "19"
        ∷ "20" ∷ [])
unfolding summary_lines
summary_overwrites = refl

abbrev prompts : Prompts
prompts = record { full = "terse"; lite = "short"; ultra = "grunt" }

abbrev cut : List ℕ → String → String × ℤ
cut filter content = ("cut", pos 3)

abbrev config : TokenOptimizerConfig
config = record { rtk_enabled = true; rtk_default_filter = "Log"; caveman_level = "" }

abbrev header : Headers
header name = if str_eq name "X-Caveman" then "FULL" else ""

abbrev messages : List ChatMessage
messages = record { role = "user"; content = "hello" } ∷ []

apply_to_chat_messages_lem_example :
    (convert_chat_messages (apply_to_chat_messages prompts cut config header messages).0
      ≡ (apply_to_messages prompts cut config header (convert_chat_messages messages)).0)
    × ((apply_to_chat_messages prompts cut config header messages).1
        ≡ (apply_to_messages prompts cut config header (convert_chat_messages messages)).1)
apply_to_chat_messages_lem_example = apply_to_chat_messages_lem prompts cut config header messages

abbrev stream : List Line
stream = codes "data: {}" ∷ [] ∷ codes "event: x" ∷ codes "data: [DONE]" ∷ codes "data: late" ∷ []

streamed_events :
    stream_response true (some "cut") (map (λ line. (false, line)) stream)
    ≡ (data_event (codes "{}") ∷ empty_line ∷ done_event ∷ [], none)
unfolding stream_response stream_lines
streamed_events = refl
