-- ===== src/Tests/Chats.antt =====
-- gorouter/internal/handlers/v1/chat.go: runs on two connections, of which the first is down.
use yi_api_proxy.Base.{
  ℕ, suc, ◌≡◌, refl, String, [], ◌∷◌, none, some, true, false, ◌⊎◌, inr, ◌==◌, if◌then◌else◌,
}
use yi_api_proxy.Base.Int.{pos}
use yi_api_proxy.Base.Assoc.{lookup}
use yi_api_proxy.Db.Types.{Quota}
use yi_api_proxy.Db.Table.{find_by_id}
use yi_api_proxy.Db.Models.{list_enabled}
use yi_api_proxy.Db.Providers.{cooled_down}
use yi_api_proxy.Db.Providers.Laws.{stamped}
use yi_api_proxy.Routing.Sorting.{insertion_sorter}
use yi_api_proxy.Routing.Select.{nothing, listed, is_available, select_providers_for_model}
use yi_api_proxy.Routing.Orders.{IsOrderedFor}
use yi_api_proxy.Routing.Sound.{usable_for}
use yi_api_proxy.Chat.{ChatRequest, ChatCalls, Body, object, number, with_latency}
use yi_api_proxy.Chat.Direct.{next, candidates_for, try_provider, try_candidates}
use yi_api_proxy.Chat.Decided.{DecidedBy, GivenUp, first_deciding_candidate}
use yi_api_proxy.Chat.Marked.{failed_candidate_cools}
use yi_api_proxy.Chat.Candidates.{AreCandidates, chat_candidates}
use yi_api_proxy.Chat.Handler.{ChatState, Outside, handle}
use yi_api_proxy.Chat.Charged.{ChargedFor, only_answers_charged}
use yi_api_proxy.Tests.Samples.{connection, gpt_on, two_connections}
use yi_api_proxy.Tests.Monitor.{store, store-IsKeyed}
use yi_api_proxy.Tests.Combos.{calls_at}

abbrev req : ChatRequest
req = record {
  model = "gpt-4o";
  messages = record { role = "user"; content = "hi" } ∷ [];
  stream = false;
  temperature = none;
  max_tokens = none;
  top_p = none;
}

-- The first exchange fails, the others succeed.
abbrev calls : ℕ → ChatCalls String
calls i = record {
  now = 100;
  latency = pos 80;
  has_adapter = λ provider. true;
  token = λ p. some "sk";
  translate_request = λ provider request base_url key. some "request";
  send = λ request. inr (if i == 0 then (503, "down") else (200, "body"));
}

first_deciding_candidate_example :
    DecidedBy calls "gpt-4o" req 0 two_connections store
      (try_candidates calls 0 "" "gpt-4o" req two_connections store)
    ⊎ GivenUp calls "gpt-4o" req 0 "" two_connections store
        (try_candidates calls 0 "" "gpt-4o" req two_connections store)
first_deciding_candidate_example = first_deciding_candidate calls "gpt-4o" req two_connections store

failed_candidate_cools_example :
    (err : String) × (message : String) × ((try_provider
        (calls 0)
        "gpt-4o"
        req
        (connection "a" 1 3)
        store).0
      ≡ next err)
    × (find_by_id "a" (try_provider (calls 0) "gpt-4o" req (connection "a" 1 3) store).1
        ≡ some (
            stamped 100 (
              cooled_down 100 160 message
                (stamped 100 (with_latency (pos 80) (connection "a" 1 3))))))
    × (is_available 900 (
          stamped 100 (
            cooled_down 100 160 message (stamped 100 (with_latency (pos 80) (connection "a" 1 3)))))
        ≡ false)
unfolding find_by_id lookup
failed_candidate_cools_example =
    failed_candidate_cools (calls 0) "gpt-4o" "sk" req "request" (inr (503, "down"))
      (connection "a" 1 3) (connection "a" 1 3) store 900 store-IsKeyed refl refl refl refl refl
      refl refl

chat_candidates_example :
    AreCandidates
      (IsOrderedFor "cost" (gpt_on "a" ∷ []) "gpt-4o")
      (usable_for 10 (gpt_on "a" ∷ []) "gpt-4o" two_connections)
      (find_by_id "a" store)
      (candidates_for
        (select_providers_for_model insertion_sorter "cost" 10
          (gpt_on "a" ∷ [])
          "gpt-4o"
          (listed (gpt_on "a" ∷ []))
          (listed two_connections))
        (gpt_on "a")
        store)
chat_candidates_example =
    chat_candidates insertion_sorter "cost" 10 (gpt_on "a" ∷ []) (gpt_on "a" ∷ []) two_connections
      (gpt_on "a") store

abbrev quota : Quota
quota = record {
  id = "q1";
  user_id = "u1";
  monthly_token_cap = pos 1000;
  monthly_cost_cap = pos 0;
  used_tokens = pos 10;
  used_cost = pos 0;
  reset_at = 5000;
  created_at = 0;
  updated_at = 0;
}

abbrev state : ChatState
state = record {
  providers = store;
  models = some (("m-1", gpt_on "a") ∷ []);
  combos = none;
  aliases = none;
  events = none;
  quotas = some (("q1", quota) ∷ []);
}

abbrev answer : Body
answer = ("usage", object (("total_tokens", number (pos 42000000)) ∷ [])) ∷ []

abbrev world : Outside String String String
world = record {
  combo_calls = λ i. calls_at 100 200;
  serialize = λ reply. [];
  calls = λ i. calls (suc i);
  routed = λ t model_id. nothing;
  parse_json = λ body. some answer;
  optimize = λ msgs. msgs;
  recording = record {
    usage_id = "e1";
    request_id = "r1";
    claims = some (record { user_id = "u1"; email = ""; role = "user" });
    validation = none;
    now = 100;
    latency = pos 90;
  };
}

only_answers_charged_example :
    ChargedFor world.parse_json
      (list_enabled state.models)
      100
      "u1"
      (handle world req state).0
      state.quotas
      (handle world req state).1.quotas
only_answers_charged_example = only_answers_charged world req state
