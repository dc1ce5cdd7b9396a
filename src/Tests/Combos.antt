-- ===== src/Tests/Combos.antt =====
-- gorouter/internal/combo/combo.go: runs on a combo of two items, where the first connection is down.
use yi_api_proxy.Base.{ℕ, ◌≡◌, refl, String, [], ◌∷◌, some, true, false, arith, ◌⊎◌, inr, length}
use yi_api_proxy.Base.Int.{pos}
use yi_api_proxy.Base.Assoc.{lookup}
use yi_api_proxy.Db.Types.{ProviderConnection, Combo, ComboItem}
use yi_api_proxy.Db.Table.{Table, find_by_id}
use yi_api_proxy.Combo.Data.{ExecuteRequest, Calls, ExecuteResponse, all_failed, answer_of}
use yi_api_proxy.Combo.Attempt.{execute_item, attempt, answered}
use yi_api_proxy.Combo.Execute.{execute}
use yi_api_proxy.Combo.Decided.{DecidedBy, FellThrough, tried, execute_decided}
use yi_api_proxy.Combo.Skipped.{skipped, failed_provider_skipped}
use yi_api_proxy.Tests.Samples.{connection}
use yi_api_proxy.Tests.Monitor.{store, store-IsKeyed}

abbrev pub item : String → ComboItem
item provider_id = record {
  id = "i";
  combo_id = "c";
  provider_id = provider_id;
  model_id = "gpt-4o";
  priority = pos 1;
  weight = pos 1;
  max_retries = pos 0;
  timeout_seconds = pos 0;
  conditions = "";
}

abbrev pub combo : Combo
combo = record {
  id = "c";
  name = "c";
  description = "";
  user_id = "u1";
  strategy = "fallback";
  is_active = true;
  items = item "a" ∷ item "b" ∷ [];
  created_by = "u1";
  created_at = 1;
  updated_at = 1;
}

abbrev req : ExecuteRequest
req = record { model = ""; messages = []; stream = false }

-- The exchange ends with the status at that time.
abbrev pub calls_at : ℕ → ℕ → Calls String String
calls_at time status = record {
  now = time;
  later = time;
  has_adapter = λ provider. true;
  decrypt = λ secret. some secret;
  translate_request = λ provider request base_url api_key. inr "request";
  send = λ timeout request. inr (status, "body");
  parse_response = λ provider answer. inr answer.1;
}

abbrev pub serialize : String → String
serialize reply = reply

abbrev down : ℕ → Calls String String
down i = calls_at 100 500

execute_decided_example :
    ((out : ExecuteResponse String × Table ProviderConnection) × (execute serialize down
          (some combo)
          req
          store
        ≡ answer_of out)
      × DecidedBy serialize down req 0 (item "a" ∷ item "b" ∷ []) store out 0)
    ⊎ (FellThrough serialize down req 0 (item "a" ∷ item "b" ∷ []) store
        × (execute serialize down (some combo) req store
            ≡ answer_of (
              all_failed (length (item "b" ∷ [])),
              tried serialize down req 0 (item "a" ∷ item "b" ∷ []) store,
            )))
execute_decided_example =
    execute_decided serialize down req combo (item "a") (item "b" ∷ []) store refl

failed_provider_skipped_example :
    ((execute_item serialize (calls_at 100 500) (item "a") req store).1 ≡ store)
    ⊎ (execute_item serialize
          (calls_at 120 200)
          (item "a")
          req
          (execute_item serialize (calls_at 100 500) (item "a") req store).1
        ≡ skipped
            (connection "a" 1 3)
            (execute_item serialize (calls_at 100 500) (item "a") req store).1)
unfolding find_by_id lookup execute_item attempt answered
failed_provider_skipped_example =
    failed_provider_skipped serialize (calls_at 100 500) (calls_at 120 200) (item "a") (item "a")
      req req (connection "a" 1 3) store store-IsKeyed refl refl (omega arith) refl
