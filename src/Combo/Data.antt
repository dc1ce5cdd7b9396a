-- ===== src/Combo/Data.antt =====
-- gorouter/internal/combo/combo.go: requests, results and answers, and the tests on them. What the program
-- gets from elsewhere in an attempt (the clock, adapters, decryption, the HTTP exchange) is a record of
-- functions, one record for each attempt; the latency in the answer is left out.
use yi_api_proxy.Base.{
  ℕ, suc, ◌+◌, ◌*◌, String, str_eq, Bool, true, false, List, [], ◌∷◌, Option, none, some, ◌⊎◌,
  if◌then◌else◌, ◌&&◌, ◌||◌, not, ltb, leb, ◌==◌, map,
}
use yi_api_proxy.Base.Int.{ℤ, pos, pos_part, ltb_ℤ}
use yi_api_proxy.Base.Assoc.{Assoc, lookup}
use yi_api_proxy.Db.Types.{ProviderConnection, ComboItem}
use yi_api_proxy.Db.Table.{Table, after}
use yi_api_proxy.Db.Providers.{mark_cooldown}

pub record ExecuteRequest : Type 0 where
  pub model : String
  pub messages : List (Assoc String)
  pub stream : Bool

pub record NormalizedMessage : Type 0 where
  pub role : String
  pub content : String

pub record NormalizedChatRequest : Type 0 where
  pub model : String
  pub messages : List NormalizedMessage
  pub stream : Bool
  pub temperature : Option ℤ
  pub max_tokens : Option ℤ
  pub top_p : Option ℤ

pub record ExecuteError : Type 0 where
  pub code : String
  pub message : String

-- What one attempt meets. `now` is the clock of the cooldown test, `later` that of the writes; an error
-- is its text; an answer is its status and its body.
pub record Calls (HttpRequest Reply : Type 0) : Type 0 where
  pub now : ℕ
  pub later : ℕ
  pub has_adapter : String → Bool
  pub decrypt : String → Option String
  pub translate_request : String → NormalizedChatRequest → String → String → String ⊎ HttpRequest
  pub send : ℕ → HttpRequest → String ⊎ (ℕ × String)
  pub parse_response : String → ℕ × String → String ⊎ Reply

pub record ItemResult (Data : Type 0) : Type 0 where
  pub success : Bool
  pub fallback_eligible : Bool
  pub response : Option Data
  pub error : Option ExecuteError

pub record ExecuteResponse (Data : Type 0) : Type 0 where
  pub success : Bool
  pub model : String
  pub response : Option Data
  pub error : Option ExecuteError
  pub fallback_count : ℕ

-- What `Execute` comes to: an answer, or the panic of a read of `combo.Items` through nil.
pub data Execution (Data : Type 0) : Type 0 where
  responded : ExecuteResponse Data → Execution Data
  panic : Execution Data

-- msg[key], with "" for a missing key.
abbrev pub or_blank : Option String → String
or_blank none = ""
or_blank (some s) = s

unfoldable pub convert_messages : List (Assoc String) → List NormalizedMessage
convert_messages msgs =
    map (λ m. record { role = or_blank (lookup "role" m); content = or_blank (lookup "content" m) })
      msgs

-- In seconds: 30 for each level, at least 30 and at most 600.
unfoldable pub backoff_of : ℤ → ℕ
backoff_of level =
    if ltb_ℤ (pos 0) level
    then (if ltb 600 (pos_part level * 30) then 600 else pos_part level * 30)
    else 30

-- `markCooldown`
unfoldable pub mark_cooldown_for :
    ℕ → ProviderConnection → String → Table ProviderConnection → Table ProviderConnection
unfolding mark_cooldown backoff_of
mark_cooldown_for now provider message t =
    after t (mark_cooldown now provider.id (now + backoff_of provider.backoff_level) message t)

-- item.TimeoutSeconds, or 60 for 0.
abbrev pub timeout_of : ComboItem → ℕ
timeout_of item =
    if ltb_ℤ item.timeout_seconds (pos 0)
    then 0
    else if pos_part item.timeout_seconds == 0
    then 60
    else pos_part item.timeout_seconds

abbrev pub before : ℕ → Option ℕ → Bool
before now none = false
before now (some until) = ltb now until

abbrev pub is_cooling : ℕ → ProviderConnection → Bool
is_cooling now p = str_eq p.status "cooldown" && before now p.cooldown_until

-- resp.StatusCode == 429 || resp.StatusCode >= 500
abbrev pub eligible_status : ℕ → Bool
eligible_status status = status == 429 || leb 500 status

-- `if i < len(combo.Items)-1 { fallbackCount++ }`
abbrev pub count_fallback : List ComboItem → ℕ → ℕ
count_fallback [] fallback_count = fallback_count
count_fallback (item ∷ items) fallback_count = suc fallback_count

module _ {Data : Type 0} where
  abbrev pub fell : Bool → String → String → ItemResult Data
  fell eligible code message = record {
    success = false;
    fallback_eligible = eligible;
    response = none;
    error = some (record { code = code; message = message });
  }

  abbrev pub succeeded : Data → ItemResult Data
  succeeded reply = record {
    success = true;
    fallback_eligible = false;
    response = some reply;
    error = none;
  }

  abbrev pub all_failed : ℕ → ExecuteResponse Data
  all_failed fallback_count = record {
    success = false;
    model = "";
    response = none;
    error =
        some (record { code = "all_providers_failed"; message = "all providers in combo failed" });
    fallback_count = fallback_count;
  }

  -- The answer that an item's result decides: a success, or a failure that allows no fallback.
  abbrev pub decided : ComboItem → ItemResult Data → ℕ → ExecuteResponse Data
  decided item result fallback_count = record {
    success = result.success;
    model = item.model_id;
    response = result.response;
    error = result.error;
    fallback_count = fallback_count;
  }

  abbrev pub decides : ItemResult Data → Bool
  decides result = if result.success then true else not result.fallback_eligible

  abbrev pub no_providers : ExecuteResponse Data
  no_providers = record {
    success = false;
    model = "";
    response = none;
    error = some (record { code = "no_providers"; message = "combo has no providers configured" });
    fallback_count = 0;
  }

  abbrev pub answer_of :
      ExecuteResponse Data × Table ProviderConnection → Execution Data × Table ProviderConnection
  answer_of out = (responded out.0, out.1)
