-- ===== src/Combo/Attempt.antt =====
-- gorouter/internal/combo/combo.go: `executeItem`, on the table of the providers.
use yi_api_proxy.Base.{
  ℕ, String, true, false, Option, none, some, ◌⊎◌, inl, inr, if◌then◌else◌, leb,
}
use yi_api_proxy.Base.Text.{◌+++◌, itoa}
use yi_api_proxy.Db.Types.{ProviderConnection, ComboItem}
use yi_api_proxy.Db.Table.{Table, find_by_id, after}
use yi_api_proxy.Db.Providers.{clear_cooldown}
use yi_api_proxy.Combo.Data.{
  ExecuteRequest, Calls, ItemResult, convert_messages, mark_cooldown_for, timeout_of, is_cooling,
  eligible_status, fell, succeeded,
}

module _ {Reply Data : Type 0} (serialize : Reply → Data) where
  -- After `adapter.ParseResponse`
  abbrev pub parsed :
      ℕ
      → ProviderConnection
      → Table ProviderConnection
      → String ⊎ Reply
      → ItemResult Data × Table ProviderConnection
  parsed now p t (inl err) = (fell true "parse_error" ("failed to parse response: " +++ err), t)
  parsed now p t (inr reply) = (succeeded (serialize reply), after t (clear_cooldown now p.id t))

module _ {HttpRequest Reply Data : Type 0} (serialize : Reply → Data) where
  -- After `httpClient.Do`
  unfoldable pub answered :
      Calls HttpRequest Reply
      → ProviderConnection
      → Table ProviderConnection
      → String ⊎ (ℕ × String)
      → ItemResult Data × Table ProviderConnection
  unfolding mark_cooldown_for itoa clear_cooldown
  answered calls p t (inl err) = (
    fell true "request_failed" ("HTTP request failed: " +++ err),
    mark_cooldown_for calls.later p err t,
  )
  answered calls p t (inr (status, body)) =
      if leb 400 status
      then (
        fell (eligible_status status) ("http_" +++ itoa status)
            ("upstream returned " +++ itoa status +++ ": " +++ body),
        if eligible_status status
            then mark_cooldown_for calls.later p ("HTTP " +++ itoa status +++ ": " +++ body) t
            else t,
      )
      else parsed serialize calls.later p t (calls.parse_response p.provider (status, body))

  -- After `adapter.TranslateRequest`
  abbrev pub translated :
      Calls HttpRequest Reply
      → ComboItem
      → ProviderConnection
      → Table ProviderConnection
      → String ⊎ HttpRequest
      → ItemResult Data × Table ProviderConnection
  translated calls item p t (inl err) =
      (fell true "translate_error" ("failed to translate request: " +++ err), t)
  translated calls item p t (inr request) =
      answered calls p t (calls.send (timeout_of item) request)

  -- After `crypto.Decrypt`
  abbrev pub decrypted :
      Calls HttpRequest Reply
      → ComboItem
      → ExecuteRequest
      → ProviderConnection
      → Table ProviderConnection
      → Option String
      → ItemResult Data × Table ProviderConnection
  decrypted calls item req p t none =
      (fell true "decrypt_error" "failed to decrypt provider secret", t)
  decrypted calls item req p t (some api_key) = translated calls item p t (
      calls.translate_request p.provider
        (record {
          model = item.model_id;
          messages = convert_messages req.messages;
          stream = false;
          temperature = none;
          max_tokens = none;
          top_p = none;
        })
        p.base_url api_key)

  unfoldable pub attempt :
      Calls HttpRequest Reply
      → ComboItem
      → ExecuteRequest
      → Table ProviderConnection
      → Option ProviderConnection
      → ItemResult Data × Table ProviderConnection
  unfolding answered
  attempt calls item req t none =
      (fell true "provider_not_found" ("provider " +++ item.provider_id +++ " not found"), t)
  attempt calls item req t (some p) =
      if is_cooling calls.now p
      then (fell true "provider_cooldown" ("provider " +++ p.name +++ " is in cooldown"), t)
      else if calls.has_adapter p.provider
      then decrypted calls item req p t (calls.decrypt p.encrypted_secret)
      else (fell true "adapter_not_found" ("no adapter for provider " +++ p.provider), t)

  -- `executeItem`; its error is always nil.
  unfoldable pub execute_item :
      Calls HttpRequest Reply
      → ComboItem
      → ExecuteRequest
      → Table ProviderConnection
      → ItemResult Data × Table ProviderConnection
  unfolding attempt
  execute_item calls item req t = attempt calls item req t (find_by_id item.provider_id t)
