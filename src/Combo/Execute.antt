-- ===== src/Combo/Execute.antt =====
-- gorouter/internal/combo/combo.go: `Execute`, on the table of the providers.
use yi_api_proxy.Base.{ℕ, suc, List, [], ◌∷◌, Option, none, some, if◌then◌else◌}
use yi_api_proxy.Db.Types.{ProviderConnection, Combo, ComboItem}
use yi_api_proxy.Db.Table.{Table}
use yi_api_proxy.Combo.Data.{
  ExecuteRequest, Calls, ExecuteResponse, Execution, responded, panic, count_fallback, all_failed,
  decided, decides, no_providers, answer_of,
}
use yi_api_proxy.Combo.Attempt.{execute_item}

module _ {HttpRequest Reply Data : Type 0} (serialize : Reply → Data) where
  -- The loop of `Execute` on the items that are left, with the attempts' calls by number.
  unfoldable pub run_items :
      (ℕ → Calls HttpRequest Reply)
      → ℕ
      → ℕ
      → ExecuteRequest
      → List ComboItem
      → Table ProviderConnection
      → ExecuteResponse Data × Table ProviderConnection
  unfolding execute_item
  run_items calls i fallback_count req [] t = (all_failed fallback_count, t)
  run_items calls i fallback_count req (item ∷ items) t =
      let tried = execute_item serialize (calls i) item req t in
      let rest = run_items calls (suc i) (count_fallback items fallback_count) req items tried.1 in
      if decides tried.0 then (decided item tried.0 fallback_count, tried.1) else rest

  -- `Execute` on the combo's items
  unfoldable pub execute_items :
      (ℕ → Calls HttpRequest Reply)
      → ExecuteRequest
      → List ComboItem
      → Table ProviderConnection
      → Execution Data × Table ProviderConnection
  unfolding run_items
  execute_items calls req [] t = (responded no_providers, t)
  execute_items calls req (item ∷ items) t = answer_of (run_items calls 0 0 req (item ∷ items) t)

  -- `Execute` on the combo that `GetCombo` gave, nil for an unknown id.
  unfoldable pub execute :
      (ℕ → Calls HttpRequest Reply)
      → Option Combo
      → ExecuteRequest
      → Table ProviderConnection
      → Execution Data × Table ProviderConnection
  unfolding execute_items
  execute calls none req t = (panic, t)
  execute calls (some combo) req t = execute_items calls req combo.items t
