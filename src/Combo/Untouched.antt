-- ===== src/Combo/Untouched.antt =====
-- gorouter/internal/combo/combo.go: the connections that `Execute` leaves alone.
use yi_api_proxy.Base.{
  ℕ, suc, String, str_eq, ◌≡◌, refl, ◌∙◌, false, List, [], ◌∷◌, some, inl, inr, All, Bool-cases,
}
use yi_api_proxy.Db.Types.{ProviderConnection, Combo, ComboItem}
use yi_api_proxy.Db.Table.{Table, find_by_id}
use yi_api_proxy.Db.Providers.Laws.{IsKeyed}
use yi_api_proxy.Combo.Data.{ExecuteRequest, Calls, count_fallback, decides}
use yi_api_proxy.Combo.Attempt.{execute_item}
use yi_api_proxy.Combo.Execute.{run_items, execute_items, execute}
use yi_api_proxy.Combo.Effects.{execute_item_effect}

-- No item names the connection.
abbrev pub NotNamed : String → List ComboItem → Type 0
NotNamed j items = All (λ item. str_eq item.provider_id j ≡ false) items

module _ {HttpRequest Reply Data : Type 0} (serialize : Reply → Data) where
  module _ (calls : ℕ → Calls HttpRequest Reply) (req : ExecuteRequest) (j : String) where
    find-run_items :
        (i count : ℕ) (items : List ComboItem) (t : Table ProviderConnection)
        → IsKeyed t
        → NotNamed j items
        → IsKeyed (run_items serialize calls i count req items t).1
          × (find_by_id j (run_items serialize calls i count req items t).1 ≡ find_by_id j t)
    unfolding run_items
    find-run_items i count [] t k a = (k, refl)
    find-run_items i count (item ∷ items) t k a =
        let step = execute_item_effect serialize (calls i) item req j 0 t k in
        let rest =
          find-run_items (suc i) (count_fallback items count) items
            (execute_item serialize (calls i) item req t).1 step.0 a.1 in
        elim (Bool-cases (decides (execute_item serialize (calls i) item req t).0)) [
          | inl e ↦ rw e (step.0, step.1 a.0)
          | inr e ↦ rw e (rest.0, rest.1 ∙ step.1 a.0)
        ]

    find-execute_items :
        (items : List ComboItem) (t : Table ProviderConnection)
        → IsKeyed t
        → NotNamed j items
        → IsKeyed (execute_items serialize calls req items t).1
          × (find_by_id j (execute_items serialize calls req items t).1 ≡ find_by_id j t)
    unfolding execute_items
    find-execute_items [] t k a = (k, refl)
    find-execute_items (item ∷ items) t k a = find-run_items 0 0 (item ∷ items) t k a

    -- `Execute` keeps the table's keys and changes no connection that the combo's items do not name.
    pub find-execute :
        (combo : Combo) (t : Table ProviderConnection)
        → IsKeyed t
        → NotNamed j combo.items
        → IsKeyed (execute serialize calls (some combo) req t).1
          × (find_by_id j (execute serialize calls (some combo) req t).1 ≡ find_by_id j t)
    unfolding execute
    find-execute combo t k a = find-execute_items combo.items t k a
