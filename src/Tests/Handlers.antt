-- ===== src/Tests/Handlers.antt =====
-- gorouter/internal/handlers/user_combos.go: runs on a store with one combo.
use yi_api_proxy.Base.{All, str_eq, String, ◌≡◌, refl, List, [], ◌∷◌, none, some, true}
use yi_api_proxy.Base.Assoc.{lookup}
use yi_api_proxy.Db.Types.{Model, Combo}
use yi_api_proxy.Db.Table.{Table, find_by_id}
use yi_api_proxy.Db.Kept.{KeptTable}
use yi_api_proxy.UserCombos.{
  UserContext, CreateComboRequest, get_combo, update_combo, delete_combo, add_combo_item,
  reorder_combo_items,
}
use yi_api_proxy.UserCombos.Owners.{combo_key, foreign_combo_protected}
use yi_api_proxy.UserCombos.Generate.{
  AutoGenerateRequest, auto_generate_combo, Holds, items_of, models_of, generated-Holds,
}
use yi_api_proxy.Base.Int.{pos}
use yi_api_proxy.Base.Text.{itoa}
use yi_api_proxy.Tests.Samples.{gpt_on}
use yi_api_proxy.Tests.Store.{entries, ordered}

abbrev mallory : UserContext
mallory = record { user_id = "u7"; email = "u7@example.org"; role = "user" }

abbrev request : CreateComboRequest
request = record { name = "mine"; description = ""; is_active = true }

-- Another combo, of the user who asks.
abbrev two : Table Combo
two = some (("c", ordered) ∷ ("m", record ordered { id = "m"; user_id = "u7" }) ∷ [])

two-Kept : KeptTable combo_key two
unfolding lookup
two-Kept = (refl, refl, (refl, refl, tt))

foreign_combo_protected_example :
    All (λ c. str_eq c.user_id "u7" ≡ true) (get_combo (some mallory) "m" two).combos
    × (find_by_id "c" (update_combo 9 (some mallory) "m" (some request) two).table ≡ some ordered)
    × (find_by_id "c" (delete_combo (some mallory) "m" two).table ≡ some ordered)
    × (find_by_id "c" (add_combo_item 9 (λ n. "new") (some mallory) "m" none (λ name. []) two).table
        ≡ some ordered)
    × (find_by_id "c" (reorder_combo_items 9 (some mallory) "m" (some ("i2" ∷ [])) two).table
        ≡ some ordered)
unfolding find_by_id lookup
foreign_combo_protected_example =
    foreign_combo_protected 9 (λ n. "new") mallory "m" "c" ordered two (some request) none
      (λ name. []) (some ("i2" ∷ [])) two-Kept refl refl refl

abbrev generation : AutoGenerateRequest
generation = record {
  name = "all of it";
  description = "";
  model_ids = "gpt-4o" ∷ [];
  is_active = true;
  priority = pos 1;
}

abbrev gpt_models : String → List Model
gpt_models id = gpt_on "a" ∷ gpt_on "b" ∷ []

generated-Holds_example :
    ((auto_generate_combo 9 "new"
        (λ n. itoa n)
        (some mallory)
        (some generation)
        gpt_models
        (some entries)).code
      ≡ 201)
    × Holds
        (auto_generate_combo 9 "new"
          (λ n. itoa n)
          (some mallory)
          (some generation)
          gpt_models
          (some entries)).table
        "new"
        (items_of (λ n. itoa n) "new" (pos 1) (models_of gpt_models ("gpt-4o" ∷ [])))
generated-Holds_example =
    generated-Holds 9 "new" (λ n. itoa n) mallory generation gpt_models (some entries) refl refl
