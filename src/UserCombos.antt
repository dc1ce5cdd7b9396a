-- ===== src/UserCombos.antt =====
-- gorouter/internal/handlers/user_combos.go: the handlers that change or show a user's combos. A request's
-- body is `none` where it does not decode; UUIDs and the clock are arguments. An answer is its status code,
-- the combos in its body and the table of the combos.
pub mod Owners
pub mod Listed
pub mod Generate
use yi_api_proxy.Base.{
  ℕ, suc, String, str_eq, Bool, true, false, Option, none, some, List, [], ◌∷◌, if◌then◌else◌, ◌&&◌,
  ◌||◌, not, map, ◌==◌,
}
use yi_api_proxy.Base.Int.{ℤ, pos}
use yi_api_proxy.Db.Types.{Combo, ComboItem, Model}
use yi_api_proxy.Db.Table.{Table, Write, stored, panic, find_by_id, delete, after}
use yi_api_proxy.Db.Combos
use yi_api_proxy.Db.Combos.{
  create, update, find_by_creator, Outcome, done, missing, add_item, remove_item, reorder_items,
}

pub record UserContext : Type 0 where
  pub user_id : String
  pub email : String
  pub role : String

pub record CreateComboRequest : Type 0 where
  pub name : String
  pub description : String
  pub is_active : Bool

pub record AddItemRequest : Type 0 where
  pub provider_id : String
  pub model_id : String
  pub priority : ℤ
  pub max_retries : ℤ
  pub timeout_seconds : ℤ

pub record Answer : Type 0 where
  pub code : ℕ
  pub combos : List Combo
  pub table : Table Combo

abbrev pub answer : ℕ → Table Combo → Answer
answer code t = record { code = code; combos = []; table = t }

-- c.UserID != user.UserID && user.Role != "admin"
abbrev pub is_forbidden : UserContext → Combo → Bool
is_forbidden user c = not (str_eq c.user_id user.user_id) && not (str_eq user.role "admin")

abbrev pub on_found : UserContext → Table Combo → (Combo → Answer) → Option Combo → Answer
on_found user t serve none = answer 404 t
on_found user t serve (some c) = if is_forbidden user c then answer 403 t else serve c

-- What `GetCombo`, `UpdateCombo`, `DeleteCombo`, `AddComboItem` and `ReorderComboItems` begin with.
abbrev pub on_combo : Option UserContext → String → Table Combo → (Combo → Answer) → Answer
on_combo none id t serve = answer 401 t
on_combo (some user) id t serve = on_found user t serve (find_by_id id t)

unfoldable pub list_combos : Option UserContext → Table Combo → Answer
list_combos none t = answer 401 t
list_combos (some user) t = record {
  code = 200;
  combos = find_by_creator user.user_id t;
  table = t;
}

abbrev pub new_combo : String → CreateComboRequest → UserContext → Combo
new_combo uuid req user = record {
  id = uuid;
  name = req.name;
  description = req.description;
  user_id = user.user_id;
  strategy = "";
  is_active = req.is_active;
  items = [];
  created_by = "";
  created_at = 0;
  updated_at = 0;
}

abbrev pub create_valid :
    ℕ → String → UserContext → Option CreateComboRequest → Table Combo → Answer
create_valid now uuid user none t = answer 400 t
create_valid now uuid user (some req) t =
    if str_eq req.name ""
    then answer 400 t
    else answer 201 (after t (create now (new_combo uuid req user) t))

unfoldable pub create_combo :
    ℕ → String → Option UserContext → Option CreateComboRequest → Table Combo → Answer
create_combo now uuid none body t = answer 401 t
create_combo now uuid (some user) body t = create_valid now uuid user body t

unfoldable pub get_combo : Option UserContext → String → Table Combo → Answer
get_combo user id t = on_combo user id t (λ c. record { code = 200; combos = c ∷ []; table = t })

abbrev pub update_valid : ℕ → Option CreateComboRequest → Table Combo → Combo → Answer
update_valid now none t c = answer 400 t
update_valid now (some req) t c = answer 200 (
    after t (
      update now
        (record c { name = req.name; description = req.description; is_active = req.is_active }) t))

unfoldable pub update_combo :
    ℕ → Option UserContext → String → Option CreateComboRequest → Table Combo → Answer
update_combo now user id body t = on_combo user id t (update_valid now body t)

unfoldable pub delete_combo : Option UserContext → String → Table Combo → Answer
delete_combo user id t = on_combo user id t (λ c. answer 204 (delete id t))

abbrev pub new_item : String → String → String → String → AddItemRequest → ComboItem
new_item uuid combo_id provider_id model_id req = record {
  id = uuid;
  combo_id = combo_id;
  provider_id = provider_id;
  model_id = model_id;
  priority = req.priority;
  weight = pos 0;
  max_retries = req.max_retries;
  timeout_seconds = req.timeout_seconds;
  conditions = "";
}

abbrev pub added : Outcome → Table Combo → (Table Combo → Answer) → Answer
added (done w) t serve = serve (after t w)
added (missing id t') t serve = answer 500 t'

-- The loop over the models of the name; the UUIDs are given by number.
unfoldable pub add_models :
    ℕ → (ℕ → String) → String → AddItemRequest → List Model → Table Combo → Answer
add_models now uuids combo_id req [] t = answer 201 t
add_models now uuids combo_id req (m ∷ models) t =
    added (add_item now (new_item (uuids 0) combo_id m.provider_id m.model_id req) t) t
      (λ t'. add_models now (λ n. uuids (suc n)) combo_id req models t')

-- `models` is what `FindByModelID` lists; it fails nowhere in the JSON store.
abbrev pub implicit_fallback :
    ℕ → (ℕ → String) → String → AddItemRequest → List Model → Table Combo → Answer
implicit_fallback now uuids combo_id req [] t = answer 404 t
implicit_fallback now uuids combo_id req (m ∷ models) t =
    add_models now uuids combo_id req (m ∷ models) t

abbrev pub add_valid :
    ℕ → (ℕ → String) → String → Option AddItemRequest → (String → List Model) → Table Combo → Answer
add_valid now uuids combo_id none models t = answer 400 t
add_valid now uuids combo_id (some req) models t =
    if str_eq req.model_id ""
    then answer 400 t
    else if str_eq req.provider_id ""
    then implicit_fallback now uuids combo_id req (models req.model_id) t
    else added (add_item now (new_item (uuids 0) combo_id req.provider_id req.model_id req) t) t
        (answer 201)

unfoldable pub add_combo_item :
    ℕ
    → (ℕ → String)
    → Option UserContext
    → String
    → Option AddItemRequest
    → (String → List Model)
    → Table Combo
    → Answer
add_combo_item now uuids user combo_id body models t =
    on_combo user combo_id t (λ c. add_valid now uuids combo_id body models t)

-- `RemoveComboItem` looks at the user's context only, and at no combo.
unfoldable pub remove_combo_item : ℕ → Option UserContext → String → Table Combo → Answer
remove_combo_item now none item_id t = answer 401 t
remove_combo_item now (some user) item_id t = answer 204 (after t (remove_item now item_id t))

abbrev pub reorder_valid : ℕ → String → Option (List String) → Table Combo → Answer
reorder_valid now combo_id none t = answer 400 t
reorder_valid now combo_id (some ids) t = added (reorder_items now combo_id ids t) t (answer 204)

unfoldable pub reorder_combo_items :
    ℕ → Option UserContext → String → Option (List String) → Table Combo → Answer
reorder_combo_items now user combo_id body t =
    on_combo user combo_id t (λ c. reorder_valid now combo_id body t)
