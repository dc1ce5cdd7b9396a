-- ===== src/UserCombos/Generate.antt =====
-- gorouter/internal/handlers/user_combos.go: `AutoGenerateCombo`, on the JSON store, whose methods return
-- no error here; an error of `AddItem` is ignored.
use mathlib.Core.List.{append-nil, append_assoc}
use yi_api_proxy.Base.{
  ℕ, suc, String, str_eq, eq_refl, ◌≡◌, refl, sym, ap, ◌∙◌, Bool, true, false, Option, none, some,
  List, [], ◌∷◌, ◌++◌, if◌then◌else◌, ◌||◌,
}
use yi_api_proxy.Base.Int.{ℤ, pos}
use yi_api_proxy.Base.Assoc.{lookup-insert}
use yi_api_proxy.Db.Types.{Combo, ComboItem, Model}
use yi_api_proxy.Db.Table.{Table, find_by_id, after, put, init}
use yi_api_proxy.Db.Combos.{create, Outcome, done, missing, add_to, add_item}
use yi_api_proxy.UserCombos.{UserContext, Answer, answer, new_combo, new_item}

pub record AutoGenerateRequest : Type 0 where
  pub name : String
  pub description : String
  pub model_ids : List String
  pub is_active : Bool
  pub priority : ℤ

-- The models of the two loops, in their order.
unfoldable pub models_of : (String → List Model) → List String → List Model
models_of find [] = []
models_of find (id ∷ ids) = find id ++ models_of find ids

abbrev pub settled : Outcome → Table Combo → Table Combo
settled (done w) t = after t w
settled (missing id t') t = t'

abbrev pub generated_item : String → String → ℤ → Model → ComboItem
generated_item uuid combo_id priority m = new_item uuid combo_id m.provider_id m.model_id (record {
  provider_id = m.provider_id;
  model_id = m.model_id;
  priority = priority;
  max_retries = pos 0;
  timeout_seconds = pos 0;
})

unfoldable pub add_generated :
    ℕ → (ℕ → String) → String → ℤ → List Model → Table Combo → Table Combo
add_generated now uuids combo_id priority [] t = t
add_generated now uuids combo_id priority (m ∷ models) t =
    add_generated now (λ n. uuids (suc n)) combo_id priority models
      (settled (add_item now (generated_item (uuids 0) combo_id priority m) t) t)

abbrev pub is_nil : List String → Bool
is_nil [] = true
is_nil (id ∷ ids) = false

abbrev pub shown : Option Combo → List Combo
shown none = []
shown (some c) = c ∷ []

-- The creation, the loops and the answer, with the combo as it is then.
unfoldable pub generate :
    ℕ
    → String
    → (ℕ → String)
    → UserContext
    → AutoGenerateRequest
    → (String → List Model)
    → Table Combo
    → Answer
unfolding add_generated models_of
generate now uuid uuids user req find t =
    let c =
      new_combo uuid
        (record { name = req.name; description = req.description; is_active = req.is_active })
        user in
    let t' =
      add_generated now uuids uuid req.priority (models_of find req.model_ids)
        (after t (create now c t)) in
    record { code = 201; combos = shown (find_by_id uuid t'); table = t' }

abbrev pub generate_valid :
    ℕ
    → String
    → (ℕ → String)
    → UserContext
    → Option AutoGenerateRequest
    → (String → List Model)
    → Table Combo
    → Answer
generate_valid now uuid uuids user none find t = answer 400 t
generate_valid now uuid uuids user (some req) find t =
    if str_eq req.name "" || is_nil req.model_ids
    then answer 400 t
    else generate now uuid uuids user req find t

unfoldable pub auto_generate_combo :
    ℕ
    → String
    → (ℕ → String)
    → Option UserContext
    → Option AutoGenerateRequest
    → (String → List Model)
    → Table Combo
    → Answer
auto_generate_combo now uuid uuids none body find t = answer 401 t
auto_generate_combo now uuid uuids (some user) body find t =
    generate_valid now uuid uuids user body find t

-- The items of the models, with the UUIDs by number.
abbrev pub items_of : (ℕ → String) → String → ℤ → List Model → List ComboItem
items_of uuids combo_id priority [] = []
items_of uuids combo_id priority (m ∷ models) =
    generated_item (uuids 0) combo_id priority m
    ∷ items_of (λ n. uuids (suc n)) combo_id priority models

-- A stored combo with these items.
pub record Holds (t : Table Combo) (id : String) (items : List ComboItem) : Type 0 where
  pub combo : Combo
  pub found : find_by_id id t ≡ some combo
  pub own : combo.id ≡ id
  pub holds : combo.items ≡ items

find-put :
    (id : String) (c : Combo) (t : Table Combo) (old : Combo)
    → find_by_id id t ≡ some old
    → find_by_id id (after t (put id c t)) ≡ some c
unfolding find_by_id put
find-put id c none old e = absurd (clash e)
  where
    clash : none ≡ some old → ⊥
    clash h = cc
find-put id c (some m) old e = rw (lookup-insert id id c m, eq_refl id) refl

add_item-Holds :
    (now : ℕ) (item : ComboItem) (t : Table Combo) (items : List ComboItem)
    → Holds t item.combo_id items
    → Holds (settled (add_item now item t) t) item.combo_id (items ++ item ∷ [])
unfolding add_item
add_item-Holds now item t items h =
    let c = record h.combo { items = h.combo.items ++ item ∷ []; updated_at = now } in
    let there : find_by_id h.combo.id t ≡ some h.combo = ap (λ i. find_by_id i t) h.own ∙ h.found in
    record {
      combo = c;
      found =
          ap (λ o. find_by_id item.combo_id (settled (add_to now item t o) t)) h.found
          ∙ ap (λ i. find_by_id i (after t (put h.combo.id c t))) (sym h.own)
          ∙ find-put h.combo.id c t h.combo there;
      own = h.own;
      holds = ap (λ xs. xs ++ item ∷ []) h.holds;
    }

Holds-subst :
    (t : Table Combo) (id : String) (xs ys : List ComboItem)
    → xs ≡ ys
    → Holds t id xs
    → Holds t id ys
Holds-subst t id xs ys e h = record {
  combo = h.combo;
  found = h.found;
  own = h.own;
  holds = h.holds ∙ e;
}

add_generated-Holds :
    (now : ℕ) (uuids : ℕ → String) (combo_id : String) (priority : ℤ) (models : List Model)
    (t : Table Combo) (items : List ComboItem)
    → Holds t combo_id items
    → Holds
        (add_generated now uuids combo_id priority models t)
        combo_id
        (items ++ items_of uuids combo_id priority models)
unfolding add_generated
add_generated-Holds now uuids combo_id priority [] t items h =
    Holds-subst t combo_id items (items ++ []) (sym (append-nil items)) h
add_generated-Holds now uuids combo_id priority (m ∷ models) t items h =
    let item = generated_item (uuids 0) combo_id priority m in
    let later = items_of (λ n. uuids (suc n)) combo_id priority models in
    let t' = settled (add_item now item t) t in
    Holds-subst (add_generated now (λ n. uuids (suc n)) combo_id priority models t') combo_id
      ((items ++ item ∷ []) ++ later) (items ++ item ∷ later) (append_assoc items (item ∷ []) later)
      (add_generated-Holds now (λ n. uuids (suc n)) combo_id priority models t' (items ++ item ∷ [])
        (add_item-Holds now item t items h))

create-Holds :
    (now : ℕ) (c : Combo) (t : Table Combo) → Holds (after t (create now c t)) c.id c.items
unfolding create put init find_by_id
create-Holds now c none = record {
  combo = record c { created_at = now; updated_at = now };
  found =
      rw
        (lookup-insert c.id c.id (record c { created_at = now; updated_at = now }) [], eq_refl c.id)
        refl;
  own = refl;
  holds = refl;
}
create-Holds now c (some m) = record {
  combo = record c { created_at = now; updated_at = now };
  found =
      rw (lookup-insert c.id c.id (record c { created_at = now; updated_at = now }) m, eq_refl c.id)
        refl;
  own = refl;
  holds = refl;
}

-- `AutoGenerateCombo` of a named user with a name and at least one model id answers 201 and stores, under the
-- new id, a combo whose items are those of the models that `FindByModelID` lists for the ids, in the order
-- of the ids and, for each, of the list.
pub generated-Holds :
    (now : ℕ) (uuid : String) (uuids : ℕ → String) (user : UserContext) (req : AutoGenerateRequest)
    (find : String → List Model) (t : Table Combo)
    → str_eq req.name "" ≡ false
    → is_nil req.model_ids ≡ false
    → ((auto_generate_combo now uuid uuids (some user) (some req) find t).code ≡ 201)
      × Holds
          (auto_generate_combo now uuid uuids (some user) (some req) find t).table
          uuid
          (items_of uuids uuid req.priority (models_of find req.model_ids))
unfolding auto_generate_combo generate
generated-Holds now uuid uuids user req find t named some_ids =
    let c =
      new_combo uuid
        (record { name = req.name; description = req.description; is_active = req.is_active })
        user in
    (
      rw (named, some_ids) refl,
      rw (named, some_ids)
          (add_generated-Holds now uuids uuid req.priority (models_of find req.model_ids)
            (after t (create now c t)) [] (create-Holds now c t)),
    )
