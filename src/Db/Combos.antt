-- ===== src/Db/Combos.antt =====
-- gorouter/internal/db/dbmanager.go: `jsonComboRepo`. A combo's items are pointers, so a field that
-- `ReorderItems` sets is set in the stored combo at once. `now` is the clock of the call.
pub mod Reordered
use mathlib.Core.Option
use yi_api_proxy.Base.{
  ℕ, suc, String, str_eq, Bool, true, false, Option, none, some, List, [], ◌∷◌, ◌++◌, filterb,
  findb, if◌then◌else◌, map,
}
use yi_api_proxy.Base.Int.{ℤ, pos}
use yi_api_proxy.Db.Types.{Combo, ComboItem}
use yi_api_proxy.Db.Table.{Table, Write, stored, panic, find_by_id, put, init, list, after}

unfoldable pub create : ℕ → Combo → Table Combo → Write Combo
create now c t = put c.id (record c { created_at = now; updated_at = now }) (init t)

unfoldable pub find_by_name : String → Table Combo → Option Combo
find_by_name name t = findb (λ c. str_eq c.name name) (list t)

unfoldable pub list_active : Table Combo → List Combo
list_active t = filterb (λ c. c.is_active) (list t)

unfoldable pub update : ℕ → Combo → Table Combo → Write Combo
update now c t = put c.id (record c { updated_at = now }) t

unfoldable pub find_by_creator : String → Table Combo → List Combo
find_by_creator user_id t = filterb (λ c. str_eq c.created_by user_id) (list t)

-- An error, or the table that the write left.
pub data Outcome : Type 0 where
  done : Write Combo → Outcome
  missing : String → Table Combo → Outcome

abbrev pub add_to : ℕ → ComboItem → Table Combo → Option Combo → Outcome
add_to now item t none = missing item.combo_id t
add_to now item t (some combo) =
    done (put combo.id (record combo { items = combo.items ++ item ∷ []; updated_at = now }) t)

unfoldable pub add_item : ℕ → ComboItem → Table Combo → Outcome
add_item now item t = add_to now item t (find_by_id item.combo_id t)

-- The items without the first one of that id; `none` where there is no such item.
unfoldable pub without_item : String → List ComboItem → Option (List ComboItem)
without_item item_id [] = none
without_item item_id (item ∷ items) =
    let rest = Option.map (λ xs. item ∷ xs) (without_item item_id items) in
    if str_eq item.id item_id then some items else rest

abbrev pub or_next : Combo → Option (List ComboItem) → Option Combo → Option Combo
or_next combo none next = next
or_next combo (some items) next = some (record combo { items = items })

-- The first combo of the loop that has the item, without it.
unfoldable pub removed_from : String → List Combo → Option Combo
unfolding without_item
removed_from item_id [] = none
removed_from item_id (combo ∷ combos) =
    or_next combo (without_item item_id combo.items) (removed_from item_id combos)

abbrev pub update_removed : ℕ → Table Combo → Option Combo → Write Combo
update_removed now t none = stored t
update_removed now t (some combo) = put combo.id (record combo { updated_at = now }) t

unfoldable pub remove_item : ℕ → String → Table Combo → Write Combo
unfolding removed_from
remove_item now item_id t = update_removed now t (removed_from item_id (list t))

abbrev pub or_here : Bool → ComboItem → Option ComboItem → Option ComboItem
or_here here item (some later) = some later
or_here true item none = some item
or_here false item none = none

-- `itemMap`: the last item of that id.
unfoldable pub find_item : String → List ComboItem → Option ComboItem
find_item id [] = none
find_item id (item ∷ items) = or_here (str_eq item.id id) item (find_item id items)

abbrev pub with_priority : ℕ → ComboItem → ComboItem
with_priority n item = record item { priority = pos n }

abbrev pub set_here :
    Bool → ℕ → ComboItem → List ComboItem → List ComboItem → Option ComboItem → List ComboItem
set_here here n item items changed (some later) = item ∷ changed
set_here true n item items changed none = with_priority n item ∷ items
set_here false n item items changed none = item ∷ items

-- The assignment through the pointer, which is to the last item of that id.
unfoldable pub set_priority : ℕ → String → List ComboItem → List ComboItem
unfolding find_item
set_priority n id [] = []
set_priority n id (item ∷ items) =
    set_here (str_eq item.id id) n item items (set_priority n id items) (find_item id items)

abbrev pub at_id :
    Option ComboItem
    → String
    → List ComboItem
    → Option String × List ComboItem
    → Option String × List ComboItem
at_id none id items rest = (some id, items)
at_id (some item) id items rest = rest

-- The loop over the ids, from the index `i` on: the stored items with what was set, and whether every id was
-- found.
unfoldable pub set_priorities : ℕ → List String → List ComboItem → Option String × List ComboItem
unfolding find_item set_priority
set_priorities i [] items = (none, items)
set_priorities i (id ∷ ids) items =
    let rest = set_priorities (suc i) ids (set_priority (suc i) id items) in
    at_id (find_item id items) id items rest

abbrev pub cons_found : Option ComboItem → List ComboItem → List ComboItem
cons_found none items = items
cons_found (some item) items = item ∷ items

-- `reordered`: the items of these ids, as they are after the loop.
unfoldable pub picked : List String → List ComboItem → List ComboItem
unfolding find_item
picked [] items = []
picked (id ∷ ids) items = cons_found (find_item id items) (picked ids items)

unfoldable pub reordered :
    ℕ → List String → Combo → Table Combo → Option String × List ComboItem → Outcome
unfolding picked
reordered now ids combo t (none, items) =
    done (put combo.id (record combo { items = picked ids items; updated_at = now }) t)
reordered now ids combo t (some id, items) =
    missing id (after t (put combo.id (record combo { items = items }) t))

abbrev pub reorder_found : ℕ → String → List String → Table Combo → Option Combo → Outcome
reorder_found now combo_id ids t none = missing combo_id t
reorder_found now combo_id ids t (some combo) =
    reordered now ids combo t (set_priorities 0 ids combo.items)

-- `ReorderItems`. An id that is not found ends it with the priorities before it set. A pointer that stands twice in
-- the items is two equal values.
unfoldable pub reorder_items : ℕ → String → List String → Table Combo → Outcome
unfolding reordered set_priorities
reorder_items now combo_id ids t = reorder_found now combo_id ids t (find_by_id combo_id t)
