-- ===== src/Db/Combos/Reordered.antt =====
-- gorouter/internal/db/dbmanager.go: the items that `ReorderItems` leaves.
use mathlib.Core.Option
use yi_api_proxy.Base.{
  ℕ, suc, String, str_eq, eq_iff, eq_refl, ◌≡◌, refl, sym, ap, ◌∙◌, false, Option, none, some, List,
  [], ◌∷◌, All, arith, Bool-cases, Option-cases, inl, inr,
}
use yi_api_proxy.Base.Int.{pos}
use yi_api_proxy.Base.Assoc.{Assoc, lookup-insert}
use yi_api_proxy.Db.Types.{Combo, ComboItem}
use yi_api_proxy.Db.Table.{Table, find_by_id, put, after}
use yi_api_proxy.Db.Combos.{
  done, missing, or_here, find_item, with_priority, set_priority, set_priorities, picked, reordered,
  reorder_items,
}

find-set_own :
    (n : ℕ) (id : String) (items : List ComboItem)
    → find_item id (set_priority n id items) ≡ Option.map (with_priority n) (find_item id items)
unfolding find_item set_priority
find-set_own n id [] = refl
find-set_own n id (item ∷ items) = elim (Option-cases (find_item id items)) [
  | inl gone ↦ elim (Bool-cases (str_eq item.id id)) [
    | inl hit ↦ rw (gone, hit, hit, gone) refl
    | inr miss ↦ rw (gone, miss, miss, gone) refl
  ]
  | inr found ↦ rw found.1 (
      ap (or_here (str_eq item.id id) item)
        (find-set_own n id items ∙ ap (λ o. Option.map (with_priority n) o) found.1))
]

find-set_other :
    (n : ℕ) (id j : String) (items : List ComboItem)
    → str_eq id j ≡ false
    → find_item j (set_priority n id items) ≡ find_item j items
unfolding find_item set_priority
find-set_other n id j [] h = refl
find-set_other n id j (item ∷ items) h = elim (Option-cases (find_item id items)) [
  | inr found ↦ rw found.1 (ap (or_here (str_eq item.id j) item) (find-set_other n id j items h))
  | inl gone ↦ elim (Bool-cases (str_eq item.id id)) [
    | inr miss ↦ rw (gone, miss) refl
    | inl hit ↦
        let apart : str_eq item.id j ≡ false =
          ap (λ s. str_eq s j) ((eq_iff item.id id).0 hit) ∙ h in
        rw (gone, hit, apart) (passed_by n item (find_item j items))
  ]
]
  where
    passed_by :
        (n : ℕ) (item : ComboItem) (o : Option ComboItem)
        → or_here false (with_priority n item) o ≡ or_here false item o
    passed_by n item none = refl
    passed_by n item (some later) = refl

-- No id of the list is this one.
abbrev pub Apart : String → List String → Type 0
Apart j ids = All (λ id. str_eq id j ≡ false) ids

abbrev pub Distinct : List String → Type 0
Distinct [] = Unit
Distinct (id ∷ ids) = Apart id ids × Distinct ids

find-set_priorities :
    (i : ℕ) (j : String) (ids : List String) (items : List ComboItem)
    → Apart j ids
    → find_item j (set_priorities i ids items).1 ≡ find_item j items
unfolding set_priorities
find-set_priorities i j [] items h = refl
find-set_priorities i j (id ∷ ids) items h = elim (Option-cases (find_item id items)) [
  | inl e ↦ rw e refl
  | inr e ↦ rw e.1 (
      find-set_priorities (suc i) j ids (set_priority (suc i) id items) h.1
      ∙ find-set_other (suc i) id j items h.0)
]

-- Each item is that of the id in the list before, with nothing changed but the priority, and the priorities count up
-- from `i + 1`.
abbrev pub Numbered : ℕ → List ComboItem → List String → List ComboItem → Type 0
Numbered i before [] [] = Unit
Numbered i before [] (item ∷ items) = ⊥
Numbered i before (id ∷ ids) [] = ⊥
Numbered i before (id ∷ ids) (item ∷ items) =
    ((old : ComboItem) × (old.id ≡ id)
      × (find_item id before ≡ some old)
      × (item ≡ record old { priority = pos (suc i) }))
    × Numbered (suc i) before ids items

id-find_item :
    (id : String) (old : ComboItem) (items : List ComboItem)
    → find_item id items ≡ some old
    → old.id ≡ id
unfolding find_item
id-find_item id old [] e = absurd (clash e)
  where
    clash : none ≡ some old → ⊥
    clash h = cc
id-find_item id old (x ∷ items) e = elim (Option-cases (find_item id items)) [
  | inr found ↦ id-find_item id old items (found.1 ∙ rw found.1 at e)
  | inl gone ↦ elim (Bool-cases (str_eq x.id id)) [
    | inl hit ↦ ap (λ o. id_or id o) (sym (rw (gone, hit) at e)) ∙ (eq_iff x.id id).0 hit
    | inr miss ↦ absurd (clash (rw (gone, miss) at e))
  ]
]
  where
    id_or : String → Option ComboItem → String
    id_or i none = i
    id_or i (some y) = y.id

    clash : none ≡ some old → ⊥
    clash h = cc

flip : (i j : String) → str_eq j i ≡ false → str_eq i j ≡ false
flip i j h = ground (arith, eq_iff j i, eq_iff i j, h)

-- The items of these ids are those of the list before.
abbrev Untouched : List ComboItem → List String → List ComboItem → Type 0
Untouched before ids items = All (λ id. find_item id items ≡ find_item id before) ids

Untouched-set :
    (n : ℕ) (id : String) (before : List ComboItem) (ids : List String) (items : List ComboItem)
    → Apart id ids
    → Untouched before ids items
    → Untouched before ids (set_priority n id items)
Untouched-set n id before [] items d u = tt
Untouched-set n id before (j ∷ ids) items d u =
    (find-set_other n id j items (flip id j d.0) ∙ u.0, Untouched-set n id before ids items d.1 u.1)

picked-Numbered :
    (i : ℕ) (before : List ComboItem) (ids : List String) (items : List ComboItem)
    → Distinct ids
    → Untouched before ids items
    → (set_priorities i ids items).0 ≡ none
    → Numbered i before ids (picked ids (set_priorities i ids items).1)
unfolding set_priorities picked
picked-Numbered i before [] items d u e = tt
picked-Numbered i before (id ∷ ids) items d u e = elim (Option-cases (find_item id items)) [
  | inl gone ↦ absurd (clash (rw gone at e))
  | inr found ↦
      let items' = set_priority (suc i) id items in
      let own : find_item id (set_priorities (suc i) ids items').1
          ≡ some (with_priority (suc i) found.0) =
        find-set_priorities (suc i) id ids items' d.0
        ∙ find-set_own (suc i) id items
        ∙ ap (λ o. Option.map (with_priority (suc i)) o) found.1 in
      rw (found.1, own)
        (
          (found.0, id-find_item id found.0 items found.1, sym u.0 ∙ found.1, refl),
          picked-Numbered (suc i) before ids items' d.1
              (Untouched-set (suc i) id before ids items d.0 u.1) (rw found.1 at e),
        )
]
  where
    clash : some id ≡ none → ⊥
    clash h = cc

-- The items have an item of each id.
abbrev pub HasAll : List String → List ComboItem → Type 0
HasAll ids items = All (λ id. (item : ComboItem) × (find_item id items ≡ some item)) ids

HasAll-set_priority :
    (n : ℕ) (id : String) (ids : List String) (items : List ComboItem)
    → Apart id ids
    → HasAll ids items
    → HasAll ids (set_priority n id items)
HasAll-set_priority n id [] items d a = tt
HasAll-set_priority n id (j ∷ ids) items d a = (
  (a.0.0, find-set_other n id j items (flip id j d.0) ∙ a.0.1),
  HasAll-set_priority n id ids items d.1 a.1,
)

all_found :
    (i : ℕ) (ids : List String) (items : List ComboItem)
    → Distinct ids
    → HasAll ids items
    → (set_priorities i ids items).0 ≡ none
unfolding set_priorities
all_found i [] items d a = refl
all_found i (id ∷ ids) items d a = rw a.0.1 (
    all_found (suc i) ids (set_priority (suc i) id items) d.1
      (HasAll-set_priority (suc i) id ids items d.0 a.1))

reordered_lem :
    (now : ℕ) (ids : List String) (combo : Combo) (t : Table Combo)
    (s : Option String × List ComboItem)
    → s.0 ≡ none
    → reordered now ids combo t s
      ≡ done (put combo.id (record combo { items = picked ids s.1; updated_at = now }) t)
unfolding reordered
reordered_lem now ids combo t (none, items) e = refl
reordered_lem now ids combo t (some id, items) e = absurd (clash e)
  where
    clash : some id ≡ none → ⊥
    clash h = cc

unchanged : (ids : List String) (items : List ComboItem) → Untouched items ids items
unchanged [] items = tt
unchanged (id ∷ ids) items = (refl, unchanged ids items)

-- `ReorderItems` with distinct ids, each that of an item of the combo, stores the combo with exactly one item for each
-- of these ids, in their order: the combo's last item of that id before the call, with nothing changed but its
-- priority, which is 1 for the first and counts up by one. Items that are not named are dropped.
pub reorder_items-Numbered :
    (now : ℕ) (combo_id : String) (ids : List String) (combo : Combo) (t : Table Combo)
    → find_by_id combo_id t ≡ some combo
    → Distinct ids
    → HasAll ids combo.items
    → (items : List ComboItem) × (reorder_items now combo_id ids t
        ≡ done (put combo.id (record combo { items = items; updated_at = now }) t))
      × Numbered 0 combo.items ids items
unfolding reorder_items
reorder_items-Numbered now combo_id ids combo t e d a =
    let found = all_found 0 ids combo.items d a in
    (
      picked ids (set_priorities 0 ids combo.items).1,
      rw e (reordered_lem now ids combo t (set_priorities 0 ids combo.items) found),
      picked-Numbered 0 combo.items ids combo.items d (unchanged ids combo.items) found,
    )

find-put_combo :
    (combo c : Combo) (m : Assoc Combo)
    → c.id ≡ combo.id
    → find_by_id combo.id (after (some m) (put combo.id c (some m))) ≡ some c
unfolding find_by_id put
find-put_combo combo c m e = rw (lookup-insert combo.id combo.id c m, eq_refl combo.id) refl

-- `ReorderItems` is not atomic: where an item's id is followed by one that no item has, the call fails, and
-- yet the stored combo then has that item with the priority 1.
pub failed_reorder_writes :
    (now : ℕ) (id bad : String) (rest : List String) (item : ComboItem) (combo : Combo)
    (m : Assoc Combo)
    → find_by_id combo.id (some m) ≡ some combo
    → find_item id combo.items ≡ some item
    → find_item bad combo.items ≡ none
    → str_eq id bad ≡ false
    → (t : Table Combo) × (reorder_items now combo.id (id ∷ bad ∷ rest) (some m) ≡ missing bad t)
      × (c : Combo) × (find_by_id combo.id t ≡ some c)
      × (find_item id c.items ≡ some (with_priority 1 item))
unfolding reorder_items set_priorities reordered
failed_reorder_writes now id bad rest item combo m e own gone apart =
    let items = set_priority 1 id combo.items in
    let still : find_item bad items ≡ none = find-set_other 1 id bad combo.items apart ∙ gone in
    (
      after (some m) (put combo.id (record combo { items = items }) (some m)),
      rw (e, own, still) refl,
      record combo { items = items },
      find-put_combo combo (record combo { items = items }) m refl,
      find-set_own 1 id combo.items ∙ ap (λ o. Option.map (with_priority 1) o) own,
    )
