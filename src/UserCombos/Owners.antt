-- ===== src/UserCombos/Owners.antt =====
-- gorouter/internal/handlers/user_combos.go: what a user can do to the combos of others.
use yi_api_proxy.Base.{
  ℕ, suc, String, str_eq, eq_iff, eq_refl, ◌≡◌, refl, sym, ap, ◌∙◌, true, false, Option, none, some,
  List, [], ◌∷◌, All, Bool-cases, Option-cases, inl, inr, if◌then◌else◌,
}
use yi_api_proxy.Base.Assoc.{Assoc, lookup-insert, values}
use yi_api_proxy.Db.Types.{Combo, ComboItem, Model}
use yi_api_proxy.Db.Table.{Table, find_by_id, put, list, after, find-put, find-delete}
use yi_api_proxy.Db.Kept.{Kept, KeptTable, insert-Kept, stored_id}
use yi_api_proxy.Db.Combos.{
  Outcome, done, missing, add_item, remove_item, removed_from, without_item, reordered,
  set_priorities, reorder_found, reorder_items, update,
}
use yi_api_proxy.UserCombos.{
  UserContext, CreateComboRequest, AddItemRequest, Answer, answer, on_found, added, add_models,
  new_item, update_valid, add_valid, implicit_fallback, reorder_valid, get_combo, update_combo,
  delete_combo, add_combo_item, remove_combo_item, reorder_combo_items,
}

abbrev pub combo_key : Combo → String
combo_key c = c.id

-- Some other id `j`, under which the combo `d` stands.
module _ (j : String) (d : Combo) where
  -- Each combo stands once, under its own id, and `d` stands under `j`.
  abbrev IsSafe : Table Combo → Type 0
  IsSafe t = KeptTable combo_key t × (find_by_id j t ≡ some d)

  -- A write to the combo of another id.
  put-IsSafe :
      (id : String) (combo c : Combo) (t : Table Combo)
      → str_eq id j ≡ false
      → find_by_id id t ≡ some combo
      → c.id ≡ combo.id
      → IsSafe t
      → IsSafe (after t (put combo.id c t))
  unfolding put
  put-IsSafe id combo c none apart e named s = s
  put-IsSafe id combo c (some m) apart e named s =
      let own : combo.id ≡ id = found m s.0 e in
      (
        insert-Kept combo_key combo.id c m named s.0,
        find-put combo.id j c m
            ∙ ap (λ k. if str_eq k j then some c else find_by_id j (some m)) own
            ∙ rw apart s.1,
      )
    where
      found :
          (m : Assoc Combo) → Kept combo_key m → find_by_id id (some m) ≡ some combo → combo.id ≡ id
      found m k h = stored_id combo_key id combo m k (unfold find_by_id in h)

  module _ (now : ℕ) (id : String) (apart : str_eq id j ≡ false) where
    -- What `added` leaves, whatever follows a write.
    abbrev OutcomeIsSafe : Table Combo → Outcome → Type 0
    OutcomeIsSafe t (done w) = IsSafe (after t w)
    OutcomeIsSafe t (missing name t') = IsSafe t'

    added-IsSafe :
        (o : Outcome) (t : Table Combo) (serve : Table Combo → Answer)
        → OutcomeIsSafe t o
        → ((t' : Table Combo) → IsSafe t' → IsSafe (serve t').table)
        → IsSafe (added o t serve).table
    added-IsSafe (done w) t serve s f = f (after t w) s
    added-IsSafe (missing name t') t serve s f = s

    add_item-IsSafe :
        (item : ComboItem) (t : Table Combo)
        → item.combo_id ≡ id
        → IsSafe t
        → OutcomeIsSafe t (add_item now item t)
    unfolding add_item
    add_item-IsSafe item t named s = elim (Option-cases (find_by_id item.combo_id t)) [
      | inl gone ↦ rw gone s
      | inr found ↦
          rw found.1 (
            put-IsSafe id found.0 _ t apart (ap (λ i. find_by_id i t) (sym named) ∙ found.1) refl s)
    ]

    add_models-IsSafe :
        (req : AddItemRequest) (models : List Model) (uuids : ℕ → String) (t : Table Combo)
        → IsSafe t
        → IsSafe (add_models now uuids id req models t).table
    unfolding add_models
    add_models-IsSafe req [] uuids t s = s
    add_models-IsSafe req (m ∷ models) uuids t s =
        added-IsSafe (add_item now (new_item (uuids 0) id m.provider_id m.model_id req) t) t
          (λ t'. add_models now (λ n. uuids (suc n)) id req models t')
          (add_item-IsSafe (new_item (uuids 0) id m.provider_id m.model_id req) t refl s)
          (λ t' s'. add_models-IsSafe req models (λ n. uuids (suc n)) t' s')

    implicit_fallback-IsSafe :
        (uuids : ℕ → String) (req : AddItemRequest) (models : List Model) (t : Table Combo)
        → IsSafe t
        → IsSafe (implicit_fallback now uuids id req models t).table
    implicit_fallback-IsSafe uuids req [] t s = s
    implicit_fallback-IsSafe uuids req (m ∷ models) t s =
        add_models-IsSafe req (m ∷ models) uuids t s

    add_valid-IsSafe :
        (uuids : ℕ → String) (item : Option AddItemRequest) (models : String → List Model)
        (t : Table Combo)
        → IsSafe t
        → IsSafe (add_valid now uuids id item models t).table
    add_valid-IsSafe uuids none models t s = s
    add_valid-IsSafe uuids (some req) models t s = elim (Bool-cases (str_eq req.model_id "")) [
      | inl e ↦ rw e s
      | inr e ↦ elim (Bool-cases (str_eq req.provider_id "")) [
        | inl f ↦ rw (e, f) (implicit_fallback-IsSafe uuids req (models req.model_id) t s)
        | inr f ↦
            rw (e, f)
              (added-IsSafe
                (add_item now (new_item (uuids 0) id req.provider_id req.model_id req) t) t
                (answer 201)
                (add_item-IsSafe (new_item (uuids 0) id req.provider_id req.model_id req) t refl s)
                (λ t' s'. s'))
      ]
    ]

    reordered-IsSafe :
        (ids : List String) (combo : Combo) (t : Table Combo) (r : Option String × List ComboItem)
        → find_by_id id t ≡ some combo
        → IsSafe t
        → OutcomeIsSafe t (reordered now ids combo t r)
    unfolding reordered
    reordered-IsSafe ids combo t (none, items) e s = put-IsSafe id combo _ t apart e refl s
    reordered-IsSafe ids combo t (some name, items) e s = put-IsSafe id combo _ t apart e refl s

    reorder_valid-IsSafe :
        (ids : Option (List String)) (t : Table Combo)
        → IsSafe t
        → IsSafe (reorder_valid now id ids t).table
    unfolding reorder_items
    reorder_valid-IsSafe none t s = s
    reorder_valid-IsSafe (some ids) t s =
        added-IsSafe (reorder_items now id ids t) t (answer 204) (found (find_by_id id t) refl)
          (λ t' s'. s')
      where
        found :
            (o : Option Combo)
            → find_by_id id t ≡ o
            → OutcomeIsSafe t (reorder_found now id ids t o)
        found none e = s
        found (some combo) e = reordered-IsSafe ids combo t (set_priorities 0 ids combo.items) e s

    update_valid-IsSafe :
        (body : Option CreateComboRequest) (c : Combo) (t : Table Combo)
        → find_by_id id t ≡ some c
        → IsSafe t
        → IsSafe (update_valid now body t c).table
    unfolding update
    update_valid-IsSafe none c t e s = s
    update_valid-IsSafe (some req) c t e s = put-IsSafe id c _ t apart e refl s

-- A handler that begins with the test of the owner.
module _ (user : UserContext) (plain : str_eq user.role "admin" ≡ false) (id j : String) (d : Combo)
    (t : Table Combo) (other : str_eq d.user_id user.user_id ≡ false)
    (held : find_by_id j t ≡ some d) where
  apart_from :
      (c : Combo)
      → find_by_id id t ≡ some c
      → str_eq c.user_id user.user_id ≡ true
      → str_eq id j ≡ false
  apart_from c e own = elim (Bool-cases (str_eq id j)) [
    | inr apart ↦ apart
    | inl same ↦
        let here : some c ≡ some d =
          sym e ∙ ap (λ i. find_by_id i t) ((eq_iff id j).0 same) ∙ held in
        absurd (clash (sym own ∙ ap (λ o. str_eq (owner_or o) user.user_id) here ∙ other))
  ]
    where
      clash : true ≡ false → ⊥
      clash h = cc

      owner_or : Option Combo → String
      owner_or none = ""
      owner_or (some x) = x.user_id

  guarded :
      (P : Answer → Type 0) (serve : Combo → Answer)
      → ((code : ℕ) → P (answer code t))
      → ((c : Combo)
          → find_by_id id t ≡ some c
          → str_eq c.user_id user.user_id ≡ true
          → P (serve c))
      → P (on_found user t serve (find_by_id id t))
  guarded P serve early late = elim (Option-cases (find_by_id id t)) [
    | inl gone ↦ rw gone (early 404)
    | inr found ↦ elim (Bool-cases (str_eq (found.0).user_id user.user_id)) [
      | inl own ↦ rw (found.1, own) (late found.0 found.1 own)
      | inr foreign ↦ rw (found.1, foreign, plain) (early 403)
    ]
  ]

-- A user who is not an administrator cannot change a combo of another user, whichever id the request names and whatever
-- its body is: in a store that has each combo once, under its own id, the combo stands as it was after a
-- request to update or delete a combo, add an item to it or reorder its items, and the handler
-- that shows a combo shows only the user's own.
pub foreign_combo_protected :
    (now : ℕ) (uuids : ℕ → String) (user : UserContext) (id j : String) (d : Combo)
    (t : Table Combo) (body : Option CreateComboRequest) (item : Option AddItemRequest)
    (models : String → List Model) (ids : Option (List String))
    → KeptTable combo_key t
    → find_by_id j t ≡ some d
    → str_eq d.user_id user.user_id ≡ false
    → str_eq user.role "admin" ≡ false
    → All (λ c. str_eq c.user_id user.user_id ≡ true) (get_combo (some user) id t).combos
      × (find_by_id j (update_combo now (some user) id body t).table ≡ some d)
      × (find_by_id j (delete_combo (some user) id t).table ≡ some d)
      × (find_by_id j (add_combo_item now uuids (some user) id item models t).table ≡ some d)
      × (find_by_id j (reorder_combo_items now (some user) id ids t).table ≡ some d)
unfolding get_combo update_combo delete_combo add_combo_item reorder_combo_items
foreign_combo_protected now uuids user id j d t body item models ids k held other plain =
    let guard = guarded user plain id j d t other held in
    let apart = apart_from user plain id j d t other held in
    (
      guard (λ a. All (λ c. str_eq c.user_id user.user_id ≡ true) a.combos) _ (λ code. tt)
          (λ c e own. (own, tt)),
      guard (λ a. find_by_id j a.table ≡ some d) _ (λ code. held)
          (λ c e own. (update_valid-IsSafe j d now id (apart c e own) body c t e (k, held)).1),
      guard (λ a. find_by_id j a.table ≡ some d) _ (λ code. held)
          (λ c e own. find-delete id j t ∙ rw (apart c e own) held),
      guard (λ a. find_by_id j a.table ≡ some d) _ (λ code. held)
          (λ c e own.
            (add_valid-IsSafe j d now id (apart c e own) uuids item models t (k, held)).1),
      guard (λ a. find_by_id j a.table ≡ some d) _ (λ code. held)
          (λ c e own. (reorder_valid-IsSafe j d now id (apart c e own) ids t (k, held)).1),
    )

-- `RemoveComboItem` has no such test: any user who is logged in removes an item from the combo that is first
-- in the map, whoever owns it, and is answered 204.
pub foreign_item_removed :
    (now : ℕ) (user : UserContext) (item_id : String) (c : Combo) (rest : Assoc Combo)
    (items : List ComboItem)
    → without_item item_id c.items ≡ some items
    → ((remove_combo_item now (some user) item_id (some ((c.id, c) ∷ rest))).code ≡ 204)
      × (find_by_id c.id (remove_combo_item now (some user) item_id (some ((c.id, c) ∷ rest))).table
          ≡ some (record c { items = items; updated_at = now }))
unfolding remove_combo_item remove_item removed_from list values find_by_id put
foreign_item_removed now user item_id c rest items e =
    (refl, rw (e, lookup-insert, eq_refl c.id) refl)
