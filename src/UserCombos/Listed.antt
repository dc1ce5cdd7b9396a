-- ===== src/UserCombos/Listed.antt =====
-- gorouter/internal/handlers/user_combos.go: `CreateCombo` and `ListCombos` on the JSON store.
use yi_api_proxy.Base.{
  ℕ, String, str_eq, ◌≡◌, refl, Bool, false, none, some, [], ◌∷◌, filterb, Bool-cases, inl, inr,
}
use yi_api_proxy.Base.Assoc.{Assoc, lookup, insert, values}
use yi_api_proxy.Db.Types.{Combo}
use yi_api_proxy.Db.Table.{Table, find_by_id, after, put, init, list}
use yi_api_proxy.Db.Combos.{create, find_by_creator}
use yi_api_proxy.UserCombos.{UserContext, CreateComboRequest, create_combo, list_combos, new_combo}

filterb-values-insert :
    (f : Combo → Bool) (id : String) (c : Combo) (m : Assoc Combo)
    → lookup id m ≡ none
    → f c ≡ false
    → filterb f (values (insert id c m)) ≡ filterb f (values m)
unfolding lookup insert values
filterb-values-insert f id c [] e h = rw h refl
filterb-values-insert f id c ((j, d) ∷ m) e h = elim (Bool-cases (str_eq j id)) [
  | inl hit ↦ absurd (clash (rw hit at e))
  | inr miss ↦ rw (miss, filterb-values-insert f id c m (rw miss at e) h) refl
]
  where
    clash : some d ≡ none → ⊥
    clash g = cc

listed_before :
    (now : ℕ) (user_id : String) (c : Combo) (t : Table Combo)
    → find_by_id c.id t ≡ none
    → str_eq c.created_by user_id ≡ false
    → find_by_creator user_id (after t (create now c t)) ≡ find_by_creator user_id t
unfolding find_by_creator create put init find_by_id list values
listed_before now user_id c none e h =
    filterb-values-insert (λ x. str_eq x.created_by user_id) c.id
      (record c { created_at = now; updated_at = now }) [] (unfold lookup in refl) h
listed_before now user_id c (some m) e h =
    filterb-values-insert (λ x. str_eq x.created_by user_id) c.id
      (record c { created_at = now; updated_at = now }) m e h

-- `CreateCombo` sets the owner and not the creator, by which the JSON store lists: after a user has created
-- a combo under a new id, with success, `ListCombos` shows this user just what it showed before.
pub created_combo_not_listed :
    (now : ℕ) (uuid : String) (user : UserContext) (req : CreateComboRequest) (t : Table Combo)
    → find_by_id uuid t ≡ none
    → str_eq req.name "" ≡ false
    → str_eq "" user.user_id ≡ false
    → ((create_combo now uuid (some user) (some req) t).code ≡ 201)
      × ((list_combos (some user) (create_combo now uuid (some user) (some req) t).table).combos
          ≡ (list_combos (some user) t).combos)
unfolding create_combo list_combos
created_combo_not_listed now uuid user req t e named known =
    (rw named refl, rw named (listed_before now user.user_id (new_combo uuid req user) t e known))
