-- ===== src/Db/Users/Deleted.antt =====
-- gorouter/internal/db/dbmanager.go: a deleted user is out of the sight of `jsonUserRepo`.
use yi_api_proxy.Base.{
  ℕ, String, str_eq, eq_iff, eq_refl, ◌≡◌, refl, sym, ap, ◌∙◌, subst, Bool, true, false, Option,
  none, some, All, All-filterb, findb-All, ◌&&◌, not, Bool-cases, inl, inr, arith,
}
use yi_api_proxy.Base.Assoc.{Assoc, lookup, values, lookup-insert}
use yi_api_proxy.Db.Types.{User}
use yi_api_proxy.Db.Table.{Table, find_by_id, put, init, list, after}
use yi_api_proxy.Db.Kept.{KeptTable, Found, values-Found, insert-Kept, stored_id}
use yi_api_proxy.Db.Users.{
  UserFilter, has_email, find_by_email, is_listed, list_users, update, update_found, update_status,
  delete_user,
}

abbrev pub user_key : User → String
user_key u = u.id

-- Under its id there is no user, or a deleted one.
abbrev Gone : Option User → Type 0
Gone none = Unit
Gone (some u) = str_eq u.status "deleted" ≡ true

abbrev deleted_at : ℕ → User → User
deleted_at now u = record u { status = "deleted"; updated_at = now }

update_found-Gone :
    (now : ℕ) (id : String) (t : Table User) (o : Option User)
    → KeptTable user_key t
    → find_by_id id t ≡ o
    → KeptTable user_key (after t (update_found (λ u. record u { status = "deleted" }) now t o))
      × Gone (find_by_id id (after t (update_found (λ u. record u { status = "deleted" }) now t o)))
unfolding update put init find_by_id
update_found-Gone now id t none k e = (k, rw e tt)
update_found-Gone now id none (some u) k e = absurd (clash e)
  where
    clash : none ≡ some u → ⊥
    clash h = cc
update_found-Gone now id (some m) (some u) k e = (
  insert-Kept user_key u.id (deleted_at now u) m refl k,
  rw (lookup-insert u.id id (deleted_at now u) m, stored_id user_key id u m k e, eq_refl id) refl,
)

delete_user-Gone :
    (now : ℕ) (id : String) (t : Table User)
    → KeptTable user_key t
    → KeptTable user_key (after t (delete_user now id t))
      × Gone (find_by_id id (after t (delete_user now id t)))
unfolding delete_user update_status
delete_user-Gone now id t k = update_found-Gone now id t (find_by_id id t) k refl

other_id :
    (id : String) (u : User) (m : Assoc User)
    → Gone (lookup id m)
    → str_eq u.status "deleted" ≡ false
    → Found user_key m u
    → str_eq u.id id ≡ false
other_id id u m gone alive found = elim (Bool-cases (str_eq u.id id)) [
  | inl same ↦
      let at_id : lookup id m ≡ some u =
        ap (λ i. lookup i m) (sym ((eq_iff u.id id).0 same)) ∙ found in
      let dead : Gone (some u) = subst (λ o. Gone o) at_id gone in absurd (clash (sym dead ∙ alive))
  | inr other ↦ other
]
  where
    clash : true ≡ false → ⊥
    clash h = cc

listed_alive :
    (filter : UserFilter) (u : User) → is_listed filter u ≡ true → str_eq u.status "deleted" ≡ false
listed_alive filter u h = both (str_eq u.status "deleted") _ _ h
  where
    both : (d a b : Bool) → ((not d && a) && b) ≡ true → d ≡ false
    both d a b e = ground arith

named_alive :
    (email : String) (u : User) → has_email email u ≡ true → str_eq u.status "deleted" ≡ false
named_alive email u h = both (str_eq u.status "deleted") _ h
  where
    both : (d a : Bool) → (a && not d) ≡ true → d ≡ false
    both d a e = ground arith

table_hides :
    (id : String) (t : Table User) (filter : UserFilter) (email : String)
    → KeptTable user_key t
    → Gone (find_by_id id t)
    → All (λ u. str_eq u.id id ≡ false) (list_users filter t)
      × ((u : User) → find_by_email email t ≡ some u → str_eq u.id id ≡ false)
unfolding list_users find_by_email list find_by_id
table_hides id none filter email k g = (tt, λ u e. absurd (clash u e))
  where
    clash : (u : User) → none ≡ some u → ⊥
    clash u h = cc
table_hides id (some m) filter email k g = (
  All-filterb (is_listed filter) (λ u. str_eq u.id id ≡ false) (Found user_key m) (values m)
      (λ u l f. other_id id u m g (listed_alive filter u l) f) (values-Found user_key m k),
  λ u e.
      findb-All (has_email email) (λ u. str_eq u.id id ≡ false) (Found user_key m) (values m) u
        (λ u l f. other_id id u m g (named_alive email u l) f) (values-Found user_key m k) e,
)

-- In a store that keeps each user once, under their own id: after `Delete`, no filter lists the user and no
-- e-mail address finds them.
pub deleted_user_hidden :
    (now : ℕ) (id : String) (t : Table User) (filter : UserFilter) (email : String)
    → KeptTable user_key t
    → All (λ u. str_eq u.id id ≡ false) (list_users filter (after t (delete_user now id t)))
      × ((u : User)
          → find_by_email email (after t (delete_user now id t)) ≡ some u
          → str_eq u.id id ≡ false)
deleted_user_hidden now id t filter email k =
    let gone = delete_user-Gone now id t k in
    table_hides id (after t (delete_user now id t)) filter email gone.0 gone.1
