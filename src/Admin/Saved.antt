-- ===== src/Admin/Saved.antt =====
-- gorouter/internal/handlers/admin: what the writes of a handler leave of a map in which nobody owns two values.
use yi_api_proxy.Base.{
  ℕ, String, str_eq, ◌≡◌, refl, ap, ◌∙◌, Option, none, some, inl, inr, Bool-cases, findb,
}
use yi_api_proxy.Db.Table.{
  Table, Write, stored, panic, list, init, put, after, find_by_id, find-put, put-none,
}
use yi_api_proxy.Base.Assoc.{values}
use yi_api_proxy.Db.Unique.{
  is_owned, put_new-IsSound, init-IsSound, IsSound, delete-IsSound, put_over-IsSound,
}
use yi_api_proxy.Admin.{written, set_at, delete_handler, delete_found}

pub written-after :
    {V : Type 0} (code : ℕ) (v : V) (t : Table V) (w : Write V) → (written code v t w).1 ≡ after t w
written-after code v t (stored t') = refl
written-after code v t panic = refl

module _ {V : Type 0} (key_of : V → String) (owner : V → String) where
  pub delete_handler-IsSound :
      (missing id : String) (t : Table V)
      → IsSound key_of owner t
      → IsSound key_of owner (delete_handler missing id t).1
  unfolding delete_handler
  delete_handler-IsSound missing id t h = by_found (find_by_id id t)
    where
      by_found : (o : Option V) → IsSound key_of owner (delete_found missing id t o).1
      by_found none = h
      by_found (some v) = delete-IsSound key_of owner id t h

  -- A change through the pointer and then a write under the key of the value.
  pub saved-IsSound :
      (code : ℕ) (id : String) (u v : V) (t : Table V)
      → find_by_id id t ≡ some v
      → key_of u ≡ key_of v
      → owner u ≡ owner v
      → IsSound key_of owner t
      → IsSound key_of owner (written code u t (put (key_of u) u (set_at id u t))).1
  unfolding put find_by_id
  saved-IsSound code id u v none e named owned h = absurd (clash e)
    where
      clash : none ≡ some v → ⊥
      clash g = cc
  saved-IsSound code id u v (some m) e named owned h =
      let once = put_over-IsSound key_of owner id u v (some m) e named owned h in
      let held : find_by_id (key_of u) (set_at id u (some m)) ≡ some u =
        ap (λ k. find_by_id k (set_at id u (some m))) once.0 ∙ once.2 in
      let twice =
        put_over-IsSound key_of owner (key_of u) u u (set_at id u (some m)) held refl refl once.1 in
      twice.1

  -- A write under the key of what was found does not empty another key.
  pub put-Held :
      (id key : String) (u v : V) (t : Table V)
      → find_by_id id t ≡ some v
      → (w : V) × (find_by_id id (after t (put key u t)) ≡ some w)
  put-Held id key u v none e = (v, ap (find_by_id id) (put-none key u) ∙ e)
  put-Held id key u v (some m) e = elim (Bool-cases (str_eq key id)) [
    | inl same ↦ (u, find-put key id u m ∙ rw same refl)
    | inr other ↦ (v, find-put key id u m ∙ rw other e)
  ]

  -- A new value, in a map that is made if there is none.
  pub put-init-IsSound :
      (id : String) (u : V) (t : Table V)
      → key_of u ≡ id
      → findb (is_owned owner (owner u)) (list t) ≡ none
      → IsSound key_of owner t
      → IsSound key_of owner (written 201 u t (put id u (init t))).1
  unfolding put init list values
  put-init-IsSound id u none named e h =
      put_new-IsSound key_of owner id u (init none) named refl (init-IsSound key_of owner none h)
  put-init-IsSound id u (some m) named e h = put_new-IsSound key_of owner id u (some m) named e h

pub init_set :
    {V : Type 0} (id : String) (u v : V) (t : Table V)
    → find_by_id id t ≡ some v
    → init (set_at id u t) ≡ set_at id u t
unfolding init put find_by_id
init_set id u v none e = absurd (clash e)
  where
    clash : none ≡ some v → ⊥
    clash g = cc
init_set id u v (some m) e = refl
