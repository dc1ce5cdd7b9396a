-- ===== src/Db/Unique.antt =====
-- gorouter/internal/db/dbmanager.go: a map of `jsonStore` in which at most one value has a given owner, for any kind of
-- value and any text of it as the owner.
use yi_api_proxy.Base.{
  ◌+◌, ◌≤◌, String, str_eq, eq_iff, eq_refl, ◌≡◌, refl, sym, ap, ◌∙◌, Bool, true, false, List, [],
  ◌∷◌, Option, none, some, inl, inr, if◌then◌else◌, findb, findb-All, countb, arith, Bool-cases,
}
use yi_api_proxy.Base.Assoc.{Assoc, lookup, insert, remove, values, lookup-insert, lookup-remove}
use yi_api_proxy.Db.Table.{Table, list, init, put, after, delete, find_by_id}
use yi_api_proxy.Db.Kept.{Kept, KeptTable, insert-Kept, stored_id, Found, values-Found}

module _ {V : Type 0} (f : V → Bool) where
  pub countb-insert :
      (key : String) (u : V) (m : Assoc V)
      → countb f (values (insert key u m)) ≤ countb f (values m) + (if f u then 1 else 0)
  unfolding values insert
  countb-insert key u [] = omega arith
  countb-insert key u ((k, v) ∷ m) = elim (Bool-cases (str_eq k key)) [
    | inl same ↦ rw same (ground arith)
    | inr other ↦ rw other (omega (arith, countb-insert key u m))
  ]

  pub countb-none : (us : List V) → findb f us ≡ none → countb f us ≡ 0
  countb-none [] e = refl
  countb-none (u ∷ us) e = elim (Bool-cases (f u)) [
    | inl hit ↦ absurd (clash (rw hit at e))
    | inr miss ↦ rw miss (omega (arith, countb-none us (rw miss at e)))
  ]
    where
      clash : some u ≡ none → ⊥
      clash h = cc

  countb-replace :
      (key : String) (u v : V) (m : Assoc V)
      → lookup key m ≡ some v
      → f u ≡ f v
      → countb f (values (insert key u m)) ≡ countb f (values m)
  unfolding lookup values insert
  countb-replace key u v [] e h = absurd (clash e)
    where
      clash : none ≡ some v → ⊥
      clash g = cc
  countb-replace key u v ((k, w) ∷ m) e h = elim (Bool-cases (str_eq k key)) [
    | inl same ↦ let held : w ≡ v = some_injective w v (rw same at e) in rw (same, h, held) refl
    | inr other ↦ rw other (omega (arith, countb-replace key u v m (rw other at e) h))
  ]
    where
      or_else : V → Option V → V
      or_else a none = a
      or_else a (some b) = b

      some_injective : (a b : V) → some a ≡ some b → a ≡ b
      some_injective a b g = ap (or_else a) g

  countb-remove :
      (key : String) (m : Assoc V) → countb f (values (remove key m)) ≤ countb f (values m)
  unfolding values remove
  countb-remove key [] = omega arith
  countb-remove key ((k, w) ∷ m) = elim (Bool-cases (str_eq k key)) [
    | inl same ↦ rw same (omega (arith, countb-remove key m))
    | inr other ↦ rw other (omega (arith, countb-remove key m))
  ]

module _ {V : Type 0} (owner : V → String) where
  abbrev pub is_owned : String → V → Bool
  is_owned user v = str_eq (owner v) user

  -- Nobody owns two values of the map.
  abbrev pub IsOnce : Table V → Type 0
  IsOnce t = (user : String) → countb (is_owned user) (list t) ≤ 1

  -- A value whose owner has none yet.
  pub insert_new-IsOnce :
      (key : String) (u : V) (m : Assoc V)
      → IsOnce (some m)
      → findb (is_owned (owner u)) (list (some m)) ≡ none
      → IsOnce (some (insert key u m))
  unfolding list
  insert_new-IsOnce key u m h e user = elim (Bool-cases (str_eq (owner u) user)) [
    | inl same ↦
        let own : countb (is_owned user) (values m) ≡ 0 =
          ap (λ a. countb (is_owned a) (values m)) (sym ((eq_iff (owner u) user).0 same))
          ∙ countb-none (is_owned (owner u)) (values m) e in
        ground (arith, countb-insert (is_owned user) key u m, own)
    | inr other ↦
        let unseen : is_owned user u ≡ false = rw other refl in
        ground (arith, countb-insert (is_owned user) key u m, h user, unseen)
  ]

  pub replace-IsOnce :
      (key : String) (u v : V) (m : Assoc V)
      → IsOnce (some m)
      → lookup key m ≡ some v
      → owner u ≡ owner v
      → IsOnce (some (insert key u m))
  unfolding list
  replace-IsOnce key u v m h e same user =
      let as_many = countb-replace (is_owned user) key u v m e (ap (λ o. str_eq o user) same) in
      omega (arith, h user, as_many)

  pub delete-IsOnce : (key : String) (t : Table V) → IsOnce t → IsOnce (delete key t)
  unfolding list delete
  delete-IsOnce key none h user = h user
  delete-IsOnce key (some m) h user = omega (arith, h user, countb-remove (is_owned user) key m)

module _ {V : Type 0} (key_of : V → String) where
  remove-Kept : (key : String) (m : Assoc V) → Kept key_of m → Kept key_of (remove key m)
  unfolding remove
  remove-Kept key [] h = tt
  remove-Kept key ((k, v) ∷ m) h = elim (Bool-cases (str_eq k key)) [
    | inl same ↦ rw same (remove-Kept key m h.2)
    | inr other ↦ rw other (h.0, still_gone (str_eq key k), remove-Kept key m h.2)
  ]
    where
      left_out : (b : Bool) → (if b then none else lookup k m) ≡ none
      left_out true = refl
      left_out false = h.1

      still_gone : (b : Bool) → lookup k (remove key m) ≡ none
      still_gone b = lookup-remove key k m ∙ left_out (str_eq key k)

  module _ (owner : V → String) where
    -- Each value stands once, under its own key, and nobody owns two.
    abbrev pub IsSound : Table V → Type 0
    IsSound t = KeptTable key_of t × IsOnce owner t

    pub delete-IsSound : (key : String) (t : Table V) → IsSound t → IsSound (delete key t)
    unfolding delete
    delete-IsSound key none h = h
    delete-IsSound key (some m) h = (remove-Kept key m h.0, delete-IsOnce owner key (some m) h.1)

    pub init-IsSound : (t : Table V) → IsSound t → IsSound (init t)
    unfolding init list values
    init-IsSound none h = (tt, λ user. omega arith)
    init-IsSound (some m) h = h

    -- A value is stored under its key, for an owner who has none yet.
    pub put_new-IsSound :
        (key : String) (u : V) (t : Table V)
        → key_of u ≡ key
        → findb (is_owned owner (owner u)) (list t) ≡ none
        → IsSound t
        → IsSound (after t (put key u t))
    unfolding put
    put_new-IsSound key u none named e h = h
    put_new-IsSound key u (some m) named e h =
        (insert-Kept key_of key u m named h.0, insert_new-IsOnce owner key u m h.1 e)

    -- A write through the pointer that is stored under a key, which leaves the key and the owner.
    pub put_over-IsSound :
        (key : String) (u v : V) (t : Table V)
        → find_by_id key t ≡ some v
        → key_of u ≡ key_of v
        → owner u ≡ owner v
        → IsSound t
        → (key_of u ≡ key)
          × IsSound (after t (put key u t))
          × (find_by_id key (after t (put key u t)) ≡ some u)
    unfolding put find_by_id
    put_over-IsSound key u v none e named owned h = absurd (clash e)
      where
        clash : none ≡ some v → ⊥
        clash g = cc
    put_over-IsSound key u v (some m) e named owned h =
        let own : key_of u ≡ key = named ∙ stored_id key_of key v m h.0 e in
        let back : lookup key (insert key u m) ≡ some u =
          lookup-insert key key u m ∙ rw (eq_refl key) refl in
        (
          own,
          (insert-Kept key_of key u m own h.0, replace-IsOnce owner key u v m h.1 e owned),
          back,
        )

    -- What a look-up by a test finds is what its key holds.
    pub find-Found :
        (f : V → Bool) (t : Table V) (v : V)
        → KeptTable key_of t
        → findb f (list t) ≡ some v
        → find_by_id (key_of v) t ≡ some v
    unfolding list find_by_id
    find-Found f none v k e = absurd (clash e)
      where
        clash : none ≡ some v → ⊥
        clash g = cc
    find-Found f (some m) v k e =
        findb-All f (Found key_of m) (Found key_of m) (values m) v (λ x t h. h)
          (values-Found key_of m k) e
