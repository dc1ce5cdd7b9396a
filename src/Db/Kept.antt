-- ===== src/Db/Kept.antt =====
-- gorouter/internal/db/dbmanager.go: a map of `jsonStore` whose values stand once each, under the id in
-- them, for any kind of value.
use yi_api_proxy.Base.{
  Option, findb, findb-All, Bool, true, String, str_eq, eq_iff, eq_refl, ◌≡◌, refl, sym, ap, ◌∙◌,
  none, some, List, [], ◌∷◌, arith, All, Bool-cases, inl, inr,
}
use yi_api_proxy.Base.Assoc.{Assoc, lookup, insert, values, lookup-insert}
use yi_api_proxy.Db.Table.{Table}

pub str_eq_comm : (a b : String) → str_eq a b ≡ str_eq b a
str_eq_comm a b = ground (arith, eq_iff a b, eq_iff b a)

module _ {V : Type 0} (key_of : V → String) where
  abbrev pub Kept : Assoc V → Type 0
  Kept [] = Unit
  Kept ((k, v) ∷ m) = (key_of v ≡ k) × (lookup k m ≡ none) × Kept m

  abbrev pub KeptTable : Table V → Type 0
  KeptTable none = Unit
  KeptTable (some m) = Kept m

  pub insert-Kept : (k : String) (v : V) (m : Assoc V) → key_of v ≡ k → Kept m → Kept (insert k v m)
  unfolding lookup insert
  insert-Kept k v [] e h = (e, refl, tt)
  insert-Kept k v ((j, w) ∷ m) e h = elim (Bool-cases (str_eq j k)) [
    | inl same ↦ rw same (e, ap (λ i. lookup i m) (sym ((eq_iff j k).0 same)) ∙ h.1, h.2)
    | inr other ↦
        rw other
          (h.0, lookup-insert k j v m ∙ rw (str_eq_comm k j, other) h.1, insert-Kept k v m e h.2)
  ]

  -- A value of the map is what the map holds under the value's id.
  abbrev pub Found : Assoc V → V → Type 0
  Found m v = lookup (key_of v) m ≡ some v

  lookup-skip :
      (i j : String) (v w : V) (m : Assoc V)
      → lookup j m ≡ none
      → lookup i m ≡ some w
      → lookup i ((j, v) ∷ m) ≡ some w
  unfolding lookup
  lookup-skip i j v w m gone h = elim (Bool-cases (str_eq j i)) [
    | inl same ↦ absurd (clash (sym gone ∙ ap (λ k. lookup k m) ((eq_iff j i).0 same) ∙ h))
    | inr other ↦ rw other h
  ]
    where
      clash : none ≡ some w → ⊥
      clash e = cc

  All-Found :
      (j : String) (v : V) (m : Assoc V) (vs : List V)
      → lookup j m ≡ none
      → All (Found m) vs
      → All (Found ((j, v) ∷ m)) vs
  All-Found j v m [] gone a = tt
  All-Found j v m (w ∷ vs) gone a =
      (lookup-skip (key_of w) j v w m gone a.0, All-Found j v m vs gone a.1)

  pub values-Found : (m : Assoc V) → Kept m → All (Found m) (values m)
  unfolding values lookup
  values-Found [] h = tt
  values-Found ((j, v) ∷ m) h =
      (rw (h.0, eq_refl j) refl, All-Found j v m (values m) h.1 (values-Found m h.2))

  -- What is found under an id has this id.
  pub stored_id :
      (id : String) (v : V) (m : Assoc V) → Kept m → lookup id m ≡ some v → key_of v ≡ id
  unfolding lookup
  stored_id id v [] k e = absurd (clash e)
    where
      clash : none ≡ some v → ⊥
      clash h = cc
  stored_id id v ((j, w) ∷ m) k e = elim (Bool-cases (str_eq j id)) [
    | inl hit ↦ ap (λ o. key_or id o) (sym (rw hit at e)) ∙ k.0 ∙ (eq_iff j id).0 hit
    | inr miss ↦ stored_id id v m k.2 (rw miss at e)
  ]
    where
      key_or : String → Option V → String
      key_or i none = i
      key_or i (some x) = key_of x

  -- A value that takes the place of the first one that passes a test.
  pub findb-insert :
      (f : V → Bool) (v v' : V) (m : Assoc V)
      → Kept m
      → findb f (values m) ≡ some v
      → f v' ≡ true
      → findb f (values (insert (key_of v) v' m)) ≡ some v'
  unfolding values insert
  findb-insert f v v' [] k e p = absurd (clash e)
    where
      clash : none ≡ some v → ⊥
      clash h = cc
  findb-insert f v v' ((j, w) ∷ m) k e p = elim (Bool-cases (f w)) [
    | inl hit ↦
        let same : w ≡ v = some_injective w v (rw hit at e) in
        let place : str_eq j (key_of v) ≡ true =
          (eq_iff j (key_of v)).1 (sym k.0 ∙ ap key_of same) in
        rw (place, p) refl
    | inr miss ↦
        let later : findb f (values m) ≡ some v = rw miss at e in
        let found : lookup (key_of v) m ≡ some v =
          findb-All f (Found m) (Found m) (values m) v (λ x t h. h) (values-Found m k.2) later in
        elim (Bool-cases (str_eq j (key_of v))) [
          | inl same ↦
              absurd
                (clash_none (sym k.1 ∙ ap (λ i. lookup i m) ((eq_iff j (key_of v)).0 same) ∙ found))
          | inr other ↦ rw (other, miss) (findb-insert f v v' m k.2 later p)
        ]
  ]
    where
      clash_none : none ≡ some v → ⊥
      clash_none h = cc

      or_else : V → Option V → V
      or_else a none = a
      or_else a (some b) = b

      some_injective : (a b : V) → some a ≡ some b → a ≡ b
      some_injective a b h = ap (or_else a) h
