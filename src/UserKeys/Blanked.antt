-- ===== src/UserKeys/Blanked.antt =====
-- gorouter/internal/handlers/user_keys.go: on the JSON store, one's keys are useless once they were listed.
use yi_api_proxy.Base.{
  ℕ, String, str_eq, ◌≡◌, refl, sym, ap, ◌∙◌, true, false, List, [], ◌∷◌, Option, none, some, ◌⊎◌,
  inl, inr, All, All-filterb, Bool-cases,
}
use yi_api_proxy.Base.Text.{slice_to}
use yi_api_proxy.Base.Assoc.{Assoc, values}
use yi_api_proxy.Db.Types.{ApiKey, User, ApiKeyValidation}
use yi_api_proxy.Db.Table.{Table, find_by_id, list, map_values}
use yi_api_proxy.Db.Kept.{KeptTable, stored_id}
use yi_api_proxy.Db.Users.Deleted.{user_key}
use yi_api_proxy.Db.ApiKeys.{find_active_by_prefix, is_active_at}
use yi_api_proxy.ApiKeys.Create.{Hasher, Result, ok, fail, panicked, verify_key}
use yi_api_proxy.ApiKeys.Service.{
  validate_key, validate_prefix, check_candidates, admit_key, admit_user, expired,
}
use yi_api_proxy.UserCombos.{UserContext}
use yi_api_proxy.UserKeys.{blank_own, list_own_keys}

-- A key of another user, or one without a hash.
abbrev IsBlanked : String → ApiKey → Type 0
IsBlanked user_id k = (str_eq k.user_id user_id ≡ false) ⊎ (k.key_hash ≡ "")

blank_own-IsBlanked : (user_id : String) (k : ApiKey) → IsBlanked user_id (blank_own user_id k)
blank_own-IsBlanked user_id k = elim (Bool-cases (str_eq k.user_id user_id)) [
  | inl own ↦ inr (rw own refl)
  | inr other ↦ inl (rw other other)
]

All-IsBlanked :
    (user_id : String) (m : Assoc ApiKey)
    → All (IsBlanked user_id) (list (map_values (blank_own user_id) (some m)))
unfolding list map_values values
All-IsBlanked user_id [] = tt
All-IsBlanked user_id ((key, k) ∷ m) = (blank_own-IsBlanked user_id k, All-IsBlanked user_id m)

-- A validation does not say that the sender is this user.
abbrev pub IsNotOf : String → Result ApiKeyValidation → Type 0
IsNotOf user_id (ok validation) = str_eq validation.user_id user_id ≡ false
IsNotOf user_id (fail message) = Unit
IsNotOf user_id panicked = Unit

-- A user who is found has the id that was looked for.
id-found :
    (id : String) (u : User) (users : Table User)
    → KeptTable user_key users
    → find_by_id id users ≡ some u
    → u.id ≡ id
unfolding find_by_id
id-found id u none k e = absurd (clash e)
  where
    clash : none ≡ some u → ⊥
    clash h = cc
id-found id u (some m) k e = stored_id user_key id u m k e

module _ (now : ℕ) (users : Table User) (kept : KeptTable user_key users) (t : Table ApiKey)
    (user_id : String) where
  admit_user-IsNotOf :
      (k : ApiKey) (o : Option User)
      → find_by_id k.user_id users ≡ o
      → str_eq k.user_id user_id ≡ false
      → IsNotOf user_id (admit_user now k t o).0
  admit_user-IsNotOf k none f h = tt
  admit_user-IsNotOf k (some user) f h = elim (Bool-cases (str_eq user.status "active")) [
    | inl e ↦ rw e (ap (λ id. str_eq id user_id) (id-found k.user_id user users kept f) ∙ h)
    | inr e ↦ rw e tt
  ]

  admit_key-IsNotOf :
      (k : ApiKey) → str_eq k.user_id user_id ≡ false → IsNotOf user_id (admit_key now k users t).0
  unfolding admit_key
  admit_key-IsNotOf k h = elim (Bool-cases (str_eq k.status "active")) [
    | inr e ↦ rw e tt
    | inl e ↦ elim (Bool-cases (expired now k.expires_at)) [
      | inl f ↦ rw (e, f) tt
      | inr f ↦ rw (e, f) (admit_user-IsNotOf k (find_by_id k.user_id users) refl h)
    ]
  ]

module _ (hasher : Hasher) (now : ℕ) (key_string : List ℕ) (users : Table User)
    (kept : KeptTable user_key users) (user_id : String)
    (no_hash : (bytes : List ℕ) → hasher.compare "" bytes ≡ false) where
  abbrev Other : ApiKey → Type 0
  Other k = str_eq k.user_id user_id ≡ false

  verified-Other :
      (k : ApiKey) → verify_key hasher key_string k.key_hash ≡ true → IsBlanked user_id k → Other k
  unfolding verify_key
  verified-Other k v (inl other) = other
  verified-Other k v (inr blank) =
      absurd (clash (sym (no_hash (hasher.normalize key_string)) ∙ (rw blank at v)))
    where
      clash : false ≡ true → ⊥
      clash h = cc

  check_candidates-IsNotOf :
      (t : Table ApiKey) (keys : List ApiKey)
      → All (IsBlanked user_id) keys
      → IsNotOf user_id (check_candidates hasher now key_string users t keys).0
  unfolding check_candidates
  check_candidates-IsNotOf t [] a = tt
  check_candidates-IsNotOf t (k ∷ keys) a =
      elim (Bool-cases (verify_key hasher key_string k.key_hash)) [
        | inl v ↦ rw v (admit_key-IsNotOf now users kept t user_id k (verified-Other k v a.0))
        | inr v ↦ rw v (check_candidates-IsNotOf t keys a.1)
      ]

  validate_prefix-IsNotOf :
      (t : Table ApiKey) (prefix : Option (List ℕ))
      → All (IsBlanked user_id) (list t)
      → IsNotOf user_id (validate_prefix hasher now key_string users t prefix).0
  unfolding validate_prefix find_active_by_prefix
  validate_prefix-IsNotOf t none a = tt
  validate_prefix-IsNotOf t (some prefix) a =
      check_candidates-IsNotOf t (find_active_by_prefix prefix t) (
        All-filterb (is_active_at prefix) (IsBlanked user_id) (IsBlanked user_id) (list t)
          (λ k e b. b) a)

  listed_table :
      (t : Table ApiKey) → All (IsBlanked user_id) (list (map_values (blank_own user_id) t))
  unfolding list map_values
  listed_table none = tt
  listed_table (some m) = All-IsBlanked user_id m

  -- On the JSON store, where each user stands once, under the own id, and bcrypt takes nothing for the empty hash:
  -- after a user listed the own keys, no key string is validated as one of this user, whoever sends
  -- it. `ListOwnKeys` empties the stored hash of each key that it shows.
  pub validate_key-list_own_keys :
      (claims : UserContext) (t : Table ApiKey)
      → claims.user_id ≡ user_id
      → IsNotOf user_id
          (validate_key hasher now key_string users (list_own_keys (some claims) t).1).0
  unfolding validate_key list_own_keys
  validate_key-list_own_keys claims t e = rw e (
      validate_prefix-IsNotOf (map_values (blank_own user_id) t) (slice_to 18 key_string)
        (listed_table t))
