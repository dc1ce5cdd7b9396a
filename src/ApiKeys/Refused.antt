-- ===== src/ApiKeys/Refused.antt =====
-- gorouter/internal/apikeys/service.go: which keys `ValidateKey` accepts.
use yi_api_proxy.Base.{
  ℕ, String, str_eq, ◌≡◌, refl, sym, ap, subst, Bool, true, false, Option, none, some, List, [],
  ◌∷◌, filterb, All, In, Bool-cases, inl, inr,
}
use yi_api_proxy.Base.Text.{slice_to}
use yi_api_proxy.Base.Assoc.{Assoc, lookup, values}
use yi_api_proxy.Db.Types.{ApiKey, User, ApiKeyValidation}
use yi_api_proxy.Db.Table.{Table, find_by_id, list}
use yi_api_proxy.Db.Kept.{KeptTable, Found, values-Found}
use yi_api_proxy.Db.ApiKeys.{find_active_by_prefix, is_active_at}
use yi_api_proxy.ApiKeys.Create.{Hasher, Result, ok, fail, panicked, verify_key}
use yi_api_proxy.ApiKeys.Service.{
  expired, validation_of, admit_user, admit_key, check_candidates, validate_key, validate_prefix,
}

-- What a validation says of the store: the key of that id verifies the given one, it is active and not
-- past its end, and its user is active and named with their role.
pub record Granted (hasher : Hasher) (now : ℕ) (key_string : List ℕ) (users : Table User)
    (key : ApiKey) (v : ApiKeyValidation) : Type 0 where
  pub verifies : verify_key hasher key_string key.key_hash ≡ true
  pub active : str_eq key.status "active" ≡ true
  pub in_time : expired now key.expires_at ≡ false
  pub user : User
  pub owner : find_by_id key.user_id users ≡ some user
  pub user_active : str_eq user.status "active" ≡ true
  pub validation : v ≡ validation_of user key

fail-ne-ok : {B : Type 0} (A : Type 0) (e : String) (v : B) → fail e ≡ ok v → A
fail-ne-ok A e v h = absurd (clash h)
  where
    clash : fail e ≡ ok v → ⊥
    clash g = cc

abbrev value_or : {B : Type 0} → B → Result B → B
value_or v (ok w) = w
value_or v (fail e) = v
value_or v panicked = v

module _ (hasher : Hasher) (now : ℕ) (key_string : List ℕ) (users : Table User)
    (t : Table ApiKey) where
  admit_user-Granted :
      (key : ApiKey) (v : ApiKeyValidation) (o : Option User)
      → find_by_id key.user_id users ≡ o
      → verify_key hasher key_string key.key_hash ≡ true
      → str_eq key.status "active" ≡ true
      → expired now key.expires_at ≡ false
      → (admit_user now key t o).0 ≡ ok v
      → Granted hasher now key_string users key v
  admit_user-Granted key v none own ver act late h =
      fail-ne-ok (Granted hasher now key_string users key v) _ v h
  admit_user-Granted key v (some user) own ver act late h =
      elim (Bool-cases (str_eq user.status "active")) [
        | inl e ↦ record {
          verifies = ver;
          active = act;
          in_time = late;
          user = user;
          owner = own;
          user_active = e;
          validation = ap (value_or v) (sym (rw e at h));
        }
        | inr e ↦
            fail-ne-ok (Granted hasher now key_string users key v) "user suspended or not found" v
              (rw e at h)
      ]

  admit_key-Granted :
      (key : ApiKey) (v : ApiKeyValidation)
      → verify_key hasher key_string key.key_hash ≡ true
      → (admit_key now key users t).0 ≡ ok v
      → Granted hasher now key_string users key v
  unfolding admit_key
  admit_key-Granted key v ver h = elim (Bool-cases (str_eq key.status "active")) [
    | inl act ↦ elim (Bool-cases (expired now key.expires_at)) [
      | inl late ↦ fail-ne-ok (Granted hasher now key_string users key v) _ v (rw (act, late) at h)
      | inr late ↦
          admit_user-Granted key v (find_by_id key.user_id users) refl ver act late
            (rw (act, late) at h)
    ]
    | inr idle ↦ fail-ne-ok (Granted hasher now key_string users key v) _ v (rw idle at h)
  ]

  -- One of the keys grants the validation.
  abbrev pub GrantedBy : List ApiKey → ApiKeyValidation → Type 0
  GrantedBy keys v = (key : ApiKey) × In key keys × Granted hasher now key_string users key v

  candidates-GrantedBy :
      (keys : List ApiKey) (v : ApiKeyValidation)
      → (check_candidates hasher now key_string users t keys).0 ≡ ok v
      → GrantedBy keys v
  unfolding check_candidates
  candidates-GrantedBy [] v h = fail-ne-ok (GrantedBy [] v) _ v h
  candidates-GrantedBy (key ∷ keys) v h =
      elim (Bool-cases (verify_key hasher key_string key.key_hash)) [
        | inl e ↦ (key, inl refl, admit_key-Granted key v e (rw e at h))
        | inr e ↦ let rest = candidates-GrantedBy keys v (rw e at h) in (rest.0, inr rest.1, rest.2)
      ]

In-filterb :
    (f : ApiKey → Bool) (key : ApiKey) (keys : List ApiKey) → In key (filterb f keys) → In key keys
In-filterb f key [] i = i
In-filterb f key (k ∷ keys) i = elim (Bool-cases (f k)) [
  | inl e ↦ elim (rw e at i) [ inl here ↦ inl here | inr there ↦ inr (In-filterb f key keys there) ]
  | inr e ↦ inr (In-filterb f key keys (rw e at i))
]

In-Found :
    (m : Assoc ApiKey) (key : ApiKey) (keys : List ApiKey)
    → All (Found (λ k. k.id) m) keys
    → In key keys
    → lookup key.id m ≡ some key
In-Found m key [] a i = absurd i
In-Found m key (k ∷ keys) a (inl here) = subst (λ x. lookup x.id m ≡ some x) here a.0
In-Found m key (k ∷ keys) a (inr there) = In-Found m key keys a.1 there

candidate_stored :
    (prefix : List ℕ) (key : ApiKey) (t : Table ApiKey)
    → KeptTable (λ k. k.id) t
    → In key (find_active_by_prefix prefix t)
    → find_by_id key.id t ≡ some key
unfolding find_active_by_prefix list find_by_id
candidate_stored prefix key none k i = absurd i
candidate_stored prefix key (some m) k i =
    In-Found m key (values m) (values-Found (λ x. x.id) m k)
      (In-filterb (is_active_at prefix) key (values m) i)

-- A stored key, under the validation's id, grants the validation.
abbrev pub GrantedByStored :
    Hasher → ℕ → List ℕ → Table User → Table ApiKey → ApiKeyValidation → Type 0
GrantedByStored hasher now key_string users t v =
    (key : ApiKey) × (find_by_id v.key_id t ≡ some key) × Granted hasher now key_string users key v

module _ (hasher : Hasher) (now : ℕ) (key_string : List ℕ) (users : Table User) (t : Table ApiKey)
    (kept : KeptTable (λ k. k.id) t) where
  prefix-Granted :
      (v : ApiKeyValidation) (o : Option (List ℕ))
      → (validate_prefix hasher now key_string users t o).0 ≡ ok v
      → GrantedByStored hasher now key_string users t v
  unfolding validate_prefix
  prefix-Granted v none h = absurd (clash h)
    where
      clash : panicked ≡ ok v → ⊥
      clash g = cc
  prefix-Granted v (some prefix) h =
      let by =
        candidates-GrantedBy hasher now key_string users t (find_active_by_prefix prefix t) v h in
      (by.0, rw by.2.validation (candidate_stored prefix by.0 t kept by.1), by.2)

  -- In a store that keeps each key once, under its own id: a key string that `ValidateKey` accepts verifies
  -- against the hash of the stored key that the validation names, and this key is active and not past
  -- its end, its user is stored and active, and the validation carries this user's id and role and
  -- this key's prefix and scopes.
  pub accepted_key_granted :
      (v : ApiKeyValidation)
      → (validate_key hasher now key_string users t).0 ≡ ok v
      → GrantedByStored hasher now key_string users t v
  unfolding validate_key
  accepted_key_granted v h = prefix-Granted v (slice_to 18 key_string) h
