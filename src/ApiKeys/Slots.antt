-- ===== src/ApiKeys/Slots.antt =====
-- gorouter/internal/apikeys/service.go: at most ten keys for a user.
use yi_api_proxy.Base.{
  ℕ, ◌+◌, ◌≤◌, String, str_eq, eq_iff, ◌≡◌, refl, sym, ap, false, Option, none, some, List, [], ◌∷◌,
  if◌then◌else◌, filterb, length, leb, Bool-cases, inl, inr, arith,
}
use yi_api_proxy.Base.Assoc.{Assoc, lookup, insert, values}
use yi_api_proxy.Db.Types.{ApiKey, ApiKeyCreated}
use yi_api_proxy.Db.Table.{Table, Write, stored, panic, find_by_id, after, list, put, init}
use yi_api_proxy.Db.ApiKeys.{create, find_by_user_id, count_by_user}
use yi_api_proxy.ApiKeys.Create.{
  Hasher, Fresh, Generated, generate_key, store_key, create_key, new_key, created_of, or_default,
  written,
}

unfoldable pub owned : String → ApiKey → ℕ
owned user_id key = if str_eq key.user_id user_id then 1 else 0

unfoldable pub count_owned : String → List ApiKey → ℕ
count_owned user_id keys = length (filterb (λ k. str_eq k.user_id user_id) keys)

count-cons :
    (user_id : String) (key : ApiKey) (keys : List ApiKey)
    → count_owned user_id (key ∷ keys) ≡ owned user_id key + count_owned user_id keys
unfolding count_owned owned
count-cons user_id key keys = ground arith

-- A new entry counts for its user.
count-insert :
    (user_id id : String) (key : ApiKey) (m : Assoc ApiKey)
    → lookup id m ≡ none
    → count_owned user_id (values (insert id key m))
      ≡ owned user_id key + count_owned user_id (values m)
unfolding lookup insert values
count-insert user_id id key [] e = count-cons user_id key []
count-insert user_id id key ((j, w) ∷ m) e = elim (Bool-cases (str_eq j id)) [
  | inl hit ↦ absurd (clash (rw hit at e))
  | inr miss ↦
      rw
        (
          miss,
          count-cons user_id w (values (insert id key m)),
          count-cons user_id w (values m),
          count-insert user_id id key m (rw miss at e),
        )
        (omega arith)
]
  where
    clash : some w ≡ none → ⊥
    clash h = cc

-- An entry that takes another's place counts in its stead.
pub count-replace :
    (user_id id : String) (key old : ApiKey) (m : Assoc ApiKey)
    → lookup id m ≡ some old
    → owned user_id old ≡ owned user_id key
    → count_owned user_id (values (insert id key m)) ≡ count_owned user_id (values m)
unfolding lookup insert values
count-replace user_id id key old [] e same = absurd (clash e)
  where
    clash : none ≡ some old → ⊥
    clash h = cc
count-replace user_id id key old ((j, w) ∷ m) e same = elim (Bool-cases (str_eq j id)) [
  | inl hit ↦
      let here : some w ≡ some old = rw hit at e in
      rw (hit, count-cons user_id key (values m), count-cons user_id w (values m))
        (omega (arith, same, ap (λ o. owned_by user_id o) here))
  | inr miss ↦
      rw
        (
          miss,
          count-cons user_id w (values (insert id key m)),
          count-cons user_id w (values m),
          count-replace user_id id key old m (rw miss at e) same,
        )
        refl
]
  where
    owned_by : String → Option ApiKey → ℕ
    owned_by u none = 0
    owned_by u (some x) = owned u x

pub count_table :
    (user_id : String) (t : Table ApiKey) → count_by_user user_id t ≡ count_owned user_id (list t)
unfolding count_by_user find_by_user_id count_owned
count_table user_id t = refl

-- `Create` of a key whose id is new.
count-create :
    (user_id : String) (now : ℕ) (key : ApiKey) (t : Table ApiKey)
    → find_by_id key.id t ≡ none
    → count_by_user user_id (after t (create now key t))
      ≡ owned user_id key + count_by_user user_id t
unfolding create put init find_by_id list owned values
count-create user_id now key none e =
    rw
      (
        count_table user_id none,
        count_table user_id (some (insert key.id (record key { created_at = now }) [])),
      )
      (count-insert user_id key.id (record key { created_at = now }) [] (unfold lookup in refl))
count-create user_id now key (some m) e =
    rw
      (
        count_table user_id (some m),
        count_table user_id (some (insert key.id (record key { created_at = now }) m)),
      )
      (count-insert user_id key.id (record key { created_at = now }) m e)

count-store_key :
    (user_id : String) (fresh : Fresh) (owner name : String) (scopes : List String)
    (expires_at : Option ℕ) (t : Table ApiKey) (g : Option Generated)
    → find_by_id fresh.uuid t ≡ none
    → count_by_user user_id (store_key fresh owner name scopes expires_at t g).1
      ≤ (if str_eq owner user_id then 1 else 0) + count_by_user user_id t
unfolding store_key owned
count-store_key user_id fresh owner name scopes expires_at t none e = omega arith
count-store_key user_id fresh owner name scopes expires_at t (some g) e =
    let key = new_key fresh owner name scopes expires_at g in
    settled (create fresh.now key t) (created_of key g.full_key)
      ((if str_eq owner user_id then 1 else 0) + count_by_user user_id t)
      (omega (arith, count-create user_id fresh.now key t e))
  where
    settled :
        (w : Write ApiKey) (created : ApiKeyCreated) (n : ℕ)
        → count_by_user user_id (after t w) ≤ n
        → count_by_user user_id (written t w created).1 ≤ n
    settled (stored t') created n h = h
    settled panic created n h = h

-- `CreateKey` with a new id takes no user over ten keys.
pub ten_keys_at_most :
    (hasher : Hasher) (user_id : String) (fresh : Fresh) (owner name : String)
    (scopes : Option (List String)) (expires_at : Option ℕ) (t : Table ApiKey)
    → find_by_id fresh.uuid t ≡ none
    → count_by_user user_id t ≤ 10
    → count_by_user user_id (create_key hasher fresh owner name scopes expires_at t).1 ≤ 10
unfolding create_key
ten_keys_at_most hasher user_id fresh owner name scopes expires_at t e h =
    let bound =
      count-store_key user_id fresh owner name (or_default scopes) expires_at t
        (generate_key hasher [] fresh.b fresh.secret) e in
    elim (Bool-cases (leb 10 (count_by_user owner t))) [
      | inl full ↦ rw full h
      | inr room ↦ elim (Bool-cases (str_eq owner user_id)) [
        | inl own ↦
            let here : leb 10 (count_by_user user_id t) ≡ false =
              rw (sym ((eq_iff owner user_id).0 own)) room in
            let more = rw own at bound in rw room (ground (arith, here, more))
        | inr other ↦ let same = rw other at bound in rw room (omega (arith, same, h))
      ]
    ]
