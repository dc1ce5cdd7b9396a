-- ===== src/ApiKeys/Revoked.antt =====
-- gorouter/internal/apikeys/service.go: a revoked key is never accepted again.
use yi_api_proxy.Base.{
  ℕ, String, str_eq, eq_refl, ◌≡◌, ◌≢◌, refl, sym, ap, ◌∙◌, subst, true, false, Option, none, some,
  List,
}
use yi_api_proxy.Base.Assoc.{lookup-insert}
use yi_api_proxy.Db.Types.{ApiKey, User, ApiKeyValidation}
use yi_api_proxy.Db.Table.{Table, Write, stored, panic, find_by_id, after, put}
use yi_api_proxy.Db.Kept.{KeptTable, insert-Kept, stored_id}
use yi_api_proxy.Db.ApiKeys.{revoke, revoked, update, update_found}
use yi_api_proxy.ApiKeys.Create.{Hasher, ok}
use yi_api_proxy.ApiKeys.Service.{validate_key}
use yi_api_proxy.ApiKeys.Service.{revoke_key, revoke_found, done}
use yi_api_proxy.ApiKeys.Refused.{accepted_key_granted}

-- The id of a key, as the store's lemmas take it.
abbrev pub key_id : ApiKey → String
key_id key = key.id

-- What a revocation leaves under its id: nothing, or a key that is not active.
abbrev Idle : Option ApiKey → Type 0
Idle none = Unit
Idle (some key) = str_eq key.status "active" ≡ false

update-Idle :
    (now : ℕ) (id : String) (key : ApiKey) (t : Table ApiKey)
    → KeptTable key_id t
    → find_by_id id t ≡ some key
    → key.id ≡ id
    → KeptTable key_id (after t (update (revoked now key) t))
      × Idle (find_by_id id (after t (update (revoked now key) t)))
unfolding update put find_by_id
update-Idle now id key none k e same = absurd (clash e)
  where
    clash : none ≡ some key → ⊥
    clash h = cc
update-Idle now id key (some m) k e same = (
  insert-Kept key_id key.id (revoked now key) m refl k,
  rw (lookup-insert key.id id (revoked now key) m, same, eq_refl id) refl,
)

pub table_id :
    (id : String) (key : ApiKey) (t : Table ApiKey)
    → KeptTable key_id t
    → find_by_id id t ≡ some key
    → key.id ≡ id
unfolding find_by_id
table_id id key none k e = absurd (clash e)
  where
    clash : none ≡ some key → ⊥
    clash h = cc
table_id id key (some m) k e = stored_id key_id id key m k e

revoke_found-Idle :
    (now : ℕ) (id : String) (t : Table ApiKey) (o : Option ApiKey)
    → KeptTable key_id t
    → find_by_id id t ≡ o
    → KeptTable key_id (after t (update_found (revoked now) t o))
      × Idle (find_by_id id (after t (update_found (revoked now) t o)))
revoke_found-Idle now id t none k e = (k, rw e tt)
revoke_found-Idle now id t (some key) k e = update-Idle now id key t k e (table_id id key t k e)

pub revoke_key-after :
    (now : ℕ) (id : String) (t : Table ApiKey)
    → (revoke_key now id t).1 ≡ after t (update_found (revoked now) t (find_by_id id t))
unfolding revoke_key revoke
revoke_key-after now id t = found (find_by_id id t) refl
  where
    settled : (w : Write ApiKey) → (done t w).1 ≡ after t w
    settled (stored t') = refl
    settled panic = refl

    found :
        (o : Option ApiKey)
        → find_by_id id t ≡ o
        → (revoke_found now id t o).1 ≡ after t (update_found (revoked now) t o)
    found none e = refl
    found (some key) e =
        settled (update_found (revoked now) t (find_by_id id t))
        ∙ ap (λ o. after t (update_found (revoked now) t o)) e

revoke_key-Idle :
    (now : ℕ) (id : String) (t : Table ApiKey)
    → KeptTable key_id t
    → KeptTable key_id (revoke_key now id t).1 × Idle (find_by_id id (revoke_key now id t).1)
revoke_key-Idle now id t k =
    rw (revoke_key-after now id t) (revoke_found-Idle now id t (find_by_id id t) k refl)

-- In a store that keeps each key once, under its own id: after `RevokeKey`, whatever key string is
-- validated, at whatever time and for whatever users, a validation that succeeds names another key.
pub revoked_key_refused :
    (hasher : Hasher) (now later : ℕ) (id : String) (key_string : List ℕ) (users : Table User)
    (t : Table ApiKey) (v : ApiKeyValidation)
    → KeptTable key_id t
    → (validate_key hasher later key_string users (revoke_key now id t).1).0 ≡ ok v
    → v.key_id ≢ id
revoked_key_refused hasher now later id key_string users t v k h same =
    let after_it = revoke_key-Idle now id t k in
    let by =
      accepted_key_granted hasher later key_string users (revoke_key now id t).1 after_it.0 v h in
    let idle : Idle (some by.0) =
      subst (λ o. Idle o) (ap (λ i. find_by_id i (revoke_key now id t).1) (sym same) ∙ by.1)
        after_it.1 in
    clash (sym by.2.active ∙ idle)
  where
    clash : true ≡ false → ⊥
    clash g = cc
