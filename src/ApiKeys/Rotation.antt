-- ===== src/ApiKeys/Rotation.antt =====
-- gorouter/internal/apikeys/service.go: `RotateKey`, and what a revocation does to the count of a user.
use yi_api_proxy.Base.{
  ℕ, ◌≤◌, String, str_eq, ◌≡◌, refl, ap, ◌∙◌, true, Option, none, some, List, leb, arith,
}
use yi_api_proxy.Base.Assoc.{lookup, insert}
use yi_api_proxy.Db.Types.{ApiKey}
use yi_api_proxy.Db.Table.{Table, find_by_id, after, list, put}
use yi_api_proxy.Db.Kept.{KeptTable}
use yi_api_proxy.Db.ApiKeys.{count_by_user, revoked, update, update_found}
use yi_api_proxy.ApiKeys.Create.{Hasher, fail, Fresh, create_key}
use yi_api_proxy.ApiKeys.Service.{revoke_key, rotate_key}
use yi_api_proxy.ApiKeys.Slots.{owned, count_table, count-replace}
use yi_api_proxy.ApiKeys.Revoked.{key_id, table_id, revoke_key-after}

count-update :
    (user_id id : String) (now : ℕ) (old : ApiKey) (t : Table ApiKey)
    → find_by_id id t ≡ some old
    → old.id ≡ id
    → count_by_user user_id (after t (update (revoked now old) t)) ≡ count_by_user user_id t
unfolding update put find_by_id list owned
count-update user_id id now old none e same = refl
count-update user_id id now old (some m) e same =
    rw
      (count_table user_id (some m), count_table user_id (some (insert old.id (revoked now old) m)))
      (count-replace user_id old.id (revoked now old) old m (ap (λ i. lookup i m) same ∙ e) refl)

count-update_found :
    (user_id id : String) (now : ℕ) (t : Table ApiKey) (o : Option ApiKey)
    → KeptTable key_id t
    → find_by_id id t ≡ o
    → count_by_user user_id (after t (update_found (revoked now) t o)) ≡ count_by_user user_id t
count-update_found user_id id now t none k e = refl
count-update_found user_id id now t (some old) k e =
    count-update user_id id now old t e (table_id id old t k e)

create_full :
    (hasher : Hasher) (fresh : Fresh) (owner name : String) (scopes : Option (List String))
    (expires_at : Option ℕ) (t : Table ApiKey)
    → 10 ≤ count_by_user owner t
    → create_key hasher fresh owner name scopes expires_at t
      ≡ (fail "user has reached maximum of 10 API keys", t)
unfolding create_key
create_full hasher fresh owner name scopes expires_at t h =
    let full : leb 10 (count_by_user owner t) ≡ true = ground (arith, h) in rw full refl

-- In a store that keeps each key once, under its own id: revoking any key leaves every user's count as it
-- was, so a user with ten keys is refused a new one after the revocation as well, and rotating an active
-- key of theirs fails and revokes nothing.
pub revoking_frees_no_slot :
    (hasher : Hasher) (fresh : Fresh) (now : ℕ) (id owner name : String)
    (scopes : Option (List String)) (expires_at : Option ℕ) (old : ApiKey) (t : Table ApiKey)
    → KeptTable key_id t
    → 10 ≤ count_by_user owner t
    → find_by_id id t ≡ some old
    → old.user_id ≡ owner
    → (create_key hasher fresh owner name scopes expires_at (revoke_key now id t).1
        ≡ (fail "user has reached maximum of 10 API keys", (revoke_key now id t).1))
      × (str_eq old.status "active" ≡ true
          → rotate_key hasher fresh id t ≡ (fail "create replacement", t))
unfolding rotate_key
revoking_frees_no_slot hasher fresh now id owner name scopes expires_at old t k h e own =
    let count : count_by_user owner (revoke_key now id t).1 ≡ count_by_user owner t =
      ap (λ s. count_by_user owner s) (revoke_key-after now id t)
      ∙ count-update_found owner id now t (find_by_id id t) k refl in
    (
      create_full hasher fresh owner name scopes expires_at (revoke_key now id t).1
          (omega (arith, count, h)),
      λ act.
          rw
            (
              e,
              act,
              own,
              create_full hasher fresh owner old.name (some old.scopes) old.expires_at t h,
            )
            refl,
    )
