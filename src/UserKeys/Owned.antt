-- ===== src/UserKeys/Owned.antt =====
-- gorouter/internal/handlers/user_keys.go: whose keys one can revoke.
use yi_api_proxy.Base.{
  ℕ, String, str_eq, ◌≡◌, refl, sym, ap, ◌∙◌, subst, Bool, true, false, none, some, inl, inr,
  if◌then◌else◌, ◌||◌, Bool-cases,
}
use yi_api_proxy.Db.Types.{ApiKey}
use yi_api_proxy.Db.Table.{Table, Write, stored, panic, find_by_id, put, after, find-put}
use yi_api_proxy.Db.ApiKeys.{update, revoke, revoked}
use yi_api_proxy.UserCombos.{UserContext}
use yi_api_proxy.ApiKeys.Create.{ok}
use yi_api_proxy.ApiKeys.Service.{done, revoke_found, revoke_key}
use yi_api_proxy.Base.Assoc.{Assoc}
use yi_api_proxy.Db.Kept.{Kept, KeptTable, stored_id}
use yi_api_proxy.UserKeys.{
  KeyReply, refused, revoked_reply, revoked_key, revoke_owned, revoke_own_key,
}

abbrev pub api_key_id : ApiKey → String
api_key_id k = k.id

abbrev IsStored : Write ApiKey → Type 0
IsStored (stored t) = Unit
IsStored panic = ⊥

done-stored : (t : Table ApiKey) (w : Write ApiKey) → IsStored w → done t w ≡ (ok tt, after t w)
done-stored t (stored t') h = refl
done-stored t panic h = absurd h

revoke-IsStored :
    (now : ℕ) (key_id : String) (t : Table ApiKey) (key : ApiKey)
    → find_by_id key_id t ≡ some key
    → IsStored (revoke now key_id t)
unfolding revoke update put
revoke-IsStored now key_id none key e = absurd (missing key_id e)
  where
    missing : (i : String) → find_by_id i none ≡ some key → ⊥
    missing i h = unfold find_by_id in cc
revoke-IsStored now key_id (some m) key e = rw e tt

revoke_key-found :
    (now : ℕ) (key_id : String) (t : Table ApiKey) (key : ApiKey)
    → find_by_id key_id t ≡ some key
    → revoke_key now key_id t ≡ (ok tt, after t (revoke now key_id t))
unfolding revoke_key
revoke_key-found now key_id t key e =
    ap (revoke_found now key_id t) e
    ∙ done-stored t (revoke now key_id t) (revoke-IsStored now key_id t key e)

revoke_owned-found :
    (now : ℕ) (claims : UserContext) (key_id : String) (t : Table ApiKey) (key : ApiKey)
    → find_by_id key_id t ≡ some key
    → revoke_owned now claims key_id t (some key) ≡ (
        if str_eq key.user_id claims.user_id || str_eq claims.role "admin"
        then (revoked_key, after t (revoke now key_id t))
        else (refused 403 "cannot revoke key owned by another user", t))
unfolding revoke_owned
revoke_owned-found now claims key_id t key e =
    let done_it = ap revoked_reply (revoke_key-found now key_id t key e) in
    elim (Bool-cases (str_eq key.user_id claims.user_id)) [
      | inl own ↦ rw own done_it
      | inr other ↦ elim (Bool-cases (str_eq claims.role "admin")) [
        | inl admin ↦ rw (other, admin) done_it
        | inr user ↦ rw (other, user) refl
      ]
    ]

abbrev pub RevokedAt : ℕ → ApiKey → ApiKey → Type 0
RevokedAt now key key' = key' ≡ record key { status = "revoked"; revoked_at = some now }

-- What a request to revoke may leave under any id: with the permission the key of that id is marked as revoked, and
-- what stands under another id is as it was; without it the answer is 403 and all keys are as they were.
abbrev pub IsHandled :
    Bool → ℕ → String → ApiKey → String → Table ApiKey → KeyReply × Table ApiKey → Type 0
IsHandled true now key_id key other t (reply, t') =
    (key' : ApiKey) × RevokedAt now key key'
    × (reply ≡ revoked_key)
    × (find_by_id other t' ≡ (if str_eq key_id other then some key' else find_by_id other t))
IsHandled false now key_id key other t (reply, t') =
    (reply ≡ refused 403 "cannot revoke key owned by another user") × (t' ≡ t)

module _ (now : ℕ) (key_id : String) (key : ApiKey) (other : String) where
  revoke-find :
      (t : Table ApiKey)
      → KeptTable api_key_id t
      → find_by_id key_id t ≡ some key
      → find_by_id other (after t (revoke now key_id t)) ≡ (
          if str_eq key_id other
          then some (record key { status = "revoked"; revoked_at = some now })
          else find_by_id other t)
  unfolding revoke update
  revoke-find none k e = absurd (missing e)
    where
      missing : find_by_id key_id none ≡ some key → ⊥
      missing h = unfold find_by_id in cc
  revoke-find (some m) k e =
      let named : key.id ≡ key_id = found m k e in
      rw e (
        find-put key.id other (revoked now key) m
        ∙ ap (λ id. if str_eq id other then some (revoked now key) else find_by_id other (some m))
            named)
    where
      found :
          (m : Assoc ApiKey)
          → Kept api_key_id m
          → find_by_id key_id (some m) ≡ some key
          → key.id ≡ key_id
      found m k e = stored_id api_key_id key_id key m k (unfold find_by_id in e)

  handled :
      (b : Bool) (t : Table ApiKey)
      → KeptTable api_key_id t
      → find_by_id key_id t ≡ some key
      → IsHandled b now key_id key other t (
          if b
          then (revoked_key, after t (revoke now key_id t))
          else (refused 403 "cannot revoke key owned by another user", t))
  handled true t k e =
      (record key { status = "revoked"; revoked_at = some now }, refl, refl, revoke-find t k e)
  handled false t k e = (refl, refl)

  -- `RevokeOwnKey` on a stored key, in a store that has each key once, under its own id. For the owner of the key and
  -- for the role `admin` it answers that the key is revoked, the key then has the status "revoked" and
  -- the time of the call, and no other key changes; for any other user the answer is 403 and no key
  -- changes.
  pub revoke_own_key_lem :
      (claims : UserContext) (t : Table ApiKey)
      → KeptTable api_key_id t
      → find_by_id key_id t ≡ some key
      → IsHandled
          (str_eq key.user_id claims.user_id || str_eq claims.role "admin")
          now
          key_id
          key
          other
          t
          (revoke_own_key now (some claims) key_id t)
  unfolding revoke_own_key
  revoke_own_key_lem claims t k e =
      subst
        (IsHandled (str_eq key.user_id claims.user_id || str_eq claims.role "admin") now key_id key
          other t)
        (sym
          (ap (revoke_owned now claims key_id t) e ∙ revoke_owned-found now claims key_id t key e))
        (handled (str_eq key.user_id claims.user_id || str_eq claims.role "admin") t k e)
