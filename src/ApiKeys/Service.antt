-- ===== src/ApiKeys/Service.antt =====
-- gorouter/internal/apikeys/service.go: keys validated, revoked and rotated.
use yi_api_proxy.Base.{
  ℕ, String, str_eq, Bool, false, Option, none, some, List, [], ◌∷◌, if◌then◌else◌, ltb,
}
use yi_api_proxy.Base.Text.{slice_to}
use yi_api_proxy.Db.Types.{ApiKey, User, ApiKeyCreated, ApiKeyValidation}
use yi_api_proxy.Db.Table.{Table, Write, stored, panic, find_by_id, after}
use yi_api_proxy.Db.ApiKeys.{find_active_by_prefix, update_last_used, revoke}
use yi_api_proxy.ApiKeys.Create.{Hasher, Result, ok, fail, panicked, Fresh, verify_key, create_key}

abbrev pub expired : ℕ → Option ℕ → Bool
expired now none = false
expired now (some expires_at) = ltb expires_at now

abbrev pub validation_of : User → ApiKey → ApiKeyValidation
validation_of user key = record {
  user_id = user.id;
  user_role = user.role;
  key_id = key.id;
  key_prefix = key.key_prefix;
  scopes = key.scopes;
}

-- The checks on the key that verified.
abbrev pub admit_user :
    ℕ → ApiKey → Table ApiKey → Option User → Result ApiKeyValidation × Table ApiKey
admit_user now key t none = (fail "user suspended or not found", t)
admit_user now key t (some user) =
    if str_eq user.status "active"
    then (ok (validation_of user key), after t (update_last_used now key.id t))
    else (fail "user suspended or not found", t)

unfoldable pub admit_key :
    ℕ → ApiKey → Table User → Table ApiKey → Result ApiKeyValidation × Table ApiKey
unfolding update_last_used
admit_key now key users t =
    if str_eq key.status "active"
    then (if expired now key.expires_at
        then (fail "API key expired", t)
        else admit_user now key t (find_by_id key.user_id users))
    else (fail "API key revoked", t)

module _ (hasher : Hasher) where
  -- The loop: the first candidate whose hash verifies the key decides.
  unfoldable pub check_candidates :
      ℕ → List ℕ → Table User → Table ApiKey → List ApiKey → Result ApiKeyValidation × Table ApiKey
  unfolding admit_key verify_key
  check_candidates now key_string users t [] = (fail "invalid API key", t)
  check_candidates now key_string users t (key ∷ keys) =
      let rest = check_candidates now key_string users t keys in
      if verify_key hasher key_string key.key_hash then admit_key now key users t else rest

  unfoldable pub validate_prefix :
      ℕ
      → List ℕ
      → Table User
      → Table ApiKey
      → Option (List ℕ)
      → Result ApiKeyValidation × Table ApiKey
  unfolding check_candidates find_active_by_prefix
  validate_prefix now key_string users t none = (panicked, t)
  validate_prefix now key_string users t (some prefix) =
      check_candidates now key_string users t (find_active_by_prefix prefix t)

  -- `ValidateKey`: `keyString[:18]` panics for a shorter key; the early return for no candidates is
  -- that of the loop.
  unfoldable pub validate_key :
      ℕ → List ℕ → Table User → Table ApiKey → Result ApiKeyValidation × Table ApiKey
  unfolding validate_prefix
  validate_key now key_string users t =
      validate_prefix now key_string users t (slice_to 18 key_string)

-- A write's result, without a value.
abbrev pub done : Table ApiKey → Write ApiKey → Result Unit × Table ApiKey
done t (stored t') = (ok tt, t')
done t panic = (panicked, t)

abbrev pub revoke_found : ℕ → String → Table ApiKey → Option ApiKey → Result Unit × Table ApiKey
revoke_found now key_id t none = (fail "API key not found", t)
revoke_found now key_id t (some key) = done t (revoke now key_id t)

unfoldable pub revoke_key : ℕ → String → Table ApiKey → Result Unit × Table ApiKey
unfolding revoke
revoke_key now key_id t = revoke_found now key_id t (find_by_id key_id t)

-- `RotateKey` once the replacement was asked for.
abbrev pub revoke_old :
    ℕ → String → Result ApiKeyCreated × Table ApiKey → Result ApiKeyCreated × Table ApiKey
revoke_old now key_id (ok created, t) = (ok created, after t (revoke now key_id t))
revoke_old now key_id (fail e, t) = (fail "create replacement", t)
revoke_old now key_id (panicked, t) = (panicked, t)

module _ (hasher : Hasher) where
  abbrev pub rotate_found :
      Fresh → String → Table ApiKey → Option ApiKey → Result ApiKeyCreated × Table ApiKey
  rotate_found fresh key_id t none = (fail "API key not found", t)
  rotate_found fresh key_id t (some old) =
      if str_eq old.status "active"
      then revoke_old fresh.now key_id
          (create_key hasher fresh old.user_id old.name (some old.scopes) old.expires_at t)
      else (fail "cannot rotate revoked key", t)

  unfoldable pub rotate_key : Fresh → String → Table ApiKey → Result ApiKeyCreated × Table ApiKey
  unfolding create_key revoke
  rotate_key fresh key_id t = rotate_found fresh key_id t (find_by_id key_id t)
