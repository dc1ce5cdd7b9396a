-- ===== src/Tests/Keys.antt =====
-- gorouter/internal/apikeys and middleware/apikey.go: runs on small stores.
use yi_api_proxy.Base.{◌≤◌, ◌≢◌, refl, String, [], ◌∷◌, none, some, true, arith, map}
use yi_api_proxy.Base.Assoc.{lookup, values, insert}
use yi_api_proxy.Base.Text.{codes}
use yi_api_proxy.Db.Types.{ApiKey, User, ApiKeyValidation}
use yi_api_proxy.Db.Table.{Table, find_by_id, list, put}
use yi_api_proxy.Db.Kept.{KeptTable}
use yi_api_proxy.Db.ApiKeys.{revoke, update, count_by_user, find_active_by_prefix, find_by_user_id}
use yi_api_proxy.ApiKeys.Create.{Hasher, Fresh, create_key, verify_key}
use yi_api_proxy.ApiKeys.Service.{
  validate_key, validate_prefix, check_candidates, admit_key, revoke_key,
}
use yi_api_proxy.ApiKeys.Refused.{GrantedByStored, accepted_key_granted}
use yi_api_proxy.ApiKeys.Revoked.{revoked_key_refused}
use yi_api_proxy.ApiKeys.Slots.{ten_keys_at_most}

-- A hash that all keys share.
abbrev open_hasher : Hasher
open_hasher = record {
  normalize = λ key. key;
  generate = λ text. some "hash";
  compare = λ hash text. true;
}

abbrev pub key : String → ApiKey
key id = record {
  id = id;
  user_id = "u1";
  name = "laptop";
  key_prefix = codes "sk-gorouter-a1b2c3";
  key_hash = "hash";
  scopes = "chat" ∷ [];
  status = "active";
  expires_at = none;
  last_used_at = none;
  created_at = 1;
  revoked_at = none;
}

abbrev pub user : User
user = record {
  id = "u1";
  email = "u1@example.org";
  name = "u1";
  role = "user";
  status = "active";
  password_hash = "";
  created_by = none;
  created_at = 1;
  updated_at = 1;
  last_login_at = none;
}

abbrev pub users : Table User
users = some (("u1", user) ∷ [])

abbrev pub two_keys : Table ApiKey
two_keys = some (("k1", key "k1") ∷ ("k2", key "k2") ∷ [])

abbrev granted : String → ApiKeyValidation
granted key_id = record {
  user_id = "u1";
  user_role = "user";
  key_id = key_id;
  key_prefix = codes "sk-gorouter-a1b2c3";
  scopes = "chat" ∷ [];
}

pub two_keys-Kept : KeptTable (λ k. k.id) two_keys
unfolding lookup
two_keys-Kept = (refl, refl, (refl, refl, tt))

accepted_key_granted_example :
    GrantedByStored open_hasher 5 (codes "sk-gorouter-a1b2c3_00") users two_keys (granted "k1")
unfolding validate_key validate_prefix check_candidates admit_key find_active_by_prefix list values
    verify_key find_by_id lookup
accepted_key_granted_example =
    accepted_key_granted open_hasher 5 (codes "sk-gorouter-a1b2c3_00") users two_keys two_keys-Kept
      (granted "k1") refl

revoked_key_refused_example : (granted "k2").key_id ≢ "k1"
unfolding validate_key validate_prefix check_candidates admit_key find_active_by_prefix list values
    verify_key find_by_id lookup revoke_key revoke update put insert
revoked_key_refused_example =
    revoked_key_refused open_hasher 5 6 "k1" (codes "sk-gorouter-a1b2c3_00") users two_keys
      (granted "k2") two_keys-Kept refl

abbrev fresh : Fresh
fresh = record { uuid = "k3"; b = some (1 ∷ 2 ∷ 3 ∷ []); secret = some (7 ∷ []); now = 9 }

ten_keys_at_most_example :
    count_by_user "u1" (create_key open_hasher fresh "u1" "phone" none none two_keys).1 ≤ 10
unfolding find_by_id lookup count_by_user find_by_user_id list values
ten_keys_at_most_example =
    ten_keys_at_most open_hasher "u1" fresh "u1" "phone" none none two_keys refl (omega arith)

abbrev ten_keys : Table ApiKey
ten_keys = some (
    map (λ id. (id, key id))
      ("k0" ∷ "k1" ∷ "k2" ∷ "k3" ∷ "k4" ∷ "k5" ∷ "k6" ∷ "k7" ∷ "k8" ∷ "k9" ∷ []))

ten_keys-Kept : KeptTable (λ k. k.id) ten_keys
unfolding lookup
ten_keys-Kept = (
  refl,
  refl,
  (
    refl,
    refl,
    (
      refl,
      refl,
      (
        refl,
        refl,
        (refl, refl, (refl, refl, (refl, refl, (refl, refl, (refl, refl, (refl, refl, tt)))))),
      ),
    ),
  ),
)
