-- ===== src/Tests/Guarded.antt =====
-- gorouter/internal/middleware/auth.go and gorouter/internal/handlers/user_keys.go: runs with one token and two keys.
use yi_api_proxy.Base.{◌≡◌, refl, str_eq, some, none, [], ◌∷◌, true, false}
use yi_api_proxy.Base.Text.{codes}
use yi_api_proxy.Base.Assoc.{lookup}
use yi_api_proxy.Db.Table.{find_by_id}
use yi_api_proxy.Db.Kept.{KeptTable}
use yi_api_proxy.Db.Users.Deleted.{user_key}
use yi_api_proxy.ApiKeys.Create.{Hasher}
use yi_api_proxy.ApiKeys.Service.{validate_key}
use yi_api_proxy.UserCombos.{UserContext}
use yi_api_proxy.Sessions.{Jwt}
use yi_api_proxy.Guards.{
  admin_route, admin_route_lem, IsDecided, passed, token_value, require_auth, require_admin,
  admit_token, then_admin,
}
use yi_api_proxy.UserKeys.{list_own_keys, revoke_own_key}
use yi_api_proxy.UserKeys.Blanked.{IsNotOf, validate_key-list_own_keys}
use yi_api_proxy.UserKeys.Owned.{IsHandled, revoke_own_key_lem}
use yi_api_proxy.Tests.Keys.{users, two_keys, two_keys-Kept, key}

-- A library that takes every token for one of an administrator, whose id is a number.
abbrev open_jwt : Jwt
open_jwt = record {
  sign = λ c secret. some "t";
  parse = λ now token get_key. none;
  parse_map =
      λ now token get_key. some (some (("user_id", none) ∷ ("role", some "admin") ∷ []), true);
}

abbrev admin : UserContext
admin = record { user_id = "u1"; email = ""; role = "admin" }

admin_route_lem_example :
    IsDecided open_jwt 5 "s" (some "t") (admin_route open_jwt 5 "s" "Bearer t" none)
unfolding token_value
admin_route_lem_example = admin_route_lem open_jwt 5 "s" "Bearer t" none

numbered_admin :
    admin_route open_jwt 5 "s" "Bearer t" none
    ≡ passed (record { user_id = ""; email = ""; role = "admin" })
unfolding admin_route require_auth then_admin require_admin admit_token token_value lookup
numbered_admin = refl

-- A hash that fits each key, where there is one.
abbrev hasher : Hasher
hasher = record {
  normalize = λ k. k;
  generate = λ text. some "hash";
  compare = λ hash text. str_eq hash "hash";
}

users-Kept : KeptTable user_key users
unfolding lookup
users-Kept = (refl, refl, tt)

validate_key-list_own_keys_example :
    IsNotOf "u1"
      (validate_key hasher 5
        (codes "sk-gorouter-a1b2c3_00")
        users
        (list_own_keys (some admin) two_keys).1).0
validate_key-list_own_keys_example =
    validate_key-list_own_keys hasher 5 (codes "sk-gorouter-a1b2c3_00") users users-Kept "u1"
      (λ bytes. refl) admin two_keys refl

revoke_own_key_lem_example :
    IsHandled false 5 "k1"
      (key "k1")
      "k2"
      two_keys
      (revoke_own_key 5 (some (record { user_id = "u2"; email = ""; role = "user" })) "k1" two_keys)
unfolding find_by_id lookup
revoke_own_key_lem_example =
    revoke_own_key_lem 5 "k1" (key "k1") "k2" (record { user_id = "u2"; email = ""; role = "user" })
      two_keys two_keys-Kept refl
