-- ===== src/UserKeys.antt =====
-- gorouter/internal/handlers/user_keys.go: the handlers of one's own API keys, on the JSON store. The repository gives
-- pointers to the stored keys. `time.Parse` of the expiry is a parameter.
pub mod Blanked
pub mod Owned
use yi_api_proxy.Base.{
  ℕ, String, str_eq, Bool, true, false, List, Option, none, some, if◌then◌else◌, ◌&&◌, not, map,
  length,
}
use yi_api_proxy.Db.Types.{ApiKey, ApiKeyCreated}
use yi_api_proxy.Db.Table.{Table, find_by_id, map_values}
use yi_api_proxy.Db.ApiKeys.{find_by_user_id}
use yi_api_proxy.ApiKeys.Create.{Hasher, Result, ok, fail, panicked, Fresh, create_key}
use yi_api_proxy.ApiKeys.Service.{revoke_key}
use yi_api_proxy.UserCombos.{UserContext}

pub record CreateKeyRequest : Type 0 where
  pub name : String
  pub scopes : Option (List String)
  pub expires_at : String

pub data KeyReply : Type 0 where
  refused : ℕ → String → KeyReply
  shown_keys : List ApiKey → ℕ → KeyReply
  created : ApiKeyCreated → KeyReply
  revoked_key : KeyReply
  crashed : KeyReply

-- k.KeyHash = ""
abbrev pub blank_key : ApiKey → ApiKey
blank_key k = record k { key_hash = "" }

abbrev pub blank_own : String → ApiKey → ApiKey
blank_own user_id k = if str_eq k.user_id user_id then blank_key k else k

-- `claims`: what the context has of the user, none without it.
unfoldable pub list_own_keys : Option UserContext → Table ApiKey → KeyReply × Table ApiKey
unfolding find_by_user_id map_values
list_own_keys none t = (refused 401 "unauthorized", t)
list_own_keys (some claims) t = (
  shown_keys (map blank_key (find_by_user_id claims.user_id t))
      (length (find_by_user_id claims.user_id t)),
  map_values (blank_own claims.user_id) t,
)

abbrev pub created_reply : Result ApiKeyCreated × Table ApiKey → KeyReply × Table ApiKey
created_reply (ok key, t) = (created key, t)
created_reply (fail message, t) = (refused 400 message, t)
created_reply (panicked, t) = (crashed, t)

abbrev pub name_or_default : String → String
name_or_default name = if str_eq name "" then "api-key" else name

module _ (hasher : Hasher) (fresh : Fresh) (parse_time : String → Option ℕ) where
  unfoldable pub create_expiring :
      UserContext → CreateKeyRequest → Table ApiKey → Option ℕ → KeyReply × Table ApiKey
  unfolding create_key
  create_expiring claims req t expires_at =
      created_reply
        (create_key hasher fresh claims.user_id (name_or_default req.name) req.scopes expires_at t)

  unfoldable pub create_parsed :
      UserContext → CreateKeyRequest → Table ApiKey → Option ℕ → KeyReply × Table ApiKey
  unfolding create_expiring
  create_parsed claims req t none = (refused 400 "invalid expires_at format, use RFC3339", t)
  create_parsed claims req t (some time) = create_expiring claims req t (some time)

  -- `body` is none for a body that is not JSON of a request.
  unfoldable pub create_own_key :
      Option UserContext → Option CreateKeyRequest → Table ApiKey → KeyReply × Table ApiKey
  unfolding create_parsed create_expiring
  create_own_key none body t = (refused 401 "unauthorized", t)
  create_own_key (some claims) none t = (refused 400 "invalid request body", t)
  create_own_key (some claims) (some req) t =
      if str_eq req.expires_at ""
      then create_expiring claims req t none
      else create_parsed claims req t (parse_time req.expires_at)

abbrev pub revoked_reply : Result Unit × Table ApiKey → KeyReply × Table ApiKey
revoked_reply (ok done, t) = (revoked_key, t)
revoked_reply (fail message, t) = (refused 400 message, t)
revoked_reply (panicked, t) = (crashed, t)

unfoldable pub revoke_owned :
    ℕ → UserContext → String → Table ApiKey → Option ApiKey → KeyReply × Table ApiKey
unfolding revoke_key
revoke_owned now claims key_id t none = (refused 404 "API key not found", t)
revoke_owned now claims key_id t (some key) =
    if not (str_eq key.user_id claims.user_id) && not (str_eq claims.role "admin")
    then (refused 403 "cannot revoke key owned by another user", t)
    else revoked_reply (revoke_key now key_id t)

unfoldable pub revoke_own_key :
    ℕ → Option UserContext → String → Table ApiKey → KeyReply × Table ApiKey
unfolding revoke_owned
revoke_own_key now none key_id t = (refused 401 "unauthorized", t)
revoke_own_key now (some claims) key_id t = revoke_owned now claims key_id t (find_by_id key_id t)
