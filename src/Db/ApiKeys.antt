-- ===== src/Db/ApiKeys.antt =====
-- gorouter/internal/db/dbmanager.go: `jsonApiKeyRepo`. `now` is the clock of the call.
use yi_api_proxy.Base.{
  ℕ, String, str_eq, Bool, Option, none, some, List, filterb, length, if◌then◌else◌, ◌&&◌,
}
use yi_api_proxy.Base.Text.{bytes_eq}
use yi_api_proxy.Db.Types.{ApiKey}
use yi_api_proxy.Db.Table.{Table, Write, stored, find_by_id, put, init, list, map_values}

unfoldable pub create : ℕ → ApiKey → Table ApiKey → Write ApiKey
create now key t = put key.id (record key { created_at = now }) (init t)

unfoldable pub find_by_prefix : List ℕ → Table ApiKey → List ApiKey
find_by_prefix prefix t = filterb (λ k. bytes_eq k.key_prefix prefix) (list t)

abbrev pub is_active_at : List ℕ → ApiKey → Bool
is_active_at prefix k = bytes_eq k.key_prefix prefix && str_eq k.status "active"

unfoldable pub find_active_by_prefix : List ℕ → Table ApiKey → List ApiKey
find_active_by_prefix prefix t = filterb (is_active_at prefix) (list t)

unfoldable pub find_by_user_id : String → Table ApiKey → List ApiKey
find_by_user_id user_id t = filterb (λ k. str_eq k.user_id user_id) (list t)

unfoldable pub update : ApiKey → Table ApiKey → Write ApiKey
update key t = put key.id key t

-- `if key == nil { return nil }`, and otherwise an update of the key.
abbrev pub update_found : (ApiKey → ApiKey) → Table ApiKey → Option ApiKey → Write ApiKey
update_found f t none = stored t
update_found f t (some key) = update (f key) t

abbrev pub revoked : ℕ → ApiKey → ApiKey
revoked now key = record key { status = "revoked"; revoked_at = some now }

unfoldable pub update_last_used : ℕ → String → Table ApiKey → Write ApiKey
unfolding update
update_last_used now id t =
    update_found (λ key. record key { last_used_at = some now }) t (find_by_id id t)

unfoldable pub revoke : ℕ → String → Table ApiKey → Write ApiKey
unfolding update
revoke now id t = update_found (revoked now) t (find_by_id id t)

-- The loop writes through the pointers that the map holds.
unfoldable pub revoke_all_for_user : ℕ → String → Table ApiKey → Table ApiKey
revoke_all_for_user now user_id t =
    map_values
      (λ k. if str_eq k.user_id user_id && str_eq k.status "active" then revoked now k else k) t

unfoldable pub count_by_user : String → Table ApiKey → ℕ
unfolding find_by_user_id
count_by_user user_id t = length (find_by_user_id user_id t)
