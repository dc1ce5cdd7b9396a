-- ===== src/Db/Providers.antt =====
-- gorouter/internal/db/dbmanager.go: `jsonProviderRepo`. `now` is the clock of the call.
pub mod Laws
use yi_api_proxy.Base.{
  ℕ, String, str_eq, eq_iff, eq_refl, ◌≡◌, refl, Option, none, some, Bool, true, false, List, [],
  ◌∷◌, filterb, if◌then◌else◌, arith,
}
use yi_api_proxy.Base.Int.{ℤ, pos}
use yi_api_proxy.Db.Types.{ProviderConnection}
use yi_api_proxy.Db.Table
use yi_api_proxy.Db.Table.{
  Table, Write, stored, panic, find_by_id, put, init, delete, list, find-put, after,
}

abbrev pub with_tier : ProviderConnection → ProviderConnection
with_tier conn = if str_eq conn.tier "" then record conn { tier = "subscription" } else conn

unfoldable pub create : ℕ → ProviderConnection → Table ProviderConnection → Write ProviderConnection
create now conn t =
    put conn.id (with_tier (record conn { created_at = now; updated_at = now })) (init t)

unfoldable pub update : ℕ → ProviderConnection → Table ProviderConnection → Write ProviderConnection
update now conn t = put conn.id (with_tier (record conn { updated_at = now })) t

unfoldable pub find_by_provider : String → Table ProviderConnection → List ProviderConnection
find_by_provider provider t = filterb (λ p. str_eq p.provider provider) (list t)

-- `if conn == nil { return nil }`, and otherwise an update of the connection.
abbrev pub update_found :
    (ProviderConnection → ProviderConnection)
    → ℕ
    → Table ProviderConnection
    → Option ProviderConnection
    → Write ProviderConnection
update_found f now t none = stored t
update_found f now t (some conn) = update now (f conn) t

abbrev pub cooled_down : ℕ → ℕ → String → ProviderConnection → ProviderConnection
cooled_down now until message conn = record conn {
  status = "cooldown";
  cooldown_until = some until;
  last_error = message;
  last_error_at = some now;
}

abbrev pub cleared : ProviderConnection → ProviderConnection
cleared conn = record conn {
  status = "active";
  cooldown_until = none;
  last_error = "";
  last_error_at = none;
  backoff_level = pos 0;
}

unfoldable pub mark_cooldown :
    ℕ → String → ℕ → String → Table ProviderConnection → Write ProviderConnection
unfolding update
mark_cooldown now id until message t =
    update_found (cooled_down now until message) now t (find_by_id id t)

unfoldable pub clear_cooldown : ℕ → String → Table ProviderConnection → Write ProviderConnection
unfolding update
clear_cooldown now id t = update_found cleared now t (find_by_id id t)

unfoldable pub update_status :
    ℕ → String → String → Table ProviderConnection → Write ProviderConnection
unfolding update
update_status now id status t =
    update_found (λ conn. record conn { status = status; updated_at = now }) now t (find_by_id id t)
