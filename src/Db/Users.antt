-- ===== src/Db/Users.antt =====
-- gorouter/internal/db/dbmanager.go: `jsonUserRepo`. `now` is the clock of the call.
pub mod Deleted
use yi_api_proxy.Base.{
  ℕ, String, str_eq, Bool, true, false, Option, none, some, List, [], ◌∷◌, filterb, findb, countb,
  if◌then◌else◌, ◌&&◌, ◌||◌, not,
}
use yi_api_proxy.Db.Types.{User}
use yi_api_proxy.Db.Table.{Table, Write, stored, panic, find_by_id, put, init, list}

pub record UserFilter : Type 0 where
  pub role : String
  pub status : String

unfoldable pub create : ℕ → User → Table User → Write User
create now user t = put user.id (record user { created_at = now; updated_at = now }) (init t)

abbrev pub has_email : String → User → Bool
has_email email u = str_eq u.email email && not (str_eq u.status "deleted")

unfoldable pub find_by_email : String → Table User → Option User
find_by_email email t = findb (has_email email) (list t)

-- The three `continue`s of the loop of `List`.
abbrev pub is_listed : UserFilter → User → Bool
is_listed filter u =
    not (str_eq u.status "deleted")
    && (str_eq filter.role "" || str_eq u.role filter.role)
    && (str_eq filter.status "" || str_eq u.status filter.status)

unfoldable pub list_users : UserFilter → Table User → List User
list_users filter t = filterb (is_listed filter) (list t)

unfoldable pub update : ℕ → User → Table User → Write User
update now user t = put user.id (record user { updated_at = now }) (init t)

-- `if user == nil { return err }`, and otherwise an update of the user.
abbrev pub update_found : (User → User) → ℕ → Table User → Option User → Write User
update_found f now t none = stored t
update_found f now t (some user) = update now (f user) t

unfoldable pub update_status : ℕ → String → String → Table User → Write User
unfolding update
update_status now id status t =
    update_found (λ u. record u { status = status }) now t (find_by_id id t)

unfoldable pub update_password : ℕ → String → String → Table User → Write User
unfolding update
update_password now id hash t =
    update_found (λ u. record u { password_hash = hash }) now t (find_by_id id t)

unfoldable pub update_last_login : ℕ → String → Table User → Write User
unfolding update
update_last_login now id t =
    update_found (λ u. record u { last_login_at = some now }) now t (find_by_id id t)

-- `Delete` keeps the entry and marks it.
unfoldable pub delete_user : ℕ → String → Table User → Write User
unfolding update_status
delete_user now id t = update_status now id "deleted" t

unfoldable pub count_active_admins : Table User → ℕ
count_active_admins t = countb (λ u. str_eq u.role "admin" && str_eq u.status "active") (list t)
