-- ===== src/AdminUsers.antt =====
-- gorouter/internal/handlers/admin/users.go: `UserHandler`, on the users of the JSON store. A repository gives
-- pointers to the stored users, so a field that a handler sets is set in the store at once. `now` is the clock of
-- the call; the audit log is left out.
pub mod LockedOut
pub mod UniqueEmails
use yi_api_proxy.Base.{
  ℕ, String, str_eq, Bool, true, false, List, Option, none, some, if◌then◌else◌, ◌||◌, not, map,
  length,
}
use yi_api_proxy.Db.Types.{User}
use yi_api_proxy.Db.Table.{Table, after, init, put, find_by_id, map_values}
use yi_api_proxy.Db.Users.{
  UserFilter, is_listed, list_users, find_by_email, create, update, update_status, delete_user,
}
use yi_api_proxy.Sessions.{Bcrypt, hash_password}

pub record CreateUserRequest : Type 0 where
  pub email : String
  pub name : String
  pub password : String
  pub role : String

-- The update of a user has the same fields; an empty one is left as it is.
abbrev pub UpdateUserRequest : Type 0
UpdateUserRequest = CreateUserRequest

pub data UserReply : Type 0 where
  refused : ℕ → String → UserReply
  shown : ℕ → User → UserReply
  shown_all : List User → ℕ → UserReply
  removed : UserReply

-- user.PasswordHash = ""
abbrev pub blank : User → User
blank u = record u { password_hash = "" }

-- The same on the stored user of that id.
abbrev pub blank_at : String → User → Table User → Table User
blank_at id u t = after t (put id (blank u) t)

unfoldable pub list_handler : UserFilter → Table User → UserReply × Table User
unfolding list_users map_values
list_handler filter t = (
  shown_all (map blank (list_users filter t)) (length (list_users filter t)),
  map_values (λ u. if is_listed filter u then blank u else u) t,
)

abbrev get_found : String → Table User → Option User → UserReply × Table User
get_found id t none = (refused 404 "user not found", t)
get_found id t (some u) = (shown 200 (blank u), blank_at id u t)

unfoldable pub get_handler : String → Table User → UserReply × Table User
get_handler id t = get_found id t (find_by_id id t)

abbrev pub new_user : ℕ → String → CreateUserRequest → String → User
new_user now id req hash = record {
  id = id;
  email = req.email;
  name = req.name;
  role = if str_eq req.role "admin" then "admin" else "user";
  status = "active";
  password_hash = hash;
  created_by = none;
  created_at = now;
  updated_at = now;
  last_login_at = none;
}

module _ (bcrypt : Bcrypt) (now : ℕ) where
  unfoldable pub create_hashed :
      String → CreateUserRequest → Table User → Option String → UserReply × Table User
  unfolding create
  create_hashed id req t none = (refused 500 "failed to hash password", t)
  create_hashed id req t (some hash) =
      let user = new_user now id req hash in
      (shown 201 (blank user), blank_at id user (after (init t) (create now user t)))

  unfoldable pub create_checked :
      String → CreateUserRequest → Table User → Option User → UserReply × Table User
  unfolding create_hashed hash_password
  create_checked id req t (some user) = (refused 409 "email already exists", t)
  create_checked id req t none = create_hashed id req t (hash_password bcrypt req.password)

  -- `id` is the new UUID; `none`: the body is not JSON of a request.
  unfoldable pub create_handler :
      String → Option CreateUserRequest → Table User → UserReply × Table User
  unfolding create_checked find_by_email
  create_handler id none t = (refused 400 "invalid JSON", t)
  create_handler id (some req) t =
      if str_eq req.email ""
      then (refused 400 "email is required", t)
      else if str_eq req.password ""
      then (refused 400 "password is required", t)
      else create_checked id req t (find_by_email req.email t)

  abbrev pub or_old : String → String → String
  or_old s old = if str_eq s "" then old else s

  -- The three assignments before that of the password.
  abbrev pub changed : UpdateUserRequest → User → User
  changed req u = record u {
    email = or_old req.email u.email;
    name = or_old req.name u.name;
    role = or_old req.role u.role;
  }

  unfoldable pub save_changed : String → User → Table User → UserReply × Table User
  unfolding update
  save_changed id u t = (
    shown 200 (blank (record u { updated_at = now })),
    blank_at id (record u { updated_at = now }) (after (init t) (update now u t)),
  )

  -- Where the new password cannot be hashed, the other fields have been set already.
  unfoldable pub change_password :
      String → User → Table User → Option String → UserReply × Table User
  unfolding save_changed
  change_password id u t none = (refused 500 "failed to hash password", after t (put id u t))
  change_password id u t (some hash) = save_changed id (record u { password_hash = hash }) t

  unfoldable pub update_found :
      String → Option UpdateUserRequest → Table User → Option User → UserReply × Table User
  unfolding change_password save_changed hash_password
  update_found id body t none = (refused 404 "user not found", t)
  update_found id none t (some u) = (refused 400 "invalid JSON", t)
  update_found id (some req) t (some u) =
      if str_eq req.password ""
      then save_changed id (changed req u) t
      else change_password id (changed req u) t (hash_password bcrypt req.password)

  unfoldable pub update_handler :
      String → Option UpdateUserRequest → Table User → UserReply × Table User
  unfolding update_found
  update_handler id body t = update_found id body t (find_by_id id t)

module _ (now : ℕ) where
  unfoldable pub delete_found : String → Table User → Option User → UserReply × Table User
  unfolding delete_user
  delete_found id t none = (refused 404 "user not found", t)
  delete_found id t (some u) = (removed, after t (delete_user now id t))

  unfoldable pub delete_handler : String → Table User → UserReply × Table User
  unfolding delete_found
  delete_handler id t = delete_found id t (find_by_id id t)

  unfoldable pub status_found :
      String → Option String → Table User → Option User → UserReply × Table User
  unfolding update_status
  status_found id body t none = (refused 404 "user not found", t)
  status_found id none t (some u) = (refused 400 "invalid JSON", t)
  status_found id (some status) t (some u) =
      if str_eq status "active" || str_eq status "suspended"
      then (
        shown 200 (blank (record u { status = status; updated_at = now })),
        blank_at id (record u { status = status; updated_at = now })
            (after t (update_status now id status t)),
      )
      else (refused 400 "status must be 'active' or 'suspended'", t)

  -- `none`: the body is not JSON of a request.
  unfoldable pub update_status_handler :
      String → Option String → Table User → UserReply × Table User
  unfolding status_found
  update_status_handler id body t = status_found id body t (find_by_id id t)
