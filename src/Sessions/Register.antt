-- ===== src/Sessions/Register.antt =====
-- gorouter/internal/handlers/admin/auth.go: `Register`. `id` is what `generateUserID` gives.
use yi_api_proxy.Base.{ℕ, String, str_eq, Option, none, some, if◌then◌else◌, ◌||◌, not, ltb, length}
use yi_api_proxy.Base.Text.{codes}
use yi_api_proxy.Db.Types.{User}
use yi_api_proxy.Db.Table.{Table, after, init}
use yi_api_proxy.Db.Users.{create, find_by_email}
use yi_api_proxy.Sessions.{
  Jwt, Bcrypt, RegisterRequest, SessionReply, rejected, hash_password, start_session,
}
use yi_api_proxy.Sessions.Emails.{is_valid_email}

abbrev pub registered_user : String → RegisterRequest → String → User
registered_user id req hash = record {
  id = id;
  email = req.email;
  name = req.name;
  role = "user";
  status = "active";
  password_hash = hash;
  created_by = some id;
  created_at = 0;
  updated_at = 0;
  last_login_at = none;
}

-- The guards before the look-up, in their order; none for a request that passes them.
unfoldable pub register_guard : RegisterRequest → Option String
unfolding is_valid_email
register_guard req =
    if str_eq req.email "" || (str_eq req.name "" || str_eq req.password "")
    then some "email, name, and password are required"
    else if not (is_valid_email (codes req.email))
    then some "invalid email format"
    else if ltb (length (codes req.password)) 8
    then some "password must be at least 8 characters"
    else none

module _ (jwt : Jwt) (secret : String) (now : ℕ) (id : String) where
  unfoldable pub store_registered :
      RegisterRequest → Table User → Option String → SessionReply × Table User
  unfolding start_session create
  store_registered req t none = (rejected 500 "failed to hash password", t)
  store_registered req t (some hash) =
      let user = registered_user id req hash in
      (start_session jwt secret now 201 user, after (init t) (create now user t))

module _ (bcrypt : Bcrypt) (jwt : Jwt) (secret : String) (now : ℕ) (id : String) where
  unfoldable pub register_new :
      RegisterRequest → Table User → Option User → SessionReply × Table User
  unfolding store_registered hash_password
  register_new req t (some user) = (rejected 409 "email already registered", t)
  register_new req t none =
      store_registered jwt secret now id req t (hash_password bcrypt req.password)

  unfoldable pub guarded : RegisterRequest → Table User → Option String → SessionReply × Table User
  unfolding register_new find_by_email
  guarded req t (some message) = (rejected 400 message, t)
  guarded req t none = register_new req t (find_by_email req.email t)

  -- `none`: the body is not JSON of a request.
  unfoldable pub register : Option RegisterRequest → Table User → SessionReply × Table User
  unfolding guarded register_guard
  register none t = (rejected 400 "invalid JSON", t)
  register (some req) t = guarded req t (register_guard req)
