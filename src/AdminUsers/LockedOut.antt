-- ===== src/AdminUsers/LockedOut.antt =====
-- gorouter/internal/handlers/admin/users.go: on the JSON store, whom an administrator lists cannot log in any
-- more.
use yi_api_proxy.Base.{
  ℕ, String, str_eq, ◌≡◌, refl, true, false, [], ◌∷◌, Option, none, some, ◌⊎◌, inl, inr,
  if◌then◌else◌, ◌||◌, All, findb-All, arith, Bool-cases,
}
use yi_api_proxy.Base.Assoc.{Assoc, values}
use yi_api_proxy.Db.Types.{User}
use yi_api_proxy.Db.Table.{Table, list, map_values}
use yi_api_proxy.Db.Users.{UserFilter, has_email, is_listed, find_by_email}
use yi_api_proxy.Sessions.{Jwt, Bcrypt, LoginRequest, rejected, verify_password, check_login, login}
use yi_api_proxy.AdminUsers.{blank, list_handler}

abbrev pub everyone : UserFilter
everyone = record { role = ""; status = "" }

abbrev IsBlanked : User → Type 0
IsBlanked u = (str_eq u.status "deleted" ≡ true) ⊎ (u.password_hash ≡ "")

abbrev seen : User → User
seen u = if is_listed everyone u then blank u else u

seen-IsBlanked : (u : User) → IsBlanked (seen u)
seen-IsBlanked u = elim (Bool-cases (str_eq u.status "deleted")) [
  | inl gone ↦ inl (rw gone gone)
  | inr alive ↦ inr (rw alive refl)
]

All-IsBlanked : (m : Assoc User) → All IsBlanked (list (map_values seen (some m)))
unfolding list map_values values
All-IsBlanked [] = tt
All-IsBlanked ((key, u) ∷ m) = (seen-IsBlanked u, All-IsBlanked m)

found-blank :
    (email : String) (t : Table User) (u : User)
    → find_by_email email (list_handler everyone t).1 ≡ some u
    → u.password_hash ≡ ""
unfolding find_by_email list_handler list map_values
found-blank email none u e = absurd (clash e)
  where
    clash : none ≡ some u → ⊥
    clash h = cc
found-blank email (some m) u e =
    findb-All (has_email email) (λ v. v.password_hash ≡ "") IsBlanked
      (list (map_values seen (some m))) u
      (λ v h b. elim b [ inl gone ↦ absurd (contradiction v h gone) | inr clear ↦ clear ])
      (All-IsBlanked m) e
  where
    contradiction : (v : User) → has_email email v ≡ true → str_eq v.status "deleted" ≡ true → ⊥
    contradiction v h gone = ground arith

module _ (bcrypt : Bcrypt) (jwt : Jwt) (secret : String) (now : ℕ) where
  check_login-blank :
      (password : String) (t : Table User) (o : Option User)
      → ((p : String) → bcrypt.compare "" p ≡ false)
      → ((u : User) → o ≡ some u → u.password_hash ≡ "")
      → (check_login bcrypt jwt secret now password t o).0 ≡ rejected 401 "invalid credentials"
  unfolding check_login verify_password
  check_login-blank password t none no_hash h = refl
  check_login-blank password t (some u) no_hash h = rw (h u refl, no_hash password) refl

  -- On the JSON store, after `List` of the user handler without a filter, every `Login` that names an address and
  -- a password answers 401, whoever the user is, if bcrypt takes no password for the empty hash: the
  -- handler empties the stored hash of each user that it shows.
  pub login-list_handler :
      (req : LoginRequest) (t : Table User)
      → ((p : String) → bcrypt.compare "" p ≡ false)
      → (str_eq req.email "" || str_eq req.password "") ≡ false
      → (login bcrypt jwt secret now (some req) (list_handler everyone t).1).0
        ≡ rejected 401 "invalid credentials"
  unfolding login
  login-list_handler req t no_hash named = rw named (
      check_login-blank req.password (list_handler everyone t).1
        (find_by_email req.email (list_handler everyone t).1) no_hash (found-blank req.email t))
