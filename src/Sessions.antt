-- ===== src/Sessions.antt =====
-- gorouter/internal/auth/jwt.go, gorouter/internal/auth/password.go and gorouter/internal/handlers/admin/auth.go:
-- tokens, passwords, `Login`, `Refresh` and `Register`, on the users of the JSON store. The libraries of JWT and
-- of bcrypt are records of functions; a text's bytes are those of an ASCII text.
pub mod Emails
pub mod Register
pub mod Login
use mathlib.Core.Option
use yi_api_proxy.Base.{
  ℕ, suc, ◌+◌, ◌-◌, ◌*◌, ◌<◌, String, str_eq, Bool, true, false, List, [], ◌∷◌, Option, none, some,
  if◌then◌else◌, ◌||◌, ◌&&◌, not, ltb, ◌==◌, ◌≡◌, length,
}
use yi_api_proxy.Base.Text.{codes}
use yi_api_proxy.Base.Assoc.{Assoc}
use yi_api_proxy.Db.Types.{User}
use yi_api_proxy.Db.Table.{Table, after, init}
use yi_api_proxy.Db.Users.{create, find_by_email, update_last_login}

-- Times are Unix seconds.
pub record Claims : Type 0 where
  pub user_id : String
  pub role : String
  pub email : String
  pub expires_at : ℕ
  pub issued_at : ℕ

pub data SigningMethod : Type 0 where
  hmac other_method : SigningMethod

-- The members of a `jwt.MapClaims`: a text, or none for any other value.
abbrev pub MapClaims : Type 0
MapClaims = Assoc (Option String)

-- `SignedString` of a token with HS256; `ParseWithClaims` for these claims, and `Parse`, whose claims are a `MapClaims`
-- or else none, both at a time and with a function for the key. They give the claims and whether the token is valid.
pub record Jwt : Type 0 where
  pub sign : Claims → String → Option String
  pub parse : ℕ → String → (SigningMethod → Option String) → Option (Claims × Bool)
  pub parse_map : ℕ → String → (SigningMethod → Option String) → Option (Option MapClaims × Bool)

-- `GenerateFromPassword` and `CompareHashAndPassword`
pub record Bcrypt : Type 0 where
  pub generate : String → Option String
  pub compare : String → String → Bool

-- What the libraries document: a signed token is valid under its key until it expires, and a generated
-- hash is that of its password.
pub record JwtLaw (jwt : Jwt) : Type 0 where
  pub parse-sign :
      (now : ℕ) (c : Claims) (secret token : String) (key : SigningMethod → Option String)
      → jwt.sign c secret ≡ some token
      → key hmac ≡ some secret
      → now < c.expires_at
      → jwt.parse now token key ≡ some (c, true)

pub record BcryptLaw (bcrypt : Bcrypt) : Type 0 where
  pub compare-generate :
      (password hash : String)
      → bcrypt.generate password ≡ some hash
      → bcrypt.compare hash password ≡ true

unfoldable pub generate_token : Jwt → ℕ → String → String → String → String → ℕ → Option String
generate_token jwt now user_id email role secret expiry =
    jwt.sign
      (record {
        user_id = user_id;
        role = role;
        email = email;
        expires_at = now + expiry;
        issued_at = now;
      })
      secret

-- The function for the key: an error for another method than HMAC.
abbrev pub key_for : String → SigningMethod → Option String
key_for secret hmac = some secret
key_for secret other_method = none

abbrev pub valid_claims : Option (Claims × Bool) → Option Claims
valid_claims none = none
valid_claims (some (claims, valid)) = if valid then some claims else none

unfoldable pub validate_token : Jwt → ℕ → String → String → Option Claims
validate_token jwt now token secret = valid_claims (jwt.parse now token (key_for secret))

unfoldable pub hash_password : Bcrypt → String → Option String
hash_password bcrypt password = bcrypt.generate password

unfoldable pub verify_password : Bcrypt → String → String → Bool
verify_password bcrypt password hash = bcrypt.compare hash password

pub record LoginRequest : Type 0 where
  pub email : String
  pub password : String

pub record RegisterRequest : Type 0 where
  pub email : String
  pub name : String
  pub password : String

-- A status with an error, or a token with its expiry and the user of a session.
pub data SessionReply : Type 0 where
  rejected : ℕ → String → SessionReply
  session : ℕ → String → ℕ → String → String → String → SessionReply
  refreshed : String → ℕ → SessionReply

abbrev pub day : ℕ
day = 86400

module _ (jwt : Jwt) (secret : String) (now : ℕ) where
  -- The answer with a fresh token; `status` is 200 or 201.
  abbrev pub with_token : ℕ → User → Option String → SessionReply
  with_token status user none = rejected 500 "failed to generate token"
  with_token status user (some token) =
      session status token (now + day) user.id user.email user.role

  unfoldable pub start_session : ℕ → User → SessionReply
  unfolding generate_token
  start_session status user =
      with_token status user (generate_token jwt now user.id user.email user.role secret day)

  abbrev pub with_new_token : Option String → SessionReply
  with_new_token none = rejected 500 "failed to generate token"
  with_new_token (some token) = refreshed token (now + day)

  unfoldable pub refresh_claims : Option Claims → SessionReply
  unfolding generate_token
  refresh_claims none = rejected 401 "invalid token"
  refresh_claims (some c) =
      with_new_token (generate_token jwt now c.user_id c.email c.role secret day)

  unfoldable pub refresh : Option String → SessionReply
  unfolding refresh_claims validate_token
  refresh none = rejected 400 "invalid JSON"
  refresh (some token) =
      if str_eq token ""
      then rejected 400 "token is required"
      else refresh_claims (validate_token jwt now token secret)

abbrev pub is_shut : User → Bool
is_shut user = str_eq user.status "suspended" || str_eq user.status "deleted"

module _ (bcrypt : Bcrypt) (jwt : Jwt) (secret : String) (now : ℕ) where
  unfoldable pub check_login : String → Table User → Option User → SessionReply × Table User
  unfolding verify_password start_session update_last_login
  check_login password t none = (rejected 401 "invalid credentials", t)
  check_login password t (some user) =
      if verify_password bcrypt password user.password_hash
      then (if is_shut user
          then (rejected 403 "account is suspended", t)
          else (start_session jwt secret now 200 user, after t (update_last_login now user.id t)))
      else (rejected 401 "invalid credentials", t)

  -- `none`: the body is not JSON of a request.
  unfoldable pub login : Option LoginRequest → Table User → SessionReply × Table User
  unfolding check_login find_by_email
  login none t = (rejected 400 "invalid JSON", t)
  login (some req) t =
      if str_eq req.email "" || str_eq req.password ""
      then (rejected 400 "email and password are required", t)
      else check_login req.password t (find_by_email req.email t)
