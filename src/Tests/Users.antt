-- ===== src/Tests/Users.antt =====
-- gorouter/internal/handlers/admin/auth.go and gorouter/internal/handlers/admin/users.go: runs on a store with one
-- user.
use yi_api_proxy.Base.{
  ℕ, ◌<◌, ◌≡◌, refl, ap, String, str_eq, eq_iff, eq_refl, [], ◌∷◌, Option, none, some, Bool, true,
  false, arith, ◌==◌, if◌then◌else◌, ◌&&◌, ltb, Bool-cases, inl, inr,
}
use yi_api_proxy.Base.Text.{codes}
use yi_api_proxy.Base.Assoc.{values}
use yi_api_proxy.Db.Types.{User}
use yi_api_proxy.Db.Table.{Table, list}
use yi_api_proxy.Db.Users.{find_by_email}
use yi_api_proxy.Sessions.{
  Claims, SigningMethod, hmac, Jwt, JwtLaw, Bcrypt, BcryptLaw, RegisterRequest, rejected, session,
  generate_token, validate_token, login, hash_password, start_session,
}
use yi_api_proxy.Sessions.Emails.{is_valid_email, split_at, is_address, is_valid_email_lem, scan}
use yi_api_proxy.Sessions.Register.{
  register, register_guard, guarded, register_new, store_registered,
}
use yi_api_proxy.Sessions.Login.{IsSession, login-register}
use yi_api_proxy.AdminUsers.{create_handler, list_handler}
use yi_api_proxy.AdminUsers.LockedOut.{everyone, login-list_handler}
use yi_api_proxy.AdminUsers.UniqueEmails.{HasUniqueEmails, new_users_keep_emails_unique}

-- The hash is the password after one character.
abbrev is_hash_of : String → String → Bool
is_hash_of String.[] password = false
is_hash_of (String.◌∷◌ c s) password = str_eq s password

abbrev marked : String → String → String
marked String.[] password = password
marked (String.◌∷◌ c s) password = String.◌∷◌ c password

abbrev bcrypt : Bcrypt
bcrypt = record { generate = λ password. some (marked "$" password); compare = is_hash_of }

bcrypt_law : BcryptLaw bcrypt
bcrypt_law = record { compare-generate = λ password hash h. made password hash h }
  where
    text_or : Option String → String
    text_or none = ""
    text_or (some s) = s

    made :
        (password hash : String)
        → some (marked "$" password) ≡ some hash
        → is_hash_of hash password ≡ true
    made password hash h = rw (← ap text_or h) (eq_refl password)

-- The claims of the one token that is signed.
abbrev claims : Claims
claims = record {
  user_id = "u7";
  role = "user";
  email = "a@b.c";
  expires_at = 86500;
  issued_at = 100;
}

abbrev is_claims : Claims → Bool
is_claims c =
    str_eq c.user_id "u7"
    && (str_eq c.role "user"
        && (str_eq c.email "a@b.c" && (c.expires_at == 86500 && c.issued_at == 100)))

abbrev read_token : ℕ → Option String → Option (Claims × Bool)
read_token now none = none
read_token now (some key) = if str_eq key "s" && ltb now 86500 then some (claims, true) else none

abbrev pub jwt : Jwt
jwt = record {
  sign = λ c secret. if is_claims c && str_eq secret "s" then some "token" else none;
  parse = λ now token key. if str_eq token "token" then read_token now (key hmac) else none;
  parse_map = λ now token key. none;
}

is_claims_lem : (c : Claims) → is_claims c ≡ true → c ≡ claims
is_claims_lem c h =
    ground (arith, eq_iff c.user_id "u7", eq_iff c.role "user", eq_iff c.email "a@b.c")

pub jwt_law : JwtLaw jwt
jwt_law = record { parse-sign = λ now c secret token key h k e. valid now c secret token key h k e }
  where
    text_or : Option String → String
    text_or none = ""
    text_or (some s) = s

    clash : {A : Type 0} {a : A} → ◌≡◌ {A = Option A} none (some a) → ⊥
    clash h = cc

    signed_as :
        (now : ℕ) (c : Claims) (secret token : String) (key : SigningMethod → Option String)
        → is_claims c ≡ true
        → str_eq secret "s" ≡ true
        → some "token" ≡ some token
        → key hmac ≡ some secret
        → now < c.expires_at
        → jwt.parse now token key ≡ some (c, true)
    signed_as now c secret token key same own h k e =
        let early : ltb now 86500 ≡ true =
          ground (arith, ap (λ d. d.expires_at) (is_claims_lem c same)) in
        rw (← ap text_or h, k, own, early, is_claims_lem c same) refl

    valid :
        (now : ℕ) (c : Claims) (secret token : String) (key : SigningMethod → Option String)
        → jwt.sign c secret ≡ some token
        → key hmac ≡ some secret
        → now < c.expires_at
        → jwt.parse now token key ≡ some (c, true)
    valid now c secret token key h k e = elim (Bool-cases (is_claims c)) [
      | inr other ↦ absurd (clash (rw other at h))
      | inl same ↦ elim (Bool-cases (str_eq secret "s")) [
        | inr foreign ↦ absurd (clash (rw (same, foreign) at h))
        | inl own ↦ signed_as now c secret token key same own (rw (same, own) at h) k e
      ]
    ]

abbrev ann : RegisterRequest
ann = record { email = "a@b.c"; name = "Ann"; password = "longenough" }

ann_registers : IsSession (register bcrypt jwt "s" 100 "u7" (some ann) none).0
unfolding register register_guard guarded register_new store_registered start_session generate_token
    hash_password is_valid_email scan find_by_email list
ann_registers = tt

login-register_example :
    ((login bcrypt jwt "s" 100
        (some (record { email = "a@b.c"; password = "longenough" }))
        (register bcrypt jwt "s" 100 "u7" (some ann) none).1).0
      ≡ session 200 "token" 86500 "u7" "a@b.c" "user")
    × (validate_token jwt 4000 "token" "s" ≡ some claims)
unfolding generate_token
login-register_example =
    login-register bcrypt jwt "s" bcrypt_law jwt_law 100 100 "u7" ann none 4000 "token"
      ann_registers refl (omega arith)

abbrev users : Table User
users = some (
    (
      "u1",
      record {
        id = "u1";
        email = "a@b.c";
        name = "Ann";
        role = "admin";
        status = "active";
        password_hash = "$longenough";
        created_by = none;
        created_at = 1;
        updated_at = 1;
        last_login_at = none;
      },
    )
    ∷ [])

login-list_handler_example :
    (login bcrypt jwt "s" 100
      (some (record { email = "a@b.c"; password = "longenough" }))
      (list_handler everyone users).1).0
    ≡ rejected 401 "invalid credentials"
login-list_handler_example =
    login-list_handler bcrypt jwt "s" 100 (record { email = "a@b.c"; password = "longenough" })
      users (λ p. refl) refl

users-HasUniqueEmails : HasUniqueEmails users
unfolding list values
users-HasUniqueEmails email = ground arith

new_users_keep_emails_unique_example :
    HasUniqueEmails (register bcrypt jwt "s" 100 "u7" (some ann) users).1
    × HasUniqueEmails
        (create_handler bcrypt 100 "u7"
          (some (record { email = "b@b.c"; name = "Bob"; password = "secret"; role = "admin" }))
          users).1
new_users_keep_emails_unique_example =
    new_users_keep_emails_unique bcrypt 100 "u7" users users-HasUniqueEmails jwt "s" (some ann)
      (some (record { email = "b@b.c"; name = "Bob"; password = "secret"; role = "admin" }))

is_valid_email_lem_example :
    is_valid_email (codes "a@b.c") ≡ (if true then is_address (split_at (codes "a@b.c")) else false)
is_valid_email_lem_example = is_valid_email_lem (codes "a@b.c")
