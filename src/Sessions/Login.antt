-- ===== src/Sessions/Login.antt =====
-- gorouter/internal/handlers/admin/auth.go: who registers can log in.
use yi_api_proxy.Base.{
  ℕ, ◌+◌, ◌<◌, String, str_eq, eq_refl, ◌≡◌, refl, ap, ◌∙◌, Bool, true, false, [], ◌∷◌, Option,
  none, some, ◌||◌, findb, arith, Bool-cases, inl, inr,
}
use yi_api_proxy.Base.Assoc.{Assoc, insert, values}
use yi_api_proxy.Db.Types.{User}
use yi_api_proxy.Db.Table.{Table, after, init, put, list}
use yi_api_proxy.Db.Users.{create, has_email, find_by_email, update_last_login}
use yi_api_proxy.Sessions.{
  Jwt, JwtLaw, Bcrypt, BcryptLaw, RegisterRequest, SessionReply, rejected, session, refreshed, day,
  key_for, generate_token, validate_token, hash_password, verify_password, start_session,
  check_login, login,
}
use yi_api_proxy.Sessions.Register.{
  registered_user, register_guard, store_registered, register_new, guarded, register,
}

-- A value that passes a test which no value of the map passes is the one that is found when it is in.
findb-insert_first :
    (f : User → Bool) (key : String) (u : User) (m : Assoc User)
    → findb f (values m) ≡ none
    → f u ≡ true
    → findb f (values (insert key u m)) ≡ some u
unfolding values insert
findb-insert_first f key u [] e h = rw h refl
findb-insert_first f key u ((k, v) ∷ m) e h = elim (Bool-cases (f v)) [
  | inl hit ↦ absurd (clash (rw hit at e))
  | inr miss ↦ elim (Bool-cases (str_eq k key)) [
    | inl same ↦ rw (same, h) refl
    | inr other ↦ rw (other, miss) (findb-insert_first f key u m (rw miss at e) h)
  ]
]
  where
    clash : some v ≡ none → ⊥
    clash c = cc

register_guard-none :
    (req : RegisterRequest)
    → register_guard req ≡ none
    → (str_eq req.email "" || str_eq req.password "") ≡ false
unfolding register_guard
register_guard-none req e = ground arith

abbrev stored_user : ℕ → String → RegisterRequest → String → User
stored_user now id req hash = record (registered_user id req hash) {
  created_at = now;
  updated_at = now;
}

find-registered :
    (now : ℕ) (id hash : String) (req : RegisterRequest) (t : Table User)
    → find_by_email req.email t ≡ none
    → find_by_email req.email (after (init t) (create now (registered_user id req hash) t))
      ≡ some (stored_user now id req hash)
unfolding find_by_email create init put list values insert
find-registered now id hash req none e = rw (eq_refl req.email) refl
find-registered now id hash req (some m) e =
    findb-insert_first (has_email req.email) id (stored_user now id req hash) m e
      (rw (eq_refl req.email) refl)

-- An answer with a session.
abbrev pub IsSession : SessionReply → Type 0
IsSession (rejected status message) = ⊥
IsSession (session status token expires_at id email role) = Unit
IsSession (refreshed token expires_at) = ⊥

module _ (bcrypt : Bcrypt) (jwt : Jwt) (secret : String) (blaw : BcryptLaw bcrypt)
    (jlaw : JwtLaw jwt) (now later : ℕ) (id : String) (req : RegisterRequest) (t : Table User) where
  -- What a registration that answers with a session went through.
  record Registered (out : SessionReply × Table User) : Type 0 where
    pub hash : String
    pub guard : register_guard req ≡ none
    pub fresh : find_by_email req.email t ≡ none
    pub hashed : hash_password bcrypt req.password ≡ some hash
    pub left : out.1 ≡ after (init t) (create now (registered_user id req hash) t)

  store_registered_lem :
      (hash : Option String)
      → register_guard req ≡ none
      → find_by_email req.email t ≡ none
      → hash_password bcrypt req.password ≡ hash
      → IsSession (store_registered jwt secret now id req t hash).0
      → Registered (store_registered jwt secret now id req t hash)
  unfolding store_registered
  store_registered_lem none g f h s = absurd s
  store_registered_lem (some hash) g f h s = record {
    hash = hash;
    guard = g;
    fresh = f;
    hashed = h;
    left = refl;
  }

  register_new_lem :
      (found : Option User)
      → register_guard req ≡ none
      → find_by_email req.email t ≡ found
      → IsSession (register_new bcrypt jwt secret now id req t found).0
      → Registered (register_new bcrypt jwt secret now id req t found)
  unfolding register_new
  register_new_lem (some user) g f s = absurd s
  register_new_lem none g f s = store_registered_lem (hash_password bcrypt req.password) g f refl s

  guarded_lem :
      (guard : Option String)
      → register_guard req ≡ guard
      → IsSession (guarded bcrypt jwt secret now id req t guard).0
      → Registered (guarded bcrypt jwt secret now id req t guard)
  unfolding guarded
  guarded_lem (some message) g s = absurd s
  guarded_lem none g s = register_new_lem (find_by_email req.email t) g refl s

  register_lem :
      IsSession (register bcrypt jwt secret now id (some req) t).0
      → Registered (register bcrypt jwt secret now id (some req) t)
  unfolding register
  register_lem s = guarded_lem (register_guard req) refl s

  check_login-stored :
      (hash token : String) (users : Table User)
      → bcrypt.compare hash req.password ≡ true
      → generate_token jwt later id req.email "user" secret day ≡ some token
      → check_login bcrypt jwt secret later req.password users (some (stored_user now id req hash))
        ≡ (
          session 200 token (later + day) id req.email "user",
          after users (update_last_login later id users),
        )
  unfolding check_login verify_password start_session
  check_login-stored hash token users c g = rw (c, g) refl

  login_found :
      (hash token : String) (users : Table User)
      → register_guard req ≡ none
      → find_by_email req.email users ≡ some (stored_user now id req hash)
      → bcrypt.compare hash req.password ≡ true
      → generate_token jwt later id req.email "user" secret day ≡ some token
      → (login bcrypt jwt secret later
          (some (record { email = req.email; password = req.password }))
          users).0
        ≡ session 200 token (later + day) id req.email "user"
  unfolding login
  login_found hash token users g f c s =
      rw (register_guard-none req g, f) (ap (λ o. o.0) (check_login-stored hash token users c s))

  token_lem :
      (any : ℕ) (token : String)
      → generate_token jwt later id req.email "user" secret day ≡ some token
      → any < later + day
      → validate_token jwt any token secret
        ≡ some (record {
          user_id = id;
          role = "user";
          email = req.email;
          expires_at = later + day;
          issued_at = later;
        })
  unfolding validate_token generate_token
  token_lem any token g h = rw (jlaw.parse-sign any _ secret token (key_for secret) g refl h) refl

  -- Who registers can log in: if `Register` answers with a session, then on the users that it left a `Login`
  -- with the same address and password, where a token is signed, answers 200 with that token for the
  -- registered id and the role `user`; and at every time before the token expires, `ValidateToken`
  -- gives back this id, this role and this address.
  pub login-register :
      (any : ℕ) (token : String)
      → IsSession (register bcrypt jwt secret now id (some req) t).0
      → generate_token jwt later id req.email "user" secret day ≡ some token
      → any < later + day
      → ((login bcrypt jwt secret later
            (some (record { email = req.email; password = req.password }))
            (register bcrypt jwt secret now id (some req) t).1).0
          ≡ session 200 token (later + day) id req.email "user")
        × (validate_token jwt any token secret
            ≡ some (record {
              user_id = id;
              role = "user";
              email = req.email;
              expires_at = later + day;
              issued_at = later;
            }))
  unfolding hash_password
  login-register any token s g h =
      let r = register_lem s in
      let found : find_by_email req.email (register bcrypt jwt secret now id (some req) t).1
          ≡ some (stored_user now id req r.hash) =
        ap (find_by_email req.email) r.left ∙ find-registered now id r.hash req t r.fresh in
      (
        login_found r.hash token (register bcrypt jwt secret now id (some req) t).1 r.guard found
            (blaw.compare-generate req.password r.hash r.hashed) g,
        token_lem any token g h,
      )
