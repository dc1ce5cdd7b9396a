-- ===== src/AdminUsers/UniqueEmails.antt =====
-- gorouter/internal/handlers/admin/users.go and gorouter/internal/handlers/admin/auth.go: an address belongs to
-- one user at most.
use yi_api_proxy.Base.{
  ℕ, ◌≤◌, String, str_eq, eq_iff, eq_refl, ◌≡◌, refl, sym, ap, ◌∙◌, false, [], ◌∷◌, Option, none,
  some, inl, inr, countb, arith, Bool-cases,
}
use yi_api_proxy.Base.Assoc.{Assoc, insert, values}
use yi_api_proxy.Db.Types.{User}
use yi_api_proxy.Db.Table.{Table, list, init, put, after}
use yi_api_proxy.Db.Unique.{countb-insert, countb-none}
use yi_api_proxy.Db.Users.{has_email, find_by_email, create}
use yi_api_proxy.Sessions.{Jwt, Bcrypt, RegisterRequest, hash_password}
use yi_api_proxy.Sessions.Register.{
  registered_user, register_guard, store_registered, register_new, guarded, register,
}
use yi_api_proxy.AdminUsers.{
  CreateUserRequest, blank, blank_at, new_user, create_hashed, create_checked, create_handler,
}

-- No two users that are not deleted have the same address.
abbrev pub HasUniqueEmails : Table User → Type 0
HasUniqueEmails t = (email : String) → countb (has_email email) (list t) ≤ 1

insert-insert :
    (key : String) (u v : User) (m : Assoc User) → insert key v (insert key u m) ≡ insert key v m
unfolding insert
insert-insert key u v [] = rw (eq_refl key) refl
insert-insert key u v ((k, w) ∷ m) = elim (Bool-cases (str_eq k key)) [
  | inl same ↦ rw (same, eq_refl key) refl
  | inr other ↦ rw (other, other) (ap (λ n. (k, w) ∷ n) (insert-insert key u v m))
]

-- A user whose address nobody has is put under an id, in the place of another or as a new one.
insert-HasUniqueEmails :
    (key : String) (u : User) (m : Assoc User)
    → HasUniqueEmails (some m)
    → find_by_email u.email (some m) ≡ none
    → HasUniqueEmails (some (insert key u m))
unfolding find_by_email list
insert-HasUniqueEmails key u m h e email = elim (Bool-cases (str_eq u.email email)) [
  | inl same ↦
      let own : countb (has_email email) (values m) ≡ 0 =
        ap (λ a. countb (has_email a) (values m)) (sym ((eq_iff u.email email).0 same))
        ∙ countb-none (has_email u.email) (values m) e in
      ground (arith, countb-insert (has_email email) key u m, own)
  | inr other ↦
      let unseen : has_email email u ≡ false = rw other refl in
      ground (arith, countb-insert (has_email email) key u m, h email, unseen)
]

init_lem :
    (email : String) (t : Table User)
    → HasUniqueEmails t
    → find_by_email email t ≡ none
    → (m : Assoc User) × (init t ≡ some m)
      × HasUniqueEmails (some m)
      × (find_by_email email (some m) ≡ none)
unfolding init find_by_email list values
init_lem email none h e = ([], refl, λ a. omega arith, refl)
init_lem email (some m) h e = (m, refl, h, e)

create-HasUniqueEmails :
    (now : ℕ) (u : User) (t : Table User)
    → HasUniqueEmails t
    → find_by_email u.email t ≡ none
    → HasUniqueEmails (after (init t) (create now u t))
unfolding create put
create-HasUniqueEmails now u t h e =
    let i = init_lem u.email t h e in
    rw i.1
      (insert-HasUniqueEmails u.id (record u { created_at = now; updated_at = now }) i.0 i.2 i.3)

blanked-HasUniqueEmails :
    (now : ℕ) (u : User) (t : Table User)
    → HasUniqueEmails t
    → find_by_email u.email t ≡ none
    → HasUniqueEmails (blank_at u.id u (after (init t) (create now u t)))
unfolding create put
blanked-HasUniqueEmails now u t h e =
    let i = init_lem u.email t h e in
    let once = insert-insert u.id (record u { created_at = now; updated_at = now }) (blank u) i.0 in
    rw (i.1, once) (insert-HasUniqueEmails u.id (blank u) i.0 i.2 i.3)

module _ (bcrypt : Bcrypt) (now : ℕ) (id : String) (t : Table User) (h : HasUniqueEmails t) where
  create_hashed-HasUniqueEmails :
      (req : CreateUserRequest) (hash : Option String)
      → find_by_email req.email t ≡ none
      → HasUniqueEmails (create_hashed bcrypt now id req t hash).1
  unfolding create_hashed
  create_hashed-HasUniqueEmails req none e = h
  create_hashed-HasUniqueEmails req (some hash) e =
      blanked-HasUniqueEmails now (new_user now id req hash) t h e

  create_checked-HasUniqueEmails :
      (req : CreateUserRequest) (found : Option User)
      → find_by_email req.email t ≡ found
      → HasUniqueEmails (create_checked bcrypt now id req t found).1
  unfolding create_checked
  create_checked-HasUniqueEmails req none e =
      create_hashed-HasUniqueEmails req (hash_password bcrypt req.password) e
  create_checked-HasUniqueEmails req (some u) e = h

  create_handler-HasUniqueEmails :
      (body : Option CreateUserRequest) → HasUniqueEmails (create_handler bcrypt now id body t).1
  unfolding create_handler
  create_handler-HasUniqueEmails none = h
  create_handler-HasUniqueEmails (some req) = elim (Bool-cases (str_eq req.email "")) [
    | inl e ↦ rw e h
    | inr e ↦ elim (Bool-cases (str_eq req.password "")) [
      | inl f ↦ rw (e, f) h
      | inr f ↦ rw (e, f) (create_checked-HasUniqueEmails req (find_by_email req.email t) refl)
    ]
  ]

  module _ (jwt : Jwt) (secret : String) where
    store_registered-HasUniqueEmails :
        (req : RegisterRequest) (hash : Option String)
        → find_by_email req.email t ≡ none
        → HasUniqueEmails (store_registered jwt secret now id req t hash).1
    unfolding store_registered
    store_registered-HasUniqueEmails req none e = h
    store_registered-HasUniqueEmails req (some hash) e =
        create-HasUniqueEmails now (registered_user id req hash) t h e

    register_new-HasUniqueEmails :
        (req : RegisterRequest) (found : Option User)
        → find_by_email req.email t ≡ found
        → HasUniqueEmails (register_new bcrypt jwt secret now id req t found).1
    unfolding register_new
    register_new-HasUniqueEmails req none e =
        store_registered-HasUniqueEmails req (hash_password bcrypt req.password) e
    register_new-HasUniqueEmails req (some u) e = h

    guarded-HasUniqueEmails :
        (req : RegisterRequest) (message : Option String)
        → HasUniqueEmails (guarded bcrypt jwt secret now id req t message).1
    unfolding guarded
    guarded-HasUniqueEmails req none =
        register_new-HasUniqueEmails req (find_by_email req.email t) refl
    guarded-HasUniqueEmails req (some message) = h

    register-HasUniqueEmails :
        (body : Option RegisterRequest)
        → HasUniqueEmails (register bcrypt jwt secret now id body t).1
    unfolding register
    register-HasUniqueEmails none = h
    register-HasUniqueEmails (some req) = guarded-HasUniqueEmails req (register_guard req)

    -- If no two users that are not deleted have the same address, then this still holds after every request to
    -- `Register` and every request of an administrator to `Create`, whatever its answer, also
    -- where the new id is one that the store has already.
    pub new_users_keep_emails_unique :
        (request : Option RegisterRequest) (body : Option CreateUserRequest)
        → HasUniqueEmails (register bcrypt jwt secret now id request t).1
          × HasUniqueEmails (create_handler bcrypt now id body t).1
    new_users_keep_emails_unique request body =
        (register-HasUniqueEmails request, create_handler-HasUniqueEmails body)
