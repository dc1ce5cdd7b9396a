-- ===== src/Db/Providers/Laws.antt =====
-- gorouter/internal/db/dbmanager.go: `jsonProviderRepo` keeps each connection under its own id, and its
-- cooldown methods change the one connection that they name.
use yi_api_proxy.Base.{
  ℕ, String, str_eq, eq_iff, ◌≡◌, refl, ◌∙◌, Option, none, some, true, if◌then◌else◌, arith, inl,
  inr, Bool-cases,
}
use yi_api_proxy.Base.Assoc.{lookup}
use yi_api_proxy.Db.Types.{ProviderConnection}
use yi_api_proxy.Db.Table.{
  Table, find_by_id, put, init, delete, find-put, find-delete, after, put-none,
}
use yi_api_proxy.Db.Providers.{
  with_tier, create, update, update_found, cooled_down, cleared, mark_cooldown, clear_cooldown,
  update_status,
}

-- Each connection stands under its own id.
pub record IsKeyed (t : Table ProviderConnection) : Type 0 where
  pub key :
      (id : String) (p : ProviderConnection) → find_by_id id t ≡ some p → str_eq p.id id ≡ true

id-with_tier : (p : ProviderConnection) → (with_tier p).id ≡ p.id
id-with_tier p = ground arith

put-IsKeyed :
    (id : String) (p : ProviderConnection) (t : Table ProviderConnection)
    → p.id ≡ id
    → IsKeyed t
    → IsKeyed (after t (put id p t))
put-IsKeyed id p none e k = rw (put-none id p) k
put-IsKeyed id p (some m) e k = record {
  key = λ j q h. elim (Bool-cases (str_eq id j)) [
    | inl hit ↦
        let found : some p ≡ some q = rw (find-put id j p m, hit) at h in
        ground (arith, eq_iff id j, eq_iff q.id j)
    | inr miss ↦ k.key j q (rw (find-put id j p m, miss) at h)
  ];
}

delete-IsKeyed : (id : String) (t : Table ProviderConnection) → IsKeyed t → IsKeyed (delete id t)
delete-IsKeyed id t k = record {
  key = λ j q h. elim (Bool-cases (str_eq id j)) [
    | inl hit ↦ let gone : none ≡ some q = rw (find-delete id j t, hit) at h in cc
    | inr miss ↦ k.key j q (rw (find-delete id j t, miss) at h)
  ];
}

init-IsKeyed : (t : Table ProviderConnection) → IsKeyed t → IsKeyed (init t)
unfolding init find_by_id lookup
init-IsKeyed none k = record { key = λ j q h. cc }
init-IsKeyed (some m) k = k

-- An update of the connection that was found.
pub update_found-IsKeyed :
    (f : ProviderConnection → ProviderConnection) (now : ℕ) (t : Table ProviderConnection)
    (o : Option ProviderConnection)
    → ((p : ProviderConnection) → (f p).id ≡ p.id)
    → IsKeyed t
    → IsKeyed (after t (update_found f now t o))
unfolding update
update_found-IsKeyed f now t none e k = k
update_found-IsKeyed f now t (some p) e k =
    put-IsKeyed (f p).id _ t (id-with_tier (record (f p) { updated_at = now })) k

-- Every write of the repository keeps each connection under its own id.
pub writes_keep_keys :
    (now until : ℕ) (id message status : String) (p : ProviderConnection)
    (t : Table ProviderConnection)
    → IsKeyed t
    → IsKeyed (after (init t) (create now p t))
      × IsKeyed (after t (update now p t))
      × IsKeyed (delete id t)
      × IsKeyed (after t (mark_cooldown now id until message t))
      × IsKeyed (after t (clear_cooldown now id t))
      × IsKeyed (after t (update_status now id status t))
unfolding create update mark_cooldown clear_cooldown update_status
writes_keep_keys now until id message status p t k = (
  put-IsKeyed p.id _ (init t) (id-with_tier (record p { created_at = now; updated_at = now }))
      (init-IsKeyed t k),
  put-IsKeyed p.id _ t (id-with_tier (record p { updated_at = now })) k,
  delete-IsKeyed id t k,
  update_found-IsKeyed (cooled_down now until message) now t (find_by_id id t) (λ q. refl) k,
  update_found-IsKeyed cleared now t (find_by_id id t) (λ q. refl) k,
  update_found-IsKeyed (λ q. record q { status = status; updated_at = now }) now t (find_by_id id t)
      (λ q. refl) k,
)

-- The stored form of a connection.
abbrev pub stamped : ℕ → ProviderConnection → ProviderConnection
stamped now p = with_tier (record p { updated_at = now })

find-put_at :
    (id j : String) (p q : ProviderConnection) (t : Table ProviderConnection)
    → find_by_id id t ≡ some p
    → find_by_id j (after t (put id q t)) ≡ (if str_eq id j then some q else find_by_id j t)
find-put_at id j p q none e = absurd (missing id e)
  where
    missing : (i : String) → find_by_id i none ≡ some p → ⊥
    missing i h = unfold find_by_id in cc
find-put_at id j p q (some m) e = find-put id j q m

find-put_key :
    (key id j : String) (p q : ProviderConnection) (t : Table ProviderConnection)
    → key ≡ id
    → find_by_id id t ≡ some p
    → find_by_id j (after t (put key q t)) ≡ (if str_eq id j then some q else find_by_id j t)
find-put_key key id j p q t same e = rw same (find-put_at id j p q t e)

-- A method that updates the connection which it finds under an id changes that connection and no other.
pub find-update_found :
    (f : ProviderConnection → ProviderConnection) (now : ℕ) (id j : String) (p : ProviderConnection)
    (t : Table ProviderConnection)
    → ((q : ProviderConnection) → (f q).id ≡ q.id)
    → IsKeyed t
    → find_by_id id t ≡ some p
    → find_by_id j (after t (update_found f now t (find_by_id id t)))
      ≡ (if str_eq id j then some (stamped now (f p)) else find_by_id j t)
unfolding update
find-update_found f now id j p t same k e = rw e (
    find-put_key (f p).id id j p (stamped now (f p)) t (same p ∙ (eq_iff p.id id).0 (k.key id p e))
      e)

module _ (now until : ℕ) (id message : String) (t : Table ProviderConnection) (k : IsKeyed t) where
  pub find-mark_cooldown :
      (j : String) (p : ProviderConnection)
      → find_by_id id t ≡ some p
      → find_by_id j (after t (mark_cooldown now id until message t)) ≡ (
          if str_eq id j
          then some (stamped now (cooled_down now until message p))
          else find_by_id j t)
  unfolding mark_cooldown
  find-mark_cooldown j p e =
      find-update_found (cooled_down now until message) now id j p t (λ q. refl) k e

  pub find-clear_cooldown :
      (j : String) (p : ProviderConnection)
      → find_by_id id t ≡ some p
      → find_by_id j (after t (clear_cooldown now id t))
        ≡ (if str_eq id j then some (stamped now (cleared p)) else find_by_id j t)
  unfolding clear_cooldown
  find-clear_cooldown j p e = find-update_found cleared now id j p t (λ q. refl) k e
