-- ===== src/Health/Rounds.antt =====
-- gorouter/internal/provider/health.go: what a round of checks leaves of the connections that it does not
-- look at.
use yi_api_proxy.Base.{
  ℕ, String, str_eq, eq_iff, ◌≡◌, refl, ◌∙◌, Option, none, some, false, List, [], ◌∷◌, arith, All,
  Bool-cases, inl, inr,
}
use yi_api_proxy.Base.Assoc.{lookup-insert}
use yi_api_proxy.Db.Types.{ProviderConnection}
use yi_api_proxy.Db.Table.{Table, find_by_id, put, after}
use yi_api_proxy.Db.Providers.{update, mark_cooldown, cooled_down, update_found}
use yi_api_proxy.Db.Providers.Laws.{IsKeyed, stamped}
use yi_api_proxy.Db.Kept.{KeptTable, insert-Kept, stored_id}
use yi_api_proxy.Health.{
  Probe, Verdict, failure, success, verdict_of, succeeded, failed_once, record_verdict, probe_url,
  write_verdict, check_provider, check_all,
}

abbrev pub connection_key : ProviderConnection → String
connection_key p = p.id

-- A map as the repository keeps it: each connection once, under its own id.
abbrev pub IsKept : Table ProviderConnection → Type 0
IsKept t = KeptTable connection_key t

pub kept-IsKeyed : (t : Table ProviderConnection) → IsKept t → IsKeyed t
unfolding find_by_id
kept-IsKeyed none k = record { key = λ id p e. cc }
kept-IsKeyed (some m) k = record {
  key = λ id p e. (eq_iff p.id id).1 (stored_id connection_key id p m k e);
}

update-IsKept :
    (now : ℕ) (p : ProviderConnection) (t : Table ProviderConnection)
    → IsKept t
    → IsKept (after t (update now p t))
unfolding update put
update-IsKept now p none k = tt
update-IsKept now p (some m) k =
    insert-Kept connection_key p.id (stamped now p) m (id-stamped now p) k
  where
    id-stamped : (time : ℕ) (q : ProviderConnection) → (stamped time q).id ≡ q.id
    id-stamped time q = ground arith

pub mark_cooldown-IsKept :
    (now until : ℕ) (id message : String) (t : Table ProviderConnection)
    → IsKept t
    → IsKept (after t (mark_cooldown now id until message t))
unfolding mark_cooldown
mark_cooldown-IsKept now until id message t k = found (find_by_id id t)
  where
    found :
        (o : Option ProviderConnection)
        → IsKept (after t (update_found (cooled_down now until message) now t o))
    found none = k
    found (some p) = update-IsKept now (cooled_down now until message p) t k

-- A write of `update` under another id.
find-update :
    (now : ℕ) (id : String) (p : ProviderConnection) (t : Table ProviderConnection)
    → str_eq p.id id ≡ false
    → find_by_id id (after t (update now p t)) ≡ find_by_id id t
unfolding update put
find-update now id p none e = refl
find-update now id p (some m) e =
    unfold find_by_id in rw (lookup-insert p.id id (stamped now p) m, e)

id-record_verdict :
    (now : ℕ) (v : Verdict) (p : ProviderConnection) → (record_verdict now v p).id ≡ p.id
unfolding record_verdict succeeded failed_once
id-record_verdict now (failure m) p = ground arith
id-record_verdict now (success l) p = ground arith

-- `check_provider` on a connection with another id.
find-write_verdict :
    (now : ℕ) (id : String) (v : Verdict) (t : Table ProviderConnection)
    (o : Option ProviderConnection)
    → ((q : ProviderConnection) → o ≡ some q → str_eq q.id id ≡ false)
    → find_by_id id (after t (write_verdict now v t o)) ≡ find_by_id id t
unfolding write_verdict
find-write_verdict now id v t none e = refl
find-write_verdict now id v t (some q) e =
    find-update now id (record_verdict now v q) t (rw (id-record_verdict now v q) (e q refl))

write_verdict-IsKept :
    (now : ℕ) (v : Verdict) (t : Table ProviderConnection) (o : Option ProviderConnection)
    → IsKept t
    → IsKept (after t (write_verdict now v t o))
unfolding write_verdict
write_verdict-IsKept now v t none k = k
write_verdict-IsKept now v t (some q) k = update-IsKept now (record_verdict now v q) t k

module _ (now : ℕ) (probe : Probe) (q : ProviderConnection) (t : Table ProviderConnection)
    (k : IsKept t) where
  pub check_provider-IsKept : IsKept (after t (check_provider now probe q t))
  unfolding check_provider
  check_provider-IsKept = elim (Bool-cases (str_eq (probe_url q) "")) [
    | inl e ↦ rw e k
    | inr e ↦ rw e (write_verdict-IsKept now (verdict_of probe) t (find_by_id q.id t) k)
  ]

  found_elsewhere :
      (id : String)
      → str_eq q.id id ≡ false
      → (r : ProviderConnection) → find_by_id q.id t ≡ some r
      → str_eq r.id id ≡ false
  found_elsewhere id other r e = rw ((eq_iff r.id q.id).0 ((kept-IsKeyed t k).key q.id r e)) other

  find-check_provider :
      (id : String)
      → str_eq q.id id ≡ false
      → find_by_id id (after t (check_provider now probe q t)) ≡ find_by_id id t
  unfolding check_provider
  find-check_provider id other = elim (Bool-cases (str_eq (probe_url q) "")) [
    | inl e ↦ rw e refl
    | inr e ↦ rw e (
        find-write_verdict now id (verdict_of probe) t (find_by_id q.id t)
          (found_elsewhere id other))
  ]

-- Not the connection with this id.
abbrev pub Elsewhere : String → ProviderConnection → Type 0
Elsewhere id q = str_eq q.id id ≡ false

pub check_all-IsKept :
    (probes : ProviderConnection → ℕ × Probe) (ps : List ProviderConnection)
    (t : Table ProviderConnection)
    → IsKept t
    → IsKept (check_all probes ps t)
unfolding check_all
check_all-IsKept probes [] t k = k
check_all-IsKept probes (q ∷ qs) t k =
    check_all-IsKept probes qs (after t (check_provider (probes q).0 (probes q).1 q t))
      (check_provider-IsKept (probes q).0 (probes q).1 q t k)

pub find-check_all :
    (id : String) (probes : ProviderConnection → ℕ × Probe) (ps : List ProviderConnection)
    (t : Table ProviderConnection)
    → IsKept t
    → All (Elsewhere id) ps
    → find_by_id id (check_all probes ps t) ≡ find_by_id id t
unfolding check_all
find-check_all id probes [] t k a = refl
find-check_all id probes (q ∷ qs) t k a =
    find-check_all id probes qs (after t (check_provider (probes q).0 (probes q).1 q t))
      (check_provider-IsKept (probes q).0 (probes q).1 q t k) a.1
    ∙ find-check_provider (probes q).0 (probes q).1 q t k id a.0
