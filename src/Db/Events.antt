-- ===== src/Db/Events.antt =====
-- gorouter/internal/db/dbmanager.go: `jsonUsageRepo` and `jsonAuditRepo`, whose `DeleteOlderThan` is the same on
-- both. `now` is the clock of the call.
use yi_api_proxy.Base.{
  ℕ, String, str_eq, ◌≡◌, refl, ap, Bool, none, some, List, [], ◌∷◌, filterb, countb, ◌+◌, length,
  not, Bool-cases, inl, inr, if◌then◌else◌,
}
use yi_api_proxy.Base.Int.{ℤ, pos, ltb_ℤ}
use yi_api_proxy.Base.Assoc.{Assoc, values}
use yi_api_proxy.Db.Types.{UsageEvent, AuditLog}
use yi_api_proxy.Db.Table.{Table, Write, put, init, list}

module _ {V : Type 0} (created_at : V → ℕ) where
  -- ue.CreatedAt.Unix() < cutoff
  abbrev pub is_old : ℤ → V → Bool
  is_old cutoff v = ltb_ℤ (pos (created_at v)) cutoff

  -- The number of deleted entries, and the table without them.
  unfoldable pub delete_older_than : ℤ → Table V → ℕ × Table V
  delete_older_than cutoff none = (0, none)
  delete_older_than cutoff (some m) =
      (countb (λ e. is_old cutoff e.1) m, some (filterb (λ e. not (is_old cutoff e.1)) m))

  kept_values :
      (cutoff : ℤ) (m : Assoc V)
      → values (filterb (λ e. not (is_old cutoff e.1)) m)
        ≡ filterb (λ v. not (is_old cutoff v)) (values m)
  unfolding values
  kept_values cutoff [] = refl
  kept_values cutoff ((key, v) ∷ m) = elim (Bool-cases (is_old cutoff v)) [
    | inl e ↦ rw e (kept_values cutoff m)
    | inr e ↦ rw e (ap (λ vs. v ∷ vs) (kept_values cutoff m))
  ]

  counted :
      (cutoff : ℤ) (m : Assoc V)
      → countb (λ e. is_old cutoff e.1) m ≡ countb (is_old cutoff) (values m)
  unfolding values
  counted cutoff [] = refl
  counted cutoff ((key, v) ∷ m) =
      ap (λ n. (if is_old cutoff v then 1 else 0) + n) (counted cutoff m)

  -- `DeleteOlderThan` keeps exactly the entries that are not older than the cut-off, in their order, and
  -- returns the number of the others.
  pub delete_older_than_lem :
      (cutoff : ℤ) (t : Table V)
      → (list (delete_older_than cutoff t).1 ≡ filterb (λ v. not (is_old cutoff v)) (list t))
        × ((delete_older_than cutoff t).0 ≡ countb (is_old cutoff) (list t))
  unfolding delete_older_than list
  delete_older_than_lem cutoff none = (refl, refl)
  delete_older_than_lem cutoff (some m) = (kept_values cutoff m, counted cutoff m)

unfoldable pub create_usage : ℕ → UsageEvent → Table UsageEvent → Write UsageEvent
create_usage now e t = put e.id (record e { created_at = now }) (init t)

-- `FindByUserID`, which does not use its limit.
unfoldable pub usage_of : String → ℕ → Table UsageEvent → List UsageEvent
usage_of user_id limit t = filterb (λ e. str_eq e.user_id user_id) (list t)

-- `FindByDateRange`, which does not use its range.
unfoldable pub usage_between : String → ℤ → ℤ → Table UsageEvent → List UsageEvent
unfolding usage_of
usage_between user_id from to t = usage_of user_id 0 t

unfoldable pub create_audit : ℕ → AuditLog → Table AuditLog → Write AuditLog
create_audit now l t = put l.id (record l { created_at = now }) (init t)

-- `List`, which does not use its filter; its total is the number of all entries.
unfoldable pub list_audit : Table AuditLog → List AuditLog × ℕ
list_audit t = (list t, length (list t))
