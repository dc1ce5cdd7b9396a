-- ===== src/Retention/Kept.antt =====
-- gorouter/internal/db/cleanup.go: what `runCleanup` keeps.
use yi_api_proxy.Base.{
  ℕ, ◌+◌, ◌*◌, ◌/◌, ◌≤◌, ◌≡◌, refl, ap, ◌∙◌, Bool, true, false, List, [], ◌∷◌, filterb, not, leb,
  arith, Bool-cases, inl, inr,
}
use yi_api_proxy.Base.Int.{ℤ, pos, ltb_ℤ}
use yi_api_proxy.Db.Types.{UsageEvent, AuditLog}
use yi_api_proxy.Db.Table.{Table, list}
use yi_api_proxy.Db.Events.{is_old, delete_older_than_lem}
use yi_api_proxy.Retention.{
  default_retention_policy, is_enabled, days_long, cutoff_at, cleanup_one, run_cleanup,
}

days_long_lem : (days : ℕ) → days ≤ 106751 → days_long (pos days) ≡ pos (86400000000000 * days)
days_long_lem days h = ground arith

-- Not older than that many days, to the second.
abbrev pub is_kept : ℕ → ℕ → ℕ → Bool
is_kept now days created_at = leb (now / 1000000000) (created_at + 86400 * days)

is_kept_lem :
    (now days created : ℕ)
    → not (ltb_ℤ (pos created) (cutoff_at now (pos (86400000000000 * days))))
      ≡ is_kept now days created
is_kept_lem now days created = ground arith

filterb_same :
    {V : Type 0} (f g : V → Bool)
    → ((v : V) → f v ≡ g v)
    → (vs : List V) → filterb f vs ≡ filterb g vs
filterb_same f g h [] = refl
filterb_same f g h (v ∷ vs) = elim (Bool-cases (g v)) [
  | inl e ↦ rw (h v, e) (ap (λ ws. v ∷ ws) (filterb_same f g h vs))
  | inr e ↦ rw (h v, e) (filterb_same f g h vs)
]

module _ {V : Type 0} (created_at : V → ℕ) (now days : ℕ) (t : Table V) (some_days : 1 ≤ days)
    (fits : days ≤ 106751) where
  list-cleanup_one :
      list (cleanup_one created_at now (days_long (pos days)) t)
      ≡ filterb (λ v. is_kept now days (created_at v)) (list t)
  unfolding cleanup_one
  list-cleanup_one =
      let positive : ltb_ℤ (pos 0) (pos (86400000000000 * days)) ≡ true = ground arith in
      let cutoff = cutoff_at now (pos (86400000000000 * days)) in
      rw (days_long_lem days fits, positive)
        ((delete_older_than_lem created_at cutoff t).0
          ∙ filterb_same (λ v. not (is_old created_at cutoff v))
              (λ v. is_kept now days (created_at v)) (λ v. is_kept_lem now days (created_at v))
              (list t))

-- With retentions of 1 to 106751 days, which is as far as a `time.Duration` goes, the cleanup is started, and each
-- run of it keeps exactly the usage events and the audit logs that are not older than their number of days,
-- to the second, in their order; the number of days of the request logs plays no part.
pub run_cleanup_lem :
    (now usage_days audit_days : ℕ) (request_days : ℤ) (events : Table UsageEvent)
    (logs : Table AuditLog)
    → 1 ≤ usage_days
    → usage_days ≤ 106751
    → 1 ≤ audit_days
    → audit_days ≤ 106751
    → (is_enabled (default_retention_policy (pos usage_days) request_days (pos audit_days)) ≡ true)
      × (list
            (run_cleanup now
              (default_retention_policy (pos usage_days) request_days (pos audit_days))
              (events, logs)).0
          ≡ filterb (λ e. is_kept now usage_days e.created_at) (list events))
      × (list
            (run_cleanup now
              (default_retention_policy (pos usage_days) request_days (pos audit_days))
              (events, logs)).1
          ≡ filterb (λ l. is_kept now audit_days l.created_at) (list logs))
unfolding is_enabled default_retention_policy run_cleanup
run_cleanup_lem now usage_days audit_days request_days events logs u u' a a' = (
  (let late : leb (86400000000000 * usage_days + 0) 0 ≡ false = ground arith in
      rw (days_long_lem usage_days u', late) refl),
  list-cleanup_one (λ e. e.created_at) now usage_days events u u',
  list-cleanup_one (λ l. l.created_at) now audit_days logs a a',
)
