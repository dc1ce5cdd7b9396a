-- ===== src/Retention.antt =====
-- gorouter/internal/db/cleanup.go: what is deleted after its retention, on the events and the audit log of the
-- JSON store. A `time.Duration` is a whole number of nanoseconds in 64 bits, and `now` is a time in nanoseconds.
pub mod Kept
use yi_api_proxy.Base.{ℕ, ◌+◌, ◌-◌, ◌*◌, ◌/◌, ◌%◌, Bool, true, false, if◌then◌else◌, ◌&&◌, ltb}
use yi_api_proxy.Base.Int.{ℤ, pos, negsuc, ◌-ℤ◌, ltb_ℤ, leb_ℤ}
use yi_api_proxy.Db.Types.{UsageEvent, AuditLog}
use yi_api_proxy.Db.Table.{Table}
use yi_api_proxy.Db.Events.{delete_older_than}

pub record RetentionPolicy : Type 0 where
  pub cleanup_interval : ℤ
  pub usage_retention : ℤ
  pub request_retention : ℤ
  pub audit_retention : ℤ

-- The number of 64 bits that stands for n and for -(n + 1), with its sign.
abbrev pub signed_64 : ℕ → ℤ
signed_64 w = if ltb w 9223372036854775808 then pos w else negsuc (18446744073709551616 - w - 1)

abbrev pub wrap_64 : ℤ → ℤ
wrap_64 (pos n) = signed_64 (n % 18446744073709551616)
wrap_64 (negsuc n) = signed_64 (18446744073709551616 - 1 - n % 18446744073709551616)

abbrev pub times : ℕ → ℤ → ℤ
times k (pos n) = pos (k * n)
times k (negsuc n) = negsuc (k * (n + 1) - 1)

-- time.Duration(days) * 24 * time.Hour
abbrev pub days_long : ℤ → ℤ
days_long days = wrap_64 (times 86400000000000 days)

unfoldable pub default_retention_policy : ℤ → ℤ → ℤ → RetentionPolicy
default_retention_policy usage_days request_days audit_days = record {
  cleanup_interval = days_long (pos 1);
  usage_retention = days_long usage_days;
  request_retention = days_long request_days;
  audit_retention = days_long audit_days;
}

-- Whether `StartRetentionCleanup` starts its loop.
unfoldable pub is_enabled : RetentionPolicy → Bool
is_enabled policy =
    if leb_ℤ policy.usage_retention (pos 0) && leb_ℤ policy.audit_retention (pos 0)
    then false
    else true

-- Nanoseconds as whole seconds, rounded down.
abbrev pub to_unix : ℤ → ℤ
to_unix (pos n) = pos (n / 1000000000)
to_unix (negsuc n) = negsuc (n / 1000000000)

-- now.Add(-retention).Unix()
abbrev pub cutoff_at : ℕ → ℤ → ℤ
cutoff_at now retention = to_unix (pos now -ℤ retention)

module _ {V : Type 0} (created_at : V → ℕ) where
  unfoldable pub cleanup_one : ℕ → ℤ → Table V → Table V
  unfolding delete_older_than
  cleanup_one now retention t =
      if ltb_ℤ (pos 0) retention
      then (delete_older_than created_at (cutoff_at now retention) t).1
      else t

unfoldable pub run_cleanup :
    ℕ → RetentionPolicy → Table UsageEvent × Table AuditLog → Table UsageEvent × Table AuditLog
unfolding cleanup_one
run_cleanup now policy (events, logs) = (
  cleanup_one (λ e. e.created_at) now policy.usage_retention events,
  cleanup_one (λ l. l.created_at) now policy.audit_retention logs,
)
