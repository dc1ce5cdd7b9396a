-- ===== src/Db/Quotas.antt =====
-- gorouter/internal/db/dbmanager.go: `jsonQuotaRepo`. Its `init` makes a map in a copy of the store only, so
-- it leaves a nil map nil. `now` is the clock of the call.
use yi_api_proxy.Base.{ℕ, String, str_eq, Option, none, some, findb}
use yi_api_proxy.Base.Int.{ℤ, pos, ◌+ℤ◌}
use yi_api_proxy.Db.Types.{Quota}
use yi_api_proxy.Db.Table.{Table, Write, stored, put, list}

unfoldable pub init_quotas : Table Quota → Table Quota
init_quotas t = t

unfoldable pub create : Quota → Table Quota → Write Quota
unfolding init_quotas
create quota t = put quota.id quota (init_quotas t)

unfoldable pub find_quota : String → Table Quota → Option Quota
unfolding init_quotas
find_quota user_id t = findb (λ q. str_eq q.user_id user_id) (list (init_quotas t))

unfoldable pub update : Quota → Table Quota → Write Quota
unfolding init_quotas
update quota t = put quota.id quota (init_quotas t)

-- `if q == nil { return err }`, and otherwise an update of the quota.
abbrev pub update_found : (Quota → Quota) → Table Quota → Option Quota → Write Quota
update_found f t none = stored t
update_found f t (some q) = update (f q) t

abbrev pub used_more : ℕ → ℤ → ℤ → Quota → Quota
used_more now tokens cost q = record q {
  used_tokens = q.used_tokens +ℤ tokens;
  used_cost = q.used_cost +ℤ cost;
  updated_at = now;
}

unfoldable pub increment_usage : ℕ → String → ℤ → ℤ → Table Quota → Write Quota
unfolding update find_quota
increment_usage now user_id tokens cost t =
    update_found (used_more now tokens cost) t (find_quota user_id t)

unfoldable pub reset_monthly : ℕ → String → Table Quota → Write Quota
unfolding update find_quota
reset_monthly now user_id t =
    update_found
      (λ q. record q { used_tokens = pos 0; used_cost = pos 0; reset_at = now; updated_at = now }) t
      (find_quota user_id t)
