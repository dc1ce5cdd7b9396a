-- ===== src/Admin/Quotas.antt =====
-- gorouter/internal/handlers/admin/quotas.go: `QuotaHandler`. `next_month` is `AddDate(0, 1, 0)`.
use yi_api_proxy.Base.{ℕ, String, str_eq, Option, none, some, if◌then◌else◌}
use yi_api_proxy.Base.Int.{ℤ, pos}
use yi_api_proxy.Db.Types.{Quota}
use yi_api_proxy.Db.Table.{Table, after, find_by_id, list}
use yi_api_proxy.Db.Quotas.{create, update, find_quota, reset_monthly}
use yi_api_proxy.Admin.{
  AdminReply, refused, shown, shown_all, written, set_at, get, delete_handler, given,
}

pub record CreateQuotaRequest : Type 0 where
  pub user_id : String
  pub monthly_token_cap : ℤ
  pub monthly_cost_cap : ℤ

pub record UpdateQuotaRequest : Type 0 where
  pub monthly_token_cap : Option ℤ
  pub monthly_cost_cap : Option ℤ

unfoldable pub list_quotas : Table Quota → AdminReply Quota × Table Quota
list_quotas t = (shown_all (list t), t)

unfoldable pub show_quota : String → Table Quota → AdminReply Quota × Table Quota
show_quota id t = get "quota not found" id t

unfoldable pub remove_quota : String → Table Quota → AdminReply Quota × Table Quota
unfolding delete_handler
remove_quota id t = delete_handler "quota not found" id t

module _ (next_month : ℕ → ℕ) (now : ℕ) where
  abbrev pub new_quota : String → CreateQuotaRequest → Quota
  new_quota id req = record {
    id = id;
    user_id = req.user_id;
    monthly_token_cap = req.monthly_token_cap;
    monthly_cost_cap = req.monthly_cost_cap;
    used_tokens = pos 0;
    used_cost = pos 0;
    reset_at = next_month now;
    created_at = now;
    updated_at = now;
  }

  unfoldable pub create_unless :
      String → CreateQuotaRequest → Table Quota → Option Quota → AdminReply Quota × Table Quota
  unfolding create
  create_unless id req t (some q) = (refused 409 "quota already exists for this user", t)
  create_unless id req t none = written 201 (new_quota id req) t (create (new_quota id req) t)

  -- `none`: the body is not JSON of a request.
  unfoldable pub create_quota :
      String → Option CreateQuotaRequest → Table Quota → AdminReply Quota × Table Quota
  unfolding create_unless find_quota
  create_quota id none t = (refused 400 "invalid JSON", t)
  create_quota id (some req) t =
      if str_eq req.user_id ""
      then (refused 400 "user_id is required", t)
      else create_unless id req t (find_quota req.user_id t)

  abbrev pub zeroed : Quota → Quota
  zeroed q = record q { used_tokens = pos 0; used_cost = pos 0; reset_at = next_month now }

  -- `ResetMonthly` is called with the id of the quota; the pointer of before has its writes.
  unfoldable pub reset_found : String → Table Quota → Option Quota → AdminReply Quota × Table Quota
  unfolding reset_monthly
  reset_found id t none = (refused 404 "quota not found", t)
  reset_found id t (some q) =
      let t' = after t (reset_monthly now id t) in
      let held = zeroed (given (find_by_id id t') q) in (shown 200 held, set_at id held t')

  unfoldable pub reset_usage : String → Table Quota → AdminReply Quota × Table Quota
  unfolding reset_found
  reset_usage id t = reset_found id t (find_by_id id t)

module _ (now : ℕ) where
  abbrev pub capped : UpdateQuotaRequest → Quota → Quota
  capped req q = record q {
    monthly_token_cap = given req.monthly_token_cap q.monthly_token_cap;
    monthly_cost_cap = given req.monthly_cost_cap q.monthly_cost_cap;
    updated_at = now;
  }

  unfoldable pub update_quota_found :
      String
      → Option UpdateQuotaRequest
      → Table Quota
      → Option Quota
      → AdminReply Quota × Table Quota
  unfolding update
  update_quota_found id body t none = (refused 404 "quota not found", t)
  update_quota_found id none t (some q) = (refused 400 "invalid JSON", t)
  update_quota_found id (some req) t (some q) =
      written 200 (capped req q) t (update (capped req q) (set_at id (capped req q) t))

  unfoldable pub update_quota :
      String → Option UpdateQuotaRequest → Table Quota → AdminReply Quota × Table Quota
  unfolding update_quota_found
  update_quota id body t = update_quota_found id body t (find_by_id id t)
