-- ===== src/Admin/Limits.antt =====
-- gorouter/internal/handlers/admin/ratelimits.go: `RateLimitHandler`.
use yi_api_proxy.Base.{ℕ, String, str_eq, Option, none, some, if◌then◌else◌}
use yi_api_proxy.Base.Int.{ℤ}
use yi_api_proxy.Db.Types.{RateLimit}
use yi_api_proxy.Db.Table.{Table, find_by_id, list}
use yi_api_proxy.Db.RateLimits.{create, update, find_limit}
use yi_api_proxy.Admin.{AdminReply, refused, shown_all, written, set_at, get, delete_handler, given}

pub record CreateRateLimitRequest : Type 0 where
  pub user_id : String
  pub requests_per_minute : ℤ
  pub requests_per_day : ℤ
  pub tokens_per_minute : ℤ

pub record UpdateRateLimitRequest : Type 0 where
  pub requests_per_minute : Option ℤ
  pub requests_per_day : Option ℤ
  pub tokens_per_minute : Option ℤ

unfoldable pub list_limits : Table RateLimit → AdminReply RateLimit × Table RateLimit
list_limits t = (shown_all (list t), t)

unfoldable pub show_limit : String → Table RateLimit → AdminReply RateLimit × Table RateLimit
show_limit id t = get "rate limit not found" id t

unfoldable pub remove_limit : String → Table RateLimit → AdminReply RateLimit × Table RateLimit
unfolding delete_handler
remove_limit id t = delete_handler "rate limit not found" id t

module _ (now : ℕ) where
  abbrev pub new_limit : String → CreateRateLimitRequest → RateLimit
  new_limit id req = record {
    id = id;
    user_id = req.user_id;
    requests_per_minute = req.requests_per_minute;
    requests_per_day = req.requests_per_day;
    tokens_per_minute = req.tokens_per_minute;
    created_at = now;
    updated_at = now;
  }

  unfoldable pub create_limit_unless :
      String
      → CreateRateLimitRequest
      → Table RateLimit
      → Option RateLimit
      → AdminReply RateLimit × Table RateLimit
  unfolding create
  create_limit_unless id req t (some l) = (refused 409 "rate limit already exists for this user", t)
  create_limit_unless id req t none =
      written 201 (new_limit id req) t (create now (new_limit id req) t)

  -- `none`: the body is not JSON of a request.
  unfoldable pub create_limit :
      String
      → Option CreateRateLimitRequest
      → Table RateLimit
      → AdminReply RateLimit × Table RateLimit
  unfolding create_limit_unless find_limit
  create_limit id none t = (refused 400 "invalid JSON", t)
  create_limit id (some req) t =
      if str_eq req.user_id ""
      then (refused 400 "user_id is required", t)
      else create_limit_unless id req t (find_limit req.user_id t)

  abbrev pub limited : UpdateRateLimitRequest → RateLimit → RateLimit
  limited req l = record l {
    requests_per_minute = given req.requests_per_minute l.requests_per_minute;
    requests_per_day = given req.requests_per_day l.requests_per_day;
    tokens_per_minute = given req.tokens_per_minute l.tokens_per_minute;
    updated_at = now;
  }

  unfoldable pub update_limit_found :
      String
      → Option UpdateRateLimitRequest
      → Table RateLimit
      → Option RateLimit
      → AdminReply RateLimit × Table RateLimit
  unfolding update
  update_limit_found id body t none = (refused 404 "rate limit not found", t)
  update_limit_found id none t (some l) = (refused 400 "invalid JSON", t)
  update_limit_found id (some req) t (some l) =
      written 200 (limited req l) t (update now (limited req l) (set_at id (limited req l) t))

  unfoldable pub update_limit :
      String
      → Option UpdateRateLimitRequest
      → Table RateLimit
      → AdminReply RateLimit × Table RateLimit
  unfolding update_limit_found
  update_limit id body t = update_limit_found id body t (find_by_id id t)
