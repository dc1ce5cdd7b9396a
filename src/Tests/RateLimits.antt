-- ===== src/Tests/RateLimits.antt =====
-- gorouter/internal/middleware/ratelimit.go: runs on small windows and limits.
use yi_api_proxy.Base.{
  ◌+◌, ◌≡◌, refl, List, [], ◌∷◌, none, some, true, false, ltb, ◌||◌, not, arith,
}
use yi_api_proxy.Base.Int.{pos, ◌≤ℤ◌}
use yi_api_proxy.Base.Assoc.{lookup}
use yi_api_proxy.Db.Types.{RateLimit}
use yi_api_proxy.RateLimit.Window.{
  SlidingWindow, empty_window, allow, deny, Event, request, usage, admitted, check_window,
  is_allowed, clean_minute, filter_timestamps, count_in_window,
}
use yi_api_proxy.RateLimit.History.{busy, minute_limit_holds, day_limit_holds}
use yi_api_proxy.RateLimit.Retry.{IsTimely, IsPast, check_window-IsTimely}
use yi_api_proxy.RateLimit.Again.{retry_refused}
use yi_api_proxy.RateLimit.Limiter.{
  failed, found, RateLimitConfig, RateLimiter, check_quota, check_limits, cleanup_all, Answers,
}
use yi_api_proxy.RateLimit.Users.{cleanup_unseen}
use yi_api_proxy.RateLimit.QuotaRules.{exhausted, check_quota_lem}
use yi_api_proxy.Tests.Samples.{small_limit, spent_quota}

abbrev three_requests : List Event
three_requests = request 100 ∷ usage (pos 50) 110 ∷ request 120 ∷ request 130 ∷ []

minute_limit_holds_example :
    pos (busy 60 100 (admitted small_limit empty_window three_requests)) ≤ℤ pos 2
minute_limit_holds_example =
    minute_limit_holds small_limit 100 three_requests refl (ground arith) 100

day_limit_holds_example :
    pos (busy 86400 100 (admitted small_limit empty_window three_requests)) ≤ℤ pos 3
day_limit_holds_example = day_limit_holds small_limit 100 three_requests refl (ground arith) 100

abbrev full_window : SlidingWindow
full_window = record { minute = 100 ∷ 120 ∷ []; daily = 100 ∷ 120 ∷ []; tokens = [] }

full_window-IsPast : IsPast 130 full_window
full_window-IsPast = record {
  minute = (omega arith, (omega arith, tt));
  daily = (omega arith, (omega arith, tt));
  tokens = tt;
}

check_window-IsTimely_example : IsTimely (check_window small_limit 130 full_window).1
check_window-IsTimely_example = check_window-IsTimely small_limit 130 full_window full_window-IsPast

retry_refused_example :
    (check_window small_limit (130 + 30) (check_window small_limit 130 full_window).0).1
    ≡ deny (pos 1) "requests_per_minute"
unfolding check_window clean_minute filter_timestamps count_in_window
retry_refused_example =
    retry_refused small_limit 130 30 full_window
      (omega arith, (omega arith, tt), (omega arith, tt, tt)) refl refl refl (omega arith)

abbrev config : RateLimitConfig
config = record {
  has_db = true;
  cache_ttl = 300;
  default_rpm = pos 60;
  default_rpd = pos 1000;
  default_tpm = pos 10000;
}

abbrev pub limiter : RateLimiter
limiter = record { cfg = config; cache = []; window = ("u1", full_window) ∷ [] }

abbrev other_limit : RateLimit
other_limit = record small_limit { requests_per_minute = pos 5 }

abbrev answers : Answers
answers = record {
  quota = found none;
  reset_failed = false;
  next_month = 9000;
  limit = found (some small_limit);
}

cleanup_unseen_example :
    (check_limits (cleanup_all limiter 200) "u1" 210 answers).1
    ≡ (check_limits limiter "u1" 210 answers).1
cleanup_unseen_example =
    cleanup_unseen limiter 200 210 "u1" answers (omega arith) tt (unfold lookup in (refl, tt))

check_quota_lem_example :
    (is_allowed (check_quota 130 9000 (found (some spent_quota)) false)
      ≡ ltb spent_quota.reset_at 130 || not (exhausted spent_quota))
    × (check_quota 130 9000 (found none) false ≡ allow)
    × (check_quota 130 9000 failed false ≡ allow)
check_quota_lem_example = check_quota_lem 130 9000 spent_quota false

abbrev spent_answers : Answers
spent_answers = record answers { quota = found (some spent_quota) }
