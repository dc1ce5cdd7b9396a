-- ===== src/RateLimit/Limiter.antt =====
-- gorouter/internal/middleware/ratelimit.go: `RateLimiter`, with its cache of limits and its windows for
-- all users, the monthly quota and the middleware. The database's answers are arguments. The clock is
-- read once for a call.
use yi_api_proxy.Base.{
  ℕ, ◌+◌, String, str_eq, Bool, [], ◌∷◌, Option, none, some, ltb, leb, if◌then◌else◌, ◌&&◌, ◌||◌,
}
use yi_api_proxy.Base.Int.{ℤ, pos, sub_ℕ, ltb_ℤ, leb_ℤ}
use yi_api_proxy.Base.Assoc.{Assoc, lookup, insert}
use yi_api_proxy.Db.Types.{RateLimit, Quota}
use yi_api_proxy.RateLimit.Window.{
  SlidingWindow, empty_window, Decision, allow, deny, panic, check_window, record_token_usage,
  sweep, is_empty_window,
}

-- What a repository returns: an error, or a pointer that may be nil.
pub data Reply {ℓ} (A : Type ℓ) : Type ℓ where
  failed : Reply A
  found : Option A → Reply A

pub record RateLimitConfig : Type 0 where
  pub has_db : Bool
  pub cache_ttl : ℕ
  pub default_rpm : ℤ
  pub default_rpd : ℤ
  pub default_tpm : ℤ

pub record CachedLimit : Type 0 where
  pub limit : RateLimit
  pub loaded_at : ℕ
  pub expiry : ℕ

pub record RateLimiter : Type 0 where
  pub cfg : RateLimitConfig
  pub cache : Assoc CachedLimit
  pub window : Assoc SlidingWindow

-- `if cfg.CacheTTL <= 0 { cfg.CacheTTL = 5 * time.Minute }`; a configuration of `nil` is the zero one.
unfoldable pub new_rate_limiter : RateLimitConfig → RateLimiter
new_rate_limiter cfg = record {
  cfg = record cfg { cache_ttl = if leb cfg.cache_ttl 0 then 300 else cfg.cache_ttl };
  cache = [];
  window = [];
}

-- `int(quota.ResetAt.Sub(now).Seconds())`, and at least a minute.
abbrev pub quota_wait : ℕ → ℕ → ℤ
quota_wait reset_at now =
    let retry = sub_ℕ reset_at now in if ltb_ℤ retry (pos 60) then pos 60 else retry

unfoldable pub quota_decision : Quota → ℕ → Decision
quota_decision quota now =
    if ltb_ℤ (pos 0) quota.monthly_token_cap && leb_ℤ quota.monthly_token_cap quota.used_tokens
    then deny (quota_wait quota.reset_at now) "monthly_token_quota_exceeded"
    else if ltb_ℤ (pos 0) quota.monthly_cost_cap && leb_ℤ quota.monthly_cost_cap quota.used_cost
    then deny (quota_wait quota.reset_at now) "monthly_cost_quota_exceeded"
    else allow

-- The quota that `checkQuota` goes on with once the period is over; `next_month` is
-- `now.AddDate(0, 1, 0)`.
abbrev pub fresh_quota : ℕ → Quota → Quota
fresh_quota next_month quota = record quota {
  used_tokens = pos 0;
  used_cost = pos 0;
  reset_at = next_month;
}

-- `reset_failed`: `ResetMonthly` returned an error.
unfoldable pub check_quota : ℕ → ℕ → Reply Quota → Bool → Decision
unfolding quota_decision
check_quota now next_month failed reset_failed = allow
check_quota now next_month (found none) reset_failed = allow
check_quota now next_month (found (some quota)) reset_failed =
    if ltb quota.reset_at now
    then (if reset_failed then allow else quota_decision (fresh_quota next_month quota) now)
    else quota_decision quota now

unfoldable pub default_limit : RateLimitConfig → String → RateLimit
default_limit cfg user_id = record {
  id = "";
  user_id = user_id;
  requests_per_minute = cfg.default_rpm;
  requests_per_day = cfg.default_rpd;
  tokens_per_minute = cfg.default_tpm;
  created_at = 0;
  updated_at = 0;
}

-- A cached limit counts until its expiry.
abbrev pub usable : ℕ → Option CachedLimit → Option RateLimit
usable now none = none
usable now (some cached) = if ltb now cached.expiry then some cached.limit else none

unfoldable pub store_limit : RateLimiter → String → ℕ → RateLimit → RateLimiter
store_limit rl user_id now limit = record rl {
  cache =
      insert user_id (record { limit = limit; loaded_at = now; expiry = now + rl.cfg.cache_ttl })
        rl.cache;
}

unfoldable pub load_limit : RateLimiter → String → ℕ → Reply RateLimit → RateLimiter × RateLimit
unfolding store_limit
load_limit rl user_id now failed = (rl, default_limit rl.cfg user_id)
load_limit rl user_id now (found none) = (rl, default_limit rl.cfg user_id)
load_limit rl user_id now (found (some limit)) = (store_limit rl user_id now limit, limit)

-- With no database `limit` stays nil.
unfoldable pub pick_limit :
    RateLimiter → String → ℕ → Reply RateLimit → Option RateLimit → RateLimiter × RateLimit
unfolding load_limit default_limit
pick_limit rl user_id now reply (some limit) = (rl, limit)
pick_limit rl user_id now reply none =
    load_limit rl user_id now (if rl.cfg.has_db then reply else found none)

unfoldable pub get_limit : RateLimiter → String → ℕ → Reply RateLimit → RateLimiter × RateLimit
unfolding pick_limit
get_limit rl user_id now reply =
    pick_limit rl user_id now reply (usable now (lookup user_id rl.cache))

abbrev pub or_empty : Option SlidingWindow → SlidingWindow
or_empty none = empty_window
or_empty (some w) = w

-- The window that `getWindow` returns; what it adds to the map is an empty window.
unfoldable pub get_window : RateLimiter → String → SlidingWindow
get_window rl user_id = or_empty (lookup user_id rl.window)

abbrev pub put_window : RateLimiter → String → SlidingWindow → RateLimiter
put_window rl user_id w = record rl { window = insert user_id w rl.window }

-- What the database answers during one call of `checkLimits`.
pub record Answers : Type 0 where
  pub quota : Reply Quota
  pub reset_failed : Bool
  pub next_month : ℕ
  pub limit : Reply RateLimit

unfoldable pub check_rate : RateLimiter → String → ℕ → Reply RateLimit → RateLimiter × Decision
check_rate rl user_id now reply =
    let (rl', limit) = get_limit rl user_id now reply in
    let (w, decision) = check_window limit now (get_window rl' user_id) in
    (put_window rl' user_id w, decision)

unfoldable pub after_quota : Decision → RateLimiter → String → ℕ → Answers → RateLimiter × Decision
unfolding check_rate
after_quota allow rl user_id now answers = check_rate rl user_id now answers.limit
after_quota (deny retry kind) rl user_id now answers = (rl, deny retry kind)
after_quota panic rl user_id now answers = (rl, panic)

unfoldable pub check_limits : RateLimiter → String → ℕ → Answers → RateLimiter × Decision
unfolding after_quota
check_limits rl user_id now answers =
    after_quota
      (if rl.cfg.has_db
        then check_quota now answers.next_month answers.quota answers.reset_failed
        else allow)
      rl user_id now answers

-- `RecordTokenUsage`
unfoldable pub record_tokens : RateLimiter → String → ℤ → ℕ → RateLimiter
record_tokens rl user_id count now =
    put_window rl user_id (record_token_usage (get_window rl user_id) count now)

unfoldable pub keep_cached : ℕ → Assoc CachedLimit → Assoc CachedLimit
keep_cached now [] = []
keep_cached now ((k, cached) ∷ m) =
    let rest = keep_cached now m in if ltb cached.expiry now then rest else (k, cached) ∷ rest

unfoldable pub sweep_windows : ℕ → Assoc SlidingWindow → Assoc SlidingWindow
sweep_windows now [] = []
sweep_windows now ((k, w) ∷ m) =
    let rest = sweep_windows now m in
    let w' = sweep w now in if is_empty_window w' then rest else (k, w') ∷ rest

-- One tick of `cleanupLoop`.
unfoldable pub cleanup_all : RateLimiter → ℕ → RateLimiter
unfolding keep_cached sweep_windows
cleanup_all rl now = record rl {
  cache = keep_cached now rl.cache;
  window = sweep_windows now rl.window;
}

-- What the middleware does with a request.
pub data Response : Type 0 where
  next : Response
  too_many : ℤ → String → String → Response
  fault : Response

-- The `type` and the `code` of the error.
abbrev pub error_code : String → String
error_code limit_type =
    if str_eq limit_type "monthly_token_quota_exceeded"
      || str_eq limit_type "monthly_cost_quota_exceeded"
    then "quota_exceeded"
    else "rate_limit_exceeded"

unfoldable pub respond : Decision → Response
respond allow = next
respond (deny retry limit_type) = too_many retry limit_type (error_code limit_type)
respond panic = fault

unfoldable pub middleware : RateLimiter → String → ℕ → Answers → RateLimiter × Response
unfolding respond
middleware rl user_id now answers =
    if str_eq user_id ""
    then (rl, next)
    else (let (rl', decision) = check_limits rl user_id now answers in (rl', respond decision))
