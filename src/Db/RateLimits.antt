-- ===== src/Db/RateLimits.antt =====
-- gorouter/internal/db/dbmanager.go: `jsonRateLimitRepo`. `now` is the clock of the call.
use yi_api_proxy.Base.{ℕ, String, str_eq, Option, findb}
use yi_api_proxy.Db.Types.{RateLimit}
use yi_api_proxy.Db.Table.{Table, Write, put, init, list}

unfoldable pub create : ℕ → RateLimit → Table RateLimit → Write RateLimit
create now rl t = put rl.id (record rl { created_at = now; updated_at = now }) (init t)

unfoldable pub find_limit : String → Table RateLimit → Option RateLimit
find_limit user_id t = findb (λ rl. str_eq rl.user_id user_id) (list t)

unfoldable pub update : ℕ → RateLimit → Table RateLimit → Write RateLimit
update now rl t = put rl.id (record rl { updated_at = now }) (init t)
