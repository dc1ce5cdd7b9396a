-- ===== src/RateLimit/Window.antt =====
-- gorouter/internal/middleware/ratelimit.go: `slidingWindow`, the functions on it, and the part of
-- `checkLimits` that runs under the window's mutex.
use yi_api_proxy.Base.{
  ℕ, ◌≤◌, ◌&&◌, Bool, List, [], ◌∷◌, ◌++◌, countb, filterb, if◌then◌else◌, String, false, true,
}
use yi_api_proxy.Base.Int.{ℤ, pos, sub_ℕ, ◌+ℤ◌, ◌-ℤ◌, ltb_ℤ, leb_ℤ}
use yi_api_proxy.Db.Types.{RateLimit}

pub record TokenEntry : Type 0 where
  pub timestamp : ℕ
  pub count : ℤ

pub record SlidingWindow : Type 0 where
  pub minute : List ℕ
  pub daily : List ℕ
  pub tokens : List TokenEntry

abbrev pub empty_window : SlidingWindow
empty_window = record { minute = []; daily = []; tokens = [] }

-- `ts >= cutoff`, with a cutoff that may be negative.
abbrev pub recent : ℤ → ℕ → Bool
recent cutoff ts = leb_ℤ cutoff (pos ts)

unfoldable pub filter_timestamps : List ℕ → ℤ → List ℕ
filter_timestamps timestamps cutoff = filterb (recent cutoff) timestamps

unfoldable pub count_in_window : List ℕ → ℕ → ℕ → ℕ
count_in_window timestamps now window_sec = countb (recent (sub_ℕ now window_sec)) timestamps

unfoldable pub clean_minute : SlidingWindow → ℕ → SlidingWindow
unfolding filter_timestamps
clean_minute w now = record w { minute = filter_timestamps w.minute (sub_ℕ now 60) }

unfoldable pub clean_daily : SlidingWindow → ℕ → SlidingWindow
unfolding filter_timestamps
clean_daily w now = record w { daily = filter_timestamps w.daily (sub_ℕ now 86400) }

unfoldable pub clean_tokens : SlidingWindow → ℕ → SlidingWindow
clean_tokens w now = record w { tokens = filterb (λ e. recent (sub_ℕ now 60) e.timestamp) w.tokens }

unfoldable pub sum_entries : ℤ → List TokenEntry → ℤ
sum_entries cutoff [] = pos 0
sum_entries cutoff (e ∷ es) =
    (if recent cutoff e.timestamp then e.count else pos 0) +ℤ sum_entries cutoff es

unfoldable pub sum_tokens : SlidingWindow → ℕ → ℕ → ℤ
unfolding sum_entries
sum_tokens w now window_sec = sum_entries (sub_ℕ now window_sec) w.tokens

-- What `checkLimits` returns, `(allowed, retryAfter, limitType)`; `panic` is an index out of range.
pub data Decision : Type 0 where
  allow : Decision
  deny : ℤ → String → Decision
  panic : Decision

-- `retry := length - (now - list[0]); if retry < 1 { retry = least }`
abbrev pub retry_after : ℕ → ℕ → ℕ → ℕ → ℤ
retry_after length now first least =
    let retry = pos length -ℤ sub_ℕ now first in if ltb_ℤ retry (pos 1) then pos least else retry

abbrev pub deny_by : ℕ → ℕ → ℕ → String → List ℕ → Decision
deny_by length least now kind [] = panic
deny_by length least now kind (first ∷ _) = deny (retry_after length now first least) kind

abbrev pub deny_by_tokens : ℕ → List TokenEntry → Decision
deny_by_tokens now [] = panic
deny_by_tokens now (e ∷ _) = deny (retry_after 60 now e.timestamp 1) "tokens_per_minute"

-- Both lists get the time of a request that is let through.
unfoldable pub admit : SlidingWindow → ℕ → SlidingWindow
admit w now = record w { minute = w.minute ++ now ∷ []; daily = w.daily ++ now ∷ [] }

unfoldable pub check_tokens : RateLimit → ℕ → SlidingWindow → SlidingWindow × Decision
unfolding admit clean_tokens sum_tokens
check_tokens limit now w =
    if ltb_ℤ (pos 0) limit.tokens_per_minute
    then (let w' = clean_tokens w now in
        if leb_ℤ limit.tokens_per_minute (sum_tokens w' now 60)
        then (w', deny_by_tokens now w'.tokens)
        else (admit w' now, allow))
    else (admit w now, allow)

unfoldable pub check_daily : RateLimit → ℕ → SlidingWindow → SlidingWindow × Decision
unfolding clean_daily count_in_window
check_daily limit now w =
    if ltb_ℤ (pos 0) limit.requests_per_day
    then (let w' = clean_daily w now in
        if leb_ℤ limit.requests_per_day (pos (count_in_window w'.daily now 86400))
        then (w', deny_by 86400 60 now "requests_per_day" w'.daily)
        else check_tokens limit now w')
    else check_tokens limit now w

-- `checkLimits` from `window.mu.Lock()` on.
unfoldable pub check_window : RateLimit → ℕ → SlidingWindow → SlidingWindow × Decision
unfolding clean_minute count_in_window
check_window limit now w =
    if ltb_ℤ (pos 0) limit.requests_per_minute
    then (let w' = clean_minute w now in
        if leb_ℤ limit.requests_per_minute (pos (count_in_window w'.minute now 60))
        then (w', deny_by 60 1 now "requests_per_minute" w'.minute)
        else check_daily limit now w')
    else check_daily limit now w

unfoldable pub record_token_usage : SlidingWindow → ℤ → ℕ → SlidingWindow
unfolding clean_tokens
record_token_usage w count now =
    let w' = clean_tokens w now in
    record w' { tokens = w'.tokens ++ record { timestamp = now; count = count } ∷ [] }

-- The body of the loop of `cleanupLoop` on one window.
unfoldable pub sweep : SlidingWindow → ℕ → SlidingWindow
unfolding filter_timestamps clean_tokens
sweep w now =
    clean_tokens
      (record w {
        minute = filter_timestamps w.minute (sub_ℕ now 86400);
        daily = filter_timestamps w.daily (sub_ℕ now 86400);
      })
      now

abbrev pub is_nil {ℓ} : {A : Type ℓ} → List A → Bool
is_nil [] = true
is_nil (x ∷ xs) = false

-- `len(w.minute) == 0 && len(w.daily) == 0 && len(w.tokens) == 0`
abbrev pub is_empty_window : SlidingWindow → Bool
is_empty_window w = is_nil w.minute && is_nil w.daily && is_nil w.tokens

-- What happens to one user's window, each at its time: a request that `checkLimits` decides, a record
-- of tokens, and a round of `cleanupLoop` (which drops an empty window: a later call makes it anew,
-- empty).
pub data Event : Type 0 where
  request : ℕ → Event
  usage : ℤ → ℕ → Event
  cleanup : ℕ → Event

abbrev pub time_of : Event → ℕ
time_of (request now) = now
time_of (usage count now) = now
time_of (cleanup now) = now

unfoldable pub step : RateLimit → SlidingWindow → Event → SlidingWindow
step limit w (request now) = (check_window limit now w).0
step limit w (usage count now) = record_token_usage w count now
step limit w (cleanup now) = let w' = sweep w now in if is_empty_window w' then empty_window else w'

abbrev pub is_allowed : Decision → Bool
is_allowed allow = true
is_allowed (deny retry kind) = false
is_allowed panic = false

abbrev pub stamp : RateLimit → SlidingWindow → Event → List ℕ
stamp limit w (request now) = if is_allowed (check_window limit now w).1 then now ∷ [] else []
stamp limit w e = []

-- The times of the requests that a history lets through.
unfoldable pub admitted : RateLimit → SlidingWindow → List Event → List ℕ
admitted limit w [] = []
admitted limit w (e ∷ es) = stamp limit w e ++ admitted limit (step limit w e) es

-- The events come in the order of their times, none before `start`.
abbrev pub Chronological : ℕ → List Event → Type 0
Chronological start [] = Unit
Chronological start (e ∷ es) = (start ≤ time_of e) × Chronological (time_of e) es
