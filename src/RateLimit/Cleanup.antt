-- ===== src/RateLimit/Cleanup.antt =====
-- gorouter/internal/middleware/ratelimit.go: the index expressions of `checkLimits` do not fail, and a cleanup
-- changes no decision.
use yi_api_proxy.Base.{
  ℕ, ◌≤◌, ◌≡◌, ◌≢◌, refl, ap, true, List, [], ◌∷◌, countb, filterb, if◌then◌else◌, arith, String,
}
use yi_api_proxy.Base.Int.{ℤ, pos, sub_ℕ, ltb_ℤ, leb_ℤ}
use yi_api_proxy.Db.Types.{RateLimit}
use yi_api_proxy.RateLimit.Window.{
  SlidingWindow, TokenEntry, empty_window, recent, check_window, check_daily, check_tokens,
  clean_tokens, clean_daily, clean_minute, sweep, panic, deny_by, deny_by_tokens, sum_entries,
  is_empty_window,
}
use yi_api_proxy.RateLimit.Counts.{filterb-filterb_older}

-- A filtered list with a count of one or more has a first entry.
counted_first :
    (cutoff : ℤ) (xs : List ℕ) (l least now : ℕ) (kind : String) (cap : ℤ)
    → ltb_ℤ (pos 0) cap ≡ true
    → leb_ℤ cap (pos (countb (recent cutoff) xs)) ≡ true
    → deny_by l least now kind xs ≢ panic
counted_first cutoff [] l least now kind cap p h e = ground arith
counted_first cutoff (x ∷ xs) l least now kind cap p h e = cc

summed_first :
    (cutoff : ℤ) (es : List TokenEntry) (now : ℕ) (cap : ℤ)
    → ltb_ℤ (pos 0) cap ≡ true
    → leb_ℤ cap (sum_entries cutoff es) ≡ true
    → deny_by_tokens now es ≢ panic
unfolding sum_entries
summed_first cutoff [] now cap p h e = ground arith
summed_first cutoff (x ∷ xs) now cap p h e = cc

-- The window that is dropped, and made anew by the next call, is the empty one.
pub drop_empty : (w : SlidingWindow) → (if is_empty_window w then empty_window else w) ≡ w
drop_empty w = ground arith

module _ (limit : RateLimit) (now : ℕ) where
  check_tokens-ne-panic : (w : SlidingWindow) → (check_tokens limit now w).1 ≢ panic
  unfolding check_tokens
  check_tokens-ne-panic w =
      ground
        (arith, summed_first (sub_ℕ now 60) (clean_tokens w now).tokens now limit.tokens_per_minute)

  check_daily-ne-panic : (w : SlidingWindow) → (check_daily limit now w).1 ≢ panic
  unfolding check_daily
  check_daily-ne-panic w = ground (
    arith,
    counted_first (sub_ℕ now 86400) (clean_daily w now).daily 86400 60 now "requests_per_day"
        limit.requests_per_day,
    check_tokens-ne-panic w,
    check_tokens-ne-panic (clean_daily w now),
  )

  -- Whatever the window, the limits and the time, the index expressions of `checkLimits`
  -- (`window.minute[0]`, `window.daily[0]`, `window.tokens[0]`) never fail.
  pub check_window-ne-panic : (w : SlidingWindow) → (check_window limit now w).1 ≢ panic
  unfolding check_window
  check_window-ne-panic w = ground (
    arith,
    counted_first (sub_ℕ now 60) (clean_minute w now).minute 60 1 now "requests_per_minute"
        limit.requests_per_minute,
    check_daily-ne-panic w,
    check_daily-ne-panic (clean_minute w now),
  )

  -- Two windows hold the same entries that are recent at `now`.
  record SameRecent (v w : SlidingWindow) : Type 0 where
    minute : filterb (recent (sub_ℕ now 60)) v.minute ≡ filterb (recent (sub_ℕ now 60)) w.minute
    daily : filterb (recent (sub_ℕ now 86400)) v.daily ≡ filterb (recent (sub_ℕ now 86400)) w.daily
    tokens :
        filterb (λ e. recent (sub_ℕ now 60) e.timestamp) v.tokens
        ≡ filterb (λ e. recent (sub_ℕ now 60) e.timestamp) w.tokens

  check_tokens-SameRecent :
      (v w : SlidingWindow)
      → SameRecent v w
      → (check_tokens limit now v).1 ≡ (check_tokens limit now w).1
  unfolding check_tokens
  check_tokens-SameRecent v w s = rw s.tokens (ground arith)

  clean_daily-SameRecent :
      (v w : SlidingWindow) → SameRecent v w → SameRecent (clean_daily v now) (clean_daily w now)
  unfolding clean_daily
  clean_daily-SameRecent v w s = record {
    minute = s.minute;
    daily = ap (filterb (recent (sub_ℕ now 86400))) s.daily;
    tokens = s.tokens;
  }

  clean_minute-SameRecent :
      (v w : SlidingWindow) → SameRecent v w → SameRecent (clean_minute v now) (clean_minute w now)
  unfolding clean_minute
  clean_minute-SameRecent v w s = record {
    minute = ap (filterb (recent (sub_ℕ now 60))) s.minute;
    daily = s.daily;
    tokens = s.tokens;
  }

  check_daily-SameRecent :
      (v w : SlidingWindow)
      → SameRecent v w
      → (check_daily limit now v).1 ≡ (check_daily limit now w).1
  unfolding check_daily
  check_daily-SameRecent v w s = ground (
    arith,
    s.daily,
    check_tokens-SameRecent v w s,
    check_tokens-SameRecent (clean_daily v now) (clean_daily w now) (clean_daily-SameRecent v w s),
  )

  check_window-SameRecent :
      (v w : SlidingWindow)
      → SameRecent v w
      → (check_window limit now v).1 ≡ (check_window limit now w).1
  unfolding check_window
  check_window-SameRecent v w s = ground (
    arith,
    s.minute,
    check_daily-SameRecent v w s,
    check_daily-SameRecent (clean_minute v now) (clean_minute w now)
        (clean_minute-SameRecent v w s),
  )

  filterb_tokens_older :
      (c : ℕ) (es : List TokenEntry)
      → c ≤ now
      → filterb
          (λ e. recent (sub_ℕ now 60) e.timestamp)
          (filterb (λ e. recent (sub_ℕ c 60) e.timestamp) es)
        ≡ filterb (λ e. recent (sub_ℕ now 60) e.timestamp) es
  filterb_tokens_older c [] h = refl
  filterb_tokens_older c (e ∷ es) h = ground (arith, filterb_tokens_older c es)

  sweep-SameRecent : (c : ℕ) (w : SlidingWindow) → c ≤ now → SameRecent (sweep w c) w
  unfolding sweep
  sweep-SameRecent c w h = record {
    minute = filterb-filterb_older c now 86400 60 w.minute h (omega arith);
    daily = filterb-filterb_older c now 86400 86400 w.daily h (omega arith);
    tokens = filterb_tokens_older c w.tokens h;
  }

  pub check_window-sweep :
      (c : ℕ) (w : SlidingWindow)
      → c ≤ now
      → (check_window limit now (sweep w c)).1 ≡ (check_window limit now w).1
  check_window-sweep c w h = check_window-SameRecent (sweep w c) w (sweep-SameRecent c w h)
