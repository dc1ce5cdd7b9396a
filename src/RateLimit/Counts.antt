-- ===== src/RateLimit/Counts.antt =====
-- gorouter/internal/middleware/ratelimit.go: how many requests the windows let through.
use yi_api_proxy.Base.{
  String, ℕ, ◌+◌, ◌≤◌, ◌≡◌, refl, true, false, List, [], ◌∷◌, ◌++◌, countb, filterb, countb-append,
  leb, if◌then◌else◌, arith,
}
use yi_api_proxy.Base.Int.{pos, sub_ℕ, ltb_ℤ}
use yi_api_proxy.Db.Types.{RateLimit}
use yi_api_proxy.RateLimit.Window.{
  TokenEntry, SlidingWindow, recent, Decision, deny_by, deny_by_tokens, clean_minute, clean_daily,
  clean_tokens, check_tokens, check_daily, check_window, is_allowed,
}

-- An older filter is not seen by a later count of no greater length.
pub countb-filterb_older :
    (c now l k : ℕ) (xs : List ℕ)
    → c ≤ now
    → k ≤ l
    → countb (recent (sub_ℕ now k)) (filterb (recent (sub_ℕ c l)) xs)
      ≡ countb (recent (sub_ℕ now k)) xs
countb-filterb_older c now l k [] h g = refl
countb-filterb_older c now l k (x ∷ xs) h g = ground (arith, countb-filterb_older c now l k xs)

pub filterb-filterb_older :
    (c now l k : ℕ) (xs : List ℕ)
    → c ≤ now
    → k ≤ l
    → filterb (recent (sub_ℕ now k)) (filterb (recent (sub_ℕ c l)) xs)
      ≡ filterb (recent (sub_ℕ now k)) xs
filterb-filterb_older c now l k [] h g = refl
filterb-filterb_older c now l k (x ∷ xs) h g = ground (arith, filterb-filterb_older c now l k xs)

pub countb-append_one :
    (x now k : ℕ) (xs : List ℕ)
    → countb (recent (sub_ℕ x k)) (xs ++ now ∷ [])
      ≡ countb (recent (sub_ℕ x k)) xs + (if leb x (now + k) then 1 else 0)
countb-append_one x now k xs = ground (arith, countb-append (recent (sub_ℕ x k)) xs (now ∷ []))

-- The list after a decision: one more time if the request is let through.
abbrev pub extended : Decision → ℕ → List ℕ → List ℕ
extended d now xs = if is_allowed d then xs ++ now ∷ [] else xs

not_allowed-deny_by :
    (l least now : ℕ) (kind : String) (xs : List ℕ)
    → is_allowed (deny_by l least now kind xs) ≡ false
not_allowed-deny_by l least now kind [] = refl
not_allowed-deny_by l least now kind (x ∷ xs) = refl

not_allowed-deny_by_tokens :
    (now : ℕ) (es : List TokenEntry) → is_allowed (deny_by_tokens now es) ≡ false
not_allowed-deny_by_tokens now [] = refl
not_allowed-deny_by_tokens now (x ∷ xs) = refl

module _ (limit : RateLimit) (now : ℕ) where
  minute-check_tokens :
      (w : SlidingWindow)
      → let r = check_tokens limit now w in r.0.minute ≡ extended r.1 now w.minute
  unfolding check_tokens
  minute-check_tokens w = ground (arith, not_allowed-deny_by_tokens now (clean_tokens w now).tokens)

  daily-check_tokens :
      (w : SlidingWindow) → let r = check_tokens limit now w in r.0.daily ≡ extended r.1 now w.daily
  unfolding check_tokens
  daily-check_tokens w = ground (arith, not_allowed-deny_by_tokens now (clean_tokens w now).tokens)

  minute-check_daily :
      (w : SlidingWindow)
      → let r = check_daily limit now w in r.0.minute ≡ extended r.1 now w.minute
  unfolding check_daily
  minute-check_daily w = ground (
    arith,
    not_allowed-deny_by 86400 60 now "requests_per_day" (clean_daily w now).daily,
    minute-check_tokens w,
    minute-check_tokens (clean_daily w now),
  )

  daily-check_daily :
      (w : SlidingWindow) (x : ℕ)
      → now ≤ x
      → let r = check_daily limit now w in
        countb (recent (sub_ℕ x 86400)) r.0.daily
        ≡ countb (recent (sub_ℕ x 86400)) (extended r.1 now w.daily)
  unfolding check_daily clean_daily
  daily-check_daily w x h = ground (
    arith,
    not_allowed-deny_by 86400 60 now "requests_per_day" (clean_daily w now).daily,
    daily-check_tokens w,
    daily-check_tokens (clean_daily w now),
    countb-filterb_older now x 86400 86400 w.daily,
    countb-append (recent (sub_ℕ x 86400)) w.daily (now ∷ []),
    countb-append (recent (sub_ℕ x 86400)) (clean_daily w now).daily (now ∷ []),
  )

  pub minute-check_window :
      (w : SlidingWindow) (x : ℕ)
      → now ≤ x
      → let r = check_window limit now w in
        countb (recent (sub_ℕ x 60)) r.0.minute
        ≡ countb (recent (sub_ℕ x 60)) (extended r.1 now w.minute)
  unfolding check_window clean_minute
  minute-check_window w x h = ground (
    arith,
    not_allowed-deny_by 60 1 now "requests_per_minute" (clean_minute w now).minute,
    minute-check_daily w,
    minute-check_daily (clean_minute w now),
    countb-filterb_older now x 60 60 w.minute,
    countb-append (recent (sub_ℕ x 60)) w.minute (now ∷ []),
    countb-append (recent (sub_ℕ x 60)) (clean_minute w now).minute (now ∷ []),
  )

  pub daily-check_window :
      (w : SlidingWindow) (x : ℕ)
      → now ≤ x
      → let r = check_window limit now w in
        countb (recent (sub_ℕ x 86400)) r.0.daily
        ≡ countb (recent (sub_ℕ x 86400)) (extended r.1 now w.daily)
  unfolding check_window clean_minute
  daily-check_window w x h = ground (
    arith,
    not_allowed-deny_by 60 1 now "requests_per_minute" (clean_minute w now).minute,
    daily-check_daily w x,
    daily-check_daily (clean_minute w now) x,
  )

  fits-check_daily :
      (w : SlidingWindow)
      → ltb_ℤ (pos 0) limit.requests_per_day ≡ true
      → is_allowed (check_daily limit now w).1 ≡ true
      → ltb_ℤ (pos (countb (recent (sub_ℕ now 86400)) w.daily)) limit.requests_per_day ≡ true
  unfolding check_daily clean_daily
  fits-check_daily w h a = ground (
    arith,
    not_allowed-deny_by 86400 60 now "requests_per_day" (clean_daily w now).daily,
    countb-filterb_older now now 86400 86400 w.daily,
  )

  pub fits_day :
      (w : SlidingWindow)
      → ltb_ℤ (pos 0) limit.requests_per_day ≡ true
      → is_allowed (check_window limit now w).1 ≡ true
      → ltb_ℤ (pos (countb (recent (sub_ℕ now 86400)) w.daily)) limit.requests_per_day ≡ true
  unfolding check_window clean_minute
  fits_day w h a = ground (
    arith,
    not_allowed-deny_by 60 1 now "requests_per_minute" (clean_minute w now).minute,
    fits-check_daily w,
    fits-check_daily (clean_minute w now),
  )

  pub fits_minute :
      (w : SlidingWindow)
      → ltb_ℤ (pos 0) limit.requests_per_minute ≡ true
      → is_allowed (check_window limit now w).1 ≡ true
      → ltb_ℤ (pos (countb (recent (sub_ℕ now 60)) w.minute)) limit.requests_per_minute ≡ true
  unfolding check_window clean_minute
  fits_minute w h a = ground (
    arith,
    not_allowed-deny_by 60 1 now "requests_per_minute" (clean_minute w now).minute,
    countb-filterb_older now now 60 60 w.minute,
  )
