-- ===== src/RateLimit/History.antt =====
-- gorouter/internal/middleware/ratelimit.go: over a history of calls for one user, whatever mixture of
-- requests, token records and cleanups, no span of 60 seconds (86400) holds more requests let through
-- than the limit of the minute (of the day).
use mathlib.Core.List.{append_assoc, append-nil}
use yi_api_proxy.Base.{
  ℕ, ◌+◌, ◌≤◌, ◌≡◌, refl, true, List, [], ◌∷◌, ◌++◌, countb, countb-append, leb, ◌&&◌, arith,
  Bool-cases, inl, inr, ◌⊎◌,
}
use yi_api_proxy.Base.Int.{ℤ, pos, sub_ℕ, ltb_ℤ, ◌≤ℤ◌}
use yi_api_proxy.Db.Types.{RateLimit}
use yi_api_proxy.RateLimit.Window.{
  SlidingWindow, empty_window, recent, check_window, record_token_usage, sweep, Event, request,
  usage, cleanup, time_of, step, is_allowed, stamp, admitted, Chronological,
}
use yi_api_proxy.RateLimit.Counts.{
  countb-filterb_older, minute-check_window, daily-check_window, fits_day, fits_minute,
}

-- How many of the times lie in the span of `k` seconds that ends at `t`, both ends included.
abbrev pub busy : ℕ → ℕ → List ℕ → ℕ
busy k t xs = countb (λ s. leb s t && leb t (s + k)) xs

busy-le : (k t now : ℕ) (xs : List ℕ) → now ≤ t → busy k t xs ≤ countb (recent (sub_ℕ now k)) xs
busy-le k t now [] h = omega arith
busy-le k t now (x ∷ xs) h = ground (arith, busy-le k t now xs)

module _ (limit : RateLimit) where
  -- The field of the window, the length of its span and its limit.
  module _ (field : SlidingWindow → List ℕ) (k : ℕ) (cap : ℤ) (positive : ltb_ℤ (pos 0) cap ≡ true)
      (counts : (w : SlidingWindow) (e : Event) (x : ℕ)
        → time_of e ≤ x
        → countb (recent (sub_ℕ x k)) (field (step limit w e))
          ≡ countb (recent (sub_ℕ x k)) (field w) + countb (recent (sub_ℕ x k)) (stamp limit w e))
      (fits : (w : SlidingWindow) (e : Event)
        → (stamp limit w e ≡ [])
          ⊎ ((stamp limit w e ≡ time_of e ∷ [])
              × (ltb_ℤ (pos (countb (recent (sub_ℕ (time_of e) k)) (field w))) cap ≡ true))) where
    busy-stamp :
        (w : SlidingWindow) (e : Event) (past : List ℕ) (t : ℕ)
        → countb (recent (sub_ℕ (time_of e) k)) (field w)
          ≡ countb (recent (sub_ℕ (time_of e) k)) past
        → pos (busy k t past) ≤ℤ cap
        → pos (busy k t (past ++ stamp limit w e)) ≤ℤ cap
    busy-stamp w e past t agree within = elim (fits w e) [
      | inl none_let_in ↦ rw (none_let_in, append-nil) within
      | inr (one, room) ↦ rw (one, countb-append) (ground (arith, busy-le k t (time_of e) past))
    ]

    busy-admitted :
        (past : List ℕ) (w : SlidingWindow) (start : ℕ) (es : List Event)
        → ((x : ℕ)
            → start ≤ x
            → countb (recent (sub_ℕ x k)) (field w) ≡ countb (recent (sub_ℕ x k)) past)
        → ((t : ℕ) → pos (busy k t past) ≤ℤ cap)
        → Chronological start es
        → (t : ℕ) → pos (busy k t (past ++ admitted limit w es)) ≤ℤ cap
    unfolding admitted
    busy-admitted past w start [] agree within order t = rw append-nil (within t)
    busy-admitted past w start (e ∷ es) agree within order t = rw (← append_assoc) (
        busy-admitted (past ++ stamp limit w e) (step limit w e) (time_of e) es
          (λ x h. rw (countb-append) (omega (arith, counts w e x h, agree x (omega arith))))
          (λ u. busy-stamp w e past u (agree (time_of e) order.0) (within u)) order.1 t)

  counts_minute :
      (w : SlidingWindow) (e : Event) (x : ℕ)
      → time_of e ≤ x
      → countb (recent (sub_ℕ x 60)) (step limit w e).minute
        ≡ countb (recent (sub_ℕ x 60)) w.minute + countb (recent (sub_ℕ x 60)) (stamp limit w e)
  unfolding step record_token_usage sweep
  counts_minute w (request now) x h = ground (
    arith,
    minute-check_window limit now w x,
    countb-append (recent (sub_ℕ x 60)) w.minute (now ∷ []),
  )
  counts_minute w (usage count now) x h = omega arith
  counts_minute w (cleanup now) x h = ground (arith, countb-filterb_older now x 86400 60 w.minute)

  counts_day :
      (w : SlidingWindow) (e : Event) (x : ℕ)
      → time_of e ≤ x
      → countb (recent (sub_ℕ x 86400)) (step limit w e).daily
        ≡ countb (recent (sub_ℕ x 86400)) w.daily
          + countb (recent (sub_ℕ x 86400)) (stamp limit w e)
  unfolding step record_token_usage sweep
  counts_day w (request now) x h = ground (
    arith,
    daily-check_window limit now w x,
    countb-append (recent (sub_ℕ x 86400)) w.daily (now ∷ []),
  )
  counts_day w (usage count now) x h = omega arith
  counts_day w (cleanup now) x h = ground (arith, countb-filterb_older now x 86400 86400 w.daily)

  stamp_fits_minute :
      (positive : ltb_ℤ (pos 0) limit.requests_per_minute ≡ true) (w : SlidingWindow) (e : Event)
      → (stamp limit w e ≡ [])
        ⊎ ((stamp limit w e ≡ time_of e ∷ [])
            × (ltb_ℤ
                  (pos (countb (recent (sub_ℕ (time_of e) 60)) w.minute))
                  limit.requests_per_minute
                ≡ true))
  stamp_fits_minute positive w (request now) =
      elim (Bool-cases (is_allowed (check_window limit now w).1)) [
        | inl let_in ↦ inr (rw let_in, fits_minute limit now w positive let_in)
        | inr denied ↦ inl (rw denied)
      ]
  stamp_fits_minute positive w (usage count now) = inl refl
  stamp_fits_minute positive w (cleanup now) = inl refl

  stamp_fits_day :
      (positive : ltb_ℤ (pos 0) limit.requests_per_day ≡ true) (w : SlidingWindow) (e : Event)
      → (stamp limit w e ≡ [])
        ⊎ ((stamp limit w e ≡ time_of e ∷ [])
            × (ltb_ℤ
                  (pos (countb (recent (sub_ℕ (time_of e) 86400)) w.daily))
                  limit.requests_per_day
                ≡ true))
  stamp_fits_day positive w (request now) =
      elim (Bool-cases (is_allowed (check_window limit now w).1)) [
        | inl let_in ↦ inr (rw let_in, fits_day limit now w positive let_in)
        | inr denied ↦ inl (rw denied)
      ]
  stamp_fits_day positive w (usage count now) = inl refl
  stamp_fits_day positive w (cleanup now) = inl refl

  -- For a positive limit of the minute, a window that starts empty and events in the order of their
  -- times, each span of 60 seconds with both its ends, wherever it lies, holds at most that many of
  -- the requests that were let through.
  pub minute_limit_holds :
      (start : ℕ) (es : List Event)
      → ltb_ℤ (pos 0) limit.requests_per_minute ≡ true
      → Chronological start es
      → (t : ℕ) → pos (busy 60 t (admitted limit empty_window es)) ≤ℤ limit.requests_per_minute
  minute_limit_holds start es positive order t =
      busy-admitted (λ w. w.minute) 60 limit.requests_per_minute positive counts_minute
        (stamp_fits_minute positive) [] empty_window start es (λ x h. refl) (λ u. ground arith)
        order t

  -- For a positive limit of the day, a window that starts empty and events in the order of their times,
  -- each span of 86400 seconds with both its ends holds at most that many of the requests that were let
  -- through.
  pub day_limit_holds :
      (start : ℕ) (es : List Event)
      → ltb_ℤ (pos 0) limit.requests_per_day ≡ true
      → Chronological start es
      → (t : ℕ) → pos (busy 86400 t (admitted limit empty_window es)) ≤ℤ limit.requests_per_day
  day_limit_holds start es positive order t =
      busy-admitted (λ w. w.daily) 86400 limit.requests_per_day positive counts_day
        (stamp_fits_day positive) [] empty_window start es (λ x h. refl) (λ u. ground arith) order t
