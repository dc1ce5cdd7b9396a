-- ===== src/RateLimit/Retry.antt =====
-- gorouter/internal/middleware/ratelimit.go: the wait that a refused caller is told.
use yi_api_proxy.Base.{
  ℕ, ◌+◌, ◌≤◌, ◌≡◌, true, List, [], ◌∷◌, countb, filterb, if◌then◌else◌, arith, Bool-cases, inl,
  inr, All, str_eq,
}
use yi_api_proxy.Base.Int.{ℤ, pos, sub_ℕ, ltb_ℤ, leb_ℤ, ◌≤ℤ◌}
use yi_api_proxy.Db.Types.{RateLimit}
use yi_api_proxy.RateLimit.Window.{
  SlidingWindow, TokenEntry, recent, check_window, check_daily, check_tokens, clean_tokens,
  clean_daily, clean_minute, Decision, allow, deny, panic, deny_by, deny_by_tokens, sum_entries,
  sum_tokens, count_in_window, retry_after,
}

-- The wait that a refusal names, in seconds.
abbrev pub wait_of : Decision → ℤ
wait_of allow = pos 0
wait_of (deny retry kind) = retry
wait_of panic = pos 0

retry_after-bounds :
    (l now first least : ℕ)
    → now ≤ first + l
    → first ≤ now
    → 1 ≤ least
    → least ≤ l
    → (pos 1 ≤ℤ retry_after l now first least) × (retry_after l now first least ≤ℤ pos l)
retry_after-bounds l now first least a b c d = ground arith

-- A refusal names a wait of at least a second and of at most the span of its limit.
abbrev pub IsTimely : Decision → Type 0
IsTimely allow = Unit
IsTimely (deny retry kind) =
    (pos 1 ≤ℤ retry) × (retry ≤ℤ pos (if str_eq kind "requests_per_day" then 86400 else 60))
IsTimely panic = ⊥

-- Entries that are not after `now` and not before the start of a span of `k` seconds.
abbrev Within : ℕ → ℕ → List ℕ → Type 0
Within k now xs = All (λ s. (s ≤ now) × (now ≤ s + k)) xs

filterb-Within :
    (k now : ℕ) (xs : List ℕ)
    → All (λ s. s ≤ now) xs
    → Within k now (filterb (recent (sub_ℕ now k)) xs)
filterb-Within k now [] h = tt
filterb-Within k now (x ∷ xs) h = ground (arith, filterb-Within k now xs h.1)

filterb_tokens-Within :
    (now : ℕ) (es : List TokenEntry)
    → All (λ e. e.timestamp ≤ now) es
    → All
        (λ e. (e.timestamp ≤ now) × (now ≤ e.timestamp + 60))
        (filterb (λ e. recent (sub_ℕ now 60) e.timestamp) es)
filterb_tokens-Within now [] h = tt
filterb_tokens-Within now (e ∷ es) h = ground (arith, filterb_tokens-Within now es h.1)

deny_minute-IsTimely :
    (now : ℕ) (xs : List ℕ) (cap : ℤ)
    → ltb_ℤ (pos 0) cap ≡ true
    → leb_ℤ cap (pos (countb (recent (sub_ℕ now 60)) xs)) ≡ true
    → Within 60 now xs
    → IsTimely (deny_by 60 1 now "requests_per_minute" xs)
deny_minute-IsTimely now [] cap p h v = ground arith
deny_minute-IsTimely now (x ∷ xs) cap p h v =
    retry_after-bounds 60 now x 1 v.0.1 v.0.0 (omega arith) (omega arith)

deny_day-IsTimely :
    (now : ℕ) (xs : List ℕ) (cap : ℤ)
    → ltb_ℤ (pos 0) cap ≡ true
    → leb_ℤ cap (pos (countb (recent (sub_ℕ now 86400)) xs)) ≡ true
    → Within 86400 now xs
    → IsTimely (deny_by 86400 60 now "requests_per_day" xs)
deny_day-IsTimely now [] cap p h v = ground arith
deny_day-IsTimely now (x ∷ xs) cap p h v =
    retry_after-bounds 86400 now x 60 v.0.1 v.0.0 (omega arith) (omega arith)

deny_tokens-IsTimely :
    (now : ℕ) (es : List TokenEntry) (cap : ℤ)
    → ltb_ℤ (pos 0) cap ≡ true
    → leb_ℤ cap (sum_entries (sub_ℕ now 60) es) ≡ true
    → All (λ e. (e.timestamp ≤ now) × (now ≤ e.timestamp + 60)) es
    → IsTimely (deny_by_tokens now es)
unfolding sum_entries
deny_tokens-IsTimely now [] cap p h v = ground arith
deny_tokens-IsTimely now (x ∷ xs) cap p h v =
    retry_after-bounds 60 now x.timestamp 1 v.0.1 v.0.0 (omega arith) (omega arith)

-- No entry of the window is after `now`.
pub record IsPast (now : ℕ) (w : SlidingWindow) : Type 0 where
  pub minute : All (λ s. s ≤ now) w.minute
  pub daily : All (λ s. s ≤ now) w.daily
  pub tokens : All (λ e. e.timestamp ≤ now) w.tokens

module _ (limit : RateLimit) (now : ℕ) where
  check_tokens-IsTimely :
      (w : SlidingWindow)
      → All (λ e. e.timestamp ≤ now) w.tokens
      → IsTimely (check_tokens limit now w).1
  unfolding check_tokens
  check_tokens-IsTimely w h = elim (Bool-cases (ltb_ℤ (pos 0) limit.tokens_per_minute)) [
    | inl on ↦
        rw on
          (elim (Bool-cases
            (leb_ℤ limit.tokens_per_minute (sum_tokens (clean_tokens w now) now 60))) [
              | inl full ↦ rw full (
                  deny_tokens-IsTimely now _ limit.tokens_per_minute on full
                    (filterb_tokens-Within now w.tokens h))
              | inr room ↦ rw room tt
            ])
    | inr off ↦ rw off tt
  ]

  check_daily-IsTimely : (w : SlidingWindow) → IsPast now w → IsTimely (check_daily limit now w).1
  unfolding check_daily clean_daily
  check_daily-IsTimely w h = elim (Bool-cases (ltb_ℤ (pos 0) limit.requests_per_day)) [
    | inl on ↦
        rw on
          (elim (Bool-cases (
            leb_ℤ limit.requests_per_day
              (pos (count_in_window (clean_daily w now).daily now 86400)))) [
                | inl full ↦ rw full (
                    deny_day-IsTimely now _ limit.requests_per_day on full
                      (filterb-Within 86400 now w.daily h.daily))
                | inr room ↦ rw room (check_tokens-IsTimely (clean_daily w now) h.tokens)
              ])
    | inr off ↦ rw off (check_tokens-IsTimely w h.tokens)
  ]

  -- If no entry of the window is after `now`, a request is let through or refused, never a fault, and
  -- a refusal names a wait of 1 to 60 seconds, or of 1 to 86400 for the limit of the day.
  pub check_window-IsTimely :
      (w : SlidingWindow) → IsPast now w → IsTimely (check_window limit now w).1
  unfolding check_window clean_minute
  check_window-IsTimely w h = elim (Bool-cases (ltb_ℤ (pos 0) limit.requests_per_minute)) [
    | inl on ↦
        rw on
          (elim (Bool-cases (
            leb_ℤ limit.requests_per_minute
              (pos (count_in_window (clean_minute w now).minute now 60)))) [
                | inl full ↦ rw full (
                    deny_minute-IsTimely now _ limit.requests_per_minute on full
                      (filterb-Within 60 now w.minute h.minute))
                | inr room ↦ rw room (
                    check_daily-IsTimely (clean_minute w now) (record {
                      minute = keep w.minute h.minute;
                      daily = h.daily;
                      tokens = h.tokens;
                    }))
              ])
    | inr off ↦ rw off (check_daily-IsTimely w h)
  ]
    where
      keep :
          (xs : List ℕ)
          → All (λ s. s ≤ now) xs
          → All (λ s. s ≤ now) (filterb (recent (sub_ℕ now 60)) xs)
      keep [] g = tt
      keep (x ∷ xs) g = ground (arith, keep xs g.1)
