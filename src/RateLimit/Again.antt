-- ===== src/RateLimit/Again.antt =====
-- gorouter/internal/middleware/ratelimit.go: the caller that waits as long as it is told.
use yi_api_proxy.Base.{
  ℕ, ◌+◌, ◌≤◌, ◌≡◌, refl, true, List, [], ◌∷◌, countb, filterb, length, arith, All,
}
use yi_api_proxy.Base.Int.{ℤ, pos, sub_ℕ, ltb_ℤ, leb_ℤ}
use yi_api_proxy.Db.Types.{RateLimit}
use yi_api_proxy.RateLimit.Window.{
  SlidingWindow, recent, check_window, clean_minute, deny, deny_by, count_in_window,
}

-- The times are in order and none is after `now`.
abbrev pub InOrder : ℕ → List ℕ → Type 0
InOrder now [] = Unit
InOrder now (x ∷ xs) = (x ≤ now) × All (λ y. x ≤ y) xs × InOrder now xs

filterb-InOrder :
    (c : ℤ) (now : ℕ) (xs : List ℕ) → InOrder now xs → InOrder now (filterb (recent c) xs)
filterb-InOrder c now [] h = tt
filterb-InOrder c now (x ∷ xs) h = ground (arith, filterb-InOrder c now xs h.2, filterb-All xs h.1)
  where
    filterb-All : (ys : List ℕ) → All (λ y. x ≤ y) ys → All (λ y. x ≤ y) (filterb (recent c) ys)
    filterb-All [] g = tt
    filterb-All (y ∷ ys) g = ground (arith, filterb-All ys g.1)

countb-le-length : (c : ℤ) (xs : List ℕ) → countb (recent c) xs ≤ length xs
countb-le-length c [] = omega arith
countb-le-length c (x ∷ xs) = ground (arith, countb-le-length c xs)

leb_mono : (cap : ℤ) (a b : ℕ) → leb_ℤ cap (pos a) ≡ true → a ≤ b → leb_ℤ cap (pos b) ≡ true
leb_mono cap a b h le = ground arith

-- All entries are still counted when the first one has the full age.
All-recent :
    (t : ℕ) (xs : List ℕ)
    → All (λ y. t ≤ y + 60) xs
    → (filterb (recent (sub_ℕ t 60)) xs ≡ xs) × (countb (recent (sub_ℕ t 60)) xs ≡ length xs)
All-recent t [] h = (refl, refl)
All-recent t (x ∷ xs) h = ground (arith, All-recent t xs h.1)

-- One second before the oldest entry leaves the span, all entries are still in it.
full_again :
    (xs : List ℕ) (now k : ℕ)
    → InOrder now xs
    → deny_by 60 1 now "requests_per_minute" xs ≡ deny (pos k) "requests_per_minute"
    → 2 ≤ k
    → (All (λ y. now + k ≤ y + 60) xs)
      × (deny_by 60 1 (now + k) "requests_per_minute" xs ≡ deny (pos 1) "requests_per_minute")
full_again [] now k h e g = cc
full_again (x ∷ xs) now k h e g =
    let age : now + k ≡ x + 60 = ground arith in
    ((omega arith, rest xs h.1 (omega arith)), ground arith)
  where
    rest : (ys : List ℕ) → All (λ y. x ≤ y) ys → now + k ≤ x + 60 → All (λ y. now + k ≤ y + 60) ys
    rest [] a age = tt
    rest (y ∷ ys) a age = (omega arith, rest ys a.1 age)

module _ (limit : RateLimit) (now : ℕ) where
  full_minute :
      (w : SlidingWindow)
      → ltb_ℤ (pos 0) limit.requests_per_minute ≡ true
      → leb_ℤ limit.requests_per_minute (pos (count_in_window (clean_minute w now).minute now 60))
        ≡ true
      → check_window limit now w
        ≡ (clean_minute w now, deny_by 60 1 now "requests_per_minute" (clean_minute w now).minute)
  unfolding check_window
  full_minute w on full = rw (on, full)

-- The wait of a refusal by the limit of the minute falls one second short. If the entries are in order,
-- the minute is full and the wait named is 2 seconds or more, then the caller that waits exactly so
-- long, with no other call in between, is refused again, and told to wait 1 second.
pub retry_refused :
    (limit : RateLimit) (now k : ℕ) (w : SlidingWindow)
    → InOrder now w.minute
    → ltb_ℤ (pos 0) limit.requests_per_minute ≡ true
    → leb_ℤ limit.requests_per_minute (pos (count_in_window (clean_minute w now).minute now 60))
      ≡ true
    → (check_window limit now w).1 ≡ deny (pos k) "requests_per_minute"
    → 2 ≤ k
    → (check_window limit (now + k) (check_window limit now w).0).1
      ≡ deny (pos 1) "requests_per_minute"
unfolding clean_minute count_in_window
retry_refused limit now k w order on full e long =
    let first = full_minute limit now w on full in
    let kept = filterb (recent (sub_ℕ now 60)) w.minute in
    let again =
      full_again kept now k (filterb-InOrder (sub_ℕ now 60) now w.minute order) (rw first at e)
        long in
    let same = All-recent (now + k) kept again.0 in
    rw first (
      rw
        (full_minute limit (now + k) (clean_minute w now) on (
          rw (same.0, same.1)
            (leb_mono limit.requests_per_minute _ _ full (countb-le-length (sub_ℕ now 60) kept))))
        (rw same.0 again.1))
