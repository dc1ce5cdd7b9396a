-- ===== src/RateLimit/Users.antt =====
-- gorouter/internal/middleware/ratelimit.go: the limiter's users do not disturb one another, the cache
-- serves a limit until its expiry, and a cleanup is not seen by any later call.
use mathlib.Core.Path.{◌≡⟨◌⟩◌, ◌∎}
use yi_api_proxy.Base.{
  ℕ, ◌+◌, ◌<◌, ◌≤◌, ◌≡◌, ◌≢◌, refl, sym, ap, ◌∙◌, String, str_eq, true, false, [], ◌∷◌, Option,
  none, some, if◌then◌else◌, arith, eq_iff, eq_refl, Bool-cases, inl, inr,
}
use yi_api_proxy.Base.Int.{ℤ}
use yi_api_proxy.Base.Assoc.{Assoc, lookup, lookup-insert, Unique}
use yi_api_proxy.Db.Types.{RateLimit}
use yi_api_proxy.RateLimit.Window.{
  SlidingWindow, empty_window, Decision, allow, deny, panic, check_window, sweep, is_empty_window,
}
use yi_api_proxy.RateLimit.Cleanup.{check_window-sweep}
use yi_api_proxy.RateLimit.Limiter.{
  Reply, failed, found, RateLimiter, CachedLimit, Answers, check_quota, usable, load_limit,
  pick_limit, get_limit, get_window, put_window, or_empty, check_rate, after_quota, check_limits,
  record_tokens, keep_cached, sweep_windows, cleanup_all,
}

window-get_limit :
    (rl : RateLimiter) (u : String) (now : ℕ) (reply : Reply RateLimit)
    → (get_limit rl u now reply).0.window ≡ rl.window
unfolding get_limit
window-get_limit rl u now failed = ground arith
window-get_limit rl u now (found none) = ground arith
window-get_limit rl u now (found (some limit)) = ground arith

get_window-put :
    (rl : RateLimiter) (u v : String) (w : SlidingWindow)
    → get_window (put_window rl u w) v ≡ (if str_eq u v then w else get_window rl v)
unfolding get_window
get_window-put rl u v w = rw lookup-insert (ground arith)

get_window-get_limit :
    (rl : RateLimiter) (u v : String) (now : ℕ) (reply : Reply RateLimit)
    → get_window (get_limit rl u now reply).0 v ≡ get_window rl v
unfolding get_window
get_window-get_limit rl u v now reply = rw (window-get_limit rl u now reply)

window-check_rate :
    (rl : RateLimiter) (u v : String) (now : ℕ) (reply : Reply RateLimit)
    → get_window (check_rate rl u now reply).0 v ≡ (
        if str_eq u v
        then (check_window (get_limit rl u now reply).1 now (get_window rl u)).0
        else get_window rl v)
unfolding check_rate
window-check_rate rl u v now reply =
    rw
      (get_window-put, get_window-get_limit rl u u now reply, get_window-get_limit rl u v now reply)

decision-check_rate :
    (rl : RateLimiter) (u : String) (now : ℕ) (reply : Reply RateLimit)
    → (check_rate rl u now reply).1
      ≡ (check_window (get_limit rl u now reply).1 now (get_window rl u)).1
unfolding check_rate
decision-check_rate rl u now reply = rw (get_window-get_limit rl u u now reply)

module _ (rl : RateLimiter) (u : String) (now : ℕ) (answers : Answers) where
  -- What the quota says first.
  abbrev quota_first : Decision
  quota_first =
      if rl.cfg.has_db
      then check_quota now answers.next_month answers.quota answers.reset_failed
      else allow

  window-after_quota :
      (d : Decision) (v : String)
      → str_eq u v ≡ false
      → get_window (after_quota d rl u now answers).0 v ≡ get_window rl v
  unfolding after_quota
  window-after_quota allow v h = rw (window-check_rate, h)
  window-after_quota (deny retry kind) v h = refl
  window-after_quota panic v h = refl

-- A call of `checkLimits` or of `RecordTokenUsage` for one user leaves the window of every other user
-- as it was, whatever the database answers.
pub other_users_untouched :
    (rl : RateLimiter) (u v : String) (now : ℕ) (answers : Answers) (count : ℤ)
    → u ≢ v
    → (get_window (check_limits rl u now answers).0 v ≡ get_window rl v)
      × (get_window (record_tokens rl u count now) v ≡ get_window rl v)
unfolding check_limits record_tokens
other_users_untouched rl u v now answers count h =
    let apart : str_eq u v ≡ false = ground (arith, eq_iff u v) in
    (
      window-after_quota rl u now answers (quota_first rl u now answers) v apart,
      rw (get_window-put, apart),
    )

-- A cached limit is served while it has not expired, whatever the database says by then, and once it has
-- expired the database's answer is served.
pub cached_until_expiry :
    (rl : RateLimiter) (u : String) (now later : ℕ) (limit other : RateLimit)
    (reply : Reply RateLimit)
    → rl.cfg.has_db ≡ true
    → usable now (lookup u rl.cache) ≡ none
    → let rl' = (get_limit rl u now (found (some limit))).0 in
      (later < now + rl.cfg.cache_ttl → (get_limit rl' u later reply).1 ≡ limit)
      × (now + rl.cfg.cache_ttl ≤ later → (get_limit rl' u later (found (some other))).1 ≡ other)
unfolding get_limit
cached_until_expiry rl u now later limit other reply db miss =
    rw (miss, db)
      (
        λ h. rw (lookup-insert, eq_refl) (ground arith),
        λ h. rw (lookup-insert, eq_refl) (ground arith),
      )

lookup-keep_cached :
    (c now : ℕ) (u : String) (m : Assoc CachedLimit)
    → c ≤ now
    → Unique m
    → usable now (lookup u (keep_cached c m)) ≡ usable now (lookup u m)
unfolding keep_cached lookup
lookup-keep_cached c now u [] h q = refl
lookup-keep_cached c now u ((k, x) ∷ m) h q =
    ground (arith, eq_iff k u, lookup-keep_cached c now u m)

sweep_empty : (c : ℕ) → sweep empty_window c ≡ empty_window
unfolding sweep
sweep_empty c = refl

empty_if : (w : SlidingWindow) → is_empty_window w ≡ true → w ≡ empty_window
empty_if w h = ground arith

or_empty-sweep_windows :
    (c : ℕ) (u : String) (m : Assoc SlidingWindow)
    → Unique m
    → or_empty (lookup u (sweep_windows c m)) ≡ sweep (or_empty (lookup u m)) c
unfolding sweep_windows lookup
or_empty-sweep_windows c u [] q = sym (sweep_empty c)
or_empty-sweep_windows c u ((k, w) ∷ m) q = elim (Bool-cases (is_empty_window (sweep w c))) [
  | inl gone ↦ rw gone (elim (Bool-cases (str_eq k u)) [
    | inl hit ↦
        rw (hit, or_empty-sweep_windows c u m q.1)
          (rw
            (lookup u m
              ≡⟨ ap (λ j. lookup j m) (sym ((eq_iff k u).0 hit)) ⟩ lookup k m
              ≡⟨ q.0 ⟩ none ∎)
            (sweep_empty c ∙ sym (empty_if (sweep w c) gone)))
    | inr miss ↦ rw miss (or_empty-sweep_windows c u m q.1)
  ])
  | inr stays ↦ rw stays (elim (Bool-cases (str_eq k u)) [
    | inl hit ↦ rw hit
    | inr miss ↦ rw miss (or_empty-sweep_windows c u m q.1)
  ])
]

module _ (rl : RateLimiter) (c now : ℕ) (past : c ≤ now) (cached : Unique rl.cache)
    (windows : Unique rl.window) where
  get_window-cleanup_all :
      (u : String) → get_window (cleanup_all rl c) u ≡ sweep (get_window rl u) c
  unfolding get_window cleanup_all
  get_window-cleanup_all u = or_empty-sweep_windows c u rl.window windows

  limit-load_limit :
      (u : String) (reply : Reply RateLimit)
      → (load_limit (cleanup_all rl c) u now reply).1 ≡ (load_limit rl u now reply).1
  unfolding load_limit cleanup_all
  limit-load_limit u failed = refl
  limit-load_limit u (found none) = refl
  limit-load_limit u (found (some limit)) = refl

  limit-pick_limit :
      (u : String) (reply : Reply RateLimit) (o : Option RateLimit)
      → (pick_limit (cleanup_all rl c) u now reply o).1 ≡ (pick_limit rl u now reply o).1
  unfolding pick_limit cleanup_all
  limit-pick_limit u reply (some limit) = refl
  limit-pick_limit u reply none = limit-load_limit u (if rl.cfg.has_db then reply else found none)

  limit-cleanup_all :
      (u : String) (reply : Reply RateLimit)
      → (get_limit (cleanup_all rl c) u now reply).1 ≡ (get_limit rl u now reply).1
  unfolding get_limit
  limit-cleanup_all u reply =
      rw (kept u) (limit-pick_limit u reply (usable now (lookup u rl.cache)))
    where
      kept :
          (v : String)
          → usable now (lookup v (cleanup_all rl c).cache) ≡ usable now (lookup v rl.cache)
      kept v = unfold cleanup_all in lookup-keep_cached c now v rl.cache past cached

  decision-cleanup_all :
      (u : String) (reply : Reply RateLimit)
      → (check_rate (cleanup_all rl c) u now reply).1 ≡ (check_rate rl u now reply).1
  decision-cleanup_all u reply =
      rw
        (
          decision-check_rate,
          decision-check_rate,
          limit-cleanup_all u reply,
          get_window-cleanup_all u,
        )
        (check_window-sweep (get_limit rl u now reply).1 now c (get_window rl u) past)

  decision-after_quota :
      (d : Decision) (u : String) (answers : Answers)
      → (after_quota d (cleanup_all rl c) u now answers).1 ≡ (after_quota d rl u now answers).1
  unfolding after_quota
  decision-after_quota allow u answers = decision-cleanup_all u answers.limit
  decision-after_quota (deny retry kind) u answers = refl
  decision-after_quota panic u answers = refl

-- A tick of `cleanupLoop`, which drops expired limits, old entries and empty windows, changes the decision
-- of no call of `checkLimits` that is not earlier than the tick, for any user, wait and named limit
-- included, whatever the database answers, where in both maps of the limiter no key stands twice.
pub cleanup_unseen :
    (rl : RateLimiter) (c now : ℕ) (u : String) (answers : Answers)
    → c ≤ now
    → Unique rl.cache
    → Unique rl.window
    → (check_limits (cleanup_all rl c) u now answers).1 ≡ (check_limits rl u now answers).1
unfolding check_limits cleanup_all
cleanup_unseen rl c now u answers past cached windows =
    decision-after_quota rl c now past cached windows (quota_first rl u now answers) u answers
