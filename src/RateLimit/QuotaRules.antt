-- ===== src/RateLimit/QuotaRules.antt =====
-- gorouter/internal/middleware/ratelimit.go: when `checkQuota` refuses, and what the middleware answers.
use yi_api_proxy.Base.{
  ℕ, ◌≡◌, refl, String, str_eq, Bool, true, false, not, none, some, ltb, if◌then◌else◌, ◌&&◌, ◌||◌,
  arith, Bool-cases, inl, inr,
}
use yi_api_proxy.Base.Int.{ℤ, pos, ltb_ℤ, leb_ℤ, ◌≤ℤ◌}
use yi_api_proxy.Db.Types.{Quota}
use yi_api_proxy.RateLimit.Window.{Decision, allow, deny, panic, is_allowed}
use yi_api_proxy.RateLimit.Limiter.{
  Reply, failed, found, RateLimiter, Answers, quota_wait, fresh_quota, quota_decision, check_quota,
  check_limits, middleware, too_many, error_code,
}

-- A cap of 0 or less is no cap.
abbrev pub reached : ℤ → ℤ → Bool
reached cap used = ltb_ℤ (pos 0) cap && leb_ℤ cap used

abbrev pub exhausted : Quota → Bool
exhausted q = reached q.monthly_token_cap q.used_tokens || reached q.monthly_cost_cap q.used_cost

allowed-quota_decision :
    (q : Quota) (now : ℕ) → is_allowed (quota_decision q now) ≡ not (exhausted q)
unfolding quota_decision
allowed-quota_decision q now = ground arith

fresh-not_exhausted : (next_month : ℕ) (q : Quota) → exhausted (fresh_quota next_month q) ≡ false
fresh-not_exhausted next_month q = ground arith

allowed_afresh :
    (q : Quota) (now next_month : ℕ) (reset_failed : Bool)
    → is_allowed (if reset_failed then allow else quota_decision (fresh_quota next_month q) now)
      ≡ true
allowed_afresh q now next_month true = refl
allowed_afresh q now next_month false =
    rw (allowed-quota_decision, fresh-not_exhausted next_month q)

-- A user with a quota is let through exactly if the period is over or no positive cap, of tokens or of
-- cost, is reached; a user for whom the database has no quota, or fails, is let through.
pub check_quota_lem :
    (now next_month : ℕ) (q : Quota) (reset_failed : Bool)
    → (is_allowed (check_quota now next_month (found (some q)) reset_failed)
        ≡ ltb q.reset_at now || not (exhausted q))
      × (check_quota now next_month (found none) reset_failed ≡ allow)
      × (check_quota now next_month failed reset_failed ≡ allow)
unfolding check_quota
check_quota_lem now next_month q reset_failed = (
  elim (Bool-cases (ltb q.reset_at now)) [
    | inl over ↦ rw over (allowed_afresh q now next_month reset_failed)
    | inr current ↦ rw current (allowed-quota_decision q now)
  ],
  refl,
  refl,
)

-- A refusal by a quota: its code, and a wait of at least a minute.
abbrev pub IsQuotaRefusal : Decision → Type 0
IsQuotaRefusal allow = Unit
IsQuotaRefusal (deny retry kind) = (error_code kind ≡ "quota_exceeded") × (pos 60 ≤ℤ retry)
IsQuotaRefusal panic = ⊥

quota_wait-bound : (a b : ℕ) → pos 60 ≤ℤ quota_wait a b
quota_wait-bound a b = ground arith

IsQuotaRefusal-quota_decision : (q : Quota) (now : ℕ) → IsQuotaRefusal (quota_decision q now)
unfolding quota_decision
IsQuotaRefusal-quota_decision q now =
    elim (Bool-cases (reached q.monthly_token_cap q.used_tokens)) [
      | inl tokens ↦ rw tokens (refl, quota_wait-bound q.reset_at now)
      | inr below ↦ rw below (elim (Bool-cases (reached q.monthly_cost_cap q.used_cost)) [
        | inl cost ↦ rw cost (refl, quota_wait-bound q.reset_at now)
        | inr fine ↦ rw fine tt
      ])
    ]

IsQuotaRefusal-check_quota :
    (now next_month : ℕ) (reply : Reply Quota) (reset_failed : Bool)
    → IsQuotaRefusal (check_quota now next_month reply reset_failed)
unfolding check_quota
IsQuotaRefusal-check_quota now next_month failed reset_failed = tt
IsQuotaRefusal-check_quota now next_month (found none) reset_failed = tt
IsQuotaRefusal-check_quota now next_month (found (some q)) reset_failed =
    elim (Bool-cases (ltb q.reset_at now)) [
      | inl over ↦ rw over (afresh reset_failed)
      | inr current ↦ rw current (IsQuotaRefusal-quota_decision q now)
    ]
  where
    afresh :
        (b : Bool)
        → IsQuotaRefusal (if b then allow else quota_decision (fresh_quota next_month q) now)
    afresh true = tt
    afresh false = IsQuotaRefusal-quota_decision (fresh_quota next_month q) now

-- With a database, a named user whom the quota refuses gets the error code `quota_exceeded` and a wait
-- of at least a minute, and the limiter stays as it was: neither the rate limits are looked at nor is
-- the request counted.
pub quota_before_rate :
    (rl : RateLimiter) (u : String) (now : ℕ) (a : Answers) (retry : ℤ) (kind : String)
    → rl.cfg.has_db ≡ true
    → str_eq u "" ≡ false
    → check_quota now a.next_month a.quota a.reset_failed ≡ deny retry kind
    → (middleware rl u now a ≡ (rl, too_many retry kind "quota_exceeded")) × (pos 60 ≤ℤ retry)
unfolding middleware check_limits
quota_before_rate rl u now a retry kind db named e =
    let r = rw e at (IsQuotaRefusal-check_quota now a.next_month a.quota a.reset_failed) in
    (simp (named, db, e, r.0), r.1)
