-- ===== src/RateLimit/Recorded.antt =====
-- gorouter/internal/middleware/ratelimit.go: `RecordUsage`, on the quotas of the JSON store.
use yi_api_proxy.Base.{
  ℕ, ◌≡◌, refl, ap, ◌∙◌, String, str_eq, Bool, true, false, none, some, ltb, if◌then◌else◌, findb,
  findb-All, not, ◌||◌,
}
use yi_api_proxy.Base.Int.{ℤ, pos, ◌+ℤ◌, ltb_ℤ, leb_ℤ}
use yi_api_proxy.Base.Assoc.{insert, values}
use yi_api_proxy.Db.Types.{Quota}
use yi_api_proxy.Db.Table.{Table, Write, stored, put, list, after}
use yi_api_proxy.Db.Kept.{KeptTable, findb-insert, Found, values-Found}
use yi_api_proxy.Db.Quotas.{
  find_quota, update, update_found, used_more, increment_usage, init_quotas,
}
use yi_api_proxy.RateLimit.Window.{deny}
use yi_api_proxy.RateLimit.Limiter.{RateLimiter, found, check_quota, quota_decision, quota_wait}

unfoldable pub record_usage : RateLimiter → ℕ → String → ℤ → ℤ → Table Quota → Write Quota
unfolding increment_usage
record_usage rl now user_id tokens cost t =
    if not rl.cfg.has_db || str_eq user_id ""
    then stored t
    else increment_usage now user_id tokens cost t

abbrev pub quota_key : Quota → String
quota_key q = q.id

find-update :
    (user_id : String) (q q' : Quota) (t : Table Quota)
    → KeptTable quota_key t
    → find_quota user_id t ≡ some q
    → q'.id ≡ q.id
    → q'.user_id ≡ q.user_id
    → find_quota user_id (after t (update q' t)) ≡ some q'
unfolding find_quota update put list init_quotas
find-update user_id q q' none k e same owner = absurd (clash e)
  where
    clash : none ≡ some q → ⊥
    clash h = cc
find-update user_id q q' (some m) k e same owner =
    let own : str_eq q.user_id user_id ≡ true =
      findb-All (λ x. str_eq x.user_id user_id) (λ x. str_eq x.user_id user_id ≡ true)
        (Found quota_key m) (values m) q (λ x h f. h) (values-Found quota_key m k) e in
    ap (λ i. findb (λ x. str_eq x.user_id user_id) (values (insert i q' m))) same
    ∙ (findb-insert quota_key (λ x. str_eq x.user_id user_id) q q' m k e (rw owner own))

find-increment_usage :
    (now : ℕ) (user_id : String) (tokens cost : ℤ) (q : Quota) (t : Table Quota)
    → KeptTable quota_key t
    → find_quota user_id t ≡ some q
    → find_quota user_id (after t (increment_usage now user_id tokens cost t))
      ≡ some (used_more now tokens cost q)
unfolding increment_usage
find-increment_usage now user_id tokens cost q t k e =
    ap (λ o. find_quota user_id (after t (update_found (used_more now tokens cost) t o))) e
    ∙ find-update user_id q (used_more now tokens cost q) t k e refl refl

-- In a store that keeps each quota once, under its own id, with a database and a named user who has a
-- quota: the tokens and the cost that `RecordUsage` is given are added to the quota that the store finds
-- for the user, and where the tokens then reach a positive cap within the period, the next check of
-- the quota refuses the user until the period ends, for a minute at least.
pub recorded_usage_counts :
    (rl : RateLimiter) (now later next_month : ℕ) (user_id : String) (tokens cost : ℤ) (q : Quota)
    (t : Table Quota) (reset_failed : Bool)
    → KeptTable quota_key t
    → rl.cfg.has_db ≡ true
    → str_eq user_id "" ≡ false
    → find_quota user_id t ≡ some q
    → (find_quota user_id (after t (record_usage rl now user_id tokens cost t))
        ≡ some (used_more now tokens cost q))
      × (ltb q.reset_at later ≡ false
          → ltb_ℤ (pos 0) q.monthly_token_cap ≡ true
          → leb_ℤ q.monthly_token_cap (q.used_tokens +ℤ tokens) ≡ true
          → check_quota later next_month
              (found (find_quota user_id (after t (record_usage rl now user_id tokens cost t))))
              reset_failed
            ≡ deny (quota_wait q.reset_at later) "monthly_token_quota_exceeded")
unfolding record_usage check_quota quota_decision
recorded_usage_counts rl now later next_month user_id tokens cost q t reset_failed k db named e =
    let stored_now = find-increment_usage now user_id tokens cost q t k e in
    (
      rw (db, named) stored_now,
      λ current capped reached. rw (db, named, stored_now, current, capped, reached) refl,
    )
