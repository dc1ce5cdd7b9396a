-- ===== src/Health/Failures.antt =====
-- gorouter/internal/provider/health.go: how `recordFailure` and `recordSuccess` count.
use yi_api_proxy.Base.{
  ℕ, ◌+◌, ◌<◌, String, str_eq, ◌≡◌, refl, ap, ◌∙◌, some, false, List, [], ◌∷◌, arith,
}
use yi_api_proxy.Base.Int.{pos}
use yi_api_proxy.Db.Types.{ProviderConnection}
use yi_api_proxy.Routing.Select.{is_available}
use yi_api_proxy.Health.{Verdict, failure, success, succeeded, failed_once, record_verdict}

-- The verdicts of the probes of one connection, each with its time, the oldest first.
abbrev pub record_all : List (ℕ × Verdict) → ProviderConnection → ProviderConnection
record_all [] p = p
record_all ((now, v) ∷ vs) p = record_all vs (record_verdict now v p)

abbrev pub failures : List (ℕ × Verdict) → ℕ
failures [] = 0
failures ((now, failure m) ∷ vs) = 1 + failures vs
failures ((now, success l) ∷ vs) = failures vs

one_failure :
    (now k : ℕ) (m : String) (p : ProviderConnection)
    → p.backoff_level ≡ pos k
    → k < 2
    → ((record_verdict now (failure m) p).backoff_level ≡ pos (k + 1))
      × ((record_verdict now (failure m) p).status ≡ p.status)
unfolding record_verdict failed_once
one_failure now k m p e h = rw e (ground arith)

one_success :
    (now l : ℕ) (p : ProviderConnection)
    → p.status ≡ "active"
    → ((record_verdict now (success l) p).backoff_level ≡ p.backoff_level)
      × ((record_verdict now (success l) p).status ≡ "active")
unfolding record_verdict succeeded
one_success now l p e =
    let warm : str_eq p.status "cooldown" ≡ false = rw e refl in rw warm (refl, e)

failures_add_up :
    (vs : List (ℕ × Verdict)) (k : ℕ) (p : ProviderConnection)
    → p.status ≡ "active"
    → p.backoff_level ≡ pos k
    → k + failures vs < 3
    → ((record_all vs p).status ≡ "active")
      × ((record_all vs p).backoff_level ≡ pos (k + failures vs))
failures_add_up [] k p a e h = (a, e ∙ ap pos (omega arith))
failures_add_up ((now, failure m) ∷ vs) k p a e h =
    let step = one_failure now k m p e (omega arith) in
    let rest =
      failures_add_up vs (k + 1) (record_verdict now (failure m) p) (step.1 ∙ a) step.0
        (omega arith) in
    (rest.0, rest.1 ∙ ap pos (omega arith))
failures_add_up ((now, success l) ∷ vs) k p a e h =
    let step = one_success now l p a in
    failures_add_up vs k (record_verdict now (success l) p) step.1 (step.0 ∙ e) h

last_failure :
    (now later : ℕ) (m : String) (p : ProviderConnection)
    → p.backoff_level ≡ pos 2
    → ((record_verdict now (failure m) p).status ≡ "cooldown")
      × ((record_verdict now (failure m) p).cooldown_until ≡ some (now + 180))
      × (is_available later (record_verdict now (failure m) p) ≡ false)
unfolding record_verdict failed_once
last_failure now later m p e = rw e (refl, refl, refl)

-- The failures of an active connection add up, whatever the successes between them: where those so far and
-- the level that the connection began at make two, it is still active, and the next failure puts it into
-- cooldown for three minutes, out of the router's reach at every time.
pub third_failure_cools :
    (vs : List (ℕ × Verdict)) (k now later : ℕ) (m : String) (p : ProviderConnection)
    → p.status ≡ "active"
    → p.backoff_level ≡ pos k
    → k + failures vs ≡ 2
    → ((record_all vs p).status ≡ "active")
      × ((record_verdict now (failure m) (record_all vs p)).status ≡ "cooldown")
      × ((record_verdict now (failure m) (record_all vs p)).cooldown_until ≡ some (now + 180))
      × (is_available later (record_verdict now (failure m) (record_all vs p)) ≡ false)
third_failure_cools vs k now later m p a e h =
    let so_far = failures_add_up vs k p a e (omega arith) in
    let last = last_failure now later m (record_all vs p) (so_far.1 ∙ ap pos h) in
    (so_far.0, last.0, last.1, last.2)
