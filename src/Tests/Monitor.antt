-- ===== src/Tests/Monitor.antt =====
-- gorouter/internal/provider/health.go: runs on a store with one connection.
use yi_api_proxy.Base.{
  ℕ, ◌+◌, ◌≡◌, refl, sym, ap, ◌∙◌, String, str_eq, List, [], ◌∷◌, Option, none, some, Bool, true,
  false, inl, inr, Bool-cases,
}
use yi_api_proxy.Base.Assoc.{lookup}
use yi_api_proxy.Db.Types.{ProviderConnection}
use yi_api_proxy.Db.Table.{Table, find_by_id, after}
use yi_api_proxy.Db.Providers.{mark_cooldown, cooled_down}
use yi_api_proxy.Db.Providers.Laws.{IsKeyed, stamped}
use yi_api_proxy.Routing.Select.{is_available}
use yi_api_proxy.Health.{Probe, answered, Verdict, failure, success, record_verdict}
use yi_api_proxy.Health.Rounds.{IsKept}
use yi_api_proxy.Health.Recovery.{ticks, cooldown_never_ends}
use yi_api_proxy.Health.Failures.{record_all, third_failure_cools}
use yi_api_proxy.Tests.Samples.{connection}

abbrev pub store : Table ProviderConnection
store = some (("a", connection "a" 1 3) ∷ [])

abbrev id_test : String → Option ProviderConnection → Bool
id_test id none = true
id_test id (some p) = str_eq p.id id

pub store-IsKeyed : IsKeyed store
unfolding find_by_id lookup
store-IsKeyed = record {
  key = λ id p h. elim (Bool-cases (str_eq "a" id)) [
    | inl hit ↦
        let same : some (connection "a" 1 3) ≡ some p = rw hit at h in
        ap (id_test id) (sym same) ∙ hit
    | inr miss ↦ let gone : none ≡ some p = rw miss at h in cc
  ];
}

store-IsKept : IsKept store
unfolding lookup
store-IsKept = (refl, refl, tt)

abbrev healthy : ProviderConnection → ℕ × Probe
healthy p = (500, answered 200 35)

cooldown_never_ends_example :
    (find_by_id "a" (
        ticks (healthy ∷ healthy ∷ []) (after store (mark_cooldown 100 "a" 130 "HTTP 500: " store)))
      ≡ some (stamped 100 (cooled_down 100 130 "HTTP 500: " (connection "a" 1 3))))
    × (is_available 900 (stamped 100 (cooled_down 100 130 "HTTP 500: " (connection "a" 1 3)))
        ≡ false)
unfolding find_by_id lookup
cooldown_never_ends_example =
    cooldown_never_ends 100 130 900 "a" "HTTP 500: " (connection "a" 1 3) store
      (healthy ∷ healthy ∷ []) store-IsKept refl

abbrev ups_and_downs : List (ℕ × Verdict)
ups_and_downs =
    (100, failure "HTTP 500")
    ∷ (200, success 35)
    ∷ (300, failure "HTTP 502")
    ∷ (400, success 30)
    ∷ []

third_failure_cools_example :
    ((record_all ups_and_downs (connection "a" 1 3)).status ≡ "active")
    × ((record_verdict 500
          (failure "HTTP 500")
          (record_all ups_and_downs (connection "a" 1 3))).status
        ≡ "cooldown")
    × ((record_verdict 500
          (failure "HTTP 500")
          (record_all ups_and_downs (connection "a" 1 3))).cooldown_until
        ≡ some (500 + 180))
    × (is_available 999
          (record_verdict 500 (failure "HTTP 500") (record_all ups_and_downs (connection "a" 1 3)))
        ≡ false)
third_failure_cools_example =
    third_failure_cools ups_and_downs 0 500 999 "HTTP 500" (connection "a" 1 3) refl refl refl
