-- ===== src/Tests/Routes.antt =====
-- gorouter/internal/routing/router.go: runs on two connections.
use yi_api_proxy.Base.{◌≡◌, refl, str_eq, List, [], ◌∷◌, none, true, arith}
use mathlib.Core.List.{Mem}
use yi_api_proxy.Db.Types.{ProviderConnection, Model}
use yi_api_proxy.Routing.Sorting.{insertion_sorter, insertion_sort, insert}
use yi_api_proxy.Routing.Select.{
  by_priority, by_weighted, total_weight, chosen, listed, cooled, select_provider_for_model,
  select_providers_for_model, select_by_strategy, eligible, eligible_among, candidates_of,
  target_provider_ids,
}
use yi_api_proxy.Routing.Weighted.{Share, by_weighted-Share}
use yi_api_proxy.Routing.Orders.{IsOrderedFor}
use yi_api_proxy.Routing.Sound.{serves, usable_for, IsFallbackOrder, fallback_order}
use yi_api_proxy.Routing.Chosen.{routed_provider_usable}
use yi_api_proxy.Tests.Samples.{connection, gpt_on, two_connections}

abbrev models : List Model
models = gpt_on "a" ∷ gpt_on "b" ∷ []

by_weighted-Share_example :
    (p : ProviderConnection) × (by_weighted 3 two_connections ≡ chosen p)
    × Share 3 two_connections p
unfolding total_weight
by_weighted-Share_example = by_weighted-Share 3 two_connections (ground arith) refl

fallback_order_example :
    IsFallbackOrder
      (IsOrderedFor "cost" models "gpt-4o")
      (usable_for 10 models "gpt-4o" two_connections)
      (select_providers_for_model insertion_sorter "cost" 10 models "gpt-4o"
        (listed models)
        (listed two_connections))
fallback_order_example =
    fallback_order insertion_sorter "cost" 10 models "gpt-4o" models two_connections

routed_provider_usable_example :
    Mem (connection "b" 5 1) two_connections
    × (str_eq "active" "active" ≡ true)
    × (cooled 10 none ≡ true)
    × (serves models "gpt-4o" (connection "b" 5 1) ≡ true)
unfolding select_provider_for_model select_by_strategy by_priority eligible eligible_among
    candidates_of target_provider_ids insertion_sorter insertion_sort insert
routed_provider_usable_example =
    routed_provider_usable insertion_sorter "priority" 0 10 none "gpt-4o" models two_connections
      (connection "b" 5 1) refl
