-- ===== src/Routing/Sound.antt =====
-- gorouter/internal/routing/router.go: what is chosen is available and serves the model, and the
-- fallback order is a sorting of exactly those providers.
use mathlib.Core.List.{Perm}
use yi_api_proxy.Base.{
  ℕ, ◌≡◌, refl, String, str_eq, Bool, true, false, List, [], ◌∷◌, if◌then◌else◌, ◌&&◌, ◌||◌,
  filterb, anyb, arith,
}
use yi_api_proxy.Db.Types.{ProviderConnection, Model}
use yi_api_proxy.Routing.Sorting.{Less, Sorter, IsWeakOrder}
use yi_api_proxy.Routing.Orders.{IsOrderedFor, less_of-IsOrderedFor}
use yi_api_proxy.Routing.Best.{
  higher_priority-IsWeakOrder, lower_latency-IsWeakOrder, cheaper-IsWeakOrder,
}
use yi_api_proxy.Routing.Select.{
  listed, Selection, error, nothing, chosen, panic, is_available, names_model, target_provider_ids,
  candidates_of, less_of, not_empty, active_of, eligible_among, eligible, and_then,
  select_providers_for_model,
}

-- Some model of that name is offered by the provider.
abbrev pub serves : List Model → String → ProviderConnection → Bool
serves models model_id p = anyb (λ m. names_model model_id m && str_eq p.id m.provider_id) models

-- The providers that a request for the model may go to.
abbrev pub usable_for : ℕ → List Model → String → List ProviderConnection → List ProviderConnection
usable_for now models model_id providers =
    filterb (λ p. is_available now p && serves models model_id p) providers

offered :
    (model_id : String) (models : List Model) (p : ProviderConnection)
    → anyb (λ id. str_eq p.id id) (target_provider_ids model_id models) ≡ serves models model_id p
unfolding target_provider_ids
offered model_id [] p = refl
offered model_id (m ∷ ms) p = ground (arith, offered model_id ms p)

candidates-usable_for :
    (now : ℕ) (models : List Model) (model_id : String) (ps : List ProviderConnection)
    → filterb (is_available now) (candidates_of (target_provider_ids model_id models) ps)
      ≡ usable_for now models model_id ps
unfolding candidates_of
candidates-usable_for now models model_id [] = refl
candidates-usable_for now models model_id (p ∷ ps) =
    ground (arith, offered model_id models p, candidates-usable_for now models model_id ps)

-- With no target there is no candidate.
no_target :
    (now : ℕ) (models : List Model) (model_id : String) (ps : List ProviderConnection)
    → target_provider_ids model_id models ≡ []
    → usable_for now models model_id ps ≡ []
no_target now models model_id [] e = refl
no_target now models model_id (p ∷ ps) e =
    ground (arith, offered model_id models p, no_target now models model_id ps e)

abbrev pub IsNotChosen : {A : Type 0} → Selection A → Type 0
IsNotChosen error = Unit
IsNotChosen nothing = Unit
IsNotChosen (chosen a) = ⊥
IsNotChosen panic = ⊥

-- The candidates of the two methods, against the description.
abbrev pub Agrees : List ProviderConnection → Selection (List ProviderConnection) → Type 0
Agrees [] s = IsNotChosen s
Agrees (p ∷ ps) s = s ≡ chosen (p ∷ ps)

active_of-Agrees :
    (now : ℕ) (xs : List ProviderConnection)
    → Agrees (filterb (is_available now) xs) (active_of now xs)
active_of-Agrees now [] = tt
active_of-Agrees now (p ∷ ps) = shape (filterb (is_available now) (p ∷ ps))
  where
    shape : (ys : List ProviderConnection) → Agrees ys (not_empty ys)
    shape [] = tt
    shape (y ∷ ys) = refl

active_of-usable_for :
    (now : ℕ) (models : List Model) (model_id : String) (ids : List String)
    (ps : List ProviderConnection)
    → target_provider_ids model_id models ≡ ids
    → Agrees (usable_for now models model_id ps) (active_of now (candidates_of ids ps))
active_of-usable_for now models model_id ids ps e =
    rw (← e, ← candidates-usable_for now models model_id ps)
      (active_of-Agrees now (candidates_of (target_provider_ids model_id models) ps))

eligible_among-Agrees :
    (now : ℕ) (models : List Model) (model_id : String) (ids : List String)
    (ps : List ProviderConnection)
    → target_provider_ids model_id models ≡ ids
    → Agrees (usable_for now models model_id ps) (eligible_among now ids (listed ps))
unfolding eligible_among
eligible_among-Agrees now models model_id [] ps e = rw (no_target now models model_id ps e) tt
eligible_among-Agrees now models model_id (id ∷ ids) [] e = tt
eligible_among-Agrees now models model_id (id ∷ ids) (p ∷ ps) e =
    active_of-usable_for now models model_id (id ∷ ids) (p ∷ ps) e

pub eligible-Agrees :
    (now : ℕ) (models : List Model) (model_id : String) (ps : List ProviderConnection)
    → Agrees (usable_for now models model_id ps) (eligible now model_id (listed models) (listed ps))
unfolding eligible
eligible-Agrees now models model_id ps =
    eligible_among-Agrees now models model_id (target_provider_ids model_id models) ps refl

if-IsWeakOrder :
    (b : Bool) (f g : Less) → IsWeakOrder f → IsWeakOrder g → IsWeakOrder (if b then f else g)
if-IsWeakOrder true f g wf wg = wf
if-IsWeakOrder false f g wf wg = wg

less_of-IsWeakOrder :
    (strat : String) (models : List Model) (id : String) → IsWeakOrder (less_of strat models id)
less_of-IsWeakOrder strat models id =
    if-IsWeakOrder (str_eq strat "priority" || str_eq strat "fallback") _ _
      higher_priority-IsWeakOrder
      (if-IsWeakOrder (str_eq strat "weighted") _ _ higher_priority-IsWeakOrder (
        if-IsWeakOrder (str_eq strat "latency") _ _ lower_latency-IsWeakOrder (
          if-IsWeakOrder (str_eq strat "cost") _ _ (cheaper-IsWeakOrder models id)
            higher_priority-IsWeakOrder)))

-- What the fallback order must be: nothing if no provider is usable for the model, and else exactly the
-- usable providers, in an order as described.
abbrev pub IsFallbackOrder :
    (List ProviderConnection → Type 0)
    → List ProviderConnection
    → Selection (List ProviderConnection)
    → Type 0
IsFallbackOrder InOrder [] s = IsNotChosen s
IsFallbackOrder InOrder (p ∷ ps) s =
    (ys : List ProviderConnection) × (s ≡ chosen ys) × Perm ys (p ∷ ps) × InOrder ys

module _ (sorter : Sorter) (strat : String) (now : ℕ) (later : List Model) (model_id : String) where
  sorted-IsFallbackOrder :
      (xs : List ProviderConnection) (s : Selection (List ProviderConnection))
      → Agrees xs s
      → IsFallbackOrder
          (IsOrderedFor strat later model_id)
          xs
          (and_then s (λ active. chosen (sorter.sort (less_of strat later model_id) active)))
  sorted-IsFallbackOrder [] error a = tt
  sorted-IsFallbackOrder [] nothing a = tt
  sorted-IsFallbackOrder [] (chosen ys) a = absurd a
  sorted-IsFallbackOrder [] panic a = absurd a
  sorted-IsFallbackOrder (p ∷ ps) s a =
      let less = less_of strat later model_id in
      rw a (
        sorter.sort less (p ∷ ps),
        refl,
        sorter.sort-perm less (p ∷ ps),
        less_of-IsOrderedFor later model_id (sorter.sort less (p ∷ ps)) strat
            (sorter.sort-Ordered less (p ∷ ps) (less_of-IsWeakOrder strat later model_id)),
      )

  -- Where both repositories answer, and by any sorter: if no provider is active, past its cooldown and
  -- offering an enabled model of that name, then `SelectProvidersForModel` returns no list; otherwise it
  -- returns exactly those providers, each as often as the database lists it. For the strategy
  -- `latency` their latencies do not fall, for `cost` their costs for the model do not fall, and for any other,
  -- `tier` too, their priorities do not rise.
  pub fallback_order :
      (models : List Model) (providers : List ProviderConnection)
      → IsFallbackOrder
          (IsOrderedFor strat later model_id)
          (usable_for now models model_id providers)
          (select_providers_for_model sorter strat now later model_id
            (listed models)
            (listed providers))
  unfolding select_providers_for_model
  fallback_order models providers =
      sorted-IsFallbackOrder (usable_for now models model_id providers)
        (eligible now model_id (listed models) (listed providers))
        (eligible-Agrees now models model_id providers)
