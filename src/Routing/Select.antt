-- ===== src/Routing/Select.antt =====
-- gorouter/internal/routing/router.go. The clock, the random number and the repositories' answers are
-- arguments; `sort.Slice` is the parameter `sorter`.
use yi_api_proxy.Base.{
  ℕ, ◌+◌, String, str_eq, Bool, true, List, [], ◌∷◌, Option, none, some, ltb, if◌then◌else◌, ◌&&◌,
  ◌||◌, filterb, findb, anyb, map, ◌==◌,
}
use yi_api_proxy.Base.Int.{ℤ, pos, ltb_ℤ, ◌+ℤ◌, ◌-ℤ◌}
use yi_api_proxy.Db.Types.{ProviderConnection, Model}
use yi_api_proxy.Routing.Sorting.{Less, Sorter}

-- What a repository's list method returns.
pub data Listing {ℓ} (A : Type ℓ) : Type ℓ where
  failed : Listing A
  listed : List A → Listing A

-- The two results of a selecting method: an error, nil with no error, a value; or a panic.
pub data Selection {ℓ} (A : Type ℓ) : Type ℓ where
  error : Selection A
  nothing : Selection A
  chosen : A → Selection A
  panic : Selection A

-- p.Status == "active" && (p.CooldownUntil == nil || now.After(*p.CooldownUntil))
abbrev pub cooled : ℕ → Option ℕ → Bool
cooled now none = true
cooled now (some until) = ltb until now

abbrev pub is_available : ℕ → ProviderConnection → Bool
is_available now p = str_eq p.status "active" && cooled now p.cooldown_until

-- m.ModelID == modelID || m.ModelName == modelID || m.ID == modelID
abbrev pub names_model : String → Model → Bool
names_model model_id m =
    str_eq m.model_id model_id || str_eq m.model_name model_id || str_eq m.id model_id

unfoldable pub target_provider_ids : String → List Model → List String
target_provider_ids model_id models =
    map (λ m. m.provider_id) (filterb (names_model model_id) models)

-- The nested loops over the providers and the ids.
unfoldable pub candidates_of : List String → List ProviderConnection → List ProviderConnection
candidates_of ids providers = filterb (λ p. anyb (λ id. str_eq p.id id) ids) providers

-- Prices are millionths, so 0.1 is 100000.
abbrev pub cost_in : Option Model → ℕ
cost_in none = 100000
cost_in (some m) = m.input_cost_per_1k + m.output_cost_per_1k

unfoldable pub get_provider_cost : ProviderConnection → List Model → String → ℕ
get_provider_cost p models model_id = cost_in (
    findb
      (λ m.
        str_eq m.provider_id p.id && (str_eq m.model_id model_id || str_eq m.model_name model_id))
      models)

abbrev pub higher_priority : Less
higher_priority a b = ltb_ℤ b.priority a.priority

abbrev pub lower_latency : Less
lower_latency a b = ltb_ℤ a.last_latency_ms b.last_latency_ms

abbrev pub cheaper : List Model → String → Less
cheaper models model_id a b =
    ltb (get_provider_cost a models model_id) (get_provider_cost b models model_id)

-- The map `tierOrder`: an unknown tier reads as 0.
abbrev pub tier_order : String → ℕ
tier_order tier = if str_eq tier "cheap" then 1 else if str_eq tier "free" then 2 else 0

abbrev pub better_tier : Less
better_tier a b =
    if tier_order a.tier == tier_order b.tier
    then higher_priority a b
    else ltb (tier_order a.tier) (tier_order b.tier)

-- providers[0]
abbrev pub first : List ProviderConnection → Selection ProviderConnection
first [] = panic
first (p ∷ ps) = chosen p

unfoldable pub total_weight : List ProviderConnection → ℤ
total_weight [] = pos 0
total_weight (p ∷ ps) = p.weight +ℤ total_weight ps

-- `rng -= p.Weight; if rng < 0 { return p }`
unfoldable pub draw : ℤ → List ProviderConnection → Option ProviderConnection
draw rng [] = none
draw rng (p ∷ ps) =
    let rest = draw (rng -ℤ p.weight) ps in if ltb_ℤ (rng -ℤ p.weight) (pos 0) then some p else rest

abbrev pub or_first :
    List ProviderConnection → Option ProviderConnection → Selection ProviderConnection
or_first ps none = first ps
or_first ps (some p) = chosen p

-- `rng` is `rand.Intn(total)`, which panics for a total that is not positive.
unfoldable pub by_weighted : ℕ → List ProviderConnection → Selection ProviderConnection
unfolding draw total_weight
by_weighted rng providers =
    if ltb_ℤ (pos 0) (total_weight providers)
    then or_first providers (draw (pos rng) providers)
    else if ltb_ℤ (total_weight providers) (pos 0)
    then panic
    else first providers

-- The order that `SelectProvidersForModel` gives its result; a nil list of models is an empty one.
abbrev pub less_of : String → List Model → String → Less
less_of strat models model_id =
    if str_eq strat "priority" || str_eq strat "fallback"
    then higher_priority
    else if str_eq strat "weighted"
    then higher_priority
    else if str_eq strat "latency"
    then lower_latency
    else if str_eq strat "cost"
    then cheaper models model_id
    else higher_priority

module _ (sorter : Sorter) where
  unfoldable pub by_priority : List ProviderConnection → Selection ProviderConnection
  by_priority providers = first (sorter.sort higher_priority providers)

  unfoldable pub by_latency : List ProviderConnection → Selection ProviderConnection
  by_latency providers =
      let sorted = sorter.sort lower_latency providers in
      or_first sorted (findb (λ p. ltb_ℤ (pos 0) p.last_latency_ms) sorted)

  -- `none`: the list of models is nil.
  unfoldable pub by_cost :
      Option (List Model) → String → List ProviderConnection → Selection ProviderConnection
  by_cost none model_id providers = first providers
  by_cost (some models) model_id providers = first (sorter.sort (cheaper models model_id) providers)

  unfoldable pub by_fallback : List ProviderConnection → Selection ProviderConnection
  by_fallback providers = first (sorter.sort higher_priority providers)

  unfoldable pub by_tier : List ProviderConnection → Selection ProviderConnection
  by_tier providers = first (sorter.sort better_tier providers)

  -- `strat` is the router's strategy, `models` the enabled models at that moment.
  unfoldable pub select_by_strategy :
      String
      → ℕ
      → Option (List Model)
      → String
      → List ProviderConnection
      → Selection ProviderConnection
  unfolding by_priority by_weighted by_latency by_cost by_fallback by_tier
  select_by_strategy strat rng models model_id [] = nothing
  select_by_strategy strat rng models model_id (p ∷ ps) =
      if str_eq strat "priority"
      then by_priority (p ∷ ps)
      else if str_eq strat "weighted"
      then by_weighted rng (p ∷ ps)
      else if str_eq strat "latency"
      then by_latency (p ∷ ps)
      else if str_eq strat "cost"
      then by_cost models model_id (p ∷ ps)
      else if str_eq strat "fallback"
      then by_fallback (p ∷ ps)
      else if str_eq strat "tier"
      then by_tier (p ∷ ps)
      else by_priority (p ∷ ps)

  -- `if len(active) == 0 { return nil, error }`, then the choice.
  abbrev pub select_active :
      String
      → ℕ
      → Option (List Model)
      → String
      → List ProviderConnection
      → Selection ProviderConnection
  select_active strat rng models model_id [] = error
  select_active strat rng models model_id (p ∷ ps) =
      select_by_strategy strat rng models model_id (p ∷ ps)

  unfoldable pub select_provider :
      String
      → ℕ
      → ℕ
      → Option (List Model)
      → String
      → Listing ProviderConnection
      → Selection ProviderConnection
  unfolding select_by_strategy
  select_provider strat rng now models model_id failed = error
  select_provider strat rng now models model_id (listed []) = nothing
  select_provider strat rng now models model_id (listed (p ∷ ps)) =
      select_active strat rng models model_id (filterb (is_available now) (p ∷ ps))

-- What is common to `SelectProviderForModel` and `SelectProvidersForModel`: the available candidates,
-- at least one, or the early return.
abbrev pub not_empty : List ProviderConnection → Selection (List ProviderConnection)
not_empty [] = error
not_empty (p ∷ ps) = chosen (p ∷ ps)

abbrev pub active_of : ℕ → List ProviderConnection → Selection (List ProviderConnection)
active_of now [] = error
active_of now (p ∷ ps) = not_empty (filterb (is_available now) (p ∷ ps))

unfoldable pub eligible_among :
    ℕ → List String → Listing ProviderConnection → Selection (List ProviderConnection)
unfolding candidates_of
eligible_among now [] providers = error
eligible_among now (id ∷ ids) failed = error
eligible_among now (id ∷ ids) (listed []) = nothing
eligible_among now (id ∷ ids) (listed (p ∷ ps)) = active_of now (candidates_of (id ∷ ids) (p ∷ ps))

unfoldable pub eligible :
    ℕ → String → Listing Model → Listing ProviderConnection → Selection (List ProviderConnection)
unfolding eligible_among target_provider_ids
eligible now model_id failed providers = error
eligible now model_id (listed models) providers =
    eligible_among now (target_provider_ids model_id models) providers

module _ {A B : Type 0} where
  abbrev pub and_then : Selection A → (A → Selection B) → Selection B
  and_then error f = error
  and_then nothing f = nothing
  and_then (chosen a) f = f a
  and_then panic f = panic

module _ (sorter : Sorter) where
  unfoldable pub select_provider_for_model :
      String
      → ℕ
      → ℕ
      → Option (List Model)
      → String
      → Listing Model
      → Listing ProviderConnection
      → Selection ProviderConnection
  unfolding eligible select_by_strategy
  select_provider_for_model strat rng now later model_id models providers =
      and_then (eligible now model_id models providers)
        (select_by_strategy sorter strat rng later model_id)

  -- `later`: the enabled models when the result is sorted by cost.
  unfoldable pub select_providers_for_model :
      String
      → ℕ
      → List Model
      → String
      → Listing Model
      → Listing ProviderConnection
      → Selection (List ProviderConnection)
  unfolding eligible
  select_providers_for_model strat now later model_id models providers =
      and_then (eligible now model_id models providers)
        (λ active. chosen (sorter.sort (less_of strat later model_id) active))
