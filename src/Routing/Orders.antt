-- ===== src/Routing/Orders.antt =====
-- gorouter/internal/routing/router.go: the orders in which `SelectProvidersForModel` lists the providers, by what is
-- compared under each strategy.
use yi_api_proxy.Base.{
  ℕ, ◌≤◌, ◌≡◌, refl, sym, ◌∙◌, subst, String, str_eq, eq_iff, Bool, true, false, List, [], ◌∷◌, ◌⊎◌,
  inl, inr, if◌then◌else◌, ◌||◌, ltb, All, Bool-cases, arith,
}
use yi_api_proxy.Base.Int.{ℤ, ltb_ℤ, ◌≤ℤ◌}
use yi_api_proxy.Db.Types.{ProviderConnection, Model}
use yi_api_proxy.Routing.Sorting.{Less, Ordered}
use yi_api_proxy.Routing.Select.{
  higher_priority, lower_latency, cheaper, get_provider_cost, less_of,
}

-- Each entry is in this relation to every later one.
abbrev pub Pairwise :
    (ProviderConnection → ProviderConnection → Type 0) → List ProviderConnection → Type 0
Pairwise R [] = Unit
Pairwise R (x ∷ xs) = All (λ y. R x y) xs × Pairwise R xs

-- For `latency` the measured latencies do not fall, for `cost` the costs for the model do not fall, and for any other
-- strategy the priorities do not rise; that is so for `tier` too, whatever the tiers are.
abbrev pub IsOrderedFor : String → List Model → String → List ProviderConnection → Type 0
IsOrderedFor strat models model_id ps =
    (strat ≡ "latency" × Pairwise (λ x y. x.last_latency_ms ≤ℤ y.last_latency_ms) ps)
    ⊎ ((strat ≡ "cost"
          × Pairwise
              (λ x y. get_provider_cost x models model_id ≤ get_provider_cost y models model_id) ps)
        ⊎ ((strat ≡ "latency" → ⊥)
            × (strat ≡ "cost" → ⊥)
            × Pairwise (λ x y. y.priority ≤ℤ x.priority) ps))

not_less : (a b : ℤ) → ltb_ℤ a b ≡ false → b ≤ℤ a
not_less a b e = ground arith

not_cheaper : (a b : ℕ) → ltb a b ≡ false → b ≤ a
not_cheaper a b e = ground arith

module _ (less : Less) (R : ProviderConnection → ProviderConnection → Type 0)
    (right : (x y : ProviderConnection) → less y x ≡ false → R x y) where
  All-later :
      (x : ProviderConnection) (ys : List ProviderConnection)
      → All (λ y. less y x ≡ false) ys
      → All (λ y. R x y) ys
  All-later x [] a = tt
  All-later x (y ∷ ys) a = (right x y a.0, All-later x ys a.1)

  Ordered-Pairwise : (ps : List ProviderConnection) → Ordered less ps → Pairwise R ps
  Ordered-Pairwise [] o = tt
  Ordered-Pairwise (p ∷ ps) o = (All-later p ps o.0, Ordered-Pairwise ps o.1)

module _ (models : List Model) (model_id : String) (ps : List ProviderConnection) where
  by_latency_lem :
      Ordered (less_of "latency" models model_id) ps
      → Pairwise (λ x y. x.last_latency_ms ≤ℤ y.last_latency_ms) ps
  by_latency_lem o =
      Ordered-Pairwise lower_latency _ (λ x y e. not_less y.last_latency_ms x.last_latency_ms e) ps
        o

  by_cost_lem :
      Ordered (less_of "cost" models model_id) ps
      → Pairwise
          (λ x y. get_provider_cost x models model_id ≤ get_provider_cost y models model_id)
          ps
  by_cost_lem o =
      Ordered-Pairwise (cheaper models model_id) _
        (λ x y e.
          not_cheaper (get_provider_cost y models model_id) (get_provider_cost x models model_id) e)
        ps o

  by_priority_lem : Ordered higher_priority ps → Pairwise (λ x y. y.priority ≤ℤ x.priority) ps
  by_priority_lem o =
      Ordered-Pairwise higher_priority _ (λ x y e. not_less x.priority y.priority e) ps o

  other_strategy :
      (strat : String)
      → str_eq strat "latency" ≡ false
      → str_eq strat "cost" ≡ false
      → less_of strat models model_id ≡ higher_priority
  other_strategy strat l c =
      rw (l, c)
        (same (str_eq strat "priority" || str_eq strat "fallback") (str_eq strat "weighted"))
    where
      same :
          (a b : Bool)
          → (if a then higher_priority else if b then higher_priority else higher_priority)
            ≡ higher_priority
      same true b = refl
      same false true = refl
      same false false = refl

  is_not : (s t : String) → str_eq s t ≡ false → s ≡ t → ⊥
  is_not s t e h = clash (sym ((eq_iff s t).1 h) ∙ e)
    where
      clash : true ≡ false → ⊥
      clash g = cc

  pub less_of-IsOrderedFor :
      (strat : String)
      → Ordered (less_of strat models model_id) ps
      → IsOrderedFor strat models model_id ps
  less_of-IsOrderedFor strat o = elim (Bool-cases (str_eq strat "latency")) [
    | inl l ↦
        let is : strat ≡ "latency" = (eq_iff strat "latency").0 l in
        inl (is, by_latency_lem (subst (λ s. Ordered (less_of s models model_id) ps) is o))
    | inr l ↦ elim (Bool-cases (str_eq strat "cost")) [
      | inl c ↦
          let is : strat ≡ "cost" = (eq_iff strat "cost").0 c in
          inr (inl (is, by_cost_lem (subst (λ s. Ordered (less_of s models model_id) ps) is o)))
      | inr c ↦ inr (
          inr (
            is_not strat "latency" l,
            is_not strat "cost" c,
            by_priority_lem (subst (λ f. Ordered f ps) (other_strategy strat l c) o),
          ))
    ]
  ]
