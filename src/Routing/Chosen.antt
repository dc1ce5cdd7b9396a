-- ===== src/Routing/Chosen.antt =====
-- gorouter/internal/routing/router.go: the provider that `SelectProviderForModel` picks may be used.
use mathlib.Core.List.{Mem, Mem-prop, mem-cons, mem-cons_self, not-mem-nil, Perm, mem-cons_of_mem}
use mathlib.Core.List.Perm
use mathlib.Core.Logic.Or
use mathlib.Core.Bool.{Bool-set}
use mathlib.Core.HLevel.{×_prop}
use yi_api_proxy.Base.{
  ℕ, ◌≡◌, ap, ◌∙◌, String, str_eq, Bool, true, false, List, [], ◌∷◌, Option, none, some,
  if◌then◌else◌, ◌&&◌, filterb, findb, arith, Bool-cases, inl, inr,
}
use yi_api_proxy.Base.Int.{ℤ, pos, ltb_ℤ, ◌-ℤ◌}
use yi_api_proxy.Db.Types.{ProviderConnection, Model}
use yi_api_proxy.Routing.Sorting.{Less, Sorter}
use yi_api_proxy.Routing.Select.{
  listed, Selection, error, nothing, chosen, panic, is_available, higher_priority, better_tier,
  lower_latency, cheaper, eligible, and_then, select_provider_for_model, select_by_strategy,
  by_priority, by_latency, by_cost, by_fallback, by_tier, by_weighted, draw, first, or_first,
  total_weight, cooled,
}
use yi_api_proxy.Routing.Sound.{serves, usable_for, Agrees, eligible-Agrees}

-- What is picked from a list is in it.
abbrev Picks : List ProviderConnection → Selection ProviderConnection → Type 0
Picks ps s = (p : ProviderConnection) → s ≡ chosen p → Mem p ps

first-Picks : (xs ps : List ProviderConnection) → Perm xs ps → Picks ps (first xs)
first-Picks [] ps r p e = cc
first-Picks (x ∷ xs) ps r p e =
    let here : x ≡ p = ground arith in (Perm.mem_iff r).0 (rw (← here) mem-cons_self)

draw-Mem :
    (rng : ℤ) (ps : List ProviderConnection) (p : ProviderConnection)
    → draw rng ps ≡ some p
    → Mem p ps
unfolding draw
draw-Mem rng [] p e = cc
draw-Mem rng (x ∷ ps) p e = elim (Bool-cases (ltb_ℤ (rng -ℤ x.weight) (pos 0))) [
  | inl hit ↦ let here : x ≡ p = ground arith in rw (← here) mem-cons_self
  | inr miss ↦ mem-cons_of_mem x (draw-Mem (rng -ℤ x.weight) ps p (ground arith))
]

findb-Mem :
    (f : ProviderConnection → Bool) (ps : List ProviderConnection) (p : ProviderConnection)
    → findb f ps ≡ some p
    → Mem p ps
findb-Mem f [] p e = cc
findb-Mem f (x ∷ ps) p e = elim (Bool-cases (f x)) [
  | inl hit ↦ let here : x ≡ p = ground arith in rw (← here) mem-cons_self
  | inr miss ↦ mem-cons_of_mem x (findb-Mem f ps p (ground arith))
]

or_first-Picks :
    (xs ps : List ProviderConnection) (o : Option ProviderConnection)
    → Perm xs ps
    → ((p : ProviderConnection) → o ≡ some p → Mem p xs)
    → Picks ps (or_first xs o)
or_first-Picks xs ps none r m p e = first-Picks xs ps r p e
or_first-Picks xs ps (some q) r m p e = (Perm.mem_iff r).0 (m p (ground arith))

if-Picks :
    (b : Bool) (ps : List ProviderConnection) (s t : Selection ProviderConnection)
    → Picks ps s
    → Picks ps t
    → Picks ps (if b then s else t)
if-Picks true ps s t hs ht = hs
if-Picks false ps s t hs ht = ht

panic-Picks : (ps : List ProviderConnection) → Picks ps panic
panic-Picks ps p e = cc

-- A filtered list holds only entries of the list that pass the test.
Mem-filterb :
    (f : ProviderConnection → Bool) (ps : List ProviderConnection) (p : ProviderConnection)
    → Mem p (filterb f ps)
    → Mem p ps × (f p ≡ true)
Mem-filterb f [] p m = absurd (not-mem-nil m)
Mem-filterb f (x ∷ ps) p m = elim (Bool-cases (f x)) [
  | inl hit ↦
      Or.elim (×_prop Mem-prop (Bool-set _ _)) (mem-cons.0 (rw hit at m))
        (λ e. (rw e mem-cons_self, ap f e ∙ hit))
        (λ rest. let r = Mem-filterb f ps p rest in (mem-cons_of_mem x r.0, r.1))
  | inr miss ↦ let r = Mem-filterb f ps p (rw miss at m) in (mem-cons_of_mem x r.0, r.1)
]

module _ (sorter : Sorter) where
  sorted-Picks :
      (less : Less) (ps : List ProviderConnection) → Picks ps (first (sorter.sort less ps))
  sorted-Picks less ps = first-Picks (sorter.sort less ps) ps (sorter.sort-perm less ps)

  by_latency-Picks : (ps : List ProviderConnection) → Picks ps (by_latency sorter ps)
  unfolding by_latency
  by_latency-Picks ps =
      or_first-Picks (sorter.sort lower_latency ps) ps _ (sorter.sort-perm lower_latency ps)
        (findb-Mem (λ p. ltb_ℤ (pos 0) p.last_latency_ms) (sorter.sort lower_latency ps))

  by_weighted-Picks : (rng : ℕ) (ps : List ProviderConnection) → Picks ps (by_weighted rng ps)
  unfolding by_weighted
  by_weighted-Picks rng ps =
      if-Picks (ltb_ℤ (pos 0) (total_weight ps)) ps _ _
        (or_first-Picks ps ps (draw (pos rng) ps) Perm.rfl (draw-Mem (pos rng) ps))
        (if-Picks (ltb_ℤ (total_weight ps) (pos 0)) ps panic _ (panic-Picks ps)
          (first-Picks ps ps Perm.rfl))

  by_cost-Picks :
      (models : Option (List Model)) (id : String) (ps : List ProviderConnection)
      → Picks ps (by_cost sorter models id ps)
  unfolding by_cost
  by_cost-Picks none id ps = first-Picks ps ps Perm.rfl
  by_cost-Picks (some models) id ps = sorted-Picks (cheaper models id) ps

  strategy-Picks :
      (strat : String) (rng : ℕ) (models : Option (List Model)) (id : String)
      (ps : List ProviderConnection)
      → Picks ps (select_by_strategy sorter strat rng models id ps)
  unfolding select_by_strategy by_priority by_fallback by_tier
  strategy-Picks strat rng models id [] = λ p e. cc
  strategy-Picks strat rng models id (p ∷ ps) =
      if-Picks (str_eq strat "priority") _ _ _ (sorted-Picks higher_priority (p ∷ ps)) (
        if-Picks (str_eq strat "weighted") _ _ _ (by_weighted-Picks rng (p ∷ ps)) (
          if-Picks (str_eq strat "latency") _ _ _ (by_latency-Picks (p ∷ ps)) (
            if-Picks (str_eq strat "cost") _ _ _ (by_cost-Picks models id (p ∷ ps)) (
              if-Picks (str_eq strat "fallback") _ _ _ (sorted-Picks higher_priority (p ∷ ps)) (
                if-Picks (str_eq strat "tier") _ _ _ (sorted-Picks better_tier (p ∷ ps))
                  (sorted-Picks higher_priority (p ∷ ps)))))))

  module _ (strat : String) (rng : ℕ) (later : Option (List Model)) (id : String)
      (xs : List ProviderConnection) (p : ProviderConnection) where
    chosen_among :
        (s : Selection (List ProviderConnection))
        → Agrees xs s
        → and_then s (select_by_strategy sorter strat rng later id) ≡ chosen p
        → Mem p xs
    chosen_among s a e = from xs s a e
      where
        from :
            (ys : List ProviderConnection) (t : Selection (List ProviderConnection))
            → Agrees ys t
            → and_then t (select_by_strategy sorter strat rng later id) ≡ chosen p
            → Mem p ys
        from [] error g h = cc
        from [] nothing g h = cc
        from [] (chosen zs) g h = absurd g
        from [] panic g h = cc
        from (y ∷ ys) t g h = strategy-Picks strat rng later id (y ∷ ys) p (rw g at h)

  -- The provider that `SelectProviderForModel` picks, whatever the strategy, the random number and the
  -- sorter, is one of the database's, has the status `active`, has no cooldown or one that is over, and
  -- offers an enabled model of the name asked for.
  pub routed_provider_usable :
      (strat : String) (rng now : ℕ) (later : Option (List Model)) (id : String)
      (models : List Model) (providers : List ProviderConnection) (p : ProviderConnection)
      → select_provider_for_model sorter strat rng now later id (listed models) (listed providers)
        ≡ chosen p
      → Mem p providers
        × (str_eq p.status "active" ≡ true)
        × (cooled now p.cooldown_until ≡ true)
        × (serves models id p ≡ true)
  unfolding select_provider_for_model
  routed_provider_usable strat rng now later id models providers p e =
      let inside =
        chosen_among strat rng later id (usable_for now models id providers) p
          (eligible now id (listed models) (listed providers))
          (eligible-Agrees now models id providers) e in
      let (mem, ok) =
        Mem-filterb (λ q. is_available now q && serves models id q) providers p inside in
      let parts =
        all_true (str_eq p.status "active") (cooled now p.cooldown_until) (serves models id p) ok in
      (mem, parts.0, parts.1, parts.2)
    where
      all_true : (a b c : Bool) → ((a && b) && c) ≡ true → (a ≡ true) × (b ≡ true) × (c ≡ true)
      all_true a b c h = ground arith
