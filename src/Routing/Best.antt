-- ===== src/Routing/Best.antt =====
-- gorouter/internal/routing/router.go: each strategy that sorts picks a best provider, by any sorter.
use mathlib.Core.List.{Mem, mem-cons, mem-cons_self, not-mem-nil, Perm, mem-cons_of_mem}
use mathlib.Core.List.Perm
use mathlib.Core.Logic.Or
use mathlib.Core.Bool.{Bool-set}
use mathlib.Core.HLevel.{×_prop}
use yi_api_proxy.Base.{
  ℕ, ◌≡◌, refl, ap, ◌∙◌, String, Bool, true, false, List, [], ◌∷◌, none, some, All, ltb,
  if◌then◌else◌, ◌==◌, findb, arith, Bool-cases, inl, inr, Option-cases,
}
use yi_api_proxy.Base.Int.{ℤ, pos, ltb_ℤ}
use yi_api_proxy.Db.Types.{ProviderConnection, Model}
use yi_api_proxy.Routing.Sorting.{Less, Sorter, IsWeakOrder, Ordered}
use yi_api_proxy.Routing.Select.{
  Selection, chosen, higher_priority, lower_latency, cheaper, better_tier, tier_order, first,
  or_first, by_priority, by_latency, by_cost, by_fallback, by_tier,
}

pub higher_priority-IsWeakOrder : IsWeakOrder higher_priority
higher_priority-IsWeakOrder = record {
  asym = λ a b h. ground arith;
  neg_trans = λ a b c h g. ground arith;
}

pub lower_latency-IsWeakOrder : IsWeakOrder lower_latency
lower_latency-IsWeakOrder = record {
  asym = λ a b h. ground arith;
  neg_trans = λ a b c h g. ground arith;
}

pub cheaper-IsWeakOrder : (models : List Model) (id : String) → IsWeakOrder (cheaper models id)
cheaper-IsWeakOrder models id = record {
  asym = λ a b h. ground arith;
  neg_trans = λ a b c h g. ground arith;
}

pub better_tier-IsWeakOrder : IsWeakOrder better_tier
better_tier-IsWeakOrder = record {
  asym = λ a b h. tier_asym (tier_order a.tier) (tier_order b.tier) a.priority b.priority h;
  neg_trans = λ a b c h g.
      tier_trans (tier_order a.tier) (tier_order b.tier) (tier_order c.tier) a.priority b.priority
        c.priority h g;
}
  where
    by_tiers : ℕ → ℕ → ℤ → ℤ → Bool
    by_tiers s t p q = if s == t then ltb_ℤ q p else ltb s t

    tier_asym : (s t : ℕ) (p q : ℤ) → by_tiers s t p q ≡ true → by_tiers t s q p ≡ false
    tier_asym s t p q h = ground arith

    tier_trans :
        (s t u : ℕ) (p q r : ℤ)
        → by_tiers s t p q ≡ false
        → by_tiers t u q r ≡ false
        → by_tiers s u p r ≡ false
    tier_trans s t u p q r h g = ground arith

-- One of the providers, and no provider is less than it.
pub record IsBest (less : Less) (ps : List ProviderConnection) (p : ProviderConnection)
    : Type 0 where
  pub member : Mem p ps
  pub least : (q : ProviderConnection) → Mem q ps → less q p ≡ false

All-Mem :
    (P : ProviderConnection → Bool) (b : Bool) (xs : List ProviderConnection)
    → All (λ x. P x ≡ b) xs
    → (q : ProviderConnection) → Mem q xs
    → P q ≡ b
All-Mem P b [] a q m = absurd (not-mem-nil m)
All-Mem P b (x ∷ xs) a q m =
    Or.elim (Bool-set _ _) (mem-cons.0 m) (λ e. ap P e ∙ a.0) (All-Mem P b xs a.1 q)

irrefl : (less : Less) → IsWeakOrder less → (p : ProviderConnection) → less p p ≡ false
irrefl less w p = elim (Bool-cases (less p p)) [ inl e ↦ w.asym p p e | inr e ↦ e ]

head-IsBest :
    (less : Less) (w : IsWeakOrder less) (xs : List ProviderConnection) (p : ProviderConnection)
    → Ordered less (p ∷ xs)
    → IsBest less (p ∷ xs) p
head-IsBest less w xs p o = record {
  member = mem-cons_self;
  least = λ q m.
      Or.elim (Bool-set _ _) (mem-cons.0 m) (λ e. ap (λ x. less x p) e ∙ irrefl less w p)
        (All-Mem (λ y. less y p) false xs o.0 q);
}

IsBest-perm :
    {less : Less} {xs ps : List ProviderConnection} {p : ProviderConnection}
    → Perm xs ps
    → IsBest less xs p
    → IsBest less ps p
IsBest-perm r b = record {
  member = (Perm.mem_iff r).0 b.member;
  least = λ q m. b.least q ((Perm.mem_iff r).1 m);
}

-- What a selecting method owes: a provider, and no worse one than any other.
abbrev pub SelectsBest : Less → List ProviderConnection → Selection ProviderConnection → Type 0
SelectsBest less ps s = (p : ProviderConnection) × (s ≡ chosen p) × IsBest less ps p

first-SelectsBest :
    (less : Less) (xs : List ProviderConnection) (p : ProviderConnection)
    (ps : List ProviderConnection)
    → IsWeakOrder less
    → Perm xs (p ∷ ps)
    → Ordered less xs
    → SelectsBest less (p ∷ ps) (first xs)
first-SelectsBest less [] p ps w r o = absurd (not-mem-nil ((Perm.mem_iff r).1 mem-cons_self))
first-SelectsBest less (x ∷ xs) p ps w r o = (x, refl, IsBest-perm r (head-IsBest less w xs x o))

module _ (sorter : Sorter) (p : ProviderConnection) (ps : List ProviderConnection) where
  sorted_first :
      (less : Less)
      → IsWeakOrder less
      → SelectsBest less (p ∷ ps) (first (sorter.sort less (p ∷ ps)))
  sorted_first less w =
      first-SelectsBest less (sorter.sort less (p ∷ ps)) p ps w (sorter.sort-perm less (p ∷ ps))
        (sorter.sort-Ordered less (p ∷ ps) w)

  -- From one or more providers and by any sorter, the strategies `priority` and `fallback` pick one of
  -- the highest priority, `tier` one of the best tier and in it of the highest priority, and `cost` one
  -- of the lowest cost for the model.
  pub sorted_strategies_best :
      (models : List Model) (model_id : String)
      → SelectsBest higher_priority (p ∷ ps) (by_priority sorter (p ∷ ps))
        × SelectsBest higher_priority (p ∷ ps) (by_fallback sorter (p ∷ ps))
        × SelectsBest better_tier (p ∷ ps) (by_tier sorter (p ∷ ps))
        × SelectsBest
            (cheaper models model_id)
            (p ∷ ps)
            (by_cost sorter (some models) model_id (p ∷ ps))
  unfolding by_priority by_fallback by_tier by_cost
  sorted_strategies_best models model_id = (
    sorted_first higher_priority higher_priority-IsWeakOrder,
    sorted_first higher_priority higher_priority-IsWeakOrder,
    sorted_first better_tier better_tier-IsWeakOrder,
    sorted_first (cheaper models model_id) (cheaper-IsWeakOrder models model_id),
  )

-- A provider whose latency is known.
abbrev pub measured : ProviderConnection → Bool
measured p = ltb_ℤ (pos 0) p.last_latency_ms

-- If the latency of any provider is known, then the choice's is, and it is no longer than that one.
abbrev pub IsFastest : List ProviderConnection → ProviderConnection → Type 0
IsFastest ps p =
    (q : ProviderConnection)
    → Mem q ps
    → measured q ≡ true
    → (measured p ≡ true) × (lower_latency q p ≡ false)

findb-none :
    (xs : List ProviderConnection) → findb measured xs ≡ none → All (λ x. measured x ≡ false) xs
findb-none [] e = tt
findb-none (x ∷ xs) e = ground (arith, findb-none xs)

findb-some :
    (xs : List ProviderConnection) (p : ProviderConnection)
    → Ordered lower_latency xs
    → findb measured xs ≡ some p
    → Mem p xs × IsFastest xs p
findb-some [] p o e = cc
findb-some (x ∷ xs) p o e = elim (Bool-cases (measured x)) [
  | inl hit ↦
      let here : x ≡ p = ground arith in
      rw (← here) (
        mem-cons_self,
        λ q m known. (hit, (head-IsBest lower_latency lower_latency-IsWeakOrder xs x o).least q m),
      )
  | inr miss ↦
      let later = findb-some xs p o.1 (ground arith) in
      (
        mem-cons_of_mem x later.0,
        λ q m known.
            Or.elim (×_prop (Bool-set _ _) (Bool-set _ _)) (mem-cons.0 m) (λ e. cc (ap measured e))
              (λ rest. later.1 q rest known),
      )
]

module _ (sorter : Sorter) (p : ProviderConnection) (ps : List ProviderConnection) where
  -- By any sorter, the strategy `latency` picks one of the providers, and if the latency of any of them
  -- is known, then a provider of known latency that no other such provider undercuts.
  pub by_latency-IsFastest :
      (x : ProviderConnection) × (by_latency sorter (p ∷ ps) ≡ chosen x)
      × Mem x (p ∷ ps)
      × IsFastest (p ∷ ps) x
  unfolding by_latency
  by_latency-IsFastest =
      pick (sorter.sort lower_latency (p ∷ ps)) (sorter.sort-perm lower_latency (p ∷ ps))
        (sorter.sort-Ordered lower_latency (p ∷ ps) lower_latency-IsWeakOrder)
    where
      pick :
          (xs : List ProviderConnection)
          → Perm xs (p ∷ ps)
          → Ordered lower_latency xs
          → (x : ProviderConnection) × (or_first xs (findb measured xs) ≡ chosen x)
            × Mem x (p ∷ ps)
            × IsFastest (p ∷ ps) x
      pick xs r o = elim (Option-cases (findb measured xs)) [
        | inl e ↦
            let b = first-SelectsBest lower_latency xs p ps lower_latency-IsWeakOrder r o in
            (
              b.0,
              rw e b.1,
              b.2.member,
              λ q m known.
                  cc (known, All-Mem measured false xs (findb-none xs e) q ((Perm.mem_iff r).1 m)),
            )
        | inr (x, e) ↦
            let b = findb-some xs x o e in
            (x, rw e refl, (Perm.mem_iff r).0 b.0, λ q m. b.1 q ((Perm.mem_iff r).1 m))
      ]
