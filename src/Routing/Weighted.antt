-- ===== src/Routing/Weighted.antt =====
-- gorouter/internal/routing/router.go: the strategy `weighted` gives each provider its share.
use yi_api_proxy.Base.{
  ℕ, ◌-◌, ◌≡◌, refl, ap, true, false, List, [], ◌∷◌, ◌++◌, some, All, arith, Bool-cases, inl, inr,
}
use yi_api_proxy.Base.Int.{ℤ, pos, pos_part, ltb_ℤ, ◌≤ℤ◌, ◌+ℤ◌, ◌-ℤ◌}
use yi_api_proxy.Db.Types.{ProviderConnection}
use yi_api_proxy.Routing.Select.{chosen, total_weight, draw, by_weighted}

-- `rng` lies in the share of the provider `p` of the list: behind the weights of those before it, and by
-- less than its own weight.
pub record Share (rng : ℕ) (ps : List ProviderConnection) (p : ProviderConnection) : Type 0 where
  pub before : List ProviderConnection
  pub after : List ProviderConnection
  pub rest : ℕ
  pub place : ps ≡ before ++ p ∷ after
  pub offset : pos rng ≡ total_weight before +ℤ pos rest
  pub inside : ltb_ℤ (pos rest) p.weight ≡ true

abbrev pub NonNegative : List ProviderConnection → Type 0
NonNegative = All (λ p. pos 0 ≤ℤ p.weight)

Share-here :
    (rng : ℕ) (p : ProviderConnection) (ps : List ProviderConnection)
    → ltb_ℤ (pos rng -ℤ p.weight) (pos 0) ≡ true
    → Share rng (p ∷ ps) p
unfolding total_weight
Share-here rng p ps hit = record {
  before = [];
  after = ps;
  rest = rng;
  place = refl;
  offset = ground arith;
  inside = ground arith;
}

shift :
    (w t : ℤ) (a b : ℕ)
    → pos 0 ≤ℤ w
    → ltb_ℤ (pos a -ℤ w) (pos 0) ≡ false
    → pos (a - pos_part w) ≡ t +ℤ pos b
    → pos a ≡ (w +ℤ t) +ℤ pos b
shift w t a b h m e = ground arith

Share-later :
    (rng : ℕ) (p q : ProviderConnection) (ps : List ProviderConnection)
    → pos 0 ≤ℤ p.weight
    → ltb_ℤ (pos rng -ℤ p.weight) (pos 0) ≡ false
    → Share (rng - pos_part p.weight) ps q
    → Share rng (p ∷ ps) q
unfolding total_weight
Share-later rng p q ps n miss share = record {
  before = p ∷ share.before;
  after = share.after;
  rest = share.rest;
  place = ap (λ xs. p ∷ xs) share.place;
  offset = shift p.weight (total_weight share.before) rng share.rest n miss share.offset;
  inside = share.inside;
}

less_left :
    (a : ℕ) (w t : ℤ)
    → ltb_ℤ (pos a) (w +ℤ t) ≡ true
    → ltb_ℤ (pos a -ℤ w) (pos 0) ≡ false
    → pos 0 ≤ℤ w
    → (pos a -ℤ w ≡ pos (a - pos_part w)) × (ltb_ℤ (pos (a - pos_part w)) t ≡ true)
less_left a w t h miss n = ground arith

draw-Share :
    (rng : ℕ) (ps : List ProviderConnection)
    → NonNegative ps
    → ltb_ℤ (pos rng) (total_weight ps) ≡ true
    → (p : ProviderConnection) × (draw (pos rng) ps ≡ some p) × Share rng ps p
unfolding draw total_weight
draw-Share rng [] n h = absurd (ground arith)
draw-Share rng (p ∷ ps) n h = elim (Bool-cases (ltb_ℤ (pos rng -ℤ p.weight) (pos 0))) [
  | inl hit ↦ (p, rw hit, Share-here rng p ps hit)
  | inr miss ↦
      let left = less_left rng p.weight (total_weight ps) h miss n.0 in
      let (q, found, share) = draw-Share (rng - pos_part p.weight) ps n.1 left.1 in
      (q, rw (miss, left.0) found, Share-later rng p q ps n.0 miss share)
]

-- For weights that are not negative, each number below their total makes the strategy `weighted` pick
-- the provider in whose share the number lies: one at whose place in the list the weights before it sum
-- to at most that number, by less than its own weight. There is no panic.
pub by_weighted-Share :
    (rng : ℕ) (ps : List ProviderConnection)
    → NonNegative ps
    → ltb_ℤ (pos rng) (total_weight ps) ≡ true
    → (p : ProviderConnection) × (by_weighted rng ps ≡ chosen p) × Share rng ps p
unfolding by_weighted
by_weighted-Share rng ps n h =
    let (p, found, share) = draw-Share rng ps n h in
    let some_total : ltb_ℤ (pos 0) (total_weight ps) ≡ true = positive (total_weight ps) h in
    (p, rw (some_total, found) refl, share)
  where
    positive : (t : ℤ) → ltb_ℤ (pos rng) t ≡ true → ltb_ℤ (pos 0) t ≡ true
    positive t g = ground arith
