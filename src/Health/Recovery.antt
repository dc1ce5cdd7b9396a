-- ===== src/Health/Recovery.antt =====
-- gorouter/internal/provider/health.go: what the monitor's checks make of a connection over time.
use yi_api_proxy.Base.{
  ℕ, String, str_eq, eq_iff, eq_refl, ◌≡◌, refl, sym, ap, ◌∙◌, Option, none, some, Bool, true,
  false, List, [], ◌∷◌, All, All-filterb, Bool-cases, inl, inr,
}
use yi_api_proxy.Base.Assoc.{Assoc, lookup, values}
use yi_api_proxy.Db.Types.{ProviderConnection}
use yi_api_proxy.Db.Table.{Table, find_by_id, list, after}
use yi_api_proxy.Db.Providers.{mark_cooldown, cooled_down}
use yi_api_proxy.Db.Providers.Laws.{stamped, find-mark_cooldown}
use yi_api_proxy.Routing.Select.{is_available}
use yi_api_proxy.Db.Kept.{Found, values-Found}
use yi_api_proxy.Health.{Probe, checked, check_all, tick}
use yi_api_proxy.Health.Rounds.{
  connection_key, IsKept, kept-IsKeyed, mark_cooldown-IsKept, Elsewhere, check_all-IsKept,
  find-check_all,
}

lookup_at :
    (i j : String) (o : Option ProviderConnection) (m : Assoc ProviderConnection)
    → j ≡ i
    → lookup j m ≡ o
    → lookup i m ≡ o
lookup_at i j o m e h = ap (λ k. lookup k m) (sym e) ∙ h

abbrev is_active : Option ProviderConnection → Bool
is_active none = false
is_active (some p) = str_eq p.status "active"

-- The connection under an id is active, or it is not among those that the monitor looks at.
inactive-Elsewhere :
    (id : String) (p q : ProviderConnection) (m : Assoc ProviderConnection)
    → lookup id m ≡ some p
    → str_eq p.status "active" ≡ false
    → str_eq q.status "active" ≡ true
    → Found connection_key m q
    → Elsewhere id q
inactive-Elsewhere id p q m e idle busy found = elim (Bool-cases (str_eq q.id id)) [
  | inl same ↦
      let at_id : lookup id m ≡ some q =
        lookup_at id q.id (some q) m ((eq_iff q.id id).0 same) found in
      let both : some p ≡ some q = sym e ∙ at_id in
      let clash : true ≡ false = sym busy ∙ ap is_active (sym both) ∙ idle in cc
  | inr other ↦ other
]

checked-Elsewhere :
    (id : String) (p : ProviderConnection) (t : Table ProviderConnection)
    → IsKept t
    → find_by_id id t ≡ some p
    → str_eq p.status "active" ≡ false
    → All (Elsewhere id) (checked (list t))
unfolding checked list find_by_id
checked-Elsewhere id p none k e idle = tt
checked-Elsewhere id p (some m) k e idle =
    All-filterb (λ q. str_eq q.status "active") (Elsewhere id) (Found connection_key m) (values m)
      (λ q busy found. inactive-Elsewhere id p q m e idle busy found)
      (values-Found connection_key m k)

-- The rounds of the monitor.
abbrev pub ticks :
    List (ProviderConnection → ℕ × Probe) → Table ProviderConnection → Table ProviderConnection
ticks [] t = t
ticks (probes ∷ rounds) t = ticks rounds (tick probes t)

idle_unchanged :
    (rounds : List (ProviderConnection → ℕ × Probe)) (id : String) (p : ProviderConnection)
    (t : Table ProviderConnection)
    → IsKept t
    → find_by_id id t ≡ some p
    → str_eq p.status "active" ≡ false
    → find_by_id id (ticks rounds t) ≡ some p
unfolding tick
idle_unchanged [] id p t k e idle = e
idle_unchanged (probes ∷ rounds) id p t k e idle =
    idle_unchanged rounds id p (check_all probes (checked (list t)) t)
      (check_all-IsKept probes (checked (list t)) t k)
      (find-check_all id probes (checked (list t)) t k (checked-Elsewhere id p t k e idle) ∙ e) idle

cooled_down-idle :
    (now until : ℕ) (message : String) (p : ProviderConnection)
    → str_eq (stamped now (cooled_down now until message p)).status "active" ≡ false
cooled_down-idle now until message p = elim (Bool-cases (str_eq p.tier "")) [
  | inl e ↦ rw e refl
  | inr e ↦ rw e refl
]

refused_idle :
    (later : ℕ) (p : ProviderConnection)
    → str_eq p.status "active" ≡ false
    → is_available later p ≡ false
refused_idle later p e = rw e refl

-- In a map with one entry for an id, each under its connection's id: a connection that `MarkCooldown` has
-- put into cooldown stays just as that write left it, however many rounds the monitor makes and whatever
-- its probes see, and the router's test of availability refuses it at every later time, past the end
-- of its cooldown as well.
pub cooldown_never_ends :
    (now until later : ℕ) (id message : String) (p : ProviderConnection)
    (t : Table ProviderConnection) (rounds : List (ProviderConnection → ℕ × Probe))
    → IsKept t
    → find_by_id id t ≡ some p
    → (find_by_id id (ticks rounds (after t (mark_cooldown now id until message t)))
        ≡ some (stamped now (cooled_down now until message p)))
      × (is_available later (stamped now (cooled_down now until message p)) ≡ false)
cooldown_never_ends now until later id message p t rounds k e = (
  idle_unchanged rounds id (stamped now (cooled_down now until message p))
      (after t (mark_cooldown now id until message t))
      (mark_cooldown-IsKept now until id message t k)
      (find-mark_cooldown now until id message t (kept-IsKeyed t k) id p e ∙ rw (eq_refl id) refl)
      (cooled_down-idle now until message p),
  refused_idle later (stamped now (cooled_down now until message p))
      (cooled_down-idle now until message p),
)
