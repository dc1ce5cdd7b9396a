-- ===== src/Combo/Skipped.antt =====
-- gorouter/internal/combo/combo.go: a connection that failed is not tried again while it cools down.
use yi_api_proxy.Base.{
  ℕ, ◌+◌, String, str_eq, eq_iff, eq_refl, ◌≡◌, refl, sym, ap, ◌∙◌, true, false, some, ◌⊎◌, inl,
  inr, arith, Bool-cases, ltb, ◌<◌,
}
use yi_api_proxy.Db.Types.{ProviderConnection, ComboItem}
use yi_api_proxy.Db.Table.{Table, find_by_id, after}
use yi_api_proxy.Db.Providers.{cooled_down, mark_cooldown}
use yi_api_proxy.Db.Providers.Laws.{IsKeyed, stamped, find-mark_cooldown}
use yi_api_proxy.Combo.Data.{
  ExecuteRequest, Calls, ItemResult, backoff_of, mark_cooldown_for, is_cooling, fell,
}
use yi_api_proxy.Combo.Attempt.{attempt, execute_item}
use yi_api_proxy.Base.Text.{◌+++◌}
use yi_api_proxy.Combo.Effects.{
  Effect, unwritten, marked, cleared_it, attempt-Effect, backoff_of_bounds,
}

cooled_down-is_cooling :
    (now until any : ℕ) (message : String) (p : ProviderConnection)
    → any < until
    → (is_cooling any (stamped now (cooled_down now until message p)) ≡ true)
      × ((stamped now (cooled_down now until message p)).name ≡ p.name)
cooled_down-is_cooling now until any message p h =
    let early : ltb any until ≡ true = ground arith in
    elim (Bool-cases (str_eq p.tier "")) [ inl e ↦ rw e (early, refl) | inr e ↦ rw e (early, refl) ]

-- The answer of an attempt on a connection that cools down.
abbrev pub skipped :
    {Data : Type 0}
    → ProviderConnection
    → Table ProviderConnection
    → ItemResult Data × Table ProviderConnection
skipped p t = (fell true "provider_cooldown" ("provider " +++ p.name +++ " is in cooldown"), t)

module _ {HttpRequest Reply Data : Type 0} (serialize : Reply → Data) where
  attempt_cooling :
      (calls : Calls HttpRequest Reply) (item : ComboItem) (req : ExecuteRequest)
      (p : ProviderConnection) (t : Table ProviderConnection)
      → find_by_id item.provider_id t ≡ some p
      → is_cooling calls.now p ≡ true
      → execute_item serialize calls item req t ≡ skipped p t
  unfolding execute_item attempt
  attempt_cooling calls item req p t e c = rw (e, c) refl

  module _ (now : ℕ) (p : ProviderConnection) (t : Table ProviderConnection)
      (calls : Calls HttpRequest Reply) (item : ComboItem) (req : ExecuteRequest) (k : IsKeyed t)
      (e : find_by_id item.provider_id t ≡ some p) (soon : calls.now < now + 30) where
    marked_is_skipped :
        (message : String)
        → execute_item serialize calls item req (mark_cooldown_for now p message t)
          ≡ skipped p (mark_cooldown_for now p message t)
    unfolding mark_cooldown_for
    marked_is_skipped message =
        let until = now + backoff_of p.backoff_level in
        let bounds = backoff_of_bounds p.backoff_level p.backoff_level in
        let q = stamped now (cooled_down now until message p) in
        let cold = cooled_down-is_cooling now until calls.now message p (omega (arith, bounds.0)) in
        let same : p.id ≡ item.provider_id =
          (eq_iff p.id item.provider_id).0 (k.key item.provider_id p e) in
        let own : find_by_id p.id t ≡ some p = ap (λ i. find_by_id i t) same ∙ e in
        let found : find_by_id item.provider_id (after t (mark_cooldown now p.id until message t))
            ≡ some q =
          find-mark_cooldown now until p.id message t k item.provider_id p own
          ∙ rw (same, eq_refl item.provider_id) refl in
        attempt_cooling calls item req q (after t (mark_cooldown now p.id until message t)) found
          cold.0
        ∙ rw cold.1 refl

  later_is_skipped :
      (calls calls' : Calls HttpRequest Reply) (item item' : ComboItem) (req' : ExecuteRequest)
      (p : ProviderConnection) (t : Table ProviderConnection)
      (o : ItemResult Data × Table ProviderConnection)
      → IsKeyed t
      → find_by_id item.provider_id t ≡ some p
      → item'.provider_id ≡ item.provider_id
      → calls'.now < calls.later + 30
      → o.0.success ≡ false
      → Effect calls.later p t o
      → (o.1 ≡ t) ⊎ (execute_item serialize calls' item' req' o.1 ≡ skipped p o.1)
  later_is_skipped calls calls' item item' req' p t o k e same soon f (unwritten r g) = inl refl
  later_is_skipped calls calls' item item' req' p t o k e same soon f (marked r message g h) = inr (
      marked_is_skipped calls.later p t calls' item' req' k (ap (λ i. find_by_id i t) same ∙ e) soon
        message)
  later_is_skipped calls calls' item item' req' p t o k e same soon f (cleared_it r g) =
      absurd (clash (sym g ∙ f))
    where
      clash : true ≡ false → ⊥
      clash h = cc

  executed :
      (calls : Calls HttpRequest Reply) (item : ComboItem) (req : ExecuteRequest)
      (p : ProviderConnection) (t : Table ProviderConnection)
      → find_by_id item.provider_id t ≡ some p
      → Effect calls.later p t (execute_item serialize calls item req t)
  unfolding execute_item
  executed calls item req p t e = rw e (attempt-Effect serialize calls p t item req)

  -- In a keyed table: where an attempt on a connection of the table fails, it left the table as it was, or
  -- every attempt on the same connection that begins less than 30 seconds after the write is answered with
  -- `provider_cooldown` and leaves the table alone, whatever its adapter or the server would have done.
  pub failed_provider_skipped :
      (calls calls' : Calls HttpRequest Reply) (item item' : ComboItem) (req req' : ExecuteRequest)
      (p : ProviderConnection) (t : Table ProviderConnection)
      → IsKeyed t
      → find_by_id item.provider_id t ≡ some p
      → item'.provider_id ≡ item.provider_id
      → calls'.now < calls.later + 30
      → (execute_item serialize calls item req t).0.success ≡ false
      → ((execute_item serialize calls item req t).1 ≡ t)
        ⊎ (execute_item serialize calls' item' req' (execute_item serialize calls item req t).1
            ≡ skipped p (execute_item serialize calls item req t).1)
  failed_provider_skipped calls calls' item item' req req' p t k e same soon f =
      later_is_skipped calls calls' item item' req' p t (execute_item serialize calls item req t) k
        e same soon f (executed calls item req p t e)
