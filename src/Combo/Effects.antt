-- ===== src/Combo/Effects.antt =====
-- gorouter/internal/combo/combo.go: what attempts change in the table of the providers.
use yi_api_proxy.Base.{
  ℕ, ◌+◌, ◌≤◌, String, str_eq, eq_iff, eq_refl, ◌≡◌, refl, sym, ap, ◌∙◌, true, false, Option, none,
  some, ◌⊎◌, inl, inr, arith, Bool-cases, leb,
}
use yi_api_proxy.Base.Int.{ℤ, ◌≤ℤ◌}
use yi_api_proxy.Db.Types.{ProviderConnection, ComboItem}
use yi_api_proxy.Db.Table.{Table, find_by_id, after}
use yi_api_proxy.Db.Providers.{cleared, clear_cooldown}
use yi_api_proxy.Db.Providers.Laws.{
  IsKeyed, stamped, writes_keep_keys, find-mark_cooldown, find-clear_cooldown,
}
use yi_api_proxy.Routing.Select.{is_available}
use yi_api_proxy.Combo.Data.{
  ExecuteRequest, Calls, ItemResult, backoff_of, mark_cooldown_for, is_cooling, eligible_status,
  timeout_of,
}
use yi_api_proxy.Combo.Attempt.{parsed, answered, translated, decrypted, attempt, execute_item}

-- The cooldown that a failure sets: from half a minute to ten minutes, and no shorter for a higher level.
pub backoff_of_bounds :
    (level higher : ℤ)
    → (30 ≤ backoff_of level)
      × (backoff_of level ≤ 600)
      × (level ≤ℤ higher → backoff_of level ≤ backoff_of higher)
unfolding backoff_of
backoff_of_bounds level higher = ground arith

-- What an attempt on a connection comes to: a failure that writes nothing, a failure that allows a
-- fallback and marks the connection, or a success that clears it.
pub data Effect {Data : Type 0} (later : ℕ) (p : ProviderConnection) (t : Table ProviderConnection)
    : ItemResult Data × Table ProviderConnection → Type 0 where
  unwritten : (r : ItemResult Data) → r.success ≡ false → Effect later p t (r, t)
  marked :
      (r : ItemResult Data) (message : String)
      → r.success ≡ false
      → r.fallback_eligible ≡ true
      → Effect later p t (r, mark_cooldown_for later p message t)
  cleared_it :
      (r : ItemResult Data)
      → r.success ≡ true
      → Effect later p t (r, after t (clear_cooldown later p.id t))

module _ {HttpRequest Reply Data : Type 0} (serialize : Reply → Data)
    (calls : Calls HttpRequest Reply) (p : ProviderConnection) (t : Table ProviderConnection) where
  parsed-Effect : (o : String ⊎ Reply) → Effect calls.later p t (parsed serialize calls.later p t o)
  parsed-Effect (inl err) = unwritten _ refl
  parsed-Effect (inr reply) = cleared_it _ refl

  answered-Effect :
      (o : String ⊎ (ℕ × String)) → Effect calls.later p t (answered serialize calls p t o)
  unfolding answered
  answered-Effect (inl err) = marked _ err refl refl
  answered-Effect (inr (status, body)) = elim (Bool-cases (leb 400 status)) [
    | inl e ↦ elim (Bool-cases (eligible_status status)) [
      | inl f ↦ rw (e, f) (marked _ _ refl refl)
      | inr f ↦ rw (e, f) (unwritten _ refl)
    ]
    | inr e ↦ rw e (parsed-Effect (calls.parse_response p.provider (status, body)))
  ]

  module _ (item : ComboItem) (req : ExecuteRequest) where
    translated-Effect :
        (o : String ⊎ HttpRequest) → Effect calls.later p t (translated serialize calls item p t o)
    translated-Effect (inl err) = unwritten _ refl
    translated-Effect (inr request) = answered-Effect (calls.send (timeout_of item) request)

    decrypted-Effect :
        (o : Option String) → Effect calls.later p t (decrypted serialize calls item req p t o)
    decrypted-Effect none = unwritten _ refl
    decrypted-Effect (some api_key) = translated-Effect _

    pub attempt-Effect : Effect calls.later p t (attempt serialize calls item req t (some p))
    unfolding attempt
    attempt-Effect = elim (Bool-cases (is_cooling calls.now p)) [
      | inl e ↦ rw e (unwritten _ refl)
      | inr e ↦ elim (Bool-cases (calls.has_adapter p.provider)) [
        | inl f ↦ rw (e, f) (decrypted-Effect (calls.decrypt p.encrypted_secret))
        | inr f ↦ rw (e, f) (unwritten _ refl)
      ]
    ]

module _ (id : String) (p : ProviderConnection) (t : Table ProviderConnection) (k : IsKeyed t)
    (e : find_by_id id t ≡ some p) where
  same_id : p.id ≡ id
  same_id = (eq_iff p.id id).0 (k.key id p e)

  at_own : find_by_id p.id t ≡ some p
  at_own = ap (λ i. find_by_id i t) same_id ∙ e

module _ {Data : Type 0} (later : ℕ) (id : String) (p : ProviderConnection)
    (t : Table ProviderConnection) (k : IsKeyed t) (e : find_by_id id t ≡ some p) where
  Effect-IsKeyed :
      (o : ItemResult Data × Table ProviderConnection) → Effect later p t o → IsKeyed o.1
  unfolding mark_cooldown_for
  Effect-IsKeyed o (unwritten r f) = k
  Effect-IsKeyed o (marked r message f g) =
      (writes_keep_keys later (later + backoff_of p.backoff_level) p.id message "" p t k).3
  Effect-IsKeyed o (cleared_it r f) = (writes_keep_keys later later p.id "" "" p t k).4

  Effect-find :
      (j : String) (o : ItemResult Data × Table ProviderConnection)
      → str_eq id j ≡ false
      → Effect later p t o
      → find_by_id j o.1 ≡ find_by_id j t
  unfolding mark_cooldown_for
  Effect-find j o other (unwritten r f) = refl
  Effect-find j o other (marked r message f g) =
      find-mark_cooldown later (later + backoff_of p.backoff_level) p.id message t k j p
        (at_own id p t k e)
      ∙ rw (same_id id p t k e, other) refl
  Effect-find j o other (cleared_it r f) =
      find-clear_cooldown later later p.id "" t k j p (at_own id p t k e)
      ∙ rw (same_id id p t k e, other) refl

  Effect-ready :
      (o : ItemResult Data × Table ProviderConnection)
      → Effect later p t o
      → o.0.success ≡ true
      → find_by_id id o.1 ≡ some (stamped later (cleared p))
  Effect-ready o (unwritten r f) s = absurd (clash (sym f ∙ s))
    where
      clash : false ≡ true → ⊥
      clash h = cc
  Effect-ready o (marked r message f g) s = absurd (clash (sym f ∙ s))
    where
      clash : false ≡ true → ⊥
      clash h = cc
  Effect-ready o (cleared_it r f) s =
      find-clear_cooldown later later p.id "" t k id p (at_own id p t k e)
      ∙ rw (same_id id p t k e, eq_refl id) refl

cleared-is_available :
    (now any : ℕ) (p : ProviderConnection) → is_available any (stamped now (cleared p)) ≡ true
cleared-is_available now any p = elim (Bool-cases (str_eq p.tier "")) [
  | inl e ↦ rw e refl
  | inr e ↦ rw e refl
]

module _ {HttpRequest Reply Data : Type 0} (serialize : Reply → Data) where
  attempt_lem :
      (calls : Calls HttpRequest Reply) (item : ComboItem) (req : ExecuteRequest) (j : String)
      (t : Table ProviderConnection) (o : Option ProviderConnection)
      → IsKeyed t
      → find_by_id item.provider_id t ≡ o
      → IsKeyed (attempt serialize calls item req t o).1
        × (str_eq item.provider_id j ≡ false
            → find_by_id j (attempt serialize calls item req t o).1 ≡ find_by_id j t)
        × ((attempt serialize calls item req t o).0.success ≡ true
            → (p : ProviderConnection) × (o ≡ some p)
              × (find_by_id item.provider_id (attempt serialize calls item req t o).1
                  ≡ some (stamped calls.later (cleared p))))
  unfolding attempt
  attempt_lem calls item req j t none k e = (k, λ other. refl, λ s. absurd (clash s))
    where
      clash : false ≡ true → ⊥
      clash h = cc
  attempt_lem calls item req j t (some p) k e =
      let effect = attempt-Effect serialize calls p t item req in
      (
        Effect-IsKeyed calls.later item.provider_id p t k e
            (attempt serialize calls item req t (some p)) effect,
        λ other.
            Effect-find calls.later item.provider_id p t k e j
              (attempt serialize calls item req t (some p)) other effect,
        λ s. (
          p,
          refl,
          Effect-ready calls.later item.provider_id p t k e
              (attempt serialize calls item req t (some p)) effect s,
        ),
      )

  -- An attempt keeps the table's keys, changes no connection but the one that its item names, and, where it
  -- succeeds, that connection was in the table and is now as `ClearCooldown` leaves it: available to the
  -- router at every time, whatever its status and its cooldown were.
  pub execute_item_effect :
      (calls : Calls HttpRequest Reply) (item : ComboItem) (req : ExecuteRequest) (j : String)
      (any : ℕ) (t : Table ProviderConnection)
      → IsKeyed t
      → IsKeyed (execute_item serialize calls item req t).1
        × (str_eq item.provider_id j ≡ false
            → find_by_id j (execute_item serialize calls item req t).1 ≡ find_by_id j t)
        × ((execute_item serialize calls item req t).0.success ≡ true
            → (p : ProviderConnection) × (find_by_id item.provider_id t ≡ some p)
              × (find_by_id item.provider_id (execute_item serialize calls item req t).1
                  ≡ some (stamped calls.later (cleared p)))
              × (is_available any (stamped calls.later (cleared p)) ≡ true))
  unfolding execute_item
  execute_item_effect calls item req j any t k =
      let all = attempt_lem calls item req j t (find_by_id item.provider_id t) k refl in
      (
        all.0,
        all.1,
        λ s.
            let done = all.2 s in
            (done.0, done.1, done.2, cleared-is_available calls.later any done.0),
      )
