-- ===== src/Combo/Decided.antt =====
-- gorouter/internal/combo/combo.go: which item decides the answer of `Execute`.
use yi_api_proxy.Base.{
  ℕ, suc, ◌+◌, ◌≡◌, refl, ap, ◌∙◌, true, false, List, [], ◌∷◌, ◌++◌, some, ◌⊎◌, inl, inr, length,
  arith, Bool-cases,
}
use yi_api_proxy.Db.Types.{ProviderConnection, Combo, ComboItem}
use yi_api_proxy.Db.Table.{Table}
use yi_api_proxy.Combo.Data.{
  ExecuteRequest, Calls, ItemResult, ExecuteResponse, all_failed, decided, decides, answer_of,
}
use yi_api_proxy.Combo.Attempt.{execute_item}
use yi_api_proxy.Combo.Execute.{run_items, execute_items, execute}

module _ {HttpRequest Reply Data : Type 0} (serialize : Reply → Data)
    (calls : ℕ → Calls HttpRequest Reply) (req : ExecuteRequest) where
  -- The result of the item that is tried in attempt `i`, and the table it leaves.
  abbrev pub result_at : ℕ → ComboItem → Table ProviderConnection → ItemResult Data
  result_at i item t = (execute_item serialize (calls i) item req t).0

  abbrev pub table_at : ℕ → ComboItem → Table ProviderConnection → Table ProviderConnection
  table_at i item t = (execute_item serialize (calls i) item req t).1

  -- The table after each of the items was tried, from attempt `i` on.
  abbrev pub tried : ℕ → List ComboItem → Table ProviderConnection → Table ProviderConnection
  tried i [] t = t
  tried i (item ∷ items) t = tried (suc i) items (table_at i item t)

  -- Each of the items failed in a way that lets the next one be tried.
  abbrev pub FellThrough : ℕ → List ComboItem → Table ProviderConnection → Type 0
  FellThrough i [] t = Unit
  FellThrough i (item ∷ items) t =
      (decides (result_at i item t) ≡ false) × FellThrough (suc i) items (table_at i item t)

  -- One item decides, after those before it fell through.
  pub record DecidedBy (i : ℕ) (items : List ComboItem) (t : Table ProviderConnection)
      (out : ExecuteResponse Data × Table ProviderConnection) (count : ℕ) : Type 0 where
    pub earlier : List ComboItem
    pub item : ComboItem
    pub later : List ComboItem
    pub split : items ≡ earlier ++ item ∷ later
    pub fell_through : FellThrough i earlier t
    pub decides_it : decides (result_at (length earlier + i) item (tried i earlier t)) ≡ true
    pub answer : out ≡ (
      decided item
          (result_at (length earlier + i) item (tried i earlier t))
          (length earlier + count),
      table_at (length earlier + i) item (tried i earlier t),
    )

  Outcome : ℕ → ℕ → ComboItem → List ComboItem → Table ProviderConnection → Type 0
  Outcome i count item items t =
      DecidedBy i (item ∷ items) t (run_items serialize calls i count req (item ∷ items) t) count
      ⊎ (FellThrough i (item ∷ items) t
          × (run_items serialize calls i count req (item ∷ items) t
              ≡ (all_failed (length items + count), tried i (item ∷ items) t)))

  head_decides :
      (i count : ℕ) (item : ComboItem) (items : List ComboItem) (t : Table ProviderConnection)
      → decides (result_at i item t) ≡ true
      → DecidedBy i (item ∷ items) t (run_items serialize calls i count req (item ∷ items) t) count
  unfolding run_items
  head_decides i count item items t e =
      let place : 0 + i ≡ i = omega arith in
      let fallbacks : 0 + count ≡ count = omega arith in
      record {
        earlier = [];
        item = item;
        later = items;
        split = refl;
        fell_through = tt;
        decides_it = rw place e;
        answer = rw (place, fallbacks, e) refl;
      }

  run_on :
      (i count : ℕ) (item next : ComboItem) (items : List ComboItem) (t : Table ProviderConnection)
      → decides (result_at i item t) ≡ false
      → run_items serialize calls i count req (item ∷ next ∷ items) t
        ≡ run_items serialize calls (suc i) (suc count) req (next ∷ items) (table_at i item t)
  unfolding run_items
  run_on i count item next items t e = rw e refl

  one_left :
      (i count : ℕ) (item : ComboItem) (t : Table ProviderConnection)
      → decides (result_at i item t) ≡ false
      → run_items serialize calls i count req (item ∷ []) t ≡ (all_failed count, table_at i item t)
  unfolding run_items
  one_left i count item t e = rw e refl

  shift :
      (i count : ℕ) (item next : ComboItem) (items : List ComboItem) (t : Table ProviderConnection)
      → decides (result_at i item t) ≡ false
      → DecidedBy
          (suc i)
          (next ∷ items)
          (table_at i item t)
          (run_items serialize calls (suc i) (suc count) req (next ∷ items) (table_at i item t))
          (suc count)
      → DecidedBy i
          (item ∷ next ∷ items)
          t
          (run_items serialize calls i count req (item ∷ next ∷ items) t)
          count
  shift i count item next items t e d =
      let place : suc (length d.earlier) + i ≡ length d.earlier + suc i = omega arith in
      let fallbacks : suc (length d.earlier) + count ≡ length d.earlier + suc count = omega arith in
      record {
        earlier = item ∷ d.earlier;
        item = d.item;
        later = d.later;
        split = ap (λ rest. item ∷ rest) d.split;
        fell_through = (e, d.fell_through);
        decides_it = rw place d.decides_it;
        answer = run_on i count item next items t e ∙ rw (place, fallbacks) d.answer;
      }

  outcome :
      (i count : ℕ) (item : ComboItem) (items : List ComboItem) (t : Table ProviderConnection)
      → Outcome i count item items t
  unfolding Outcome
  outcome i count item [] t = elim (Bool-cases (decides (result_at i item t))) [
    | inl e ↦ inl (head_decides i count item [] t e)
    | inr e ↦ inr ((e, tt), one_left i count item t e ∙ rw (zero_plus count) refl)
  ]
    where
      zero_plus : (n : ℕ) → 0 + n ≡ n
      zero_plus n = omega arith
  outcome i count item (next ∷ items) t = elim (Bool-cases (decides (result_at i item t))) [
    | inl e ↦ inl (head_decides i count item (next ∷ items) t e)
    | inr e ↦ elim (outcome (suc i) (suc count) next items (table_at i item t)) [
      | inl d ↦ inl (shift i count item next items t e d)
      | inr f ↦ inr (
        (e, f.0),
        run_on i count item next items t e ∙ f.1 ∙ rw (all_but_one (length items) count) refl,
      )
    ]
  ]
    where
      all_but_one : (n m : ℕ) → n + suc m ≡ suc n + m
      all_but_one n m = omega arith

  -- `Execute` on a combo with items: either one item decides, so that every item before it fell
  -- through, each on the table that the one before it left, the answer carries that item's model, success,
  -- response and error, and the fallback count is the number of items before it; or every item fell through,
  -- the answer is `all_providers_failed` and the count is one less than the number of items. The
  -- items after a deciding one are not tried: the table is the one that it left.
  pub execute_decided :
      (combo : Combo) (item : ComboItem) (items : List ComboItem) (t : Table ProviderConnection)
      → combo.items ≡ item ∷ items
      → ((out : ExecuteResponse Data × Table ProviderConnection) × (execute serialize calls
              (some combo)
              req
              t
            ≡ answer_of out)
          × DecidedBy 0 (item ∷ items) t out 0)
        ⊎ (FellThrough 0 (item ∷ items) t
            × (execute serialize calls (some combo) req t
                ≡ answer_of (all_failed (length items), tried 0 (item ∷ items) t)))
  unfolding execute execute_items Outcome
  execute_decided combo item items t e = elim (outcome 0 0 item items t) [
    | inl d ↦ inl (run_items serialize calls 0 0 req (item ∷ items) t, rw e refl, d)
    | inr f ↦ inr (f.0, rw (e, f.1) (rw (plus_zero (length items)) refl))
  ]
    where
      plus_zero : (n : ℕ) → n + 0 ≡ n
      plus_zero n = omega arith
