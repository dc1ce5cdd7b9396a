-- ===== src/Db/Table.antt =====
-- gorouter/internal/db/dbmanager.go: one map of `jsonStore`, which is nil until a `Create` of its
-- repository makes it. `load` copies the struct and shares the maps, so a write through the copy is a
-- write to the store.
use mathlib.Core.Option
use yi_api_proxy.Base.{
  String, str_eq, ◌≡◌, refl, Option, none, some, List, [], if◌then◌else◌, arith, map,
}
use yi_api_proxy.Base.Assoc.{Assoc, lookup, insert, remove, values, lookup-insert, lookup-remove}

-- `none` is a nil map.
abbrev pub Table : Type 0 → Type 0
Table V = Option (Assoc V)

-- The new table, or a panic: an assignment to an entry of a nil map.
pub data Write (V : Type 0) : Type 0 where
  stored : Table V → Write V
  panic : Write V

module _ {V : Type 0} where
  -- `init` of a repository
  unfoldable pub init : Table V → Table V
  init none = some []
  init (some m) = some m

  -- store.M[id]
  unfoldable pub find_by_id : String → Table V → Option V
  find_by_id id none = none
  find_by_id id (some m) = lookup id m

  -- store.M[id] = v
  unfoldable pub put : String → V → Table V → Write V
  put id v none = panic
  put id v (some m) = stored (some (insert id v m))

  -- delete(store.M, id)
  unfoldable pub delete : String → Table V → Table V
  delete id none = none
  delete id (some m) = some (remove id m)

  -- The values in the order of a `range`.
  unfoldable pub list : Table V → List V
  list none = []
  list (some m) = values m

  -- A write through the pointer in each entry.
  unfoldable pub map_values : (V → V) → Table V → Table V
  map_values f t = Option.map (map (λ e. (e.0, f e.1))) t

  -- What a write leaves behind: a panic leaves the table as it was.
  abbrev pub after : Table V → Write V → Table V
  after t (stored t') = t'
  after t panic = t

  pub find-put :
      (id j : String) (v : V) (m : Assoc V)
      → find_by_id j (after (some m) (put id v (some m)))
        ≡ (if str_eq id j then some v else find_by_id j (some m))
  unfolding find_by_id put
  find-put id j v m = lookup-insert id j v m

  pub find-delete :
      (id j : String) (t : Table V)
      → find_by_id j (delete id t) ≡ (if str_eq id j then none else find_by_id j t)
  unfolding find_by_id delete
  find-delete id j none = ground arith
  find-delete id j (some m) = lookup-remove id j m

  pub put-none : (id : String) (v : V) → after none (put id v none) ≡ none
  unfolding put
  put-none id v = refl

  pub put-some :
      (id : String) (v : V) (m : Assoc V) → put id v (some m) ≡ stored (some (insert id v m))
  unfolding put
  put-some id v m = refl
