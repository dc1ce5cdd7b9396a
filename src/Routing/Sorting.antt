-- ===== src/Routing/Sorting.antt =====
-- What the router uses of the standard library's `sort.Slice`: an interface with the two things that its
-- documentation promises, and insertion sort (its algorithm on short slices) as an implementation.
use mathlib.Core.List.{Perm}
use mathlib.Core.List.Perm
use yi_api_proxy.Base.{
  ◌≡◌, Bool, true, false, List, [], ◌∷◌, All, if◌then◌else◌, arith, Bool-cases, inl, inr,
}
use yi_api_proxy.Db.Types.{ProviderConnection}

abbrev pub Less : Type 0
Less = ProviderConnection → ProviderConnection → Bool

-- A strict weak order, by its Boolean test.
pub record IsWeakOrder (less : Less) : Type 0 where
  pub asym : (a b : ProviderConnection) → less a b ≡ true → less b a ≡ false
  pub neg_trans :
      (a b c : ProviderConnection) → less a b ≡ false → less b c ≡ false → less a c ≡ false

-- No later entry is less than an earlier one.
abbrev pub Ordered : Less → List ProviderConnection → Type 0
Ordered less [] = Unit
Ordered less (x ∷ xs) = All (λ y. less y x ≡ false) xs × Ordered less xs

pub record Sorter : Type 0 where
  pub sort : Less → List ProviderConnection → List ProviderConnection
  pub sort-perm : (less : Less) (xs : List ProviderConnection) → Perm (sort less xs) xs
  pub sort-Ordered :
      (less : Less) (xs : List ProviderConnection) → IsWeakOrder less → Ordered less (sort less xs)

module _ (less : Less) where
  unfoldable pub insert : ProviderConnection → List ProviderConnection → List ProviderConnection
  insert x [] = x ∷ []
  insert x (y ∷ ys) = let rest = insert x ys in if less x y then x ∷ y ∷ ys else y ∷ rest

  unfoldable pub insertion_sort : List ProviderConnection → List ProviderConnection
  unfolding insert
  insertion_sort [] = []
  insertion_sort (x ∷ xs) = insert x (insertion_sort xs)

  insert-perm :
      (x : ProviderConnection) (ys : List ProviderConnection) → Perm (insert x ys) (x ∷ ys)
  unfolding insert
  insert-perm x [] = Perm.refl (x ∷ [])
  insert-perm x (y ∷ ys) = elim (Bool-cases (less x y)) [
    | inl e ↦ rw e (Perm.refl (x ∷ y ∷ ys))
    | inr e ↦ rw e (Perm.trans (Perm.cons y (insert-perm x ys)) (Perm.swap x y ys))
  ]

  pub insertion_sort-perm : (xs : List ProviderConnection) → Perm (insertion_sort xs) xs
  unfolding insertion_sort
  insertion_sort-perm [] = Perm.refl []
  insertion_sort-perm (x ∷ xs) =
      Perm.trans (insert-perm x (insertion_sort xs)) (Perm.cons x (insertion_sort-perm xs))

  module _ (w : IsWeakOrder less) where
    insert-All :
        (x z : ProviderConnection) (ys : List ProviderConnection)
        → less x z ≡ false
        → All (λ y. less y z ≡ false) ys
        → All (λ y. less y z ≡ false) (insert x ys)
    unfolding insert
    insert-All x z [] h a = (h, tt)
    insert-All x z (y ∷ ys) h a = ground (arith, insert-All x z ys)

    below :
        (x y : ProviderConnection) (ys : List ProviderConnection)
        → less y x ≡ false
        → All (λ z. less z y ≡ false) ys
        → All (λ z. less z x ≡ false) ys
    below x y [] h a = tt
    below x y (z ∷ zs) h a = (w.neg_trans z y x a.0 h, below x y zs h a.1)

    insert-Ordered :
        (x : ProviderConnection) (ys : List ProviderConnection)
        → Ordered less ys
        → Ordered less (insert x ys)
    unfolding insert
    insert-Ordered x [] o = (tt, tt)
    insert-Ordered x (y ∷ ys) o = elim (Bool-cases (less x y)) [
      | inl e ↦ rw e ((w.asym x y e, below x y ys (w.asym x y e) o.0), o)
      | inr e ↦ rw e (insert-All x y ys e o.0, insert-Ordered x ys o.1)
    ]

    pub insertion_sort-Ordered : (xs : List ProviderConnection) → Ordered less (insertion_sort xs)
    unfolding insertion_sort
    insertion_sort-Ordered [] = tt
    insertion_sort-Ordered (x ∷ xs) =
        insert-Ordered x (insertion_sort xs) (insertion_sort-Ordered xs)

unfoldable pub insertion_sorter : Sorter
unfolding insertion_sort
insertion_sorter = record {
  sort = insertion_sort;
  sort-perm = insertion_sort-perm;
  sort-Ordered = λ less xs w. insertion_sort-Ordered less w xs;
}
