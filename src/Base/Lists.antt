-- ===== src/Base/Lists.antt =====
-- Lists measured by native numbers, filtered by Boolean tests, and predicates on their entries.
use Prim.Native.Nat.{ℕ, suc, ◌+◌}
use mathlib.Core.Path.{◌≡◌, refl, ap, subst}
use mathlib.Core.Logic.{◌⊎◌, inl, inr}
use mathlib.Core.Bool.{Bool, true, false}
use mathlib.Core.List.{List, [], ◌∷◌, ◌++◌, map}
use mathlib.Core.Option.{Option, none, some}
use native.Mathlib.Omega.{arith}
use yi_api_proxy.Base.Tests.{if◌then◌else◌, Bool-cases}

module _ {ℓ} {A : Type ℓ} where
  abbrev pub length : List A → ℕ
  length [] = 0
  length (x ∷ xs) = suc (length xs)

  pub length-append : (xs ys : List A) → length (xs ++ ys) ≡ length xs + length ys
  length-append [] ys = omega arith
  length-append (x ∷ xs) ys = omega (arith, length-append xs ys)

  -- The loop `for … { if p(x) { result = append(result, x) } }`.
  abbrev pub filterb : (A → Bool) → List A → List A
  filterb p [] = []
  filterb p (x ∷ xs) = let rest = filterb p xs in if p x then x ∷ rest else rest

  abbrev pub countb : (A → Bool) → List A → ℕ
  countb p [] = 0
  countb p (x ∷ xs) = (if p x then 1 else 0) + countb p xs

  -- The loop `for … { if p(x) { return x } }`.
  abbrev pub findb : (A → Bool) → List A → Option A
  findb p [] = none
  findb p (x ∷ xs) = let rest = findb p xs in if p x then some x else rest

  abbrev pub anyb : (A → Bool) → List A → Bool
  anyb p [] = false
  anyb p (x ∷ xs) = if p x then true else anyb p xs

  pub filterb-append :
      (p : A → Bool) (xs ys : List A) → filterb p (xs ++ ys) ≡ filterb p xs ++ filterb p ys
  filterb-append p [] ys = refl
  filterb-append p (x ∷ xs) ys = ground (arith, filterb-append p xs ys)

  pub countb-append :
      (p : A → Bool) (xs ys : List A) → countb p (xs ++ ys) ≡ countb p xs + countb p ys
  countb-append p [] ys = omega arith
  countb-append p (x ∷ xs) ys = ground (arith, countb-append p xs ys)

  abbrev pub All {κ} : (A → Type κ) → List A → Type κ
  All P [] = Unit
  All P (x ∷ xs) = P x × All P xs

module _ {ℓ} {A : Type ℓ} (f : A → Bool) (P Q : A → Type 0) where
  -- What is kept has passed the test.
  pub All-filterb :
      (xs : List A) → ((x : A) → f x ≡ true → Q x → P x) → All Q xs → All P (filterb f xs)
  All-filterb [] h a = tt
  All-filterb (x ∷ xs) h a = elim (Bool-cases (f x)) [
    | inl e ↦ rw e (h x e a.0, All-filterb xs h a.1)
    | inr e ↦ rw e (All-filterb xs h a.1)
  ]

  pub findb-All :
      (xs : List A) (y : A)
      → ((x : A) → f x ≡ true → Q x → P x)
      → All Q xs
      → findb f xs ≡ some y
      → P y
  findb-All [] y h a e = absurd (none-ne-some e)
    where
      none-ne-some : none ≡ some y → ⊥
      none-ne-some g = cc
  findb-All (x ∷ xs) y h a e = elim (Bool-cases (f x)) [
    | inl hit ↦
        let here : some x ≡ some y = rw hit at e in subst (λ o. OptionAll o) here (h x hit a.0)
    | inr miss ↦ findb-All xs y h a.1 (rw miss at e)
  ]
    where
      OptionAll : Option A → Type 0
      OptionAll none = Unit
      OptionAll (some z) = P z

module _ {ℓ κ} {A : Type ℓ} {B : Type κ} where
  pub length-map : (xs : List A) (f : A → B) → length (map f xs) ≡ length xs
  length-map [] f = refl
  length-map (x ∷ xs) f = ap suc (length-map xs f)

-- An entry, by its place.
abbrev pub In : {A : Type 0} → A → List A → Type 0
In a [] = ⊥
In a (x ∷ xs) = (x ≡ a) ⊎ In a xs
