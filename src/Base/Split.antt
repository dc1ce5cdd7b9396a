-- ===== src/Base/Split.antt =====
-- `strings.Split` at one byte and `strings.Join` with it.
use Prim.Native.Nat.{ℕ}
use mathlib.Core.Path.{◌≡◌, refl, ap}
use mathlib.Core.Logic.{inl, inr}
use mathlib.Core.Bool.{false}
use mathlib.Core.List.{List, [], ◌∷◌, ◌++◌}
use yi_api_proxy.Base.Tests.{◌==◌, ==_iff, if◌then◌else◌, Bool-cases}
use yi_api_proxy.Base.Lists.{anyb, All}

abbrev pub onto_first : ℕ → List (List ℕ) → List (List ℕ)
onto_first c [] = (c ∷ []) ∷ []
onto_first c (part ∷ parts) = (c ∷ part) ∷ parts

unfoldable pub split_on : ℕ → List ℕ → List (List ℕ)
split_on sep [] = [] ∷ []
split_on sep (c ∷ cs) =
    let rest = split_on sep cs in if c == sep then [] ∷ rest else onto_first c rest

unfoldable pub join_on : ℕ → List (List ℕ) → List ℕ
join_on sep [] = []
join_on sep (part ∷ []) = part
join_on sep (part ∷ next ∷ parts) = part ++ sep ∷ join_on sep (next ∷ parts)

module _ (sep : ℕ) where
  abbrev pub IsWhole : List ℕ → Type 0
  IsWhole part = anyb (λ c. c == sep) part ≡ false

  -- The list of a split is not empty.
  abbrev Parts : List (List ℕ) → List ℕ → Type 0
  Parts [] s = ⊥
  Parts (part ∷ parts) s = (join_on sep (part ∷ parts) ≡ s) × All IsWhole (part ∷ parts)

  sep_next : (parts : List (List ℕ)) (s : List ℕ) → Parts parts s → Parts ([] ∷ parts) (sep ∷ s)
  unfolding join_on
  sep_next [] s h = absurd h
  sep_next (part ∷ parts) s h = (ap (λ t. sep ∷ t) h.0, (refl, h.1))

  onto_first-Parts :
      (c : ℕ) (parts : List (List ℕ)) (s : List ℕ)
      → (c == sep) ≡ false
      → Parts parts s
      → Parts (onto_first c parts) (c ∷ s)
  unfolding join_on
  onto_first-Parts c [] s e h = absurd h
  onto_first-Parts c (part ∷ []) s e h = (ap (λ t. c ∷ t) h.0, (rw e h.1.0, h.1.1))
  onto_first-Parts c (part ∷ next ∷ parts) s e h = (ap (λ t. c ∷ t) h.0, (rw e h.1.0, h.1.1))

  split_on-Parts : (s : List ℕ) → Parts (split_on sep s) s
  unfolding split_on join_on
  split_on-Parts [] = (refl, (refl, tt))
  split_on-Parts (c ∷ cs) = elim (Bool-cases (c == sep)) [
    | inl e ↦
        let same : c ≡ sep = (==_iff c sep).0 e in
        rw (e, same) (sep_next (split_on sep cs) cs (split_on-Parts cs))
    | inr e ↦ rw e (onto_first-Parts c (split_on sep cs) cs e (split_on-Parts cs))
  ]

  joined :
      (parts : List (List ℕ)) (s : List ℕ)
      → Parts parts s
      → (join_on sep parts ≡ s) × All IsWhole parts
  joined [] s h = absurd h
  joined (part ∷ parts) s h = h

  -- Joined, the parts are the text again, and no part has the byte in it.
  pub join_on-split_on :
      (s : List ℕ) → (join_on sep (split_on sep s) ≡ s) × All IsWhole (split_on sep s)
  join_on-split_on s = joined (split_on sep s) s (split_on-Parts s)

  not_empty :
      (parts : List (List ℕ)) (s : List ℕ)
      → Parts parts s
      → (part : List ℕ) × (rest : List (List ℕ)) × (parts ≡ part ∷ rest)
  not_empty [] s h = absurd h
  not_empty (part ∷ parts) s h = (part, parts, refl)

  -- There is a first part.
  pub split_on-cons :
      (s : List ℕ) → (part : List ℕ) × (rest : List (List ℕ)) × (split_on sep s ≡ part ∷ rest)
  split_on-cons s = not_empty (split_on sep s) s (split_on-Parts s)
