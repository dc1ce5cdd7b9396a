-- ===== src/Base/Bytes.antt =====
-- Byte strings that are equal, and those that begin with another, by their tests and as equations.
use Prim.Native.Nat.{ℕ}
use mathlib.Core.Path.{◌≡◌, refl, sym, ap, ◌∙◌}
use mathlib.Core.Logic.{inl, inr}
use mathlib.Core.Bool.{true, false}
use mathlib.Core.List.{List, [], ◌∷◌, ◌++◌}
use yi_api_proxy.Base.Tests.{◌==◌, ==_iff, Bool-cases}
use yi_api_proxy.Base.Lists.{length}
use yi_api_proxy.Base.Text.{bytes_eq, has_prefix, slice_from}

pub bytes_eq_lem : (s t : List ℕ) → bytes_eq s t ≡ true → s ≡ t
bytes_eq_lem [] [] e = refl
bytes_eq_lem [] (c ∷ t) e = cc
bytes_eq_lem (b ∷ s) [] e = cc
bytes_eq_lem (b ∷ s) (c ∷ t) e = elim (Bool-cases (b == c)) [
  | inl same ↦
      let here : b ≡ c = (==_iff b c).0 same in
      let rest : s ≡ t = bytes_eq_lem s t (rw same at e) in rw (here, rest) refl
  | inr other ↦ absurd (clash (rw other at e))
]
  where
    clash : false ≡ true → ⊥
    clash h = cc

same_byte : (c : ℕ) → (c == c) ≡ true
same_byte c = (==_iff c c).1 refl

pub bytes_eq_refl : (s : List ℕ) → bytes_eq s s ≡ true
bytes_eq_refl [] = refl
bytes_eq_refl (c ∷ s) = rw (same_byte c) (bytes_eq_refl s)

pub bytes-differ : (s t : List ℕ) → bytes_eq s t ≡ false → s ≡ t → ⊥
bytes-differ s t e h = clash (sym (bytes_eq_refl s) ∙ ap (bytes_eq s) h ∙ e)
  where
    clash : true ≡ false → ⊥
    clash g = cc

pub prefix-append : (p s : List ℕ) → has_prefix (p ++ s) p ≡ true
prefix-append [] s = refl
prefix-append (c ∷ p) s = rw (same_byte c) (prefix-append p s)

-- What begins with a text is that text and the rest.
pub prefix_lem : (s p : List ℕ) → has_prefix s p ≡ true → s ≡ p ++ slice_from (length p) s
prefix_lem s [] e = refl
prefix_lem [] (c ∷ p) e = cc
prefix_lem (b ∷ s) (c ∷ p) e = elim (Bool-cases (b == c)) [
  | inl same ↦
      let here : b ≡ c = (==_iff b c).0 same in
      rw here (ap (λ t. c ∷ t) (prefix_lem s p (rw same at e)))
  | inr other ↦ absurd (clash (rw other at e))
]
  where
    clash : false ≡ true → ⊥
    clash h = cc

-- A text begins with another.
abbrev pub BeginsWith : List ℕ → List ℕ → Type 0
BeginsWith p s = (rest : List ℕ) × (s ≡ p ++ rest)

pub prefix-Begins : (s p : List ℕ) → has_prefix s p ≡ true → BeginsWith p s
prefix-Begins s p e = (slice_from (length p) s, prefix_lem s p e)

pub prefix-not : (s p : List ℕ) → has_prefix s p ≡ false → BeginsWith p s → ⊥
prefix-not s p e h = clash (sym (prefix-append p h.0) ∙ ap (λ t. has_prefix t p) (sym h.1) ∙ e)
  where
    clash : true ≡ false → ⊥
    clash g = cc
