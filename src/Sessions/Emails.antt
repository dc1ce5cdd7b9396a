-- ===== src/Sessions/Emails.antt =====
-- gorouter/internal/handlers/admin/auth.go: `isValidEmail`, on the bytes of the address, and which addresses it
-- takes. A `@` or a `.` is one byte, so the loop over runes meets them at the same places.
use yi_api_proxy.Base.{
  ℕ, zero, suc, ◌+◌, ◌-◌, ◌≡◌, refl, ap, ◌∙◌, Bool, true, false, List, [], ◌∷◌, Option, none, some,
  if◌then◌else◌, ◌||◌, ◌&&◌, not, ltb, leb, ◌==◌, anyb, length, arith, Bool-cases, inl, inr,
}

abbrev pub is_at : ℕ → Bool
is_at c = c == 64

abbrev pub is_dot : ℕ → Bool
is_dot c = c == 46

abbrev pub is_some : Option ℕ → Bool
is_some none = false
is_some (some i) = true

-- The loop, from byte `i` on: `atIndex`, none for -1, and `dotAfterAt`; none for a return of false.
unfoldable pub scan : ℕ → ℕ → Option ℕ → Bool → List ℕ → Option (Option ℕ × Bool)
scan size i at_index dot [] = some (at_index, dot)
scan size i at_index dot (c ∷ cs) =
    let rest =
      scan size (suc i) (if is_at c then some i else at_index)
        (if is_at c then dot else if is_dot c && is_some at_index then true else dot) cs in
    if is_at c && (is_some at_index || (i == 0 || i == size - 1)) then none else rest

-- atIndex > 0 && dotAfterAt && atIndex < len(email)-1
abbrev pub verdict : ℕ → Option (Option ℕ × Bool) → Bool
verdict size none = false
verdict size (some (none, dot)) = false
verdict size (some (some i, dot)) = ltb 0 i && (dot && ltb i (size - 1))

unfoldable pub is_valid_email : List ℕ → Bool
unfolding scan
is_valid_email email =
    if ltb (length email) 3 || ltb 254 (length email)
    then false
    else verdict (length email) (scan (length email) 0 none false email)

-- The part before the first `@` and the part after it.
abbrev in_first : ℕ → Option (List ℕ × List ℕ) → Option (List ℕ × List ℕ)
in_first c none = none
in_first c (some (local, domain)) = some (c ∷ local, domain)

abbrev pub split_at : List ℕ → Option (List ℕ × List ℕ)
split_at [] = none
split_at (c ∷ cs) = let rest = in_first c (split_at cs) in if is_at c then some ([], cs) else rest

scan_after :
    (size i k : ℕ) (dot : Bool) (cs : List ℕ)
    → scan size i (some k) dot cs
      ≡ (if anyb is_at cs then none else some (some k, (if anyb is_dot cs then true else dot)))
unfolding scan
scan_after size i k dot [] = refl
scan_after size i k dot (c ∷ cs) = elim (Bool-cases (is_at c)) [
  | inl e ↦ rw e refl
  | inr e ↦ elim (Bool-cases (is_dot c)) [
    | inl f ↦ rw (e, f) (scan_after size (suc i) k true cs ∙ ground arith)
    | inr f ↦ rw (e, f) (scan_after size (suc i) k dot cs)
  ]
]

-- What the loop comes to, from the two parts.
abbrev from_parts : ℕ → ℕ → Option (List ℕ × List ℕ) → Option (Option ℕ × Bool)
from_parts size i none = some (none, false)
from_parts size i (some (local, domain)) =
    if i + length local == 0 || i + length local == size - 1
    then none
    else if anyb is_at domain
    then none
    else some (some (i + length local), anyb is_dot domain)

from_parts-in_first :
    (size i c : ℕ) (parts : Option (List ℕ × List ℕ))
    → from_parts size i (in_first c parts) ≡ from_parts size (suc i) parts
from_parts-in_first size i c none = refl
from_parts-in_first size i c (some (local, domain)) = rw (shift i (length local)) refl
  where
    shift : (n m : ℕ) → n + suc m ≡ suc n + m
    shift n m = omega arith

scan_before :
    (size i : ℕ) (cs : List ℕ) → scan size i none false cs ≡ from_parts size i (split_at cs)
unfolding scan
scan_before size i [] = refl
scan_before size i (c ∷ cs) = elim (Bool-cases (is_at c)) [
  | inl e ↦ rw (e, scan_after size (suc i) i false cs, plus_zero i) (ground arith)
  | inr e ↦
      rw (e, from_parts-in_first size i c (split_at cs), no_dot (is_dot c))
        (scan_before size (suc i) cs)
]
  where
    plus_zero : (n : ℕ) → n + 0 ≡ n
    plus_zero n = omega arith

    no_dot : (b : Bool) → (b && false) ≡ false
    no_dot true = refl
    no_dot false = refl

length-split_at :
    (cs local domain : List ℕ)
    → split_at cs ≡ some (local, domain)
    → length cs ≡ suc (length local + length domain)
length-split_at [] local domain e = absurd (clash e)
  where
    clash : ◌≡◌ {A = Option (List ℕ × List ℕ)} none (some (local, domain)) → ⊥
    clash h = cc
length-split_at (c ∷ cs) local domain e = elim (Bool-cases (is_at c)) [
  | inl at_here ↦ here (rw at_here at e)
  | inr later ↦ after_first (length-split_at cs) (split_at cs) refl (rw later at e)
]
  where
    sizes : ℕ → Option (List ℕ × List ℕ) → ℕ
    sizes n none = n
    sizes n (some (l, d)) = suc (length l + length d)

    here :
        ◌≡◌ {A = Option (List ℕ × List ℕ)} (some ([], cs)) (some (local, domain))
        → suc (length cs) ≡ suc (length local + length domain)
    here h = omega (arith, ap (sizes 0) h)

    clash_first : ◌≡◌ {A = Option (List ℕ × List ℕ)} none (some (local, domain)) → ⊥
    clash_first h = cc

    after_first :
        ((l d : List ℕ) → split_at cs ≡ some (l, d) → length cs ≡ suc (length l + length d))
        → (parts : Option (List ℕ × List ℕ)) → split_at cs ≡ parts
        → in_first c parts ≡ some (local, domain)
        → suc (length cs) ≡ suc (length local + length domain)
    after_first sized none f h = absurd (clash_first h)
    after_first sized (some (l, d)) f h = omega (arith, ap (sizes 0) h, sized l d f)

abbrev is_empty : List ℕ → Bool
is_empty [] = true
is_empty (c ∷ cs) = false

-- A part before the first `@` and a part after it, where the second has a `.` and no further `@`.
abbrev pub is_address : Option (List ℕ × List ℕ) → Bool
is_address none = false
is_address (some (local, domain)) =
    not (is_empty local)
    && (not (is_empty domain) && (not (anyb is_at domain) && anyb is_dot domain))

abbrev is_zero : ℕ → Bool
is_zero zero = true
is_zero (suc n) = false

inside :
    (size n m : ℕ) (a b : Bool)
    → size ≡ suc (suc n + m)
    → verdict size (
        if 0 + suc n == 0 || 0 + suc n == size - 1
        then none
        else if a
        then none
        else some (some (0 + suc n), b))
      ≡ not (is_zero m) && (not a && b)
inside size n zero a b e =
    let last : (0 + suc n == size - 1) ≡ true = ground arith in
    let positive : (0 + suc n == 0) ≡ false = ground arith in rw (positive, last) refl
inside size n (suc m) a b e =
    let last : (0 + suc n == size - 1) ≡ false = ground arith in
    let positive : (0 + suc n == 0) ≡ false = ground arith in rw (positive, last) (both a b)
  where
    both : (x y : Bool) → verdict size (if x then none else some (some (0 + suc n), y)) ≡ not x && y
    both true y = refl
    both false true = ground arith
    both false false = ground arith

verdict_lem :
    (size : ℕ) (local domain : List ℕ)
    → size ≡ suc (length local + length domain)
    → verdict size (from_parts size 0 (some (local, domain))) ≡ is_address (some (local, domain))
verdict_lem size [] domain e = refl
verdict_lem size (c ∷ local) [] e = inside size (length local) 0 false false e
verdict_lem size (c ∷ local) (d ∷ domain) e =
    inside size (length local) (suc (length domain)) (anyb is_at (d ∷ domain))
      (anyb is_dot (d ∷ domain)) e

-- `isValidEmail` accepts exactly the addresses of 3 to 254 bytes that have one `@`, with at least one byte
-- before it and at least one after it, and a `.` somewhere after it.
pub is_valid_email_lem :
    (email : List ℕ)
    → is_valid_email email ≡ (
        if leb 3 (length email) && leb (length email) 254
        then is_address (split_at email)
        else false)
unfolding is_valid_email
is_valid_email_lem email = elim (Bool-cases (leb 3 (length email) && leb (length email) 254)) [
  | inr e ↦
      let out : (ltb (length email) 3 || ltb 254 (length email)) ≡ true = ground arith in
      rw (e, out) refl
  | inl e ↦
      let fits : (ltb (length email) 3 || ltb 254 (length email)) ≡ false = ground arith in
      rw (e, fits, scan_before (length email) 0 email) (parts_lem (split_at email) refl)
]
  where
    parts_lem :
        (parts : Option (List ℕ × List ℕ))
        → split_at email ≡ parts
        → verdict (length email) (from_parts (length email) 0 parts) ≡ is_address parts
    parts_lem none f = refl
    parts_lem (some (local, domain)) f =
        verdict_lem (length email) local domain (length-split_at email local domain f)
