-- ===== src/Rtk/Summary.antt =====
-- gorouter/internal/rtk/analysis.go: what `processSummary` keeps of a long text.
use yi_api_proxy.Base.{
  ℕ, zero, suc, ◌+◌, ◌-◌, ◌≤◌, ◌≡◌, refl, sym, ap, ◌∙◌, List, [], ◌∷◌, ◌++◌, length, arith,
}
use yi_api_proxy.Rtk.{Line, truncation, take_lines, drop_lines, overwritten, summary_lines}

drop_more : (m j : ℕ) (xs : List Line) → drop_lines (m + j) xs ≡ drop_lines j (drop_lines m xs)
drop_more zero j xs = rw (zero_plus j) refl
  where
    zero_plus : (n : ℕ) → 0 + n ≡ n
    zero_plus n = omega arith
drop_more (suc m) j [] = rw (sucs m j) (sym (drop_none j))
  where
    sucs : (n k : ℕ) → suc n + k ≡ suc (n + k)
    sucs n k = omega arith

    drop_none : (k : ℕ) → drop_lines {A = Line} k [] ≡ []
    drop_none zero = refl
    drop_none (suc k) = refl
drop_more (suc m) j (x ∷ xs) = rw (sucs m j) (drop_more m j xs)
  where
    sucs : (n k : ℕ) → suc n + k ≡ suc (n + k)
    sucs n k = omega arith

drop-append : (xs ys : List Line) → drop_lines (length xs) (xs ++ ys) ≡ ys
drop-append [] ys = refl
drop-append (x ∷ xs) ys = drop-append xs ys

length-take_lines : (n : ℕ) (xs : List Line) → n ≤ length xs → length (take_lines n xs) ≡ n
length-take_lines zero xs h = refl
length-take_lines (suc n) [] h = omega (arith, h)
length-take_lines (suc n) (x ∷ xs) h = ap suc (length-take_lines n xs (omega (arith, h)))

drop-overwritten :
    (lines : List Line)
    → 10 ≤ length lines
    → drop_lines 13 (overwritten lines) ≡ drop_lines 13 lines
drop-overwritten lines h =
    let ten = length-take_lines 10 lines h in
    drop_more 10 3 (overwritten lines)
    ∙ ap (drop_lines 3) (
        ap (λ n. drop_lines n (overwritten lines)) (sym ten)
        ∙ drop-append (take_lines 10 lines) (truncation ++ drop_lines 13 lines))

-- From 23 lines on, `processSummary` keeps the first ten lines and the last ten, with three lines between them that
-- say that the others are left out.
pub summary_lines_lem :
    (lines : List Line)
    → 23 ≤ length lines
    → summary_lines lines
      ≡ take_lines 10 lines ++ (truncation ++ drop_lines (length lines - 10) lines)
unfolding summary_lines
summary_lines_lem lines h =
    let far : length lines - 10 ≡ 13 + (length lines - 23) = omega (arith, h) in
    let same = drop-overwritten lines (omega (arith, h)) in
    ap (λ ls. take_lines 10 lines ++ (truncation ++ ls))
      (ap (λ n. drop_lines n (overwritten lines)) far
        ∙ drop_more 13 (length lines - 23) (overwritten lines)
        ∙ ap (drop_lines (length lines - 23)) same
        ∙ sym (drop_more 13 (length lines - 23) lines)
        ∙ ap (λ n. drop_lines n lines) (sym far))
