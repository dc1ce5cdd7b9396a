-- ===== src/Rtk/Logs.antt =====
-- gorouter/internal/rtk/analysis.go: the text that `processLog` makes of the runs of equal lines. (Different texts can
-- get the same result, as a line may itself end like the mark of a run.)
use yi_api_proxy.Base.{
  ℕ, zero, suc, ◌≤◌, ◌≡◌, refl, ap, ◌∙◌, sym, subst, ltb, All, length, map, true, false, List, [],
  ◌∷◌, ◌++◌, arith, Bool-cases, inl, inr,
}
use yi_api_proxy.Base.Bytes.{bytes_eq_lem}
use yi_api_proxy.Base.Int.{pos, ◌-ℤ◌}
use yi_api_proxy.Base.Split.{join_on, IsWhole, join_on-split_on, split_on-cons}
use yi_api_proxy.Base.Text.{bytes_eq, codes, itoa}
use yi_api_proxy.Rtk.{Line, Run, log_runs, runs_of, show_run, rejoined, process_log}

abbrev pub repeated : ℕ → Line → List Line
repeated zero line = []
repeated (suc n) line = line ∷ repeated n line

-- The lines that runs stand for.
abbrev pub expand : List Run → List Line
expand [] = []
expand ((line, count) ∷ runs) = repeated count line ++ expand runs

repeated_next :
    (n : ℕ) (line : Line) (lines : List Line)
    → repeated (suc n) line ++ lines ≡ repeated n line ++ line ∷ lines
repeated_next zero line lines = refl
repeated_next (suc n) line lines = ap (λ ls. line ∷ ls) (repeated_next n line lines)

append_none : (lines : List Line) → lines ++ [] ≡ lines
append_none [] = refl
append_none (line ∷ lines) = ap (λ ls. line ∷ ls) (append_none lines)

expand-log_runs :
    (last : Line) (count : ℕ) (lines : List Line)
    → expand (log_runs last count lines) ≡ repeated count last ++ lines
unfolding log_runs
expand-log_runs last count [] = refl
expand-log_runs last count (line ∷ lines) = elim (Bool-cases (bytes_eq line last)) [
  | inl same ↦
      let here : line ≡ last = bytes_eq_lem line last same in
      rw same
        (expand-log_runs last (suc count) lines ∙ repeated_next count last lines ∙ rw here refl)
  | inr other ↦ rw other (ap (λ ls. repeated count last ++ ls) (expand-log_runs line 1 lines))
]

-- Runs of which the first is of that line: no run is empty, and neighbours are of different lines.
abbrev pub AreRuns : Line → List Run → Type 0
AreRuns first [] = ⊥
AreRuns first ((line, count) ∷ []) = (line ≡ first) × (1 ≤ count)
AreRuns first ((line, count) ∷ next ∷ runs) =
    (line ≡ first) × (1 ≤ count) × (bytes_eq next.0 line ≡ false) × AreRuns next.0 (next ∷ runs)

AreRuns-cons :
    (last line : Line) (count : ℕ) (runs : List Run)
    → 1 ≤ count
    → bytes_eq line last ≡ false
    → AreRuns line runs
    → AreRuns last ((last, count) ∷ runs)
AreRuns-cons last line count [] h e r = absurd r
AreRuns-cons last line count ((l, n) ∷ []) h e r = (refl, h, rw r.0 e, (refl, r.1))
AreRuns-cons last line count ((l, n) ∷ next ∷ runs) h e r =
    (refl, h, rw r.0 e, (refl, r.1, r.2, r.3))

log_runs-AreRuns :
    (last : Line) (count : ℕ) (lines : List Line)
    → 1 ≤ count
    → AreRuns last (log_runs last count lines)
unfolding log_runs
log_runs-AreRuns last count [] h = (refl, h)
log_runs-AreRuns last count (line ∷ lines) h = elim (Bool-cases (bytes_eq line last)) [
  | inl same ↦ rw same (log_runs-AreRuns last (suc count) lines (omega arith))
  | inr other ↦ rw other (
      AreRuns-cons last line count (log_runs line 1 lines) h other
        (log_runs-AreRuns line 1 lines (omega arith)))
]

-- The runs: written out again they are the lines, none of them is empty, and two neighbours are of different lines.
expand-runs_of :
    (line : Line) (lines : List Line)
    → (expand (runs_of (line ∷ lines)) ≡ line ∷ lines) × AreRuns line (runs_of (line ∷ lines))
unfolding runs_of
expand-runs_of line lines =
    (expand-log_runs line 1 lines, log_runs-AreRuns line 1 lines (omega arith))

-- How a run is written: a line that stands once as it is, another one with its number in parentheses.
unfoldable pub shown : Run → Line
unfolding itoa
shown (line, zero) = line
shown (line, suc zero) = line
shown (line, suc (suc n)) = line ++ codes " (x" ++ codes (itoa (suc (suc n))) ++ codes ")"

show_run_lem : (r : Run) → show_run r ≡ shown r
unfolding show_run shown
show_run_lem (line, zero) = refl
show_run_lem (line, suc zero) = refl
show_run_lem (line, suc (suc n)) = rw (many n) refl
  where
    many : (n : ℕ) → ltb 1 (suc (suc n)) ≡ true
    many n = ground arith

map-shown : (runs : List Run) → map show_run runs ≡ map shown runs
map-shown [] = refl
map-shown (r ∷ runs) = both (show_run_lem r) (map-shown runs)
  where
    both : {a b : Line} {ls ms : List Line} → a ≡ b → ls ≡ ms → a ∷ ls ≡ b ∷ ms
    both e f = rw (e, f) refl

-- What `processLog` makes of a text: there are runs of lines, none of them empty and two neighbours of different lines,
-- that written out one line each are the lines of the text; the result is one line for each run, in their
-- order, the line alone for a run of one and else the line with " (x" before and ")" after the number of
-- times it stands in a row; and with it the difference of the two lengths.
pub process_log_lem :
    (content : List ℕ)
    → (first : Line) × (runs : List Run) × AreRuns first runs
      × (join_on 10 (expand runs) ≡ content)
      × All (IsWhole 10) (expand runs)
      × (process_log content ≡ (
        join_on 10 (map shown runs),
        pos (length content) -ℤ pos (length (join_on 10 (map shown runs))),
      ))
unfolding process_log rejoined
process_log_lem content =
    let split = split_on-cons 10 content in
    let runs = runs_of (split.0 ∷ split.1) in
    let written = expand-runs_of split.0 split.1 in
    let whole = join_on-split_on 10 content in
    (
      split.0,
      runs,
      written.1,
      ap (join_on 10) (written.0 ∙ sym split.2) ∙ whole.0,
      subst (All (IsWhole 10)) (split.2 ∙ sym written.0) whole.1,
      ap (λ ls. rejoined content (map show_run (runs_of ls))) split.2
          ∙ ap (rejoined content) (map-shown runs),
    )
