-- ===== src/Rtk.antt =====
-- gorouter/internal/rtk/gitdiff.go and gorouter/internal/rtk/analysis.go: filters of outputs, on the lines of a text in
-- bytes. A pattern of a regular expression is a function that tells whether it matches.
pub mod Logs
pub mod Diffs
pub mod Headers
pub mod Summary
use yi_api_proxy.Base.{
  ℕ, zero, suc, ◌+◌, ◌-◌, String, Bool, true, false, List, [], ◌∷◌, ◌++◌, Option, none, some,
  if◌then◌else◌, ◌&&◌, ◌||◌, not, leb, ltb, ◌==◌, length, filterb, map,
}
use yi_api_proxy.Base.Int.{ℤ, pos, ◌-ℤ◌}
use yi_api_proxy.Base.Text.{codes, bytes_eq, has_prefix, itoa, slice_from}
use yi_api_proxy.Base.Split.{split_on, join_on}
use yi_api_proxy.Aliases.{lower}

abbrev pub Line : Type 0
Line = List ℕ

-- strings.Split(content, "\n") and strings.Join(lines, "\n")
abbrev pub lines_of : List ℕ → List Line
lines_of content = split_on 10 content

-- The text of the lines, and the number of bytes that are saved, which can be negative.
unfoldable pub rejoined : List ℕ → List Line → List ℕ × ℤ
rejoined content lines = (join_on 10 lines, pos (length content) -ℤ pos (length (join_on 10 lines)))

abbrev pub dots : Line
dots = codes "..."

abbrev pub is_header : Line → Bool
is_header line =
    has_prefix line (codes "diff ")
    || (has_prefix line (codes "index ")
        || (has_prefix line (codes "--- ") || has_prefix line (codes "+++ ")))

-- [\-\+0-9,\s]
abbrev pub in_hunk : ℕ → Bool
in_hunk c =
    c == 45
    || (c == 43
        || (leb 48 c && leb c 57
            || (c == 44 || (c == 32 || (c == 9 || (c == 10 || (c == 12 || c == 13)))))))

-- What is left after the bytes of that class.
abbrev pub after_class : Line → Line
after_class [] = []
after_class (c ∷ cs) = let rest = after_class cs in if in_hunk c then rest else c ∷ cs

-- [\-\+0-9,\s]+\s*@@, at the start
abbrev pub is_hunk_rest : Line → Bool
is_hunk_rest [] = false
is_hunk_rest (c ∷ cs) = in_hunk c && has_prefix (after_class cs) (codes "@@")

-- ^@@\s*[\-\+0-9,\s]+\s*@@, where the class has the blanks in it
abbrev pub is_hunk_header : Line → Bool
is_hunk_header line = has_prefix line (codes "@@") && is_hunk_rest (slice_from 2 line)

-- The last line of the result is not "...", and there is one.
abbrev pub ends_open : List Line → Bool
ends_open [] = false
ends_open (line ∷ []) = not (bytes_eq line dots)
ends_open (line ∷ next ∷ lines) = ends_open (next ∷ lines)

-- The loop of `GitDiffFilter`, with the result so far.
unfoldable pub diff_lines : List Line → List Line → List Line
diff_lines result [] = result
diff_lines result (line ∷ lines) =
    let marked = if ends_open result then result ++ dots ∷ [] else result in
    diff_lines
      (if is_header line
        then result
        else if is_hunk_header line
        then marked
        else result ++ line ∷ [])
      lines

unfoldable pub gitdiff : List ℕ → List ℕ × ℤ
unfolding diff_lines rejoined
gitdiff content = rejoined content (diff_lines [] (lines_of content))

-- `strings.Contains`
abbrev pub contains : Line → Line → Bool
contains word [] = has_prefix [] word
contains word (c ∷ cs) = if has_prefix (c ∷ cs) word then true else contains word cs

-- (?i)err|fail|fatal|exception|panic
unfoldable pub is_error : Line → Bool
is_error line =
    contains (codes "err") (map lower line)
    || (contains (codes "fail") (map lower line)
        || (contains (codes "fatal") (map lower line)
            || (contains (codes "exception") (map lower line)
                || contains (codes "panic") (map lower line))))

unfoldable pub process_err : List ℕ → List ℕ × ℤ
unfolding is_error rejoined
process_err content = rejoined content (filterb is_error (lines_of content))

-- A line and how many times it stands in a row.
abbrev pub Run : Type 0
Run = Line × ℕ

-- The loop of `processLog`: `lastLine` and `count`, then the lines that are left.
unfoldable pub log_runs : Line → ℕ → List Line → List Run
log_runs last count [] = (last, count) ∷ []
log_runs last count (line ∷ lines) =
    let same = log_runs last (suc count) lines in
    let other = log_runs line 1 lines in if bytes_eq line last then same else (last, count) ∷ other

-- fmt.Sprintf("%s (x%d)", lastLine, count), or the line alone.
unfoldable pub show_run : Run → Line
unfolding itoa
show_run (line, count) =
    if ltb 1 count then line ++ codes " (x" ++ codes (itoa count) ++ codes ")" else line

unfoldable pub runs_of : List Line → List Run
unfolding log_runs
runs_of [] = []
runs_of (line ∷ lines) = log_runs line 1 lines

unfoldable pub process_log : List ℕ → List ℕ × ℤ
unfolding runs_of show_run rejoined
process_log content = rejoined content (map show_run (runs_of (lines_of content)))

abbrev pub truncation : List Line
truncation = dots ∷ codes "--- TRUNCATED ---" ∷ dots ∷ []

module _ {A : Type 0} where
  abbrev pub take_lines : ℕ → List A → List A
  take_lines zero xs = []
  take_lines (suc n) [] = []
  take_lines (suc n) (x ∷ xs) = x ∷ take_lines n xs

  abbrev pub drop_lines : ℕ → List A → List A
  drop_lines zero xs = xs
  drop_lines (suc n) [] = []
  drop_lines (suc n) (x ∷ xs) = drop_lines n xs

-- The lines as the first `append` leaves them: the array of `lines[:10]` has room for the three, so they are
-- written over the lines 10 to 12.
abbrev pub overwritten : List Line → List Line
overwritten lines = take_lines 10 lines ++ (truncation ++ drop_lines 13 lines)

-- `processSummary`, on more than 20 lines.
unfoldable pub summary_lines : List Line → List Line
summary_lines lines =
    take_lines 10 lines ++ (truncation ++ drop_lines (length lines - 10) (overwritten lines))

unfoldable pub process_summary : List ℕ → List ℕ × ℤ
unfolding summary_lines rejoined
process_summary content =
    if leb (length (lines_of content)) 20
    then (content, pos 0)
    else rejoined content (summary_lines (lines_of content))
