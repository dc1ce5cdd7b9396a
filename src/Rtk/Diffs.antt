-- ===== src/Rtk/Diffs.antt =====
-- gorouter/internal/rtk/gitdiff.go: what is left of a diff.
use mathlib.Core.List.{append-nil, append_assoc}
use yi_api_proxy.Base.{
  ◌≡◌, refl, sym, ap, ◌∙◌, Bool, true, false, List, [], ◌∷◌, ◌++◌, if◌then◌else◌, ◌&&◌, not, All,
  filterb, filterb-append, Bool-cases, inl, inr,
}
use yi_api_proxy.Base.Text.{bytes_eq}
use yi_api_proxy.Rtk.{Line, dots, is_header, is_hunk_header, ends_open, diff_lines}

-- A line that is neither a header nor the header of a hunk.
abbrev pub is_body : Line → Bool
is_body line = not (is_header line) && not (is_hunk_header line)

abbrev pub IsBody : Line → Type 0
IsBody line = is_body line ≡ true

All-append : (ls ms : List Line) → All IsBody ls → All IsBody ms → All IsBody (ls ++ ms)
All-append [] ms a b = b
All-append (l ∷ ls) ms a b = (a.0, All-append ls ms a.1 b)

abbrev with_dots : List Line → List Line
with_dots result = if ends_open result then result ++ dots ∷ [] else result

with_dots-IsBody : (result : List Line) → All IsBody result → All IsBody (with_dots result)
with_dots-IsBody result a = elim (Bool-cases (ends_open result)) [
  | inl e ↦ rw e (All-append result (dots ∷ []) a (refl, tt))
  | inr e ↦ rw e a
]

diff_lines-IsBody :
    (result lines : List Line) → All IsBody result → All IsBody (diff_lines result lines)
unfolding diff_lines
diff_lines-IsBody result [] a = a
diff_lines-IsBody result (line ∷ lines) a = elim (Bool-cases (is_header line)) [
  | inl e ↦ rw e (diff_lines-IsBody result lines a)
  | inr e ↦ elim (Bool-cases (is_hunk_header line)) [
    | inl f ↦ rw (e, f) (diff_lines-IsBody (with_dots result) lines (with_dots-IsBody result a))
    | inr f ↦
        let body : is_body line ≡ true = rw (e, f) refl in
        rw (e, f)
          (diff_lines-IsBody (result ++ line ∷ []) lines
            (All-append result (line ∷ []) a (body, tt)))
  ]
]

neither : (a b : Bool) → (not a && not b) ≡ true → (a ≡ false) × (b ≡ false)
neither true b e = absurd (clash e)
  where
    clash : false ≡ true → ⊥
    clash h = cc
neither false true e = absurd (clash e)
  where
    clash : false ≡ true → ⊥
    clash h = cc
neither false false e = (refl, refl)

-- On lines that are all kept the loop only adds them.
diff_lines-bodies :
    (result lines : List Line) → All IsBody lines → diff_lines result lines ≡ result ++ lines
unfolding diff_lines
diff_lines-bodies result [] a = sym (append-nil result)
diff_lines-bodies result (line ∷ lines) a =
    let body = neither (is_header line) (is_hunk_header line) a.0 in
    rw (body.0, body.1)
      (diff_lines-bodies (result ++ line ∷ []) lines a.1 ∙ append_assoc result (line ∷ []) lines)

-- The lines but for "...".
abbrev pub is_text : Line → Bool
is_text line = not (bytes_eq line dots)

kept_dots : (result : List Line) → filterb is_text (with_dots result) ≡ filterb is_text result
kept_dots result = elim (Bool-cases (ends_open result)) [
  | inl e ↦ rw e (filterb-append is_text result (dots ∷ []) ∙ append-nil (filterb is_text result))
  | inr e ↦ rw e refl
]

diff_lines-kept :
    (result lines : List Line)
    → filterb is_text (diff_lines result lines)
      ≡ filterb is_text result ++ filterb is_text (filterb is_body lines)
unfolding diff_lines
diff_lines-kept result [] = sym (append-nil (filterb is_text result))
diff_lines-kept result (line ∷ lines) = elim (Bool-cases (is_header line)) [
  | inl e ↦ rw e (diff_lines-kept result lines)
  | inr e ↦ elim (Bool-cases (is_hunk_header line)) [
    | inl f ↦
        rw (e, f)
          (diff_lines-kept (with_dots result) lines
            ∙ ap (λ ls. ls ++ filterb is_text (filterb is_body lines)) (kept_dots result))
    | inr f ↦
        rw (e, f)
          (diff_lines-kept (result ++ line ∷ []) lines
            ∙ ap (λ ls. ls ++ filterb is_text (filterb is_body lines))
                (filterb-append is_text result (line ∷ []))
            ∙ one_more (is_text line) line (filterb is_text result)
                (filterb is_text (filterb is_body lines)))
  ]
]
  where
    one_more :
        (b : Bool) (l : Line) (ls ms : List Line)
        → (ls ++ (if b then l ∷ [] else [])) ++ ms ≡ ls ++ (if b then l ∷ ms else ms)
    one_more true l ls ms = append_assoc ls (l ∷ []) ms
    one_more false l ls ms = ap (λ ks. ks ++ ms) (append-nil ls)

-- The result is the lines that are kept, but for lines "..." that are put between them.
pub diff_lines_all :
    (lines : List Line)
    → All IsBody (diff_lines [] lines)
      × (filterb is_text (diff_lines [] lines) ≡ filterb is_text (filterb is_body lines))
      × (diff_lines [] (diff_lines [] lines) ≡ diff_lines [] lines)
diff_lines_all lines =
    let bodies = diff_lines-IsBody [] lines tt in
    (bodies, diff_lines-kept [] lines, diff_lines-bodies [] (diff_lines [] lines) bodies)
