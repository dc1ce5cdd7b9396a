-- ===== src/Rtk/Headers.antt =====
-- gorouter/internal/rtk/gitdiff.go: the headers that the filter of diffs drops, described by the form of the lines.
use yi_api_proxy.Base.{
  ℕ, ◌≡◌, refl, sym, ap, ◌∙◌, Bool, true, false, List, [], ◌∷◌, ◌++◌, ◌⊎◌, inl, inr, ◌&&◌, ◌||◌,
  All, filterb, Bool-cases, anyb, ◌==◌, arith,
}
use yi_api_proxy.Base.Text.{codes, has_prefix, slice_from}
use yi_api_proxy.Base.Bytes.{BeginsWith, prefix-Begins, prefix-not, prefix_lem}
use yi_api_proxy.Rtk.{
  Line, is_header, is_hunk_header, in_hunk, after_class, is_hunk_rest, diff_lines,
}
use yi_api_proxy.Rtk.Diffs.{is_body, IsBody, is_text, diff_lines_all}

-- The header of a file, or of its index, or the name of one of the two files.
abbrev pub IsFileHeader : Line → Type 0
IsFileHeader line =
    BeginsWith (codes "diff ") line
    ⊎ (BeginsWith (codes "index ") line
        ⊎ (BeginsWith (codes "--- ") line ⊎ BeginsWith (codes "+++ ") line))

-- One of the bytes "-+0123456789," or a blank.
abbrev pub IsClassByte : ℕ → Type 0
IsClassByte c = anyb (λ d. c == d) (codes "-+0123456789, " ++ (9 ∷ 10 ∷ 12 ∷ 13 ∷ [])) ≡ true

in_hunk_lem :
    (c : ℕ) → anyb (λ d. c == d) (codes "-+0123456789, " ++ (9 ∷ 10 ∷ 12 ∷ 13 ∷ [])) ≡ in_hunk c
in_hunk_lem c = ground arith

-- The header of a hunk: two bytes "@", at least one digit, sign, comma or blank, and two bytes "@".
abbrev pub IsHunkHeader : Line → Type 0
IsHunkHeader line =
    (c : ℕ) × (class : Line) × (rest : Line) × IsClassByte c
    × All IsClassByte class
    × (line ≡ codes "@@" ++ (c ∷ (class ++ (codes "@@" ++ rest))))

abbrev pub IsHeaderLine : Line → Type 0
IsHeaderLine line = IsFileHeader line ⊎ IsHunkHeader line

module _ (line : Line) {R : Type 0} where
  or-Begins :
      (p : Line) (b : Bool)
      → (has_prefix line p || b) ≡ true
      → (b ≡ true → R)
      → BeginsWith p line ⊎ R
  or-Begins p b e f = elim (Bool-cases (has_prefix line p)) [
    | inl here ↦ inl (prefix-Begins line p here)
    | inr other ↦ inr (f (rw other at e))
  ]

  or-not :
      (p : Line) (b : Bool)
      → (has_prefix line p || b) ≡ false
      → (b ≡ false → R → ⊥)
      → BeginsWith p line ⊎ R
      → ⊥
  or-not p b e f h = elim (Bool-cases (has_prefix line p)) [
    | inl here ↦ clash (rw here at e)
    | inr other ↦ elim h [
      | inl begins ↦ prefix-not line p other begins
      | inr r ↦ f (rw other at e) r
    ]
  ]
    where
      clash : true ≡ false → ⊥
      clash g = cc

is_header-IsFileHeader : (line : Line) → is_header line ≡ true → IsFileHeader line
is_header-IsFileHeader line e = or-Begins line (codes "diff ") _ e (λ f.
    or-Begins line (codes "index ") _ f
      (λ g. or-Begins line (codes "--- ") _ g (λ h. prefix-Begins line (codes "+++ ") h)))

is_header-not : (line : Line) → is_header line ≡ false → IsFileHeader line → ⊥
is_header-not line e = or-not line (codes "diff ") _ e (λ f.
    or-not line (codes "index ") _ f
      (λ g. or-not line (codes "--- ") _ g (λ h. prefix-not line (codes "+++ ") h)))

both_true : (a b : Bool) → (a && b) ≡ true → (a ≡ true) × (b ≡ true)
both_true true b e = (refl, e)
both_true false b e = absurd (clash e)
  where
    clash : false ≡ true → ⊥
    clash h = cc

-- A line is bytes of the class and what is left after them.
split_class : (cs : Line) → (class : Line) × All IsClassByte class × (cs ≡ class ++ after_class cs)
split_class [] = ([], tt, refl)
split_class (c ∷ cs) = elim (Bool-cases (in_hunk c)) [
  | inl e ↦
      let rest = split_class cs in
      rw e (c ∷ rest.0, (in_hunk_lem c ∙ e, rest.1), ap (λ s. c ∷ s) rest.2)
  | inr e ↦ rw e ([], tt, refl)
]

after-class : (class s : Line) → All IsClassByte class → after_class (class ++ 64 ∷ s) ≡ 64 ∷ s
after-class [] s a = refl
after-class (c ∷ class) s a = rw (sym (in_hunk_lem c) ∙ a.0) (after-class class s a.1)

hunk_rest :
    (s : Line)
    → is_hunk_rest s ≡ true
    → (c : ℕ) × (class : Line) × (rest : Line) × IsClassByte c
      × All IsClassByte class
      × (s ≡ c ∷ (class ++ (codes "@@" ++ rest)))
hunk_rest [] e = cc
hunk_rest (c ∷ cs) e =
    let two = both_true (in_hunk c) (has_prefix (after_class cs) (codes "@@")) e in
    let parts = split_class cs in
    let end = prefix-Begins (after_class cs) (codes "@@") two.1 in
    (
      c,
      parts.0,
      end.0,
      in_hunk_lem c ∙ two.0,
      parts.1,
      ap (λ t. c ∷ t) (parts.2 ∙ ap (λ t. parts.0 ++ t) end.1),
    )

hunk-IsHunkHeader : (line : Line) → is_hunk_header line ≡ true → IsHunkHeader line
hunk-IsHunkHeader line e =
    let two = both_true (has_prefix line (codes "@@")) (is_hunk_rest (slice_from 2 line)) e in
    let r = hunk_rest (slice_from 2 line) two.1 in
    (r.0, r.1, r.2, r.3, r.4, prefix_lem line (codes "@@") two.0 ∙ ap (λ t. codes "@@" ++ t) r.5)

IsHunkHeader-hunk : (line : Line) → IsHunkHeader line → is_hunk_header line ≡ true
IsHunkHeader-hunk line h =
    ap is_hunk_header h.5 ∙ rw (sym (in_hunk_lem h.0) ∙ h.3, after-class h.1 (64 ∷ h.2) h.4) refl

body_cases :
    (line : Line)
    → ((is_body line ≡ true) × (IsHeaderLine line → ⊥))
      ⊎ ((is_body line ≡ false) × IsHeaderLine line)
body_cases line = elim (Bool-cases (is_header line)) [
  | inl e ↦ inr (rw e refl, inl (is_header-IsFileHeader line e))
  | inr e ↦ elim (Bool-cases (is_hunk_header line)) [
    | inl f ↦ inr (rw (e, f) refl, inr (hunk-IsHunkHeader line f))
    | inr f ↦ inl (rw (e, f) refl, neither_header e f)
  ]
]
  where
    clash : true ≡ false → ⊥
    clash g = cc

    neither_header : is_header line ≡ false → is_hunk_header line ≡ false → IsHeaderLine line → ⊥
    neither_header e f (inl h) = is_header-not line e h
    neither_header e f (inr h) = clash (sym (IsHunkHeader-hunk line h) ∙ f)

-- The second lines are the first ones without the headers.
pub data Keeps : List Line → List Line → Type 0 where
  all_kept : Keeps [] []
  dropped :
      (line : Line) (lines kept : List Line)
      → IsHeaderLine line
      → Keeps lines kept
      → Keeps (line ∷ lines) kept
  kept :
      (line : Line) (lines kept : List Line)
      → (IsHeaderLine line → ⊥)
      → Keeps lines kept
      → Keeps (line ∷ lines) (line ∷ kept)

filterb-Keeps : (lines : List Line) → Keeps lines (filterb is_body lines)
filterb-Keeps [] = all_kept
filterb-Keeps (line ∷ lines) = elim (body_cases line) [
  | inl h ↦ rw h.0 (kept line lines (filterb is_body lines) h.1 (filterb-Keeps lines))
  | inr h ↦ rw h.0 (dropped line lines (filterb is_body lines) h.1 (filterb-Keeps lines))
]

-- No header is among the lines.
abbrev pub HasNoHeader : List Line → Type 0
HasNoHeader lines = All (λ line. IsHeaderLine line → ⊥) lines

All-not : (lines : List Line) → All IsBody lines → HasNoHeader lines
All-not [] a = tt
All-not (line ∷ lines) a = (not_header (body_cases line), All-not lines a.1)
  where
    clash : true ≡ false → ⊥
    clash g = cc

    not_header :
        ((is_body line ≡ true) × (IsHeaderLine line → ⊥))
          ⊎ ((is_body line ≡ false) × IsHeaderLine line)
        → IsHeaderLine line
        → ⊥
    not_header (inl h) g = h.1 g
    not_header (inr h) g = clash (sym a.0 ∙ h.0)

-- What `GitDiffFilter` makes of the lines of a diff. Call a line a header if it begins with "diff ", "index ", "--- " or
-- "+++ ", or with "@@", then at least one digit, sign, comma or blank, then "@@". No line of the result is a header;
-- but for lines "..." the result has exactly the lines of the diff that are no headers, in their order; and the filter
-- changes nothing more when it is applied to its own result. (A changed line can have the form of a header.)
pub diff_lines_lem :
    (lines : List Line)
    → (bodies : List Line) × Keeps lines bodies
      × (filterb is_text (diff_lines [] lines) ≡ filterb is_text bodies)
      × HasNoHeader (diff_lines [] lines)
      × (diff_lines [] (diff_lines [] lines) ≡ diff_lines [] lines)
diff_lines_lem lines =
    let h = diff_lines_all lines in
    (filterb is_body lines, filterb-Keeps lines, h.1, All-not (diff_lines [] lines) h.0, h.2)
