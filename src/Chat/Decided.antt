-- ===== src/Chat/Decided.antt =====
-- gorouter/internal/handlers/v1/chat.go: which candidate decides the answer of `executeDirectRequest`.
use yi_api_proxy.Base.{
  ℕ, suc, ◌+◌, ◌<◌, ◌≤◌, String, ◌≡◌, refl, ap, true, false, List, [], ◌∷◌, ◌++◌, ◌⊎◌, inl, inr,
  length, leb, arith, Bool-cases,
}
use yi_api_proxy.Db.Types.{ProviderConnection}
use yi_api_proxy.Db.Table.{Table}
use yi_api_proxy.Chat.{ChatRequest, ChatCalls, Outcome}
use yi_api_proxy.Chat.Direct.{
  Tried, next, finished, bad_gateway, or_continue, try_provider, try_candidates,
}

-- The text that an attempt leaves in `lastErr`.
abbrev pub text_of : Tried → String
text_of (next last_err) = last_err
text_of (finished out) = ""

abbrev pub GoesOn : Tried → Type 0
GoesOn r = r ≡ next (text_of r)

outcome_cases : (r : Tried) → GoesOn r ⊎ ((out : Outcome) × (r ≡ finished out))
outcome_cases (next last_err) = inl refl
outcome_cases (finished out) = inr (out, refl)

module _ (rest : String → Table ProviderConnection → Outcome × Table ProviderConnection) where
  or_continue-next :
      (r : Tried × Table ProviderConnection) (err : String)
      → r.0 ≡ next err
      → or_continue r rest ≡ rest err r.1
  or_continue-next (r, t) err e = rw e refl

  or_continue-finished :
      (r : Tried × Table ProviderConnection) (out : Outcome)
      → r.0 ≡ finished out
      → or_continue r rest ≡ (out, r.1)
  or_continue-finished (r, t) out e = rw e refl

module _ {HttpRequest : Type 0} (calls : ℕ → ChatCalls HttpRequest) (model : String)
    (req : ChatRequest) where
  -- The result of the candidate that is tried in attempt `i`, and the table it leaves.
  abbrev pub result_at : ℕ → ProviderConnection → Table ProviderConnection → Tried
  result_at i p t = (try_provider (calls i) model req p t).0

  abbrev pub table_at : ℕ → ProviderConnection → Table ProviderConnection → Table ProviderConnection
  table_at i p t = (try_provider (calls i) model req p t).1

  -- The table and the last error after each of the candidates was tried, from attempt `i` on.
  abbrev pub tried :
      ℕ → List ProviderConnection → Table ProviderConnection → Table ProviderConnection
  tried i [] t = t
  tried i (p ∷ ps) t = tried (suc i) ps (table_at i p t)

  abbrev pub last_error : ℕ → String → List ProviderConnection → Table ProviderConnection → String
  last_error i err [] t = err
  last_error i err (p ∷ ps) t = last_error (suc i) (text_of (result_at i p t)) ps (table_at i p t)

  -- Each of the candidates let the next one be tried.
  abbrev pub FellThrough : ℕ → List ProviderConnection → Table ProviderConnection → Type 0
  FellThrough i [] t = Unit
  FellThrough i (p ∷ ps) t = GoesOn (result_at i p t) × FellThrough (suc i) ps (table_at i p t)

  -- One of the first three candidates decides, after those before it fell through.
  pub record DecidedBy (i : ℕ) (candidates : List ProviderConnection) (t : Table ProviderConnection)
      (out : Outcome × Table ProviderConnection) : Type 0 where
    pub earlier : List ProviderConnection
    pub p : ProviderConnection
    pub later : List ProviderConnection
    pub split : candidates ≡ earlier ++ p ∷ later
    pub in_time : length earlier + i < 3
    pub fell_through : FellThrough i earlier t
    pub decides : result_at (length earlier + i) p (tried i earlier t) ≡ finished out.0
    pub left : out.1 ≡ table_at (length earlier + i) p (tried i earlier t)

  -- All candidates, or the first three of them, fell through.
  pub record GivenUp (i : ℕ) (err : String) (candidates : List ProviderConnection)
      (t : Table ProviderConnection) (out : Outcome × Table ProviderConnection) : Type 0 where
    pub earlier : List ProviderConnection
    pub later : List ProviderConnection
    pub split : candidates ≡ earlier ++ later
    pub exhausted : (later ≡ []) ⊎ (length earlier + i ≡ 3)
    pub in_time : length earlier + i ≤ 3
    pub fell_through : FellThrough i earlier t
    pub answer : out ≡ (bad_gateway model (last_error i err earlier t), tried i earlier t)

  abbrev run :
      ℕ
      → String
      → List ProviderConnection
      → Table ProviderConnection
      → Outcome × Table ProviderConnection
  run i err ps t = try_candidates calls i err model req ps t

  no_more :
      (i : ℕ) (err : String) (ps : List ProviderConnection) (t : Table ProviderConnection)
      → i ≤ 3
      → (ps ≡ []) ⊎ (i ≡ 3)
      → run i err ps t ≡ (bad_gateway model err, t)
      → GivenUp i err ps t (run i err ps t)
  no_more i err ps t h why e = record {
    earlier = [];
    later = ps;
    split = refl;
    exhausted = rw (nothing_before i) why;
    in_time = omega (arith, h);
    fell_through = tt;
    answer = e;
  }
    where
      nothing_before : (n : ℕ) → 0 + n ≡ n
      nothing_before n = omega arith

  run_none :
      (i : ℕ) (err : String) (t : Table ProviderConnection)
      → run i err [] t ≡ (bad_gateway model err, t)
  unfolding try_candidates
  run_none i err t = refl

  run_late :
      (i : ℕ) (err : String) (p : ProviderConnection) (ps : List ProviderConnection)
      (t : Table ProviderConnection)
      → leb 3 i ≡ true
      → run i err (p ∷ ps) t ≡ (bad_gateway model err, t)
  unfolding try_candidates
  run_late i err p ps t e = rw e refl

  run_finished :
      (i : ℕ) (err : String) (p : ProviderConnection) (ps : List ProviderConnection)
      (t : Table ProviderConnection) (out : Outcome)
      → leb 3 i ≡ false
      → result_at i p t ≡ finished out
      → run i err (p ∷ ps) t ≡ (out, table_at i p t)
  unfolding try_candidates
  run_finished i err p ps t out e f =
      rw e (or_continue-finished _ (try_provider (calls i) model req p t) out f)

  run_on :
      (i : ℕ) (err : String) (p : ProviderConnection) (ps : List ProviderConnection)
      (t : Table ProviderConnection)
      → leb 3 i ≡ false
      → GoesOn (result_at i p t)
      → run i err (p ∷ ps) t ≡ run (suc i) (text_of (result_at i p t)) ps (table_at i p t)
  unfolding try_candidates
  run_on i err p ps t e f = rw e (
      or_continue-next (λ err' t'. run (suc i) err' ps t') (try_provider (calls i) model req p t)
        (text_of (result_at i p t)) f)

  abbrev Course :
      ℕ
      → String
      → List ProviderConnection
      → Table ProviderConnection
      → Outcome × Table ProviderConnection
      → Type 0
  Course i err ps t out = DecidedBy i ps t out ⊎ GivenUp i err ps t out

  head_decides :
      (i : ℕ) (err : String) (p : ProviderConnection) (ps : List ProviderConnection)
      (t : Table ProviderConnection) (out : Outcome)
      → leb 3 i ≡ false
      → result_at i p t ≡ finished out
      → DecidedBy i (p ∷ ps) t (run i err (p ∷ ps) t)
  head_decides i err p ps t out e f =
      let answer = run_finished i err p ps t out e f in
      let place : 0 + i ≡ i = omega arith in
      record {
        earlier = [];
        p = p;
        later = ps;
        split = refl;
        in_time = ground arith;
        fell_through = tt;
        decides = rw (place, answer) f;
        left = rw (place, answer) refl;
      }

  module _ (i : ℕ) (p : ProviderConnection) (ps : List ProviderConnection)
      (t : Table ProviderConnection) (out : Outcome × Table ProviderConnection)
      (f : GoesOn (result_at i p t)) where
    DecidedBy-later : DecidedBy (suc i) ps (table_at i p t) out → DecidedBy i (p ∷ ps) t out
    DecidedBy-later d =
        let place : suc (length d.earlier) + i ≡ length d.earlier + suc i = omega arith in
        record {
          earlier = p ∷ d.earlier;
          p = d.p;
          later = d.later;
          split = ap (λ qs. p ∷ qs) d.split;
          in_time = rw place d.in_time;
          fell_through = (f, d.fell_through);
          decides = rw place d.decides;
          left = rw place d.left;
        }

    GivenUp-later :
        (err : String)
        → GivenUp (suc i) (text_of (result_at i p t)) ps (table_at i p t) out
        → GivenUp i err (p ∷ ps) t out
    GivenUp-later err g =
        let place : suc (length g.earlier) + i ≡ length g.earlier + suc i = omega arith in
        record {
          earlier = p ∷ g.earlier;
          later = g.later;
          split = ap (λ qs. p ∷ qs) g.split;
          exhausted = rw place g.exhausted;
          in_time = rw place g.in_time;
          fell_through = (f, g.fell_through);
          answer = g.answer;
        }

  course :
      (i : ℕ) (err : String) (ps : List ProviderConnection) (t : Table ProviderConnection)
      → i ≤ 3
      → Course i err ps t (run i err ps t)
  course i err [] t h = inr (no_more i err [] t h (inl refl) (run_none i err t))
  course i err (p ∷ ps) t h = elim (Bool-cases (leb 3 i)) [
    | inl e ↦
        let three : i ≡ 3 = ground arith in
        inr (no_more i err (p ∷ ps) t h (inr three) (run_late i err p ps t e))
    | inr e ↦ elim (outcome_cases (result_at i p t)) [
      | inr d ↦ inl (head_decides i err p ps t d.0 e d.1)
      | inl f ↦
          let more : suc i ≤ 3 = ground arith in
          let out = run (suc i) (text_of (result_at i p t)) ps (table_at i p t) in
          let same : run i err (p ∷ ps) t ≡ out = run_on i err p ps t e f in
          rw same (elim (course (suc i) (text_of (result_at i p t)) ps (table_at i p t) more) [
            | inl d ↦ inl (DecidedBy-later i p ps t out f d)
            | inr g ↦ inr (GivenUp-later i p ps t out f err g)
          ])
    ]
  ]

  -- The loop over the candidates of a request: either one of the first three candidates returns, after every
  -- candidate before it let the next one be tried, each on the table that the one before it left, and
  -- the loop's outcome and table are those of that candidate; or all candidates, or the first three of
  -- more, let the next one be tried, and the outcome is 502 with the error of the last one tried. In no
  -- case is a fourth candidate tried.
  pub first_deciding_candidate :
      (ps : List ProviderConnection) (t : Table ProviderConnection)
      → DecidedBy 0 ps t (try_candidates calls 0 "" model req ps t)
        ⊎ GivenUp 0 "" ps t (try_candidates calls 0 "" model req ps t)
  first_deciding_candidate ps t = course 0 "" ps t (omega arith)
