-- ===== src/Parser/Refused.antt =====
-- What the parser makes of a text in its format with a literal that is not below the header's number.
use mathlib.Core.List.{append_assoc}
use skolemfc.Base.{
  ℕ, zero, suc, ◌+◌, ◌≤◌, ◌<◌, ◌^◌, ◌≡◌, refl, sym, ap, ◌∙◌, Bool, true, false, List, [], ◌∷◌, ◌++◌,
  arith, length, length-append, u32, ltb, leb, Bool-cases, inl, inr,
}
use skolemfc.Base.Int.{leb_ℤ, to_i32}
use skolemfc.Lit.{LitApi}
use skolemfc.Cnf.{Clause, Formula, Below, ClauseBelow}
use skolemfc.Outcome.{refused}
use skolemfc.Stream.{StreamApi}
use skolemfc.Solver.{create, add_clause}
use skolemfc.Counter.Text.{clause_text, clauses_text}
use skolemfc.Parser.{Parser, start, var_of, check_var, read_clause, parse_and_add_clause}
use skolemfc.Parser.Main.{parse_line, parse_dimacs_main, parse_dimacs}
use skolemfc.Parser.Format.{StreamText, LitText, lead, qdimacs}
use skolemfc.Parser.ClauseText.{
  Behind, lit_int, lit_int-facts, parse_literal, check_var-Behind, at_space-contents,
}
use skolemfc.Parser.Blocks.{Writable}
use skolemfc.Parser.RoundTrip.{
  OpensClause, append-Opens, clause_text-Opens, length-clause_text, parse_line-text, added,
}
use skolemfc.Parser.Opening.{parse_opening}
use skolemfc.Parser.Written.{qdimacs-length}

module _ {D L : Type 0} where
  check_var-above :
      (n v : ℕ) (p : Parser D L) → Behind n p → n ≤ v → v < 2 ^ 31 → check_var v p ≡ refused
  unfolding check_var
  check_var-above n v p (few, limit, strict, found, header, offset, nvars) ge small =
      let below_max : ltb p.max_var v ≡ false = ground arith in
      let above : leb_ℤ p.num_header_vars (to_i32 v) ≡ true = rw header (ground arith) in
      elim (Bool-cases (leb (2 ^ 28) v)) [
        | inl e ↦ rw (below_max, e) refl
        | inr e ↦ rw (below_max, e, strict, found, above) refl
      ]

module _ {D L C : Type 0} ⦃a : LitApi L⦄ ⦃s : StreamApi C⦄ (text : StreamText C)
    (lits : LitText L) where
  open text use {contents}

  -- A clause with a literal at `n` or above, behind literals below `n`.
  read_clause-above :
      (n : ℕ) (cl cl' : Clause L) (l : L) (b : Bool) (fuel : ℕ) (p : Parser D L) (c : C)
      (rest : List ℕ)
      → contents c ≡ lead b ++ (clause_text (cl ++ (l ∷ cl')) ++ rest)
      → length cl < fuel
      → ClauseBelow n cl
      → n ≤ a.var l
      → a.var l + 1 < 2 ^ 31
      → Behind n p
      → read_clause fuel p c ≡ refused
  unfolding read_clause clause_text
  read_clause-above n cl cl' l b zero p c rest e k below ge small behind = absurd (omega arith)
  read_clause-above n [] cl' l b (suc fuel) p c rest e k below ge small behind =
      let (few, limit, strict, found, header, offset, nvars) = behind in
      let (c₁, i, f) =
        parse_literal text lits l b c (clause_text cl' ++ rest)
          (e ∙ ap (λ x. lead b ++ x) (append_assoc (a.print l) _ _)) small in
      let (zero_no, same_var, same_sign) = lit_int-facts l (omega arith) in
      let var : u32 (var_of (lit_int l) + p.offset_vars) ≡ a.var l =
        rw (same_var, offset) (omega arith) in
      rw (i, zero_no, var, check_var-above n (a.var l) p behind ge (omega arith)) refl
  read_clause-above n (l₁ ∷ cl) cl' l b (suc fuel) p c rest e k (lt, below) ge small behind =
      let (few, limit, strict, found, header, offset, nvars) = behind in
      let (c₁, i, f) =
        parse_literal text lits l₁ b c (clause_text (cl ++ (l ∷ cl')) ++ rest)
          (e ∙ ap (λ x. lead b ++ x) (append_assoc (a.print l₁) _ _)) (omega arith) in
      let (zero_no, same_var, same_sign) = lit_int-facts l₁ (omega arith) in
      let var : u32 (var_of (lit_int l₁) + p.offset_vars) ≡ a.var l₁ =
        rw (same_var, offset) (omega arith) in
      let q = record p { lits = p.lits ++ (l₁ ∷ []) } in
      rw
        (
          i,
          zero_no,
          var,
          check_var-Behind n (a.var l₁) p behind lt,
          at_space-contents text c₁ _ f,
          same_sign,
          lits.mk-var l₁ (omega arith),
        )
        (read_clause-above n cl cl' l true fuel q c₁ rest f (omega arith) below ge small behind)

  parse_line-above :
      (n : ℕ) (cl cl' : Clause L) (l : L) (fuel b : ℕ) (p : Parser D L) (c : C) (rest : List ℕ)
      → contents c ≡ clause_text (cl ++ (l ∷ cl')) ++ rest
      → OpensClause b
      → length cl < fuel
      → ClauseBelow n cl
      → n ≤ a.var l
      → a.var l + 1 < 2 ^ 31
      → Behind n p
      → parse_line fuel b p c ≡ refused
  unfolding parse_line parse_and_add_clause
  parse_line-above n cl cl' l fuel b p c rest e (p', c', a', e', nl, blank) k below ge small
        behind =
      rw
        (
          p',
          c',
          a',
          e',
          nl,
          read_clause-above n cl cl' l false fuel (record p { lits = [] }) c rest e k below ge small
              behind,
        )
        refl

  -- The loop, on clauses of which one has such a literal.
  parse_clauses-above :
      (n : ℕ) (g h : Formula L) (cl cl' : Clause L) (l : L) (fuel : ℕ) (p : Parser D L) (c : C)
      → contents c ≡ clauses_text (g ++ ((cl ++ (l ∷ cl')) ∷ h))
      → length (clauses_text (g ++ ((cl ++ (l ∷ cl')) ∷ h))) < fuel
      → Below n g
      → ClauseBelow n cl
      → n ≤ a.var l
      → a.var l + 1 < 2 ^ 31
      → Behind n p
      → parse_dimacs_main fuel p c ≡ refused
  unfolding parse_dimacs_main clauses_text add_clause
  parse_clauses-above n g h cl cl' l zero p c e k below start ge small behind = absurd (omega arith)
  parse_clauses-above n [] h cl cl' l (suc fuel) p c e k below start ge small behind =
      let bad = cl ++ (l ∷ cl') in
      let (b, tail, o, opens) = append-Opens _ (clauses_text h) (clause_text-Opens lits bad) in
      let skipped = text.skip_whitespace-contents c false b tail (e ∙ o) (opens.5) in
      let size = length-append (clause_text bad) (clauses_text h) in
      let long = length-clause_text bad in
      let parts = length-append cl (l ∷ cl') in
      let line =
        parse_line-above n cl cl' l (suc fuel) b p (s.skip_whitespace c) (clauses_text h)
          (skipped ∙ sym o) opens (omega arith) start ge small behind in
      rw (parse_dimacs_main, text.peek-contents (s.skip_whitespace c), skipped, line) refl
  parse_clauses-above n (cl₁ ∷ g) h cl cl' l (suc fuel) p c e k (here, below) start ge small
        behind =
      let rest = clauses_text (g ++ ((cl ++ (l ∷ cl')) ∷ h)) in
      let (b, tail, o, opens) = append-Opens _ rest (clause_text-Opens lits cl₁) in
      let skipped = text.skip_whitespace-contents c false b tail (e ∙ o) (opens.5) in
      let size = length-append (clause_text cl₁) rest in
      let long = length-clause_text cl₁ in
      let (c₁, i, f) =
        parse_line-text text lits n cl₁ (suc fuel) b p (s.skip_whitespace c) rest (skipped ∙ sym o)
          opens (omega arith) here behind in
      rw (parse_dimacs_main, text.peek-contents (s.skip_whitespace c), skipped, i)
        (parse_clauses-above n g h cl cl' l fuel (added text lits cl₁ p) c₁ f (omega arith) below
          start ge small behind)

  -- For a buffer and literals whose numbers are written as usual: the parser, on a new solver, with a
  -- required header and more fuel than the text has bytes, refuses the text of a formula over `n`
  -- variables of which a literal is not below `n` and fits an int32_t, while those in front of it are
  -- below `n`; `n` is below 2 ^ 28, the clauses are fewer than 2 ^ 31 and the quantified variables are
  -- below 2 ^ 31 - 1.
  pub parse_dimacs-refused :
      (epsilon delta : D) (seed verbosity n fuel : ℕ) (xs ys : List ℕ) (g h : Formula L)
      (cl cl' : Clause L) (l : L) (c : C)
      → let f = g ++ ((cl ++ (l ∷ cl')) ∷ h) in
        contents c ≡ qdimacs n xs ys f
        → length (contents c) < fuel
        → n < 2 ^ 28
        → length f < 2 ^ 31
        → Writable xs
        → Writable ys
        → Below n g
        → ClauseBelow n cl
        → n ≤ a.var l
        → a.var l + 1 < 2 ^ 31
        → parse_dimacs {L = L} fuel true 0 (start (create epsilon delta seed verbosity) []) c
          ≡ refused
  unfolding parse_dimacs start create
  parse_dimacs-refused epsilon delta seed verbosity n (suc (suc (suc fuel))) xs ys g h cl cl' l c e
        k few short wx wy below begin ge small =
      let f = g ++ ((cl ++ (l ∷ cl')) ∷ h) in
      let size = qdimacs-length n xs ys f _ e in
      let (q, c₁, i, r, b, solver) =
        parse_opening text n (length f) fuel xs ys (create epsilon delta seed verbosity) c
          (clauses_text f) e (omega arith) few short wx wy in
      i ∙ parse_clauses-above n g h cl cl' l fuel q c₁ r (omega arith) below begin ge small b
  parse_dimacs-refused epsilon delta seed verbosity n fuel xs ys g h cl cl' l c e k few short wx wy
        below begin ge small =
      absurd (omega (arith, qdimacs-length n xs ys (g ++ ((cl ++ (l ∷ cl')) ∷ h)) _ e))
