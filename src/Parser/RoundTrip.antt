-- ===== src/Parser/RoundTrip.antt =====
-- What the parser makes of a text in its format: the formula that was written.
use mathlib.Core.List.{append_assoc, append-nil}
use skolemfc.Base.{
  ℕ, zero, suc, ◌+◌, ◌/◌, ◌%◌, ◌<◌, ◌≡◌, refl, sym, ◌∙◌, false, List, [], ◌∷◌, ◌++◌, arith, length,
  length-append, u64, ltb, ◌==◌, Bool-cases, inl, inr,
}
use skolemfc.Lit.{LitApi}
use skolemfc.Cnf.{Clause, Formula, Below, ClauseBelow}
use skolemfc.Outcome.{ok}
use skolemfc.Stream.{StreamApi}
use skolemfc.Solver.{add_clause}
use skolemfc.Counter.Text.{decimal_onto, decimal, newline, clause_text, clauses_text}
use skolemfc.Parser.{Parser, parse_and_add_clause}
use skolemfc.Parser.Main.{parse_line, parse_dimacs_main}
use skolemfc.Parser.Format.{StreamText, LitText, is_blank}
use skolemfc.Parser.ClauseText.{Behind, read_clause-text}

-- The first byte of a clause is none that opens another line.
abbrev pub OpensClause : ℕ → Type 0
OpensClause b =
    ((b == b'p') ≡ false)
    × ((b == b'c') ≡ false)
    × ((b == b'a') ≡ false)
    × ((b == b'e') ≡ false)
    × ((b == newline) ≡ false)
    × (is_blank b ≡ false)

abbrev pub Opens : List ℕ → Type 0
Opens text = (b : ℕ) × (rest : List ℕ) × (text ≡ b ∷ rest) × OpensClause b

digit-OpensClause : (n : ℕ) → n < 10 → OpensClause (b'0' + n)
digit-OpensClause n h = ground arith

decimal_onto-Opens : (fuel n : ℕ) (acc : List ℕ) → n < fuel → Opens (decimal_onto fuel n acc)
unfolding decimal_onto
decimal_onto-Opens zero n acc h = absurd (omega arith)
decimal_onto-Opens (suc fuel) n acc h = elim (Bool-cases (ltb n 10)) [
  | inl e ↦ rw e (b'0' + n % 10, acc, refl, digit-OpensClause (n % 10) (omega arith))
  | inr e ↦ rw e (decimal_onto-Opens fuel (n / 10) ((b'0' + n % 10) ∷ acc) (ground arith))
]

pub append-Opens : (xs ys : List ℕ) → Opens xs → Opens (xs ++ ys)
append-Opens xs ys (b, rest, e, o) = (b, rest ++ ys, rw e refl, o)

module _ {L : Type 0} ⦃a : LitApi L⦄ (lits : LitText L) where
  print-Opens : (l : L) → Opens (a.print l)
  unfolding decimal
  print-Opens l = elim (Bool-cases (a.sign l)) [
    | inl k ↦ (
      b'-',
      decimal (a.var l + 1),
      rw k at (lits.print-var l),
      (refl, refl, refl, refl, refl, refl),
    )
    | inr k ↦
        let printed = rw k at (lits.print-var l) in
        rw printed (decimal_onto-Opens (suc (a.var l + 1)) (a.var l + 1) [] (omega arith))
  ]

  pub clause_text-Opens : (cl : Clause L) → Opens (clause_text cl)
  unfolding clause_text
  clause_text-Opens [] = (b'0', newline ∷ [], refl, (refl, refl, refl, refl, refl, refl))
  clause_text-Opens (l ∷ cl) = append-Opens (a.print l) _ (print-Opens l)

module _ {L : Type 0} ⦃a : LitApi L⦄ where
  pub length-clause_text : (cl : Clause L) → length cl < length (clause_text cl)
  unfolding clause_text
  length-clause_text [] = omega arith
  length-clause_text (l ∷ cl) =
      omega (arith, length-append (a.print l) (b' ' ∷ clause_text cl), length-clause_text cl)

module _ {D L C : Type 0} ⦃a : LitApi L⦄ ⦃s : StreamApi C⦄ (text : StreamText C)
    (lits : LitText L) where
  open text use {contents}

  -- The parser behind a clause.
  abbrev pub added : Clause L → Parser D L → Parser D L
  added cl p = record p {
    lits = cl;
    line_num = u64 (p.line_num + 1);
    solver = add_clause cl p.solver;
    norm_clauses_added = u64 (p.norm_clauses_added + 1);
  }

  parse_and_add_clause-text :
      (n : ℕ) (cl : Clause L) (fuel : ℕ) (p : Parser D L) (c : C) (rest : List ℕ)
      → contents c ≡ clause_text cl ++ rest
      → length cl < fuel
      → ClauseBelow n cl
      → Behind n p
      → (c' : C) × (parse_and_add_clause fuel p c ≡ ok (added cl p, c')) × (contents c' ≡ rest)
  unfolding parse_and_add_clause
  parse_and_add_clause-text n cl fuel p c rest e k below behind =
      let (c₁, i, f) =
        read_clause-text text lits n cl false fuel (record p { lits = [] }) c rest e k below
          behind in
      let g = text.skip_whitespace-contents c₁ false newline rest f refl in
      let (c₂, j, h) = text.skip_eol-contents (s.skip_whitespace c₁) rest g in
      (c₂, rw (i, j) refl, h)

  pub parse_line-text :
      (n : ℕ) (cl : Clause L) (fuel b : ℕ) (p : Parser D L) (c : C) (rest : List ℕ)
      → contents c ≡ clause_text cl ++ rest
      → OpensClause b
      → length cl < fuel
      → ClauseBelow n cl
      → Behind n p
      → (c' : C) × (parse_line fuel b p c ≡ ok (added cl p, c')) × (contents c' ≡ rest)
  unfolding parse_line
  parse_line-text n cl fuel b p c rest e (p', c', a', e', nl, blank) k below behind =
      rw (p', c', a', e', nl) (parse_and_add_clause-text n cl fuel p c rest e k below behind)

  pub parse_clauses :
      (n : ℕ) (f : Formula L) (fuel : ℕ) (p : Parser D L) (c : C)
      → contents c ≡ clauses_text f
      → length (clauses_text f) < fuel
      → Below n f
      → Behind n p
      → (q : Parser D L) × (parse_dimacs_main fuel p c ≡ ok q)
        × (q.solver ≡ record p.solver { clauses = p.solver.clauses ++ f })
  unfolding parse_dimacs_main clauses_text add_clause
  parse_clauses n f zero p c e k below behind = absurd (omega arith)
  parse_clauses n [] (suc fuel) p c e k below behind =
      let over = text.skip_whitespace-end c e in
      (
        p,
        rw (parse_dimacs_main, text.peek-contents (s.skip_whitespace c), over) refl,
        rw append-nil refl,
      )
  parse_clauses n (cl ∷ f) (suc fuel) p c e k (here, below) behind =
      let (b, tail, o, opens) = append-Opens _ (clauses_text f) (clause_text-Opens lits cl) in
      let start = text.skip_whitespace-contents c false b tail (e ∙ o) (opens.5) in
      let size = length-append (clause_text cl) (clauses_text f) in
      let long = length-clause_text cl in
      let (c₁, i, g) =
        parse_line-text n cl (suc fuel) b p (s.skip_whitespace c) (clauses_text f) (start ∙ sym o)
          opens (omega arith) here behind in
      let (q, j, same) = parse_clauses n f fuel (added cl p) c₁ g (omega arith) below behind in
      (
        q,
        rw (parse_dimacs_main, text.peek-contents (s.skip_whitespace c), start, i, j) refl,
        same ∙ rw append_assoc refl,
      )
