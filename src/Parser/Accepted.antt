-- ===== src/Parser/Accepted.antt =====
-- The parser as a whole: it ends, its assertion holds, and what it accepts is well formed.
use skolemfc.Base.{
  ℕ, zero, suc, ◌^◌, ◌<◌, ◌≡◌, refl, Bool, true, some, [], arith, length, u64, if◌then◌else◌, ◌==◌,
  ==_iff,
}
use skolemfc.Base.Int.{pos_part}
use skolemfc.Lit.{LitApi, LitLaws}
use skolemfc.Cnf.{Below}
use skolemfc.Solver.{create}
use skolemfc.Outcome.{Ensures, Ensures-bind, Ensures-imp, Ensures-elim, Ensures-if}
use skolemfc.Stream.{StreamApi, StreamLaws}
use skolemfc.Parser.{Parser, start}
use skolemfc.Parser.Lines.{parse_header, parse_vars, Quantifier, forall_block, exists_block}
use skolemfc.Parser.Main.{parse_line, parse_dimacs_main, parse_dimacs}
use skolemfc.Parser.Valid.{IsValid, Advances, parse_and_add_clause-Advances}
use skolemfc.Parser.LinesValid.{
  next_line-IsValid, parse_header-Advances, parse_comments-Advances, parse_vars-Advances,
}

module _ {D L C : Type 0} ⦃a : LitApi L⦄ ⦃s : StreamApi C⦄ (laws : LitLaws L) (input : StreamLaws C)
    (m : Bool) where
  open s use {peek, next, skip_whitespace, skip_line, parse_string}
  open input use {left, next-lt, skip_whitespace-le, skip_line-le, skip_line-lt, parse_string-le}

  abbrev Forward : C → Parser D L × C → Type 0
  Forward = Advances laws input m

  parse_line-Advances :
      (fuel b : ℕ) (p : Parser D L) (c : C)
      → IsValid m p
      → peek c ≡ some b
      → left c < fuel
      → Ensures (Forward c) (parse_line fuel b p c)
  unfolding parse_line
  parse_line-Advances fuel b p c v at f =
      let on = next-lt c b at in
      let name = parse_string-le (next c) in
      let vars = λ (k : Quantifier).
        Ensures-imp (Forward (next c)) (Forward c) (parse_vars k fuel p (next c))
          (parse_vars-Advances laws input m k fuel p (next c) v (omega arith))
          (λ r (w, lt). (w, omega arith)) in
      Ensures-if (Forward c) (b == b'p') _ _
        (λ _.
          Ensures-bind (Forward c) (Forward c) (parse_header p c) _
            (parse_header-Advances laws input m p c b v at)
            (λ (q, c') (w, lt).
              let l = skip_line-le c' in (next_line-IsValid laws input m q w, omega arith)))
        λ _.
          Ensures-if (Forward c) (b == b'c') _ _
            (λ _.
              parse_comments-Advances laws input m (parse_string (next c)).0 p
                (parse_string (next c)).1 c v (omega arith))
            λ _.
              Ensures-if (Forward c) (b == b'a') _ _ (λ _. vars forall_block)
                λ _.
                  Ensures-if (Forward c) (b == b'e') _ _ (λ _. vars exists_block)
                    λ _.
                      Ensures-if (Forward c) (b == b'\n') _ _
                        (λ e. (
                          next_line-IsValid laws input m p v,
                          skip_line-lt c (rw (← (==_iff b b'\n').0 e) at),
                        ))
                        (λ _. parse_and_add_clause-Advances laws input m fuel p c v f)

  parse_dimacs_main-IsValid :
      (fuel : ℕ) (p : Parser D L) (c : C)
      → IsValid m p
      → left c < fuel
      → Ensures (IsValid m) (parse_dimacs_main fuel p c)
  unfolding parse_dimacs_main
  parse_dimacs_main-IsValid zero p c v f = elim f [ ]
  parse_dimacs_main-IsValid (suc fuel) p c v f =
      let c' = skip_whitespace c in
      let back = skip_whitespace-le c in
      Ensures-elim (IsValid m) (peek c') _ _ (λ e. v)
        λ b at.
          Ensures-bind (Forward c') (IsValid m) (parse_line (suc fuel) b p c') _
            (parse_line-Advances (suc fuel) b p c' v at (omega arith))
            λ (q, c'') (w, lt). parse_dimacs_main-IsValid fuel q c'' w (omega arith)

-- What a finished parse says of the solver.
pub record IsAccepted {D L : Type 0} ⦃a : LitApi L⦄ (q : Parser D L) : Type 0 where
  pub header_vars : q.solver.nvars ≡ (if q.header_found then pos_part q.num_header_vars else 0)
  pub small : q.solver.nvars < 2 ^ 31
  pub clauses_below : Below q.solver.nvars q.solver.clauses
  pub counted : q.norm_clauses_added ≡ u64 (length q.solver.clauses)

module _ {D L : Type 0} ⦃a : LitApi L⦄ (epsilon delta : D) (seed verbosity : ℕ) where
  -- The parser as `parse_DIMACS` starts it on a new solver, under a strict header.
  abbrev first : Parser D L
  first = record (start (create epsilon delta seed verbosity) []) {
    strict_header = true;
    offset_vars = 0;
  }

  first-IsValid : IsValid true first
  unfolding start create
  first-IsValid = record {
    mode_is = refl;
    debug_off = refl;
    no_offset = refl;
    header_vars = λ _. refl;
    small = omega arith;
    clauses_below = tt;
    lits_below = tt;
    counted = refl;
  }

module _ {D L C : Type 0} ⦃a : LitApi L⦄ ⦃s : StreamApi C⦄ (laws : LitLaws L)
    (input : StreamLaws C) where
  -- For literals and an input that obey their laws, on a new solver, with a strict header and more
  -- fuel than the input has bytes left: the parse ends, and no assertion fails. If it accepts, the
  -- solver has the header's number of variables (none without a header), below 2 ^ 31; every clause is
  -- over variables below that number; and the parser's count of clauses is theirs modulo 2 ^ 64.
  pub parse_dimacs_accepts :
      (fuel : ℕ) (epsilon delta : D) (seed verbosity : ℕ) (c : C)
      → input.left c < fuel
      → Ensures IsAccepted
          (parse_dimacs fuel true 0 (start (create {L = L} epsilon delta seed verbosity) []) c)
  unfolding parse_dimacs
  parse_dimacs_accepts fuel epsilon delta seed verbosity c f =
      let p = first {L = L} epsilon delta seed verbosity in
      Ensures-imp (IsValid true) IsAccepted (parse_dimacs_main fuel p c)
        (parse_dimacs_main-IsValid laws input true fuel p c
          (first-IsValid {L = L} epsilon delta seed verbosity) f)
        (λ q v. record {
          header_vars = v.header_vars v.mode_is;
          small = v.small;
          clauses_below = v.clauses_below;
          counted = v.counted;
        })
