-- ===== src/Parser/Valid.antt =====
-- The invariant of the parser, and that reading a clause keeps it.
use skolemfc.Base.{
  ℕ, zero, suc, ◌+◌, ◌^◌, ◌<◌, ◌≤◌, ◌≡◌, ◌⊎◌, inl, inr, Bool, true, false, some, [], ◌∷◌, ◌++◌,
  arith, length, length-append, u32, u64, All-append, All-imp, if◌then◌else◌,
}
use skolemfc.Base.Int.{ℤ, pos_part}
use skolemfc.Lit.{LitApi, LitLaws}
use skolemfc.Cnf.{Clause, Formula, Below, ClauseBelow}
use skolemfc.Solver.{add_clause}
use skolemfc.Outcome.{
  ok, refused, Ensures, Ensures-bind, Ensures-required, Ensures-imp, Ensures-if, required,
}
use skolemfc.Stream.{StreamApi, StreamLaws}
use skolemfc.Parser.{
  Parser, var_of, is_zero, is_negative, at_space, check_var, read_clause, parse_and_add_clause,
}

module _ {L : Type 0} ⦃a : LitApi L⦄ where
  pub Below-le : (n m : ℕ) (f : Formula L) → n ≤ m → Below n f → Below m f
  Below-le n m f h =
      All-imp (ClauseBelow n) (ClauseBelow m) f
        (λ c. All-imp (λ l. a.var l < n) (λ l. a.var l < m) c (λ l k. omega arith))

  pub ClauseBelow-le : (n m : ℕ) (c : Clause L) → n ≤ m → ClauseBelow n c → ClauseBelow m c
  ClauseBelow-le n m c h = All-imp (λ l. a.var l < n) (λ l. a.var l < m) c (λ l k. omega arith)

  -- `m` is the mode, which no line changes. `main` starts the parser with no debugging library and no offset; the rest is kept by every
  -- line: under a strict header the solver has just the variables that the header promised, every
  -- clause is over variables of the solver, and the clauses are counted.
  pub record IsValid {D : Type 0} (m : Bool) (p : Parser D L) : Type 0 where
    pub mode_is : p.strict_header ≡ m
    pub debug_off : p.debug_lib ≡ []
    pub no_offset : p.offset_vars ≡ 0
    pub header_vars :
        p.strict_header ≡ true
        → p.solver.nvars ≡ (if p.header_found then pos_part p.num_header_vars else 0)
    pub small : p.solver.nvars < 2 ^ 31
    pub clauses_below : Below p.solver.nvars p.solver.clauses
    pub lits_below : ClauseBelow p.solver.nvars p.lits
    pub counted : p.norm_clauses_added ≡ u64 (length p.solver.clauses)

  -- More variables do no harm.
  abbrev pub with_vars : {D : Type 0} → ℕ → Parser D L → Parser D L
  with_vars n p = record p { solver = record p.solver { nvars = n } }

  pub with_vars-IsValid :
      {D : Type 0} {m : Bool} (n : ℕ) (p : Parser D L)
      → IsValid m p
      → p.strict_header ≡ false
      → p.solver.nvars ≤ n
      → n < 2 ^ 31
      → IsValid m (with_vars n p)
  with_vars-IsValid n p v lax le small = record {
    mode_is = v.mode_is;
    debug_off = v.debug_off;
    no_offset = v.no_offset;
    header_vars = λ s. cc;
    small = small;
    clauses_below = Below-le p.solver.nvars n p.solver.clauses le v.clauses_below;
    lits_below = ClauseBelow-le p.solver.nvars n p.lits le v.lits_below;
    counted = v.counted;
  }

  -- What `check_var` answers in a valid state; its assertion does not fail.
  check_var-cases :
      {D : Type 0} {m : Bool} (var : ℕ) (p : Parser D L)
      → IsValid m p
      → (check_var var p ≡ refused)
        ⊎ ((var < p.solver.nvars) × (var < 2 ^ 28) × (check_var var p ≡ ok p))
        ⊎ ((p.strict_header ≡ false)
            × (p.solver.nvars ≤ var)
            × (var < 2 ^ 28)
            × (check_var var p ≡ ok (with_vars (var + 1) p)))
  unfolding check_var
  check_var-cases var p v = ground (arith, v.header_vars)

  pub check_var-IsValid :
      {D : Type 0} {m : Bool} (var : ℕ) (p : Parser D L)
      → IsValid m p
      → Ensures (λ q. IsValid m q × (var < q.solver.nvars) × (var < 2 ^ 28)) (check_var var p)
  check_var-IsValid var p v = elim (check_var-cases var p v) [
    | inl e ↦ rw e tt
    | inr (inl (lt, small, e)) ↦ rw e (v, lt, small)
    | inr (inr (lax, le, small, e)) ↦
        rw e (with_vars-IsValid (var + 1) p v lax (omega arith) (omega arith), omega arith, small)
  ]

  push-IsValid :
      {D : Type 0} {m : Bool} (p : Parser D L) (l : L)
      → IsValid m p
      → a.var l < p.solver.nvars
      → IsValid m (record p { lits = p.lits ++ (l ∷ []) })
  push-IsValid p l v lt = record {
    mode_is = v.mode_is;
    debug_off = v.debug_off;
    no_offset = v.no_offset;
    header_vars = v.header_vars;
    small = v.small;
    clauses_below = v.clauses_below;
    lits_below = All-append (λ l. a.var l < p.solver.nvars) p.lits (l ∷ []) v.lits_below (lt, tt);
    counted = v.counted;
  }

  clear-IsValid :
      {D : Type 0} {m : Bool} (p : Parser D L) → IsValid m p → IsValid m (record p { lits = [] })
  clear-IsValid p v = record {
    mode_is = v.mode_is;
    debug_off = v.debug_off;
    no_offset = v.no_offset;
    header_vars = v.header_vars;
    small = v.small;
    clauses_below = v.clauses_below;
    lits_below = tt;
    counted = v.counted;
  }

  abbrev added : {D : Type 0} → Parser D L → Parser D L
  added p = record p {
    line_num = u64 (p.line_num + 1);
    solver = add_clause p.lits p.solver;
    norm_clauses_added = u64 (p.norm_clauses_added + 1);
  }

  added-IsValid : {D : Type 0} {m : Bool} (p : Parser D L) → IsValid m p → IsValid m (added p)
  unfolding add_clause
  added-IsValid p v = record {
    mode_is = v.mode_is;
    debug_off = v.debug_off;
    no_offset = v.no_offset;
    header_vars = v.header_vars;
    small = v.small;
    clauses_below =
        All-append (ClauseBelow p.solver.nvars) p.solver.clauses (p.lits ∷ []) v.clauses_below
          (v.lits_below, tt);
    lits_below = v.lits_below;
    counted = omega (arith, v.counted, length-append p.solver.clauses (p.lits ∷ []));
  }

module _ {D L C : Type 0} ⦃a : LitApi L⦄ ⦃s : StreamApi C⦄ (laws : LitLaws L) (input : StreamLaws C)
    (m : Bool) where
  open s use {skip_whitespace, skip_eol, parse_int}
  open input use {left, parse_int-lt, parse_int-abs, skip_whitespace-le, skip_eol-le}

  -- A step of the parser ends in a valid state, further on in the input.
  abbrev pub Advances : C → Parser D L × C → Type 0
  Advances c r = IsValid m r.0 × (left r.1 < left c)

  abbrev push : Parser D L → ℕ → ℤ → Parser D L
  push q var n = record q { lits = q.lits ++ (a.mk var (is_negative n) ∷ []) }

  pub read_clause-Advances :
      (fuel : ℕ) (p : Parser D L) (c : C)
      → IsValid m p
      → left c < fuel
      → Ensures (Advances c) (read_clause fuel p c)
  unfolding read_clause
  read_clause-Advances zero p c v f = elim f [ ]
  read_clause-Advances (suc fuel) p c v f =
      Ensures-bind (λ r. parse_int c ≡ some r) (Advances c) (required (parse_int c)) _
        (Ensures-required _ (parse_int c) (λ r e. e))
        λ (n, c') e.
          let lt = parse_int-lt c c' n e in
          let var = u32 (var_of n + p.offset_vars) in
          Ensures-if (Advances c) (is_zero n) _ _ (λ z. (v, lt))
            λ z.
              Ensures-bind _ (Advances c) (check_var var p) _ (check_var-IsValid var p v)
                λ q (vq, below, fits).
                  Ensures-if (Advances c) (at_space c') _ _
                    (λ t.
                      Ensures-imp (Advances c') (Advances c) (read_clause fuel (push q var n) c')
                        (read_clause-Advances fuel (push q var n) c'
                          (push-IsValid q _ vq
                            (rw (laws.var-mk var (is_negative n) (omega arith)) below))
                          (omega arith))
                        (λ r (w, k). (w, omega arith)))
                    (λ t. tt)

  pub parse_and_add_clause-Advances :
      (fuel : ℕ) (p : Parser D L) (c : C)
      → IsValid m p
      → left c < fuel
      → Ensures (Advances c) (parse_and_add_clause fuel p c)
  unfolding parse_and_add_clause
  parse_and_add_clause-Advances fuel p c v f =
      Ensures-bind (Advances c) (Advances c) (read_clause fuel (record p { lits = [] }) c) _
        (read_clause-Advances fuel (record p { lits = [] }) c (clear-IsValid p v) f)
        λ (q, c') (w, lt).
          Ensures-bind (λ c''. skip_eol (skip_whitespace c') ≡ some c'') (Advances c)
            (required (skip_eol (skip_whitespace c'))) _
            (Ensures-required _ (skip_eol (skip_whitespace c')) (λ r e. e))
            λ c'' e.
              let back = skip_whitespace-le c' in
              let eol = skip_eol-le (skip_whitespace c') c'' e in (added-IsValid q w, omega arith)
