-- ===== src/Parser/LinesValid.antt =====
-- The header, the comments and the quantifier blocks keep the parser's invariant.
use skolemfc.Base.{
  ℕ, zero, suc, ◌+◌, ◌-◌, ◌^◌, ◌<◌, ◌≤◌, ◌≡◌, refl, ◌⊎◌, inl, inr, Bool, true, false, not, ◌&&◌,
  some, List, [], arith, u32, Bool-cases, ltb,
}
use skolemfc.Base.Int.{ℤ, pos, negsuc, pos_part, abs, to_i32}
use skolemfc.Lit.{LitApi, LitLaws}
use skolemfc.Outcome.{
  ok, refused, Ensures, Ensures-bind, Ensures-required, Ensures-imp, Ensures-if, required,
}
use skolemfc.Stream.{StreamApi, StreamLaws}
use skolemfc.Parser.{Parser, next_line, var_of, is_zero}
use skolemfc.Parser.Lines.{
  equal, cnf, is_empty, debug_new_vars, set_header, Quantifier, forall_block, exists_block, add_var,
  header_numbers, parse_header, parse_comments, read_vars, parse_vars,
}
use skolemfc.Parser.Valid.{IsValid, with_vars, Below-le, ClauseBelow-le, Advances}

module _ {D L C : Type 0} ⦃a : LitApi L⦄ ⦃s : StreamApi C⦄ (laws : LitLaws L) (input : StreamLaws C)
    (m : Bool) where
  open s use {peek, next, skip_whitespace, skip_line, parse_int, parse_string}
  open input use {
    left, next-lt, parse_int-lt, parse_int-abs, skip_whitespace-le, skip_line-le, parse_string-le,
  }

  abbrev Forward : C → Parser D L × C → Type 0
  Forward = Advances laws input m

  pub next_line-IsValid : (p : Parser D L) → IsValid m p → IsValid m (next_line p)
  next_line-IsValid p v = record {
    mode_is = v.mode_is;
    debug_off = v.debug_off;
    no_offset = v.no_offset;
    header_vars = v.header_vars;
    small = v.small;
    clauses_below = v.clauses_below;
    lits_below = v.lits_below;
    counted = v.counted;
  }

  add_var-IsValid :
      (k : Quantifier) (x : ℕ) (p : Parser D L) → IsValid m p → IsValid m (add_var k x p)
  unfolding add_var
  add_var-IsValid forall_block x p v = record {
    mode_is = v.mode_is;
    debug_off = v.debug_off;
    no_offset = v.no_offset;
    header_vars = v.header_vars;
    small = v.small;
    clauses_below = v.clauses_below;
    lits_below = v.lits_below;
    counted = v.counted;
  }
  add_var-IsValid exists_block x p v = record {
    mode_is = v.mode_is;
    debug_off = v.debug_off;
    no_offset = v.no_offset;
    header_vars = v.header_vars;
    small = v.small;
    clauses_below = v.clauses_below;
    lits_below = v.lits_below;
    counted = v.counted;
  }

  read_vars-Advances :
      (k : Quantifier) (fuel : ℕ) (p : Parser D L) (c : C)
      → IsValid m p
      → left c < fuel
      → Ensures (Forward c) (read_vars k fuel p c)
  unfolding read_vars
  read_vars-Advances k zero p c v f = elim f [ ]
  read_vars-Advances k (suc fuel) p c v f =
      Ensures-bind (λ r. parse_int c ≡ some r) (Forward c) (required (parse_int c)) _
        (Ensures-required _ (parse_int c) (λ r e. e))
        λ (n, c') e.
          let lt = parse_int-lt c c' n e in
          Ensures-if (Forward c) (is_zero n) _ _ (λ z. (v, lt))
            λ z.
              Ensures-imp (Forward c') (Forward c) (read_vars k fuel (add_var k (var_of n) p) c')
                (read_vars-Advances k fuel (add_var k (var_of n) p) c'
                  (add_var-IsValid k (var_of n) p v) (omega arith))
                (λ r (w, l). (w, omega arith))

  pub parse_vars-Advances :
      (k : Quantifier) (fuel : ℕ) (p : Parser D L) (c : C)
      → IsValid m p
      → left c < fuel
      → Ensures (Forward c) (parse_vars k fuel p c)
  unfolding parse_vars
  parse_vars-Advances k fuel p c v f =
      Ensures-bind (Forward c) (Forward c) (read_vars k fuel p c) _
        (read_vars-Advances k fuel p c v f)
        λ (q, c') (w, lt). let on = skip_line-le c' in (next_line-IsValid q w, omega arith)

  abbrev found : Parser D L → Parser D L
  found p = record p { header_found = true }

  -- What a header leaves of the state.
  set_header-cases :
      (vars cls : ℤ) (p : Parser D L)
      → IsValid m p
      → (p.header_found && p.strict_header) ≡ false
      → abs vars < 2 ^ 31
      → (set_header vars cls (found p) ≡ refused)
        ⊎ ((n : ℕ) × (n < 2 ^ 31)
            × (set_header vars cls (found p)
                ≡ ok (record (with_vars n (found p)) {
                  num_header_vars = vars;
                  num_header_cls = cls;
                }))
            × (p.solver.nvars ≤ n)
            × (p.strict_header ≡ true → n ≡ pos_part vars))
  unfolding set_header
  set_header-cases (negsuc k) cls p v once small = inl refl
  set_header-cases (pos k) (negsuc m) p v once small = inl refl
  set_header-cases (pos k) (pos m) p v once small =
      let same : to_i32 (u32 (u32 k + p.offset_vars)) ≡ pos k = ground (arith, v.no_offset) in
      elim (Bool-cases (ltb p.solver.nvars k)) [
        | inl lt ↦
            let grown : u32 (p.solver.nvars + u32 (u32 k + 2 ^ 32 - p.solver.nvars)) ≡ k =
              ground arith in
            inr (k, small, rw (same, lt, grown), ground arith, λ t. refl)
        | inr ge ↦ inr (
          p.solver.nvars,
          v.small,
          rw (same, ge),
          omega arith,
          λ t. ground (arith, v.header_vars t),
        )
      ]

  set_header-IsValid :
      (vars cls : ℤ) (p : Parser D L)
      → IsValid m p
      → (p.header_found && p.strict_header) ≡ false
      → abs vars < 2 ^ 31
      → Ensures (IsValid m) (set_header vars cls (found p))
  set_header-IsValid vars cls p v once small = elim (set_header-cases vars cls p v once small) [
    | inl e ↦ rw e tt
    | inr (n, fits, e, more, header) ↦ rw e (record {
      mode_is = v.mode_is;
      debug_off = v.debug_off;
      no_offset = v.no_offset;
      header_vars = header;
      small = fits;
      clauses_below = Below-le p.solver.nvars n p.solver.clauses more v.clauses_below;
      lits_below = ClauseBelow-le p.solver.nvars n p.lits more v.lits_below;
      counted = v.counted;
    })
  ]

  header_numbers-Advances :
      (p : Parser D L) (c : C)
      → IsValid m p
      → (p.header_found && p.strict_header) ≡ false
      → Ensures (Forward c) (header_numbers (found p) c)
  unfolding header_numbers
  header_numbers-Advances p c v once =
      Ensures-bind (λ r. parse_int c ≡ some r) (Forward c) (required (parse_int c)) _
        (Ensures-required _ (parse_int c) (λ r e. e))
        λ (vars, c') e.
          Ensures-bind (λ r. parse_int c' ≡ some r) (Forward c) (required (parse_int c')) _
            (Ensures-required _ (parse_int c') (λ r e. e))
            λ (cls, c'') e'.
              Ensures-bind (IsValid m) (Forward c) (set_header vars cls (found p)) _
                (set_header-IsValid vars cls p v once (parse_int-abs c c' vars e))
                λ q w.
                  let one = parse_int-lt c c' vars e in
                  let two = parse_int-lt c' c'' cls e' in (w, omega arith)

  pub parse_header-Advances :
      (p : Parser D L) (c : C) (b : ℕ)
      → IsValid m p
      → peek c ≡ some b
      → Ensures (Forward c) (parse_header p c)
  unfolding parse_header
  parse_header-Advances p c b v at =
      let name = skip_whitespace (next c) in
      let c' = (parse_string name).1 in
      let on = next-lt c b at in
      let white = skip_whitespace-le (next c) in
      let word = parse_string-le name in
      Ensures-if (Forward c) (equal (parse_string name).0 cnf) _ _
        (λ t.
          Ensures-if (Forward c) (p.header_found && p.strict_header) _ _ (λ u. tt)
            λ u.
              Ensures-imp (Forward c') (Forward c) (header_numbers (found p) c')
                (header_numbers-Advances p c' v u) (λ r (w, lt). (w, omega arith)))
        (λ t. tt)

  -- With no debugging library a comment is skipped.
  pub parse_comments-Advances :
      (str : List ℕ) (p : Parser D L) (c c₀ : C)
      → IsValid m p
      → left c < left c₀
      → Ensures (Forward c₀) (parse_comments str p c)
  unfolding parse_comments
  parse_comments-Advances str p c c₀ v lt =
      let on = skip_line-le c in
      Ensures-if (Forward c₀) (not (is_empty p.debug_lib) && equal str debug_new_vars) _ _
        (λ t. absurd (on_debug v.debug_off t)) (λ t. (next_line-IsValid p v, omega arith))
    where
      on_debug :
          p.debug_lib ≡ [] → (not (is_empty p.debug_lib) && equal str debug_new_vars) ≡ true → ⊥
      on_debug e t = ground arith
