-- ===== src/Parser/Projected.antt =====
-- What the parser makes of the text that is written for Ganak (`count_using_ganak`, `print_cnf`).
use mathlib.Core.List.{append_assoc}
use skolemfc.Base.{
  ℕ, zero, suc, ◌+◌, ◌/◌, ◌%◌, ◌<◌, ◌≤◌, ◌^◌, ◌≡◌, refl, sym, ap, ◌∙◌, true, false, List, [], ◌∷◌,
  ◌++◌, arith, length, length-append, All-append, u32, ltb, ◌==◌, Bool-cases, inl, inr,
}
use skolemfc.Lit.{LitApi}
use skolemfc.Cnf.{Formula, Below}
use skolemfc.Outcome.{ok}
use skolemfc.Stream.{StreamApi}
use skolemfc.Solver.{create}
use skolemfc.Counter.Text.{
  decimal_onto, decimal, newline, p_cnf, show_vars, show_line, clauses_text, cnf_text, IsLine,
}
use skolemfc.Parser.{Parser, next_line, start}
use skolemfc.Parser.Lines.{parse_comments}
use skolemfc.Parser.Main.{parse_line, parse_dimacs_main, parse_dimacs}
use skolemfc.Parser.Format.{StreamText, LitText}
use skolemfc.Parser.ClauseText.{Behind}
use skolemfc.Parser.Header.{begun, headed, parse_header-text}
use skolemfc.Parser.Opening.{step}
use skolemfc.Parser.RoundTrip.{parse_clauses}

decimal_onto-IsLine : (fuel n : ℕ) (acc : List ℕ) → IsLine acc → IsLine (decimal_onto fuel n acc)
unfolding decimal_onto
decimal_onto-IsLine zero n acc h = h
decimal_onto-IsLine (suc fuel) n acc h =
    let digit : ((b'0' + n % 10) == newline) ≡ false = ground arith in
    elim (Bool-cases (ltb n 10)) [
      | inl e ↦ rw e (digit, h)
      | inr e ↦ rw e (decimal_onto-IsLine fuel (n / 10) ((b'0' + n % 10) ∷ acc) (digit, h))
    ]

show_vars-IsLine : (vs : List ℕ) → IsLine (show_vars vs)
unfolding show_vars decimal
show_vars-IsLine [] = tt
show_vars-IsLine (v ∷ vs) = (
  refl,
  All-append (λ c. (c == newline) ≡ false) (decimal (u32 (v + 1))) (show_vars vs)
      (decimal_onto-IsLine (suc (u32 (v + 1))) (u32 (v + 1)) [] tt) (show_vars-IsLine vs),
)

module _ {D L C : Type 0} ⦃a : LitApi L⦄ ⦃s : StreamApi C⦄ (text : StreamText C) where
  open text use {contents}

  -- The line with the projection is a comment.
  parse_line-show :
      (v : ℕ) (vs : List ℕ) (fuel : ℕ) (p : Parser D L) (c : C) (rest : List ℕ)
      → p.debug_lib ≡ []
      → contents c ≡ show_line (v ∷ vs) ++ rest
      → (c' : C) × (parse_line fuel b'c' p c ≡ ok (next_line p, c')) × (contents c' ≡ rest)
  unfolding parse_line parse_comments show_line
  parse_line-show v vs fuel p c rest quiet e =
      let ends = b' ' ∷ b'0' ∷ [] in
      let shown = show_vars (v ∷ vs) ++ ends in
      let line = b' ' ∷ b's' ∷ b'h' ∷ b'o' ∷ b'w' ∷ shown in
      let assoc : (show_vars (v ∷ vs) ++ (b' ' ∷ b'0' ∷ newline ∷ [])) ++ rest
          ≡ shown ++ (newline ∷ rest) =
        append_assoc (show_vars (v ∷ vs)) _ rest ∙ sym (append_assoc (show_vars (v ∷ vs)) ends _) in
      let behind : contents (s.next c) ≡ b' ' ∷ b'p' ∷ (line ++ (newline ∷ rest)) =
        text.next-contents c b'c' _ e ∙ rw assoc refl in
      let (word, f) = text.parse_string-contents (s.next c) true b'p' [] _ behind (refl, tt) in
      let shown_line =
        All-append (λ x. (x == newline) ≡ false) (show_vars (v ∷ vs)) ends
          (show_vars-IsLine (v ∷ vs)) (refl, (refl, tt)) in
      let c' = (s.parse_string (s.next c)).1 in
      (
        s.skip_line c',
        rw quiet refl,
        text.skip_line-contents c' line rest f (refl, (refl, (refl, (refl, (refl, shown_line))))),
      )

  -- The loop, up to the clauses.
  parse_show :
      (vs : List ℕ) (fuel : ℕ) (p : Parser D L) (c : C) (rest : List ℕ)
      → p.debug_lib ≡ []
      → contents c ≡ show_line vs ++ rest
      → (q : Parser D L) × (c' : C) × (k : ℕ) × (fuel ≤ k)
        × (parse_dimacs_main (suc fuel) p c ≡ parse_dimacs_main k q c')
        × (contents c' ≡ rest)
        × ((n : ℕ) → Behind n p → Behind n q)
        × (q.solver ≡ p.solver)
  unfolding show_line
  parse_show [] fuel p c rest quiet e = (p, c, suc fuel, omega arith, refl, e, (λ n b. b), refl)
  parse_show (v ∷ vs) fuel p c rest quiet e =
      let start = text.skip_whitespace-contents c false b'c' _ e refl in
      let (c', i, f) = parse_line-show v vs (suc fuel) p (s.skip_whitespace c) rest quiet start in
      (
        next_line p,
        c',
        fuel,
        omega arith,
        step text fuel b'c' p (next_line p) c c' _ e refl i,
        f,
        (λ n b. b),
        refl,
      )

joined :
    (n m rest : List ℕ)
    → (p_cnf ++ (n ++ (b' ' ∷ (m ++ (newline ∷ []))))) ++ rest
      ≡ p_cnf ++ (n ++ (b' ' ∷ (m ++ (newline ∷ rest))))
joined n m rest = rw (append_assoc n, append_assoc m) refl

module _ {L : Type 0} ⦃a : LitApi L⦄ where
  -- The same text, in the order in which it is read.
  cnf_text_assoc :
      (n : ℕ) (f : Formula L) (projection : List ℕ)
      → cnf_text n f projection
        ≡ p_cnf
          ++ (decimal n
              ++ (b' '
                  ∷ (decimal (length f) ++ (newline ∷ (show_line projection ++ clauses_text f)))))
  unfolding cnf_text
  cnf_text_assoc n f projection = joined (decimal n) (decimal (length f)) _

  length-cnf_text :
      (n : ℕ) (f : Formula L) (projection : List ℕ)
      → length (clauses_text f) + 7 ≤ length (cnf_text n f projection)
  length-cnf_text n f projection = omega (
    arith,
    ap length (cnf_text_assoc n f projection),
    length-append (decimal n) (b' ' ∷ (decimal (length f) ++ _)),
    length-append (decimal (length f)) (newline ∷ (show_line projection ++ clauses_text f)),
    length-append (show_line projection) (clauses_text f),
  )

module _ {D L C : Type 0} ⦃a : LitApi L⦄ ⦃s : StreamApi C⦄ (text : StreamText C)
    (lits : LitText L) where
  open text use {contents}

  -- For a buffer and literals whose numbers are written as usual: the parser, on a new solver, with a
  -- required header and more fuel than the text has bytes, reads the text that is written for Ganak back
  -- to the formula that was to be counted: its number of variables and its clauses, in their order. The
  -- line that names the projection is a comment to it. The formula's variables are below its number of
  -- variables, which is below 2 ^ 28, and its clauses are fewer than 2 ^ 31.
  pub parse_dimacs-cnf_text :
      (epsilon delta : D) (seed verbosity n fuel : ℕ) (f : Formula L) (projection : List ℕ) (c : C)
      → contents c ≡ cnf_text n f projection
      → length (contents c) < fuel
      → n < 2 ^ 28
      → length f < 2 ^ 31
      → Below n f
      → let p = create epsilon delta seed verbosity in
        (q : Parser D L) × (parse_dimacs fuel true 0 (start p []) c ≡ ok q)
        × (q.solver ≡ record p { nvars = n; clauses = f })
  unfolding parse_dimacs start create
  parse_dimacs-cnf_text epsilon delta seed verbosity n (suc (suc fuel)) f projection c e h few short
        below =
      let p = create epsilon delta seed verbosity in
      let m = length f in
      let header = e ∙ cnf_text_assoc n f projection in
      let size = length-cnf_text n f projection in
      let e₀ = text.skip_whitespace-contents c false b'p' _ header refl in
      let (c₁, i, g) =
        parse_header-text text n m (suc (suc fuel)) p (s.skip_whitespace c) _ e₀ few short in
      let q₁ = next_line (headed n m p) in
      let b : Behind n q₁ = (few, refl, refl, refl, refl, refl, refl) in
      let (q₂, c₂, k, left, j, l, kept, same) =
        parse_show text projection fuel q₁ c₁ (clauses_text f) refl g in
      let long : length (contents c) ≡ length (cnf_text n f projection) = ap length e in
      let (q, o, solver) = parse_clauses text lits n f k q₂ c₂ l (omega arith) below (kept n b) in
      (
        q,
        step text (suc fuel) b'p' (begun p) q₁ c c₁ _ header refl i ∙ (j ∙ o),
        solver ∙ rw same refl,
      )
  parse_dimacs-cnf_text epsilon delta seed verbosity n fuel f projection c e h few short below =
      let size = length-cnf_text n f projection in
      let long : length (contents c) ≡ length (cnf_text n f projection) = ap length e in
      absurd (omega arith)
