-- ===== src/Parser/Written.antt =====
-- What the parser makes of a text in its format: the formula that was written.
use skolemfc.Base.{
  ℕ, suc, ◌+◌, ◌<◌, ◌≤◌, ◌^◌, ◌≡◌, refl, ap, ◌∙◌, true, List, [], ◌∷◌, ◌++◌, arith, length,
  length-append,
}
use skolemfc.Lit.{LitApi}
use skolemfc.Cnf.{Formula, Below}
use skolemfc.Outcome.{ok}
use skolemfc.Stream.{StreamApi}
use skolemfc.Solver.{create}
use skolemfc.Counter.Text.{decimal, newline, clauses_text}
use skolemfc.Parser.{Parser, start}
use skolemfc.Parser.Main.{parse_dimacs}
use skolemfc.Parser.Format.{StreamText, LitText, vars_text, qdimacs}
use skolemfc.Parser.Blocks.{Writable}
use skolemfc.Parser.RoundTrip.{parse_clauses}
use skolemfc.Parser.Opening.{parse_opening}

module _ {L : Type 0} ⦃a : LitApi L⦄ where
  pub qdimacs-length :
      (n : ℕ) (xs ys : List ℕ) (f : Formula L) (text : List ℕ)
      → text ≡ qdimacs n xs ys f
      → length (vars_text xs) + (length (vars_text ys) + length (clauses_text f)) + 7 ≤ length text
  qdimacs-length n xs ys f text e = omega (
    arith,
    ap length e,
    length-append (decimal n) (b' ' ∷ (decimal (length f) ++ _)),
    length-append (decimal (length f)) (newline ∷ _),
    length-append (vars_text xs) (b'e' ∷ _),
    length-append (vars_text ys) (clauses_text f),
  )

module _ {D L C : Type 0} ⦃a : LitApi L⦄ ⦃s : StreamApi C⦄ (text : StreamText C)
    (lits : LitText L) where
  open text use {contents}

  -- For a buffer and literals whose numbers are written as usual: the parser, on a new solver, with a
  -- required header and more fuel than the text has bytes, accepts the text of a formula F over `n`
  -- variables with its two quantifier lines, where the literals of F are below `n`, `n` is below 2 ^ 28,
  -- the clauses are fewer than 2 ^ 31 and the quantified variables are below 2 ^ 31 - 1; the solver then
  -- has the `n` variables, the two blocks and the clauses of F in their order, and is new otherwise.
  pub parse_dimacs-qdimacs :
      (epsilon delta : D) (seed verbosity n fuel : ℕ) (xs ys : List ℕ) (f : Formula L) (c : C)
      → contents c ≡ qdimacs n xs ys f
      → length (contents c) < fuel
      → n < 2 ^ 28
      → length f < 2 ^ 31
      → Writable xs
      → Writable ys
      → Below n f
      → let p = create epsilon delta seed verbosity in
        (q : Parser D L) × (parse_dimacs fuel true 0 (start p []) c ≡ ok q)
        × (q.solver ≡ record p { nvars = n; forall_vars = xs; exists_vars = ys; clauses = f })
  unfolding parse_dimacs start create
  parse_dimacs-qdimacs epsilon delta seed verbosity n (suc (suc (suc fuel))) xs ys f c e h few short
        wx wy below =
      let p = create epsilon delta seed verbosity in
      let size = qdimacs-length n xs ys f _ e in
      let (q, c₁, i, g, b, solver) =
        parse_opening text n (length f) fuel xs ys p c (clauses_text f) e (omega arith) few short wx
          wy in
      let (q', j, same) = parse_clauses text lits n f fuel q c₁ g (omega arith) below b in
      (q', i ∙ j, same ∙ rw solver refl)
  parse_dimacs-qdimacs epsilon delta seed verbosity n fuel xs ys f c e h few short wx wy below =
      absurd (omega (arith, qdimacs-length n xs ys f _ e))
