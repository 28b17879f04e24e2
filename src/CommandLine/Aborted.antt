-- ===== src/CommandLine/Aborted.antt =====
-- What `main` (src/main.cpp) does where the count of G leaves nothing of the error that is allowed.
use mathlib.Core.Path.{subst⁻¹}
use skolemfc.Base.{ℕ, ◌^◌, ◌<◌, ◌≡◌, refl, ap, ◌∙◌, false, Option, some, List, length}
use skolemfc.Lit.{LitApi}
use skolemfc.Cnf.{Formula, Below}
use skolemfc.Floats.{DoubleApi, MpfApi}
use skolemfc.Outcome.{Outcome, ◌>>=◌, exited, aborted, step_to, present}
use skolemfc.Stream.{StreamApi}
use skolemfc.Oracles.{Oracles, GmpApi}
use skolemfc.Parser.Format.{StreamText, LitText, qdimacs}
use skolemfc.Parser.Blocks.{Writable}
use skolemfc.Counter.{Counter}
use skolemfc.Configure.{prepare-epsilon, configure, configure-aborted}
use skolemfc.CommandLine.{
  Given, stored, value, is_set, add_skolemfc_options, add_supported_options, read_in_a_file, main,
}
use skolemfc.Skolem.Printed.{
  solver_for, loaded, lessened, set_up-approximate, add_skolemfc_options-counts,
  read_in_a_file-qdimacs,
}

stopped : {A B : Type 0} (m : Outcome A) (f : A → Outcome B) → m ≡ aborted → m >>= f ≡ aborted
stopped m f e = rw e refl

module _ {D F L W C : Type 0} ⦃d : DoubleApi D⦄ ⦃m : MpfApi D F⦄ ⦃a : LitApi L⦄ ⦃s : StreamApi C⦄
    (open_file : List ℕ → Option C) (text : StreamText C) (lits : LitText L) where
  open text use {contents}

  -- On a buffer and literals whose numbers are written as usual; for a command line that asks for no
  -- help and no version, names a file, and asks neither for the exact count of G nor for the count of
  -- the unsatisfiable inputs; where the file opens and holds the text of a formula over `n` variables,
  -- with its literals below `n`, `n` below 2 ^ 28, fewer clauses than 2 ^ 31 and quantified variables
  -- below 2 ^ 31 - 1, and with more fuel than the file has bytes: if what the count of G leaves of the
  -- error is not above 0, `main` ends with a failed assertion, whatever the oracles.
  pub main-aborted :
      (oracles : Oracles W D L) (gmp : GmpApi) (junk : D) (world : W) (g : Given D)
      (fuel rounds n : ℕ) (quotient : ℕ → ℕ → ℕ) (xs ys : List ℕ) (f : Formula L)
      (filename : List ℕ) (file : C)
      → g.help ≡ false
      → g.version ≡ false
      → g.input ≡ some filename
      → is_set (value 0 g.exact_g) ≡ false
      → g.count_unsat ≡ false
      → open_file filename ≡ some file
      → contents file ≡ qdimacs n xs ys f
      → length (contents file) < fuel
      → n < 2 ^ 28
      → length f < 2 ^ 31
      → Writable xs
      → Writable ys
      → Below n f
      → let line = add_skolemfc_options g in
        (d.less (d.dec 0 0) (lessened line (solver_for {L = L} line n xs ys f)).epsilon ≡ false)
        → main {F = F} open_file oracles gmp junk fuel rounds quotient world (stored g) ≡ aborted
  unfolding main add_supported_options add_skolemfc_options
  main-aborted oracles gmp junk world g fuel rounds n quotient xs ys f filename file help version
        named default ignored opened holds enough few short wx wy below nothing_left =
      let line = add_skolemfc_options g in
      let p = solver_for line n xs ys f in
      let c : Counter D F L W = loaded junk world line p in
      let (e₁, e₂, e₃, e₄, e₅, input) =
        add_skolemfc_options-counts g (is_set (value 1 g.exact_f)) false false refl default
          ignored in
      let same = (set_up-approximate {F = F} junk world line p e₂ e₃ e₄).0 in
      let failed = configure-aborted line.options c (
        subst⁻¹ (λ e. d.less (d.dec 0 0) e ≡ false)
          (prepare-epsilon line.options c ∙ ap (λ q. q.epsilon) same) nothing_left) in
      step_to (add_supported_options (stored g)) _ line aborted (rw (help, version) refl) (
        present line.input exited _ filename named
        ∙ step_to (read_in_a_file open_file fuel filename _) _ c aborted
            (read_in_a_file-qdimacs open_file text lits junk world line fuel n xs ys f filename file
              opened holds enough few short wx wy below)
            (stopped (configure line.options c) _ failed))
