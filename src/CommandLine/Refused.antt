-- ===== src/CommandLine/Refused.antt =====
-- What `main` (src/main.cpp) does with a file that the parser does not accept.
use skolemfc.Base.{
  ℕ, ◌+◌, ◌^◌, ◌<◌, ◌≤◌, ◌≡◌, refl, ◌∙◌, false, Option, some, List, ◌∷◌, ◌++◌, length,
}
use skolemfc.Lit.{LitApi}
use skolemfc.Cnf.{Clause, Formula, Below, ClauseBelow}
use skolemfc.Floats.{DoubleApi, MpfApi}
use skolemfc.Outcome.{Outcome, ◌>>=◌, exited, step_to, present}
use skolemfc.Stream.{StreamApi}
use skolemfc.Oracles.{Oracles, GmpApi}
use skolemfc.Parser.Format.{StreamText, LitText, qdimacs}
use skolemfc.Parser.Blocks.{Writable}
use skolemfc.Parser.Refused.{parse_dimacs-refused}
use skolemfc.Counter
use skolemfc.Counter.{Counter}
use skolemfc.CommandLine.{
  Given, stored, add_skolemfc_options, add_supported_options, read_in_a_file, main,
}

stopped : {A B : Type 0} (m : Outcome A) (f : A → Outcome B) → m ≡ exited → m >>= f ≡ exited
stopped m f e = rw e refl

module _ {D F L W C : Type 0} ⦃d : DoubleApi D⦄ ⦃m : MpfApi D F⦄ ⦃a : LitApi L⦄ ⦃s : StreamApi C⦄
    (open_file : List ℕ → Option C) (text : StreamText C) (lits : LitText L) where
  open text use {contents}

  -- For a command line that asks for no help and no version and names a file; where the file opens and
  -- holds the text of a formula over `n` variables of which a literal is not below `n` and fits an
  -- int32_t, while those in front of it are below `n`; with more fuel than the file has bytes, `n` below
  -- 2 ^ 28, fewer clauses than 2 ^ 31 and quantified variables below 2 ^ 31 - 1, on a buffer and literals
  -- whose numbers are written as usual: `main` exits, whatever the other options, the oracles and the
  -- fuel of the loop.
  pub main-exited :
      (oracles : Oracles W D L) (gmp : GmpApi) (junk : D) (fuel rounds n : ℕ) (quotient : ℕ → ℕ → ℕ)
      (world : W) (given : Given D) (filename : List ℕ) (file : C) (xs ys : List ℕ)
      (g h : Formula L) (cl cl' : Clause L) (l : L)
      → given.help ≡ false
      → given.version ≡ false
      → given.input ≡ some filename
      → open_file filename ≡ some file
      → let f = g ++ ((cl ++ (l ∷ cl')) ∷ h) in
        (contents file ≡ qdimacs n xs ys f)
        → length (contents file) < fuel
        → n < 2 ^ 28
        → length f < 2 ^ 31
        → Writable xs
        → Writable ys
        → Below n g
        → ClauseBelow n cl
        → n ≤ a.var l
        → a.var l + 1 < 2 ^ 31
        → main {F = F} open_file oracles gmp junk fuel rounds quotient world (stored given) ≡ exited
  unfolding main add_supported_options add_skolemfc_options read_in_a_file Counter.create
  main-exited oracles gmp junk fuel rounds n quotient world given filename file xs ys g h cl cl' l
        help version named opened holds enough few short wx wy below begin above small =
      let line = add_skolemfc_options given in
      let bad =
        parse_dimacs-refused text lits line.epsilon line.delta line.seed line.verbosity n fuel xs ys
          g h cl cl' l file holds enough few short wx wy below begin above small in
      step_to (add_supported_options (stored given)) _ line exited (rw (help, version) refl) (
        present line.input exited _ filename named
        ∙ stopped (read_in_a_file open_file fuel filename _) _
            (present (open_file filename) exited _ file opened ∙ rw bad refl))
