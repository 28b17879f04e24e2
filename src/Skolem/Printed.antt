-- ===== src/Skolem/Printed.antt =====
-- What `main` (src/main.cpp) prints for a file that holds the text of a formula.
use mathlib.Core.Path.{subst⁻¹}
use skolemfc.Oracles.{Oracles, GmpApi}
use skolemfc.Counter.Run.{count}
use skolemfc.Base.{
  Bool, ℕ, ◌^◌, ◌<◌, ◌≡◌, refl, ◌∙◌, true, false, Option, some, List, length, arith,
}
use skolemfc.Lit.{LitApi}
use skolemfc.Cnf.{Formula, Below}
use skolemfc.Floats.{DoubleApi, MpfApi}
use skolemfc.Outcome.{present, Ensures-step, Ensures, ok, exited}
use skolemfc.Stream.{StreamApi}
use skolemfc.Solver
use skolemfc.Solver.{Solver}
use skolemfc.Parser.Format.{StreamText, LitText, qdimacs}
use skolemfc.Parser.Blocks.{Writable}
use skolemfc.Parser.Written.{parse_dimacs-qdimacs}
use skolemfc.Counter
use skolemfc.Counter.{Counter, left_epsilon, left_delta}
use skolemfc.Counter.Returns.{Unsampled}
use skolemfc.Configure.{prepare, configure, configured, configure-ok}
use skolemfc.CommandLine.{
  CommandLine, Given, value, is_set, add_skolemfc_options, read_in_a_file, add_supported_options,
  main, stored,
}

module _ {D L : Type 0} where
  -- The solver behind the parse of a formula, with the options of the command line.
  abbrev pub solver_for : CommandLine D → ℕ → List ℕ → List ℕ → Formula L → Solver D L
  solver_for line n xs ys f =
      record (Solver.create line.epsilon line.delta line.seed line.verbosity) {
        nvars = n;
        forall_vars = xs;
        exists_vars = ys;
        clauses = f;
      }

module _ {D L : Type 0} ⦃d : DoubleApi D⦄ where
  -- The formula, with what the count of G leaves of epsilon and delta.
  abbrev pub lessened : CommandLine D → Solver D L → Solver D L
  lessened line p = record p {
    epsilon = left_epsilon p.epsilon line.options.g_counter_epsilon;
    delta = left_delta p.delta line.options.g_counter_delta;
  }

module _ {D F L W : Type 0} ⦃d : DoubleApi D⦄ ⦃m : MpfApi D F⦄ where
  abbrev pub loaded : D → W → CommandLine D → Solver D L → Counter D F L W
  loaded junk world line p =
      record (Counter.create junk 0 line.epsilon line.delta line.seed line.verbosity world) {
        p = p;
      }

  -- The counter that `main` sets up for a formula.
  abbrev pub set_up : D → W → CommandLine D → Solver D L → Counter D F L W
  set_up junk world line p = configured line.options (loaded junk world line p)

  pub set_up-exact :
      (junk : D) (world : W) (line : CommandLine D) (p : Solver D L)
      → line.options.exactcount_f ≡ true
      → line.options.exactcount_g ≡ true
      → line.options.count_unsat_inputs ≡ true
      → line.options.static_samp_est ≡ true
      → let c = set_up junk world line p in
        (c.p ≡ p)
        × (c.ignore_unsat ≡ false)
        × (c.exactcount_s0 ≡ true)
        × (c.exactcount_s2 ≡ true)
        × Unsampled c
        × (c.iteration ≡ 0)
        × (c.log_skolemcount ≡ m.of_double (d.dec 0 0))
        × (c.okay ≡ true)
        × (c.numthreads ≡ line.options.nthreads)
  unfolding configured Counter.create
  set_up-exact junk world line p e e' all static = ground (arith, e, e', all, static)

  pub set_up-approximate :
      (junk : D) (world : W) (line : CommandLine D) (p : Solver D L)
      → line.options.exactcount_g ≡ false
      → line.options.count_unsat_inputs ≡ false
      → line.options.static_samp_est ≡ true
      → let c = set_up junk world line p in
        (c.p ≡ lessened line p)
        × (c.ignore_unsat ≡ true)
        × (c.exactcount_s2 ≡ false)
        × Unsampled c
        × (c.iteration ≡ 0)
        × (c.log_skolemcount ≡ m.of_double (d.dec 0 0))
        × (c.okay ≡ true)
        × (c.numthreads ≡ line.options.nthreads)
  unfolding configured Counter.create
  set_up-approximate junk world line p e none_left static = ground (arith, e, none_left, static)

module _ {D : Type 0} ⦃d : DoubleApi D⦄ where
  -- The options for the counts, the number of threads and the file.
  pub add_skolemfc_options-counts :
      (g : Given D) (in_f in_g unsat : Bool)
      → is_set (value 1 g.exact_f) ≡ in_f
      → is_set (value 0 g.exact_g) ≡ in_g
      → g.count_unsat ≡ unsat
      → let line = add_skolemfc_options g in
        (line.options.exactcount_f ≡ in_f)
        × (line.options.exactcount_g ≡ in_g)
        × (line.options.count_unsat_inputs ≡ unsat)
        × (line.options.static_samp_est ≡ true)
        × (line.options.nthreads ≡ value 1 g.threads)
        × (line.input ≡ g.input)
  unfolding add_skolemfc_options
  add_skolemfc_options-counts g in_f in_g unsat e e' all =
      (e, e', rw all (ground arith), ground arith, refl, refl)

module _ {D F L W C : Type 0} ⦃d : DoubleApi D⦄ ⦃m : MpfApi D F⦄ ⦃a : LitApi L⦄ ⦃s : StreamApi C⦄
    (open_file : List ℕ → Option C) (text : StreamText C) (lits : LitText L) where
  open text use {contents}

  -- The file is read as the formula that it holds.
  pub read_in_a_file-qdimacs :
      (junk : D) (world : W) (line : CommandLine D) (fuel n : ℕ) (xs ys : List ℕ) (f : Formula L)
      (filename : List ℕ) (file : C)
      → open_file filename ≡ some file
      → contents file ≡ qdimacs n xs ys f
      → length (contents file) < fuel
      → n < 2 ^ 28
      → length f < 2 ^ 31
      → Writable xs
      → Writable ys
      → Below n f
      → read_in_a_file {F = F} open_file fuel filename
          (Counter.create junk 0 line.epsilon line.delta line.seed line.verbosity world)
        ≡ ok (loaded junk world line (solver_for line n xs ys f))
  unfolding read_in_a_file Counter.create
  read_in_a_file-qdimacs junk world line fuel n xs ys f filename file opened holds enough few short
        wx wy below =
      let (q, parsed, same) =
        parse_dimacs-qdimacs text lits line.epsilon line.delta line.seed line.verbosity n fuel xs ys
          f file holds enough few short wx wy below in
      present (open_file filename) exited _ file opened ∙ rw (parsed, same) refl

  -- A run of `main` is one of `count`, on the counter that is set up for the formula in the file.
  pub main-count :
      (oracles : Oracles W D L) (gmp : GmpApi) (junk : D) (world : W) (g : Given D)
      (fuel rounds n : ℕ) (quotient : ℕ → ℕ → ℕ) (xs ys : List ℕ) (f : Formula L)
      (filename : List ℕ) (file : C) (Q : F × Counter D F L W → Type 0)
      → g.help ≡ false
      → g.version ≡ false
      → g.input ≡ some filename
      → open_file filename ≡ some file
      → contents file ≡ qdimacs n xs ys f
      → length (contents file) < fuel
      → n < 2 ^ 28
      → length f < 2 ^ 31
      → Writable xs
      → Writable ys
      → Below n f
      → let line = add_skolemfc_options g in
        let c : Counter D F L W = loaded junk world line (solver_for line n xs ys f) in
        (d.less (d.dec 0 0) (prepare line.options c).epsilon ≡ true)
        → Ensures Q
            (count oracles gmp rounds quotient (set_up junk world line (solver_for line n xs ys f)))
        → Ensures Q (main open_file oracles gmp junk fuel rounds quotient world (stored g))
  unfolding main add_supported_options add_skolemfc_options
  main-count oracles gmp junk world g fuel rounds n quotient xs ys f filename file Q help version
        named opened holds enough few short wx wy below positive run =
      let line = add_skolemfc_options g in
      Ensures-step Q (add_supported_options (stored g)) _ line (rw (help, version) refl) (
        subst⁻¹ (Ensures Q) (present line.input exited _ filename named) (
          Ensures-step Q (read_in_a_file open_file fuel filename _) _
            (loaded junk world line (solver_for line n xs ys f))
            (read_in_a_file-qdimacs junk world line fuel n xs ys f filename file opened holds enough
              few short wx wy below)
            (Ensures-step Q (configure line.options _) _ _ (configure-ok line.options _ positive)
              run)))
