-- ===== src/Skolem/Main.antt =====
-- What `main` (src/main.cpp) prints, from the text of a formula to its estimate.
use mathlib.Core.Path.{subst, subst⁻¹}
use skolemfc.Base.{
  ◌∙◌, ap, ℕ, ◌+◌, ◌*◌, ◌^◌, ◌<◌, ◌≤◌, ◌≡◌, true, false, Option, some, List, length, All, Distinct,
  arith,
}
use skolemfc.Lit.{LitApi, LitLaws}
use skolemfc.Cnf.{Assignment, Formula, Below}
use skolemfc.Floats.{DoubleApi, MpfApi}
use skolemfc.Outcome.{Ensures}
use skolemfc.Stream.{StreamApi}
use skolemfc.Oracles.{Oracles, GmpApi}
use skolemfc.Solver.Correct.{IsReady}
use skolemfc.Parser.Format.{StreamText, LitText, qdimacs}
use skolemfc.Parser.Blocks.{Writable}
use skolemfc.Counter.{Counter}
use skolemfc.Counter.Run.{set_constants, count}
use skolemfc.Counter.Returns.{Draws}
use skolemfc.Counter.Returns.{DrawsTwo}
use skolemfc.Configure.{prepare-epsilon}
use skolemfc.CommandLine.{Given, stored, value, is_set, add_skolemfc_options, main}
use skolemfc.Skolem.Counts.{ReportsInputs, ReportsModels}
use skolemfc.Skolem.Promises.{Approximates, SamplesModels}
use skolemfc.Skolem.Loop.{IsClosed, GainsOutputs}
use skolemfc.Skolem.Specification.{with_two, IsSkolemEstimate}
use skolemfc.Skolem.Estimate.{count-IsSkolemEstimate}
use skolemfc.Skolem.Printed.{
  solver_for, set_up, set_up-exact, add_skolemfc_options-counts, main-count,
}

module _ {D F L W C : Type 0} ⦃d : DoubleApi D⦄ ⦃m : MpfApi D F⦄ ⦃a : LitApi L⦄ ⦃s : StreamApi C⦄
    (open_file : List ℕ → Option C) (text : StreamText C) (lits : LitText L) (laws : LitLaws L)
    (oracles : Oracles W D L) (gmp : GmpApi) (α : Assignment) where
  open text use {contents}

  -- For literals that obey their laws, on a buffer and literals whose numbers are written as usual; for a
  -- command line that asks for no help and no version, names a file, asks for exact counts of F and of G
  -- and for the count of the unsatisfiable inputs, and has at most one thread and an error above 0; where the file opens and
  -- holds the text of a formula F over `n` variables with inputs xs and outputs ys, each variable one of
  -- them and only once, the literals of F and the outputs below `n`, n + 2 |ys| below 2 ^ 28, fewer
  -- clauses than 2 ^ 31 and quantified variables below 2 ^ 31 - 1; with more fuel than the file has
  -- bytes; where Ganak prints the numbers of inputs with an output and of inputs that extend to a model
  -- of G; with a UniGen that always gives a sample, two if asked for more than one, and for G, if an
  -- input has two outputs, just samples of its models; with an ApproxMC whose counts are within a factor
  -- `k` of the numbers of models; if each logarithm of a number within `k` of the outputs at an input
  -- brings the sum nearer to the threshold; with fuel and rounds of 32 bits above the rank of the first
  -- sum: `main` exits, or returns |Y| times the number of inputs of F without an output, plus 0 if no
  -- input has two outputs, and else the threshold divided by the number of rounds and times the number
  -- of inputs with two outputs, where each round stands for a number within `k` of the outputs at some
  -- input, and the rounds are just as many as it takes for the finite ones among the logarithms to add
  -- up to more than the threshold.
  pub main-IsSkolemEstimate :
      (k : ℕ) (rank : F → ℕ) (junk : D) (fuel rounds limit n : ℕ) (quotient : ℕ → ℕ → ℕ) (world : W)
      (g : Given D) (filename : List ℕ) (file : C) (xs ys : List ℕ) (f : Formula L)
      → let line = add_skolemfc_options g in
        let p = solver_for line n xs ys f in
        let c : Counter D F L W = set_up junk world line p in
        let thresh = (set_constants c).thresh in
        (g.help ≡ false)
        → g.version ≡ false
        → g.input ≡ some filename
        → is_set (value 1 g.exact_f) ≡ true
        → is_set (value 0 g.exact_g) ≡ true
        → g.count_unsat ≡ true
        → value 1 g.threads ≤ 1
        → open_file filename ≡ some file
        → contents file ≡ qdimacs n xs ys f
        → length (contents file) < fuel
        → n + 2 * length ys < 2 ^ 28
        → length f < 2 ^ 31
        → Writable xs
        → Writable ys
        → Below n f
        → All (λ y. y < n) ys
        → Distinct ys
        → IsClosed p
        → d.less (d.dec 0 0) p.epsilon ≡ true
        → ReportsInputs oracles gmp c α
        → ReportsModels oracles gmp c α
        → 0 < k
        → Approximates oracles k α
        → (0 < with_two α p → SamplesModels oracles p)
        → Draws oracles
        → DrawsTwo oracles
        → GainsOutputs α p k rank thresh
        → limit < 2 ^ 32
        → rank (m.of_double (d.dec 0 0)) < limit
        → rank (m.of_double (d.dec 0 0)) < rounds
        → Ensures
            (λ r. IsSkolemEstimate α p k thresh r.0)
            (main open_file oracles gmp junk fuel rounds quotient world (stored g))
  main-IsSkolemEstimate k rank junk fuel rounds limit n quotient world g filename file xs ys f help
        version named exact exact' all single opened holds enough fits short wx wy below
        outputs_below distinct closed positive r r' some_k near models draws two gains limited few
        less =
      let line = add_skolemfc_options g in
      let p = solver_for line n xs ys f in
      let c : Counter D F L W = set_up junk world line p in
      let thresh = (set_constants c).thresh in
      let (e₁, e₂, e₃, e₄, e₅, input) =
        add_skolemfc_options-counts g true true true exact exact' all in
      let (same, unsat, s0, s2, unsampled, start, lg, okay, threads) =
        set_up-exact junk world line p e₁ e₂ e₃ e₄ in
      let ready : IsReady p = record {
        fits = omega arith;
        clauses_below = below;
        exists_below = outputs_below;
        distinct = distinct;
      } in
      main-count open_file text lits oracles gmp junk world g fuel rounds n quotient xs ys f
        filename file (λ r. IsSkolemEstimate α p k thresh r.0) help version named opened holds
        enough (omega arith) short wx wy below
        (subst⁻¹ (λ e. d.less (d.dec 0 0) e ≡ true)
          (prepare-epsilon line.options _ ∙ ap (λ q. q.epsilon) same) positive)
        (subst
          (λ q.
            Ensures (λ r. IsSkolemEstimate α q k thresh r.0) (count oracles gmp rounds quotient c))
          same
          (count-IsSkolemEstimate laws oracles gmp α k rank rounds limit quotient c (rw same ready)
            (rw same closed) unsat s0 s2 r r' some_k near (rw same models) draws two
            (subst⁻¹ (λ q. GainsOutputs α q k rank thresh) same gains) unsampled start lg okay
            (rw threads (rw e₅ single)) limited few less))
