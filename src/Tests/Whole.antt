-- ===== src/Tests/Whole.antt =====
-- An example of a whole run, against what it stands for.
use mathlib.Core.List.Perm
use skolemfc.Base.{ℕ, ◌+◌, ◌-◌, refl, true, false, [], ◌∷◌, List, Option, some, arith}
use skolemfc.Base.Int.{pos}
use skolemfc.Outcome.{Ensures}
use skolemfc.Oracles.{Oracles}
use skolemfc.Solver
use skolemfc.Solver.{Solver}
use skolemfc.Solver.{create_g_formula}
use skolemfc.Counter
use skolemfc.Counter.{Counter}
use skolemfc.Counter.Count.{absolute_count_from_appmc}
use skolemfc.Counter.Run.{count, set_constants}
use skolemfc.Counter.Text.{strip}
use skolemfc.Counter.Returns.{Draws}
use skolemfc.Counter.Returns.{DrawsTwo}
use skolemfc.Skolem.Promises.{Approximates, ApproximatesInputs, SamplesModels}
use skolemfc.Skolem.Loop.{IsClosed}
use skolemfc.Skolem.Specification.{IsSkolemEstimate, IsLowerEstimate}
use skolemfc.Skolem.Lower.{count-IsLowerEstimate}
use skolemfc.Skolem.Estimate.{count-IsSkolemEstimate}
use skolemfc.Tests.Packed.{packed, packed_laws}
use skolemfc.Tests.Numbers.{whole, whole_mpf, gmp}
use skolemfc.Tests.Counts.{ganak, one_input}
use skolemfc.Tests.Loops.{
  all_false, counting, model_of_g, counting-GainsOutputs, doubling-GainsOutputs,
}
use skolemfc.Tests.Functions.{both, both-IsReady}
use skolemfc.Tests.Estimates.{given, thresh_le}
use skolemfc.Tests.Written.{buffer_text, packed_text}
use skolemfc.Tests.Buffer.{buffer}
use skolemfc.Cnf.{Formula}
use skolemfc.Counter.Text.{decimal, clauses_text}
use skolemfc.Parser.Format.{qdimacs}
use skolemfc.Configure.{configured}
use skolemfc.CommandLine.{Given, stored, add_skolemfc_options, main}
use skolemfc.Skolem.Printed.{solver_for, lessened, set_up}
use skolemfc.Skolem.MainLower.{main-IsLowerEstimate}
use skolemfc.Skolem.Main.{main-IsSkolemEstimate}

-- ApproxMC and Ganak count as they are to, and UniGen gives two samples.
abbrev faithful : Oracles ℕ ℕ ℕ
faithful = record counting {
  run_ganak = ganak.run_ganak;
  unigen_sample = λ settings cnf vars count wanted w. ((pos 1 ∷ []) ∷ (pos 1 ∷ []) ∷ [], w + 1);
}

abbrev run : Counter ℕ ℕ ℕ ℕ
run = record (Counter.create 0 1 8 4 1 1 0) {
  p = both.p;
  ignore_unsat = false;
  exactcount_s2 = true;
  static_samp = true;
}

faithful-Approximates : Approximates faithful 1 all_false
unfolding absolute_count_from_appmc
faithful-Approximates settings nvars f w some_model = (λ e. cc, λ e. (omega arith, omega arith))

faithful-SamplesModels : SamplesModels faithful both.p
unfolding Solver.create create_g_formula
faithful-SamplesModels settings wanted w =
    (((refl, tt), (model_of_g, refl, refl)), (((refl, tt), (model_of_g, refl, refl)), tt))

faithful-Draws : Draws faithful
faithful-Draws s f vars count wanted w = (omega arith, omega arith)

faithful-DrawsTwo : DrawsTwo faithful
faithful-DrawsTwo s f vars count wanted w h = omega arith

both-IsClosed : IsClosed both.p
unfolding Solver.create
both-IsClosed = record {
  every = Perm.refl _;
  distinct = (λ h. omega (arith, h), (λ h. h, tt));
  small = (omega arith, tt);
}

count-IsSkolemEstimate_example :
    Ensures
      (λ r. IsSkolemEstimate all_false run.p 1 (set_constants run).thresh r.0)
      (count faithful gmp 14 (λ n k. n) run)
unfolding Counter.create Solver.create strip create_g_formula
count-IsSkolemEstimate_example =
    count-IsSkolemEstimate packed_laws faithful gmp all_false 1 (λ x. 13 - x) 14 100 (λ n k. n) run
      both-IsReady both-IsClosed refl refl refl one_input one_input (omega arith)
      faithful-Approximates (λ some_two. faithful-SamplesModels) faithful-Draws faithful-DrawsTwo
      (counting-GainsOutputs run.p (set_constants run).thresh (thresh_le run)) (refl, refl, refl)
      refl refl refl (omega arith) (omega arith) (omega arith) (omega arith)

-- ApproxMC counts each model of G, which makes two where an input has two outputs.
faithful-Doubles : Approximates faithful 2 all_false
unfolding absolute_count_from_appmc
faithful-Doubles settings nvars f w some_model = (λ e. cc, λ e. (omega arith, omega arith))

faithful-ApproximatesInputs : ApproximatesInputs faithful 2 all_false both.p
unfolding Solver.create create_g_formula absolute_count_from_appmc
faithful-ApproximatesInputs settings w some_input = (λ e. refl, λ e. (omega arith, omega arith))

abbrev lower : Counter ℕ ℕ ℕ ℕ
lower = record run { ignore_unsat = true; exactcount_s2 = false }

count-IsLowerEstimate_example :
    Ensures
      (λ r. IsLowerEstimate all_false lower.p 2 (set_constants lower).thresh r.0)
      (count faithful gmp 14 (λ n k. n) lower)
unfolding Counter.create Solver.create create_g_formula
count-IsLowerEstimate_example =
    count-IsLowerEstimate packed_laws faithful gmp all_false 2 (λ x. 13 - x) 14 100 (λ n k. n) lower
      both-IsReady both-IsClosed (omega arith) (omega arith) refl refl (omega arith)
      faithful-ApproximatesInputs faithful-Doubles faithful-SamplesModels faithful-Draws
      faithful-DrawsTwo
      (doubling-GainsOutputs lower.p (set_constants lower).thresh (thresh_le lower))
      (refl, refl, refl) refl refl refl (omega arith) (omega arith) (omega arith) (omega arith)

-- The formula's text is the one file.
abbrev clauses : Formula ℕ
clauses = (0 ∷ []) ∷ (0 ∷ 3 ∷ []) ∷ []

abbrev text : List ℕ
text = qdimacs 2 (0 ∷ []) (1 ∷ []) clauses

abbrev open_text : List ℕ → Option (List ℕ)
open_text name = some text

abbrev asked : Given ℕ
asked = record given {
  seed = some 1;
  epsilon = some 8;
  delta = some 4;
  exact_g = some 1;
  count_unsat = true;
}

main-IsSkolemEstimate_example :
    let line = add_skolemfc_options asked in
    let p = solver_for {L = ℕ} line 2 (0 ∷ []) (1 ∷ []) clauses in
    let c : Counter ℕ ℕ ℕ ℕ = set_up 0 0 line p in
    Ensures
      (λ r. IsSkolemEstimate all_false p 1 (set_constants c).thresh r.0)
      (main open_text faithful gmp 0 50 14 (λ n k. n) 0 (stored asked))
unfolding Counter.create Solver.create strip create_g_formula decimal clauses_text configured
    add_skolemfc_options
main-IsSkolemEstimate_example =
    main-IsSkolemEstimate open_text buffer_text packed_text packed_laws faithful gmp all_false 1
      (λ x. 13 - x) 0 50 14 100 2 (λ n k. n) 0 asked (b'f' ∷ []) text (0 ∷ []) (1 ∷ []) clauses refl
      refl refl refl refl refl (omega arith) refl refl (omega arith) (omega arith) (omega arith)
      (omega arith, tt) (omega arith, tt)
      ((omega arith, tt), ((omega arith, (omega arith, tt)), tt)) (ground arith) ((λ h. h), tt)
      both-IsClosed refl one_input one_input (omega arith) faithful-Approximates
      (λ some_two. faithful-SamplesModels) faithful-Draws faithful-DrawsTwo
      (counting-GainsOutputs both.p _ (thresh_le _)) (omega arith) (omega arith) (omega arith)

abbrev plain : Given ℕ
plain = record given { seed = some 1; epsilon = some 8; delta = some 4 }

abbrev rest : Solver ℕ ℕ
rest =
    let line = add_skolemfc_options plain in
    lessened line (solver_for line 2 (0 ∷ []) (1 ∷ []) clauses)

rest-IsClosed : IsClosed rest
unfolding Solver.create
rest-IsClosed = record {
  every = Perm.refl _;
  distinct = (λ h. omega (arith, h), (λ h. h, tt));
  small = (omega arith, tt);
}

main-IsLowerEstimate_example :
    let line = add_skolemfc_options plain in
    let c : Counter ℕ ℕ ℕ ℕ = set_up 0 0 line (solver_for line 2 (0 ∷ []) (1 ∷ []) clauses) in
    Ensures
      (λ r. IsLowerEstimate all_false rest 2 (set_constants c).thresh r.0)
      (main open_text faithful gmp 0 50 14 (λ n k. n) 0 (stored plain))
unfolding Counter.create Solver.create create_g_formula decimal clauses_text add_skolemfc_options
main-IsLowerEstimate_example =
    main-IsLowerEstimate open_text buffer_text packed_text packed_laws faithful gmp all_false 2
      (λ x. 13 - x) 0 50 14 100 2 (λ n k. n) 0 plain (b'f' ∷ []) text (0 ∷ []) (1 ∷ []) clauses refl
      refl refl refl refl (omega arith) refl refl (omega arith) (omega arith) (omega arith)
      (omega arith, tt) (omega arith, tt)
      ((omega arith, tt), ((omega arith, (omega arith, tt)), tt)) (ground arith) ((λ h. h), tt)
      rest-IsClosed refl (omega arith) (omega arith) (omega arith) faithful-ApproximatesInputs
      faithful-Doubles faithful-SamplesModels faithful-Draws faithful-DrawsTwo
      (doubling-GainsOutputs rest _ (thresh_le _)) (omega arith) (omega arith) (omega arith)
