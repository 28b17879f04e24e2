-- ===== src/Tests/Loops.antt =====
-- An example of the loop with oracles that count by trying every assignment.
use mathlib.Core.List.Perm
use skolemfc.Base.{
  ℕ, zero, suc, ◌+◌, ◌-◌, ◌*◌, ◌^◌, ◌<◌, ◌≤◌, ◌≡◌, refl, false, ◌||◌, [], ◌∷◌, arith, ◌==◌,
}
use skolemfc.Base.Int.{pos}
use skolemfc.Cnf.{Assignment}
use skolemfc.Outcome.{ok}
use skolemfc.Oracles.{Oracles}
use skolemfc.Solver
use skolemfc.Solver.{Solver, create_g_formula}
use skolemfc.Counter
use skolemfc.Counter.{Counter}
use skolemfc.Counter.Count.{absolute_count_from_appmc}
use skolemfc.Counter.Samples.{log_count}
use skolemfc.Counter.Run.{count_loop}
use skolemfc.Counter.Returns.{Draws}
use skolemfc.Skolem.Promises.{models, Approximates, SamplesModels}
use skolemfc.Skolem.Loop.{IsClosed, GainsOutputs, SumsOutputs, count_loop-SumsOutputs}
use skolemfc.Tests.Packed.{packed, packed_laws}
use skolemfc.Tests.Numbers.{whole, whole_mpf}
use skolemfc.Tests.Inputs.{oracles, ready, solver}
use skolemfc.Tests.Formulas.{solver-IsReady}

abbrev pub all_false : Assignment
all_false v = false

abbrev pub counting : Oracles ℕ ℕ ℕ
counting = record oracles {
  appmc_count = λ settings cnf w.
      (record { hash_count = 0; cell_sol_count = models cnf.nvars cnf.clauses all_false }, w + 1);
}

counting-Approximates : Approximates counting 1 all_false
unfolding absolute_count_from_appmc
counting-Approximates settings nvars f w some_model = (λ e. cc, λ e. (omega arith, omega arith))

-- The input, the output and what tells it from its copy are true, the copy is false.
abbrev pub model_of_g : Assignment
model_of_g v = v == 0 || v == 1 || v == 3

counting-SamplesModels : SamplesModels counting solver
unfolding Solver.create create_g_formula
counting-SamplesModels settings wanted w = (((refl, tt), (model_of_g, refl, refl)), tt)

counting-Draws : Draws counting
counting-Draws s f vars count wanted w = (omega arith, omega arith)

log_count-pos : (hash cell n : ℕ) → 0 < n → n ≤ 2 * (2 ^ hash * cell) → 0 < hash + cell
log_count-pos hash zero n some_output near = absurd (omega arith)
log_count-pos hash (suc m) n some_output near = omega arith

pub doubling-GainsOutputs :
    (p : Solver ℕ ℕ) (t : ℕ) → t ≤ 12 → GainsOutputs all_false p 2 (λ x. 13 - x) t
unfolding absolute_count_from_appmc log_count
doubling-GainsOutputs p t low y x (sample, s, (names, some_output), log, (near, _)) h =
    let small : x ≤ 12 = ground arith in
    let gain = log_count-pos s.hash_count s.cell_sol_count _ some_output near in
    (refl, rw log (omega arith))

pub counting-GainsOutputs :
    (p : Solver ℕ ℕ) (t : ℕ) → t ≤ 12 → GainsOutputs all_false p 1 (λ x. 13 - x) t
counting-GainsOutputs p t low y x (sample, s, names, log, (near, far)) =
    doubling-GainsOutputs p t low y x (sample, s, names, log, (omega arith, omega arith))

solver-IsClosed : IsClosed solver
unfolding Solver.create
solver-IsClosed = record {
  every = Perm.refl _;
  distinct = (λ h. omega (arith, h), (λ h. h, tt));
  small = (omega arith, tt);
}

abbrev sampled : Counter ℕ ℕ ℕ ℕ
sampled = record ready {
  p = create_g_formula solver;
  samples_from_unisamp = (pos 1 ∷ []) ∷ (pos 1 ∷ []) ∷ [];
}

count_loop-SumsOutputs_example :
    (c' : Counter ℕ ℕ ℕ ℕ) × (count_loop counting 14 sampled ≡ ok c')
    × SumsOutputs all_false solver counting 1 sampled c'
unfolding Counter.create Solver.create
count_loop-SumsOutputs_example =
    count_loop-SumsOutputs packed_laws counting all_false solver solver-IsReady solver-IsClosed 1
      (λ x. 13 - x) 14 100 sampled (omega arith) counting-Approximates counting-SamplesModels
      counting-Draws (counting-GainsOutputs solver 12 (omega arith))
      (refl, (((refl, tt), omega arith), (((refl, tt), omega arith), tt)))
      (omega arith, omega arith, omega arith, omega arith, omega arith) (omega arith) (omega arith)
