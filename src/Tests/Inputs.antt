-- ===== src/Tests/Inputs.antt =====
-- A formula, small stand-ins for the oracles, and a counter at the start of its loop.
use skolemfc.Base.{ℕ, ◌+◌, true, [], ◌∷◌}
use skolemfc.Base.Int.{pos, negsuc}
use skolemfc.Solver
use skolemfc.Solver.{Solver}
use skolemfc.Oracles.{Oracles, Lbool, GanakRun}
use skolemfc.Counter
use skolemfc.Counter.{Counter}
use skolemfc.Tests.Numbers.{whole, whole_mpf}

-- Every count is 2 * 2 ^ 3, and every sample sets the first variable.
abbrev pub oracles : Oracles ℕ ℕ ℕ
oracles = record {
  minimize = λ cnf w. (cnf, 0 ∷ [], w + 1);
  appmc_count = λ settings cnf w. (record { hash_count = 3; cell_sol_count = 2 }, w + 1);
  solve = λ n f w. (true, Lbool.l_true ∷ [], w + 1);
  unigen_sample = λ settings cnf vars count wanted w. ((pos 1 ∷ []) ∷ [], w + 1);
  run_ganak = λ text w. (GanakRun.no_pipe, w + 1);
}

-- A counter at the start of the loop, with the threshold at 12.
abbrev pub solver : Solver ℕ ℕ
solver = record (Solver.create 8 4 1 1) {
  nvars = 2;
  clauses = (0 ∷ 3 ∷ []) ∷ [];
  forall_vars = 0 ∷ [];
  exists_vars = 1 ∷ [];
}

abbrev pub ready : Counter ℕ ℕ ℕ ℕ
ready = record (Counter.create 0 1 8 4 1 1 0) {
  p = solver;
  thresh = 12;
  samples_from_unisamp = (pos 1 ∷ []) ∷ (negsuc 0 ∷ []) ∷ (pos 1 ∷ []) ∷ (pos 1 ∷ []) ∷ [];
}
