-- ===== src/Tests/Formulas.antt =====
-- Examples of the formulas that are built, and of the division of the samples.
use skolemfc.Base.{ℕ, ◌+◌, ◌*◌, ◌≤◌, ◌≡◌, ◌↔◌, refl, true, ◌&&◌, [], ◌∷◌, All, length, arith, ◌==◌}
use skolemfc.Base.Int.{negsuc}
use skolemfc.Cnf.{Assignment, Formula, formula_value, Below, AgreeBelow, AgreeOff, DifferOn}
use skolemfc.Outcome.{ok}
use skolemfc.Solver
use skolemfc.Solver.{Solver, create_g_formula}
use skolemfc.Solver.Correct.{IsReady, create_g_formula_models}
use skolemfc.Solver.Bounds.{create_g_formula_bounds}
use skolemfc.Counter
use skolemfc.Counter.{Counter}
use skolemfc.Counter.Sample.{create_formula_from_sample, create_formula_from_sample_models, follows}
use skolemfc.Counter.Partition.{partition, concat, partition_lem}
use skolemfc.Counter.Outputs.{some_values, two_outputs, hidden}
use skolemfc.Counter.Outputs.Models.{g_outputs}
use skolemfc.Tests.Packed.{packed, packed_laws}
use skolemfc.Tests.Inputs.{solver, ready}

pub solver-IsReady : IsReady solver
unfolding Solver.create
solver-IsReady = record {
  fits = omega arith;
  clauses_below = ground arith;
  exists_below = ground arith;
  distinct = (λ h. h, tt);
}

-- Only the first variable is true.
abbrev first_only : Assignment
first_only v = v == 0

create_g_formula_models_example :
    ((γ : Assignment) × AgreeBelow solver.nvars γ first_only
      × (formula_value γ (create_g_formula solver).g_formula_clauses ≡ true))
    ↔ ((β : Assignment) × AgreeOff solver.exists_vars first_only β
        × (formula_value first_only solver.clauses ≡ true)
        × (formula_value β solver.clauses ≡ true)
        × DifferOn solver.exists_vars first_only β)
create_g_formula_models_example =
    create_g_formula_models packed_laws solver solver-IsReady first_only

create_g_formula_bounds_example :
    Below (create_g_formula solver).n_g_vars (create_g_formula solver).g_formula_clauses
    × ((create_g_formula solver).n_g_vars ≡ solver.nvars + 2 * length solver.exists_vars)
    × (length (create_g_formula solver).g_formula_clauses
        ≡ 2 * length solver.clauses + 2 * length solver.exists_vars + 1)
create_g_formula_bounds_example = create_g_formula_bounds packed_laws solver solver-IsReady

create_formula_from_sample_models_example :
    (formula : Formula ℕ) × (create_formula_from_sample ready.samples_from_unisamp 1 ready
      ≡ ok formula)
    × ((α : Assignment)
        → formula_value α formula ≡ (formula_value α ready.p.clauses && follows α (negsuc 0 ∷ [])))
unfolding Counter.create
create_formula_from_sample_models_example =
    create_formula_from_sample_models packed_laws ready ready.samples_from_unisamp 1 1
      (negsuc 0 ∷ []) refl (omega arith) refl ((omega arith, omega arith), tt)

partition_lem_example :
    (concat {A = ℕ} (partition {A = ℕ} 2 3 (1 ∷ 2 ∷ 3 ∷ 4 ∷ 5 ∷ [])) ≡ 1 ∷ 2 ∷ 3 ∷ 4 ∷ 5 ∷ [])
    × (length (partition {A = ℕ} 2 3 (1 ∷ 2 ∷ 3 ∷ 4 ∷ 5 ∷ [])) ≡ 3)
    × All (λ part. length part ≤ 2) (partition {A = ℕ} 2 3 (1 ∷ 2 ∷ 3 ∷ 4 ∷ 5 ∷ []))
partition_lem_example =
    partition_lem {A = ℕ} 2 3 (1 ∷ 2 ∷ 3 ∷ 4 ∷ 5 ∷ []) (omega arith) (omega arith)

g_outputs_example :
    some_values
      (hidden solver)
      (λ γ. formula_value γ (create_g_formula solver).g_formula_clauses)
      first_only
    ≡ two_outputs solver.exists_vars solver.clauses first_only
g_outputs_example = g_outputs packed_laws solver solver-IsReady first_only
