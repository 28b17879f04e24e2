-- ===== src/Skolem/Promises.antt =====
-- What is asked of ApproxMC, Arjun and UniGen where the loop is related to the formula, and what it makes
-- of `count_using_approxmc` (src/skolemfc.cpp).
use skolemfc.Base.{ℕ, ◌*◌, ◌<◌, ◌≤◌, ◌≡◌, ◌≢◌, refl, true, none, some, List, [], ◌∷◌, arith, All}
use skolemfc.Lit.{LitApi}
use skolemfc.Cnf.{Assignment, Formula, formula_value}
use skolemfc.Oracles.{Oracles, SolCount, SimplifiedCnf, Settings}
use skolemfc.Solver.{Solver, create_g_formula}
use skolemfc.Counter.{Counter}
use skolemfc.Counter.Sample.{follows}
use skolemfc.Counter.Count.{absolute_count_from_appmc, count_using_approxmc, sampling_set}
use skolemfc.Counter.Inputs.{has_output, tally}
use skolemfc.Counter.Outputs.{hidden, variables}
use skolemfc.Skolem.Sample.{Names}

-- Two numbers are within a factor of each other.
abbrev pub Within : ℕ → ℕ → ℕ → Type 0
Within k n m = (n ≤ k * m) × (m ≤ k * n)

-- The number of models over the variables below `nvars`.
abbrev pub models : {L : Type 0} ⦃a : LitApi L⦄ → ℕ → Formula L → Assignment → ℕ
models nvars f = tally (variables 0 nvars) (λ β. formula_value β f)

module _ {D L W : Type 0} ⦃a : LitApi L⦄ (oracles : Oracles W D L) where
  open oracles use {minimize, appmc_count, unigen_sample}

  -- Arjun leaves no variable only if a number is 1, and the number that ApproxMC gives for what Arjun
  -- leaves is within a factor of it.
  abbrev pub Answers : ℕ → ℕ → SimplifiedCnf L → Settings D → W → Type 0
  Answers k n cnf settings w =
      let (small, vars, w') = minimize cnf w in
      (vars ≡ [] → n ≡ 1)
      × (vars ≢ []
          → Within k n (
              absolute_count_from_appmc
                (appmc_count settings (record small { sampl_vars = some vars }) w').0))

  -- For a formula with models, the answer is near their number.
  abbrev pub Approximates : ℕ → Assignment → Type 0
  Approximates k α =
      (settings : Settings D) (nvars : ℕ) (f : Formula L) (w : W)
      → 0 < models nvars f α
      → Answers k (models nvars f α)
          (record { nvars = nvars; clauses = f; red_clauses = []; sampl_vars = none }) settings w

  -- Every sample that UniGen gives for G is a model of G, as it is on X.
  abbrev pub SamplesModels : Solver D L → Type 0
  SamplesModels p =
      (settings : Settings D) (wanted : ℕ) (w : W)
      → let g = create_g_formula p in
        let cnf : SimplifiedCnf L = record {
          nvars = g.n_g_vars;
          clauses = g.g_formula_clauses;
          red_clauses = [];
          sampl_vars = some g.forall_vars;
        } in
        let (small, vars, w₁) = minimize cnf w in
        let ready = record small { sampl_vars = some vars } in
        let (count, w₂) = appmc_count settings ready w₁ in
        All
          (λ s.
            Names g.forall_vars s
            × ((β : Assignment) × (follows β s ≡ true)
                × (formula_value β g.g_formula_clauses ≡ true)))
          (unigen_sample settings ready g.forall_vars count wanted w₂).0

  -- If inputs extend to a model of G, the answer for G, sampled on X, is near the number of those inputs.
  abbrev pub ApproximatesInputs : ℕ → Assignment → Solver D L → Type 0
  ApproximatesInputs k α p =
      (settings : Settings D) (w : W)
      → let g = create_g_formula p in
        let n = tally p.forall_vars (has_output (hidden p) g.g_formula_clauses) α in
        0 < n
        → Answers k n
            (record {
              nvars = g.n_g_vars;
              clauses = g.g_formula_clauses;
              red_clauses = [];
              sampl_vars = some g.forall_vars;
            })
            settings w

-- The answer of `count_using_approxmc`, with the branch on what is left to sample.
pub branch-Within :
    {D F L W : Type 0} (k n : ℕ) (vars : List ℕ) (s : SolCount) (c c' : Counter D F L W)
    → 0 < k
    → (vars ≡ [] → n ≡ 1)
    → (vars ≢ [] → Within k n (absolute_count_from_appmc s))
    → Within k n (
        absolute_count_from_appmc
          (elim vars as (λ _. SolCount × Counter D F L W) [
            | [] ↦ (record { hash_count = 0; cell_sol_count = 1 }, c)
            | v ∷ vs ↦ (s, c')
          ]).0)
unfolding absolute_count_from_appmc
branch-Within k n [] s c c' h one near = let e : n ≡ 1 = one refl in rw e (omega arith, omega arith)
branch-Within k n (v ∷ vs) s c c' h one near = near (λ e. cc)

module _ {D F L W : Type 0} ⦃a : LitApi L⦄ (oracles : Oracles W D L) where
  pub approxmc-Within :
      (k : ℕ) (α : Assignment) (nvars : ℕ) (f : Formula L) (e e' : D) (c : Counter D F L W)
      → 0 < k
      → Approximates oracles k α
      → 0 < models nvars f α
      → Within k
          (models nvars f α)
          (absolute_count_from_appmc (count_using_approxmc oracles nvars f [] e e' c).0)
  unfolding count_using_approxmc sampling_set
  approxmc-Within k α nvars f e e' c h near some_model =
      let (one, many) =
        near (record { epsilon = some e; delta = some e'; seed = none }) nvars f c.world
          some_model in
      branch-Within k (models nvars f α) _ _ _ _ h one many
