-- ===== src/Oracles.antt =====
-- The programs and libraries that the counter calls and that are not part of this repository:
-- ApproxMC, Arjun, UniGen, CryptoMiniSat and Ganak. They are randomised and run outside; the model
-- takes them as functions of a state `W` of the world, which every call may change.
use skolemfc.Base.{ℕ, Bool, Option, List}
use skolemfc.Base.Int.{ℤ}
use skolemfc.Cnf.{Formula}

-- `ApproxMC::SolCount`: cell_sol_count * 2 ^ hash_count.
pub record SolCount : Type 0 where
  pub hash_count : ℕ
  pub cell_sol_count : ℕ

-- `ArjunNS::SimplifiedCNF`. `none` is the mark of `start_with_clean_sampl_vars`.
pub record SimplifiedCnf (L : Type 0) : Type 0 where
  pub nvars : ℕ
  pub clauses : Formula L
  pub red_clauses : Formula L
  pub sampl_vars : Option (List ℕ)

-- What the code sets on an `AppMC` before `count`; `none` leaves the default.
pub record Settings (D : Type 0) : Type 0 where
  pub epsilon : Option D
  pub delta : Option D
  pub seed : Option ℕ

pub data Lbool : Type 0 where
  l_true l_false l_undef : Lbool

-- How a run of `./ganak` ends: no temporary file, no pipe or no process, or what it printed.
pub data GanakRun : Type 0 where
  no_tempfile no_pipe no_fork : GanakRun
  printed : List ℕ → GanakRun

pub record Oracles (W D L : Type 0) : Type 0 where
  -- `standalone_minimize_indep`, and the variables that it leaves to sample
  pub minimize : SimplifiedCnf L → W → SimplifiedCnf L × List ℕ × W
  -- `AppMC::count` on a formula, with the sampling variables if they are set
  pub appmc_count : Settings D → SimplifiedCnf L → W → SolCount × W
  -- `SATSolver::solve` and `get_model`
  pub solve : ℕ → Formula L → W → Bool × List Lbool × W
  -- `UniG::sample`: the samples that the callback receives
  pub unigen_sample :
      Settings D
      → SimplifiedCnf L
      → (full_sampling_vars : List ℕ) → SolCount
      → (wanted : ℕ) → W
      → List (List ℤ) × W
  -- a run of `./ganak` on a file with these bytes, and what it prints
  pub run_ganak : List ℕ → W → GanakRun × W

-- GMP: the value of an `mpz_class` after `set_str` in base 10, and `mpz_sizeinbase(_, 2)`.
pub record GmpApi : Type 0 where
  pub set_str : List ℕ → ℤ
  pub size_in_base2 : ℕ → ℕ
