-- ===== src/Tests/Estimates.antt =====
-- Examples of whole runs: the counter, the loop and `main`.
use native.Mathlib.Nat.{div-zero}
use skolemfc.Base.{
  ℕ, ◌*◌, ◌≤◌, ◌≡◌, ◌==◌, refl, true, false, Option, some, none, List, [], ◌∷◌, arith,
  if◌then◌else◌,
}
use skolemfc.Base.Int.{pos}
use skolemfc.Outcome.{ok}
use skolemfc.Solver
use skolemfc.Solver.{create_g_formula}
use skolemfc.Counter
use skolemfc.Counter.{Counter}
use skolemfc.Counter.Count.{get_g_count}
use skolemfc.Counter.Text.{strip}
use skolemfc.Counter.Inputs.{tally}
use skolemfc.Counter.Outputs.{two_outputs}
use skolemfc.Counter.GCount.{get_g_count_exact}
use skolemfc.CommandLine.{Given, add_skolemfc_options}
use skolemfc.Counter.Run.{set_constants}
use skolemfc.Counter.Samples.{get_sample_num_est}
use skolemfc.Configure.{configured, configure-ok, prepare}
use skolemfc.CommandLine.Static.{get_sample_num_est-configure}
use skolemfc.Tests.Packed.{packed, packed_laws}
use skolemfc.Tests.Buffer.{buffer}
use skolemfc.Tests.Inputs.{oracles, ready, solver}
use skolemfc.Tests.Formulas.{solver-IsReady}
use skolemfc.Tests.Counts.{ganak, one_input}
use skolemfc.Tests.Written.{written}
use skolemfc.Tests.Numbers.{whole, whole_mpf, gmp}

abbrev fresh : Counter ℕ ℕ ℕ ℕ
fresh = record (Counter.create 0 1 8 4 1 1 0) { p = solver; static_samp = true }

-- F is x or not y, so both values of y are outputs for the input that is true.
abbrev exact_g : Counter ℕ ℕ ℕ ℕ
exact_g = record ready { exactcount_s2 = true }

get_g_count_exact_example :
    let c = record exact_g { p = create_g_formula exact_g.p } in
    let n = tally solver.forall_vars (two_outputs solver.exists_vars solver.clauses) (λ v. false) in
    let c' = record c { world = 1 } in
    get_g_count ganak gmp c ≡ ok (pos n, if n == 0 then record c' { okay = false } else c')
unfolding Counter.create Solver.create create_g_formula strip
get_g_count_exact_example =
    get_g_count_exact packed_laws ganak gmp exact_g (λ v. false) solver-IsReady refl one_input

-- The file system holds one file.
abbrev one_file : List ℕ → Option (List ℕ)
one_file name = some written

-- The command line names a file, and asks for nothing else.
abbrev pub given : Given ℕ
given = record {
  help = false;
  version = false;
  verb = none;
  seed = none;
  threads = none;
  epsilon = none;
  delta = none;
  count_unsat = false;
  no_static_samp = false;
  input = some (b'f' ∷ []);
  no_guarantee = false;
  use_unisamp = none;
  exact_f = none;
  exact_g = none;
  epsilon_fc = none;
  delta_fc = none;
  delta_g = none;
  epsilon_g = none;
  max_error_logcounter = none;
}

-- With whole numbers, 0.6 is rounded to 0, and the threshold with it.
pub thresh_le : (c : Counter ℕ ℕ ℕ ℕ) → (set_constants c).thresh ≤ 12
unfolding set_constants
thresh_le c =
    let none_left : 0 * c.p.epsilon ≡ 0 = omega arith in rw (none_left, div-zero) (omega arith)

-- The error that is allowed is 8.
abbrev whole_error : Counter ℕ ℕ ℕ ℕ
whole_error = Counter.create 0 1 8 4 1 1 0

get_sample_num_est-configure_example :
    let asked : Given ℕ = record given { no_static_samp = true } in
    let run = configured (add_skolemfc_options asked).options whole_error in
    get_sample_num_est oracles run ≡ ok (record run { sample_num_est = 500 })
unfolding prepare configured add_skolemfc_options Counter.create Solver.create
get_sample_num_est-configure_example =
    let asked : Given ℕ = record given { no_static_samp = true } in
    get_sample_num_est-configure oracles asked whole_error
      (configured (add_skolemfc_options asked).options whole_error) (configure-ok _ _ refl)
