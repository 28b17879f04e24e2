-- ===== src/Tests/Runs.antt =====
-- Examples of the parser, and of the counter with small stand-ins for the oracles.
use mathlib.Core.Option.{Option, some, none}
use skolemfc.Base.{
  if◌then◌else◌, ◌⊎◌, ltb, ◌/◌, ◌*◌, ◌-◌, ◌+◌, false, ℕ, ◌-◌, ◌≡◌, ◌≢◌, refl, true, false, List, [],
  ◌∷◌, arith,
}
use skolemfc.Solver
use skolemfc.Solver.{Solver}
use skolemfc.Outcome.{Outcome, ok, Ensures}
use skolemfc.Parser.{Parser, start}
use skolemfc.Cnf.{Formula}
use skolemfc.Parser.Main.{parse_dimacs}
use skolemfc.Parser.Accepted.{IsAccepted, parse_dimacs_accepts}
use skolemfc.Counter
use skolemfc.Counter.{Counter, left_epsilon, left_delta}
use skolemfc.Outcome.{aborted}
use skolemfc.Configure.{Options, configure, configure_lem}
use skolemfc.Counter.Show.{tick, ticks, tick_shows}
use skolemfc.Counter.Run.{count, set_constants}
use skolemfc.Counter.Joins.{count_multithread_fails}
use skolemfc.Counter.Budget.{set_constants-set_dklr_parameters}
use skolemfc.Tests.Packed.{packed, packed_laws}
use skolemfc.Tests.Buffer.{buffer, buffer_laws}
use skolemfc.Tests.Inputs.{oracles, ready}
use skolemfc.Tests.Numbers.{whole, whole_mpf, gmp}

-- "p cnf 2 1\na 1 0\ne 2 0\n1 -2 0\n"
abbrev input : List ℕ
input =
    b'p' ∷ b' ' ∷ b'c' ∷ b'n' ∷ b'f' ∷ b' ' ∷ b'2' ∷ b' ' ∷ b'1' ∷ b'\n' ∷ b'a' ∷ b' ' ∷ b'1' ∷ b' '
    ∷ b'0' ∷ b'\n' ∷ b'e' ∷ b' ' ∷ b'2' ∷ b' ' ∷ b'0' ∷ b'\n' ∷ b'1' ∷ b' ' ∷ b'-' ∷ b'2' ∷ b' '
    ∷ b'0' ∷ b'\n' ∷ []

parse_dimacs_accepts_example :
    Ensures
      (IsAccepted {D = ℕ} {L = ℕ})
      (parse_dimacs 40 true 0 (start (Solver.create {D = ℕ} {L = ℕ} 8 4 1 0) []) input)
parse_dimacs_accepts_example =
    parse_dimacs_accepts {D = ℕ} packed_laws buffer_laws 40 8 4 1 0 input (omega arith)

tick_shows_example : (tick (ticks 24 ready)).0 ≡ false
unfolding Counter.create Solver.create
tick_shows_example = tick_shows 24 ready (omega arith) (omega arith) refl refl

count_multithread_fails_example :
    count oracles gmp 9 (λ n k. n) (record ready { numthreads = 2 }) ≢ ok (3, ready)
unfolding Counter.create Solver.create
count_multithread_fails_example =
    count_multithread_fails oracles gmp 9 (λ n k. n) (record ready { numthreads = 2 }) (3, ready)
      (omega arith)

-- The error is 8, which is above 0.
abbrev allowed : Counter ℕ ℕ ℕ ℕ
allowed = record ready { epsilon = 8 }

set_constants-set_dklr_parameters_example :
    let run = set_constants (Counter.split_budget 5 6 1 allowed) in
    (run.thresh ≡ (set_constants allowed).thresh)
    × (run.epsilon_f ≡ (set_constants allowed).epsilon_f)
    × (run.delta_f ≡ (set_constants allowed).delta_f)
unfolding Counter.set_dklr_parameters
set_constants-set_dklr_parameters_example =
    set_constants-set_dklr_parameters 5 6 1 allowed (Counter.split_budget 5 6 1 allowed) refl

abbrev pub options : Options ℕ
options = record {
  noguarantee = false;
  use_unisamp_sampling = true;
  exactcount_f = true;
  exactcount_g = false;
  g_counter_epsilon = 1;
  g_counter_delta = 2;
  nthreads = 1;
  count_unsat_inputs = false;
  static_samp_est = true;
  epsilon_weightage_fc = 3;
  delta_weightage_fc = 5;
  max_error_logcounter = 1;
}

configure_lem_example :
    let eps = ready.p.epsilon in
    (run : Counter ℕ ℕ ℕ ℕ) × (configure options ready
      ≡ (if ltb 0 run.epsilon then ok run else aborted))
    × (false ≡ true → (run.epsilon ≡ eps) × (run.delta ≡ ready.p.delta))
    × (false ≡ false
        → ((run.epsilon ≡ (1 + eps) / (1 + 1) - 1) ⊎ (run.epsilon ≡ eps + 1 * eps - 1))
          × (ltb ((1 + eps) / (1 + 1) - 1) run.epsilon ≡ false)
          × (ltb (eps + 1 * eps - 1) run.epsilon ≡ false)
          × (run.delta ≡ (ready.p.delta - 2) / (1 + 2)))
    × (run.epsilon_gc ≡ 1)
    × (run.delta_gc ≡ 2)
    × (run.ignore_unsat ≡ true)
    × (run.exactcount_s0 ≡ true)
    × (run.exactcount_s2 ≡ false)
    × (run.use_unisamp ≡ true)
    × (run.static_samp ≡ true)
    × (run.numthreads ≡ 1)
    × (run.max_error_logcounter ≡ 1)
configure_lem_example = configure_lem options ready (λ x y. refl) (λ x y h. ground (arith, h))

abbrev nvars_of : Outcome (Parser ℕ ℕ) → Option (ℕ × Formula ℕ)
nvars_of (ok p) = some (p.solver.nvars, p.solver.clauses)
nvars_of _ = none

-- The input above is accepted.
accepted :
    nvars_of (parse_dimacs 40 true 0 (start (Solver.create {D = ℕ} {L = ℕ} 8 4 1 0) []) input)
    ≡ some (2, (0 ∷ 3 ∷ []) ∷ [])
unfolding parse_dimacs start Solver.create skolemfc.Parser.Lines.parse_header
    skolemfc.Parser.Lines.header_numbers skolemfc.Parser.Lines.set_header
    skolemfc.Parser.Lines.parse_vars skolemfc.Parser.Lines.read_vars
    skolemfc.Parser.parse_and_add_clause skolemfc.Parser.read_clause skolemfc.Parser.check_var
    Solver.add_clause
accepted = refl
