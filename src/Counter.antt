-- ===== src/Counter.antt =====
-- `class SklFC` (src/skolemfc.h, src/skolemfc.cpp): the state of the counter and its settings.
-- What the code prints, and the clocks, are left out.
pub mod Show
pub mod Sample
pub mod Text
pub mod Count
pub mod Inputs
pub mod Outputs
pub mod GCount
pub mod Samples
pub mod Samplers
pub mod Partition
pub mod Rounds
pub mod Threads
pub mod Run
pub mod Kept
pub mod Joins
pub mod Budget
pub mod Loop
pub mod Returns
pub mod Estimate
pub mod PrintCnf
use skolemfc.Base.{ℕ, ◌+◌, Bool, true, false, not, List, [], ◌∷◌, ◌++◌, if◌then◌else◌}
use skolemfc.Base.Int.{ℤ, pos}
use skolemfc.Outcome.{Outcome, ok, aborted}
use skolemfc.Solver
use skolemfc.Solver.{Solver}
use skolemfc.Floats.{DoubleApi, MpfApi}

-- `p` is `skolemfc->p`. A thread of `threads` is told by whether it can still be joined.
pub record Counter (D F L W : Type 0) : Type 0 where
  pub p : Solver D L
  pub threads : List Bool
  pub iteration : ℕ
  pub log_skolemcount : F
  pub thresh : F
  pub s2size : ℤ
  pub numthreads : ℕ
  pub use_unisamp : Bool
  pub exactcount_s0 : Bool
  pub exactcount_s2 : Bool
  pub ignore_unsat : Bool
  pub static_samp : Bool
  pub noguarantee : Bool
  pub epsilon_gc : D
  pub delta_gc : D
  pub epsilon : D
  pub delta : D
  pub epsilon_f : D
  pub delta_f : D
  pub epsilon_s : D
  pub delta_c : D
  pub epsilon_c : D
  pub max_error_logcounter : D
  pub sample_num_est : ℕ
  pub next_iter_to_show_output : ℕ
  pub okay : Bool
  pub seed : ℕ
  pub verb : ℕ
  pub approxmc_threshold : ℕ
  pub samples_from_unisamp : List (List ℤ)
  pub sample_clearance_iteration : ℕ
  pub world : W

module _ {D : Type 0} ⦃d : DoubleApi D⦄ where
  open d use {dec, add, sub, mul, div, least}

  -- The error budget of `p` that is left when G is counted with error `e` and confidence `e'`.
  abbrev pub left_epsilon : D → D → D
  left_epsilon epsilon e =
      least (sub (div (add (dec 10 1) epsilon) (add (dec 1 0) e)) (dec 1 0))
        (sub (add epsilon (mul e epsilon)) e)

  abbrev pub left_delta : D → D → D
  left_delta delta e' = div (sub delta e') (add (dec 1 0) e')

module _ {D F L W : Type 0} ⦃d : DoubleApi D⦄ ⦃f : MpfApi D F⦄ where
  open d use {dec, sub, mul, less}
  open f use {of_double}

  -- `SklFC::SklFC`. Members with no initialiser (`numthreads`, `epsilon_f` and the like) start as
  -- `junk`: nothing reads them before they are set.
  unfoldable pub create : (junk : D) → ℕ → D → D → ℕ → ℕ → W → Counter D F L W
  create junk threads epsilon delta seed verbosity world = record {
    p = Solver.create epsilon delta seed verbosity;
    threads = [];
    iteration = 0;
    log_skolemcount = of_double (dec 0 0);
    thresh = of_double (dec 1 0);
    s2size = pos 0;
    numthreads = threads;
    use_unisamp = false;
    exactcount_s0 = true;
    exactcount_s2 = false;
    ignore_unsat = true;
    static_samp = false;
    noguarantee = false;
    epsilon_gc = dec 2 1;
    delta_gc = dec 4 1;
    epsilon = dec 0 0;
    delta = dec 0 0;
    epsilon_f = junk;
    delta_f = junk;
    epsilon_s = junk;
    delta_c = junk;
    epsilon_c = junk;
    max_error_logcounter = junk;
    sample_num_est = 0;
    next_iter_to_show_output = 1;
    okay = true;
    seed = 1;
    verb = 0;
    approxmc_threshold = 35;
    samples_from_unisamp = [];
    sample_clearance_iteration = 0;
    world = world;
  }

  unfoldable pub set_num_threads : ℕ → Counter D F L W → Counter D F L W
  set_num_threads n c = record c { numthreads = n }

  unfoldable pub set_parameters : Counter D F L W → Counter D F L W
  set_parameters c = record c {
    epsilon = c.p.epsilon;
    delta = c.p.delta;
    seed = c.p.seed;
    verb = c.p.verbosity;
  }

  unfoldable pub set_g_counter_parameters : D → D → Counter D F L W → Counter D F L W
  set_g_counter_parameters e e' c =
      let c₁ = record c { epsilon_gc = e; delta_gc = e' } in
      let c₂ =
        if not c.exactcount_s2
        then record c₁ {
          p = record c.p { epsilon = left_epsilon c.p.epsilon e; delta = left_delta c.p.delta e' };
        }
        else c₁ in
      if c.noguarantee then record c₂ { epsilon_gc = dec 48 1; delta_gc = dec 8 1 } else c₂

  -- The assignments of `set_dklr_parameters`, behind its assertion.
  unfoldable pub split_budget : D → D → D → Counter D F L W → Counter D F L W
  split_budget epsilon_w delta_w max_error c =
      let ef = mul (sub c.epsilon max_error) epsilon_w in
      let df = mul c.delta delta_w in
      record c {
        epsilon_f = ef;
        max_error_logcounter = max_error;
        delta_f = df;
        epsilon_s = sub (sub c.epsilon ef) (dec 1 1);
        delta_c = sub c.delta df;
        epsilon_c = dec 4658 3;
      }

  -- `aborted` is the failed `assert(epsilon > 0)`.
  unfoldable pub set_dklr_parameters : D → D → D → Counter D F L W → Outcome (Counter D F L W)
  unfolding split_budget
  set_dklr_parameters epsilon_w delta_w max_error c =
      if less (dec 0 0) c.epsilon then ok (split_budget epsilon_w delta_w max_error c) else aborted

  unfoldable pub set_oracles : Bool → Bool → Bool → Counter D F L W → Counter D F L W
  set_oracles unisamp s0 s2 c = record c {
    use_unisamp = unisamp;
    exactcount_s0 = s0;
    exactcount_s2 = s2;
  }

  unfoldable pub set_ignore_unsat : Bool → Counter D F L W → Counter D F L W
  set_ignore_unsat b c = record c { ignore_unsat = b }

  unfoldable pub set_static_samp : Bool → Counter D F L W → Counter D F L W
  set_static_samp b c = record c { static_samp = b }

  unfoldable pub set_noguarantee_mode : Bool → Counter D F L W → Counter D F L W
  set_noguarantee_mode b c = record c { noguarantee = b }
