-- ===== src/Counter/Run.antt =====
-- `count`: the whole run, with `set_constants`, `get_est1` and the check of the oracle's error.
use skolemfc.Base.{ℕ, zero, suc, Bool, false, ◌&&◌, not, length, ltb, if◌then◌else◌}
use skolemfc.Base.Int.{ℤ}
use skolemfc.Lit.{LitApi}
use skolemfc.Floats.{DoubleApi, MpfApi}
use skolemfc.Outcome.{Outcome, ok, exited, timeout, ◌>>=◌}
use skolemfc.Oracles.{Oracles, GmpApi}
use skolemfc.Solver.{create_g_formula}
use skolemfc.Counter.{Counter}
use skolemfc.Counter.Count.{get_est0, get_g_count}
use skolemfc.Counter.Samples.{get_sample_num_est, get_samples, get_samples_multithread}
use skolemfc.Counter.Rounds.{get_and_add_count_for_a_sample}
use skolemfc.Counter.Threads.{get_and_add_count_multithred}

module _ {D F L W : Type 0} ⦃d : DoubleApi D⦄ ⦃m : MpfApi D F⦄ where
  open d use {dec, of_ℕ, add, mul, div, log}
  open m use {of_double, of_mpz, plus, times, over, le, lt, mpz_times}

  unfoldable pub set_constants : Counter D F L W → Counter D F L W
  set_constants c =
      let ef = mul (dec 6 1) c.p.epsilon in
      let df = mul (dec 5 1) c.p.delta in
      let base =
        div (mul (mul (dec 40 1) (log (div (dec 2 0) df))) (add (dec 1 0) ef)) (mul ef ef) in
      record c {
        epsilon = c.p.epsilon;
        delta = c.p.delta;
        epsilon_f = ef;
        delta_f = df;
        thresh = times (of_double base) (of_double (of_ℕ (length c.p.exists_vars)));
      }

  -- Without the trap of GMP where `iteration` is 0.
  unfoldable pub get_est1 : ℤ → Counter D F L W → F
  get_est1 s1size c =
      if not c.okay
      then of_double (dec 0 0)
      else times (over c.thresh (of_double (of_ℕ c.iteration))) (of_mpz s1size)

  unfoldable pub get_current_estimate : Counter D F L W → F
  get_current_estimate c =
      times (over c.log_skolemcount (of_double (of_ℕ c.iteration))) (of_mpz c.s2size)

  unfoldable pub get_progress : Counter D F L W → D
  get_progress c = m.get_d (over (times (of_double (dec 100 0)) c.log_skolemcount) c.thresh)

  -- Without the trap of GMP where `s2size` is 0.
  unfoldable pub check_if_approxmc_error_exceeds : F → ℤ → D → Counter D F L W → Bool
  check_if_approxmc_error_exceeds count s2size max_error c =
      if lt (times (of_double max_error) count) (mpz_times s2size (log (add (dec 1 0) c.epsilon_c)))
      then not (lt (over count (of_mpz s2size)) (of_double (of_ℕ c.approxmc_threshold)))
      else false

  module _ ⦃a : LitApi L⦄ (oracles : Oracles W D L) where
    -- `while ((log_skolemcount <= thresh) && okay)`.
    unfoldable pub count_loop : ℕ → Counter D F L W → Outcome (Counter D F L W)
    count_loop zero c = timeout
    count_loop (suc fuel) c =
        let round = get_and_add_count_for_a_sample oracles c >>= λ c'. count_loop fuel c' in
        if le c.log_skolemcount c.thresh && c.okay then round else ok c

    -- The branch on the number of threads; `quotient` is the size of a thread's part.
    unfoldable pub count_samples : ℕ → (ℕ → ℕ → ℕ) → Counter D F L W → Outcome (Counter D F L W)
    unfolding count_loop get_samples
    count_samples fuel quotient c =
        let many =
          (if c.okay then get_samples_multithread oracles c.sample_num_est c else ok c) >>= λ c'.
          get_and_add_count_multithred oracles quotient c' in
        let one = count_loop fuel (get_samples oracles c.sample_num_est 1 c) in
        if ltb 1 c.numthreads then many else if c.okay then one else ok c

  module _ ⦃a : LitApi L⦄ (oracles : Oracles W D L) (gmp : GmpApi) where
    -- `count`, up to the estimate that it prints.
    unfoldable pub count : ℕ → (ℕ → ℕ → ℕ) → Counter D F L W → Outcome (F × Counter D F L W)
    unfolding set_constants count_samples get_est1 check_if_approxmc_error_exceeds
    count fuel quotient c₀ = get_est0 oracles gmp (set_constants c₀) >>= λ (est0, c₁).
        get_g_count oracles gmp (record c₁ { p = create_g_formula c₁.p }) >>= λ (s2, c₂).
        let c₃ = record c₂ { s2size = s2 } in
        (if c₃.okay then get_sample_num_est oracles c₃ else ok c₃) >>= λ c₄.
        count_samples oracles fuel quotient c₄ >>= λ c₅.
        let total = plus (of_mpz est0) (get_est1 c₅.s2size c₅) in
        if check_if_approxmc_error_exceeds total c₅.s2size c₅.max_error_logcounter c₅
        then exited
        else ok (total, c₅)
