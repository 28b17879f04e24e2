-- ===== src/Counter/Rounds.antt =====
-- `get_and_add_count_for_a_sample`: one round of the counting loop.
use skolemfc.Base.{ℕ, ◌+◌, Bool, ◌&&◌, ◌||◌, [], length, ltb, leb, ◌==◌, u32, u64, if◌then◌else◌}
use skolemfc.Lit.{LitApi}
use skolemfc.Floats.{DoubleApi, MpfApi}
use skolemfc.Outcome.{Outcome, ok, ◌>>=◌}
use skolemfc.Oracles.{Oracles}
use skolemfc.Counter.{Counter}
use skolemfc.Counter.Show.{show_count}
use skolemfc.Counter.Sample.{create_formula_from_sample}
use skolemfc.Counter.Count.{count_using_approxmc}
use skolemfc.Counter.Samples.{log_count, to_u64, get_samples, get_samples_multithread}

-- Whether the samples are used up.
abbrev pub needs_samples : {D F L W : Type 0} → Counter D F L W → Bool
needs_samples c =
    leb (u64 (length c.samples_from_unisamp + c.sample_clearance_iteration)) c.iteration
    && ltb 1 c.iteration

module _ {D F L W : Type 0} ⦃d : DoubleApi D⦄ ⦃m : MpfApi D F⦄ where
  open d use {dec, of_ℕ, add, mul, div, trunc, is_finite}
  open m use {of_double, get_d, plus, lt}

  -- The number of samples that the estimate asks for, a multiple of 500 but for the rounding.
  abbrev pub new_total : Counter D F L W → ℕ
  new_total c =
      let guess = div (mul (get_d c.thresh) (of_ℕ c.iteration)) (get_d c.log_skolemcount) in
      to_u64 (trunc (mul (div (add guess (dec 500 0)) (dec 500 0)) (dec 500 0)))

  abbrev pub round_delta : Counter D F L W → D
  round_delta c =
      if c.iteration == 0 || lt c.log_skolemcount (of_double (dec 1 4))
      then div c.delta_c (get_d c.thresh)
      else div (mul (mul (dec 5 1) c.delta_c) (get_d c.log_skolemcount))
          (mul (of_ℕ c.iteration) (get_d c.thresh))

  -- The count of a round goes into the sum, unless it is not finite.
  abbrev pub add_count : D → Counter D F L W → Counter D F L W
  add_count logcount c =
      if is_finite logcount
      then record c { log_skolemcount = plus c.log_skolemcount (of_double logcount) }
      else c

  module _ ⦃a : LitApi L⦄ (oracles : Oracles W D L) where
    -- The samples drawn anew, with the numbers reset to them.
    unfoldable pub refill : Counter D F L W → Outcome (Counter D F L W)
    unfolding get_samples
    refill c =
        let total = new_total c in
        let cleared = record c {
          sample_num_est = total;
          samples_from_unisamp = [];
          sample_clearance_iteration = u32 c.iteration;
        } in
        if ltb 1 c.numthreads
        then get_samples_multithread oracles
            (to_u64 (trunc (mul (of_ℕ c.sample_num_est) (dec 25 2)))) c
        else ok (get_samples oracles (if ltb 1000 total then 1000 else total) c.seed cleared)

    -- The round behind the refill: count under the next sample, and add the logarithm.
    unfoldable pub count_sample : Counter D F L W → Outcome (Counter D F L W)
    unfolding log_count count_using_approxmc show_count
    count_sample c = create_formula_from_sample c.samples_from_unisamp c.iteration c >>= λ formula.
        (let (count, c') =
            count_using_approxmc oracles c.p.nvars formula [] (dec 4657 3) (round_delta c) c in
          let next = record c' { iteration = u64 (c'.iteration + 1) } in
          ok (show_count (add_count (log_count count) next)).1)

    unfoldable pub get_and_add_count_for_a_sample : Counter D F L W → Outcome (Counter D F L W)
    unfolding refill count_sample
    get_and_add_count_for_a_sample c = (if needs_samples c then refill c else ok c) >>= count_sample
