-- ===== src/Counter/Estimate.antt =====
-- `count` against the estimate that it stands for: what a run with one thread returns.
use skolemfc.Base.{
  ◌^◌, ◌≡◌, Bool, true, false, not, ◌&&◌, ◌||◌, List, arith, length, u64, if◌then◌else◌,
}
use skolemfc.Base.Int.{ℤ, pos, ◌-ℤ◌, ◌*ℤ◌}
use skolemfc.Lit.{LitApi}
use skolemfc.Floats.{DoubleApi, MpfApi}
use skolemfc.Outcome.{Outcome, ok}
use skolemfc.Oracles.{Oracles, GmpApi}
use skolemfc.Solver.{create_g_formula}
use skolemfc.Counter.{Counter}
use skolemfc.Counter.Count.{is_zero, count_formula, get_est0, get_g_count}
use skolemfc.Counter.Samples.{get_sample_num_est}
use skolemfc.Counter.Run.{set_constants}
use skolemfc.Counter.Loop.{sum_logs, AllLogged}
use skolemfc.Counter.Kept.{Kept}

pub stop_reason : (o z : Bool) (b : Bool) → o ≡ not z → (b && o) ≡ false → (z || not b) ≡ true
stop_reason o z b e h = ground arith

module _ {D F L W : Type 0} ⦃d : DoubleApi D⦄ ⦃m : MpfApi D F⦄ ⦃a : LitApi L⦄
    (oracles : Oracles W D L) where
  open m use {le, of_double, of_mpz, plus, times, over}

  module _ (gmp : GmpApi) where
    -- The counts that a run has made, and the estimate that they give. `est0` stands for the inputs
    -- without an output, `s2` for the size of G's projection; each of `logs` belongs to a round.
    pub record IsEstimate (c : Counter D F L W) (total : F) : Type 0 where
      pub est0 : ℤ
      pub s2 : ℤ
      pub counted : Counter D F L W
      pub g_counted : Counter D F L W
      pub logs : List D
      pub inputs : get_est0 oracles gmp (set_constants c) ≡ ok (est0, counted)
      pub models :
          get_g_count oracles gmp (record counted { p = create_g_formula counted.p })
          ≡ ok (s2, g_counted)
      -- the formula that is counted in a round is built from F and a sample at the round's iteration
      pub logs_logged : AllLogged oracles F (create_g_formula c.p) 0 logs
      -- the number of the inputs without an output
      pub left_out : c.ignore_unsat ≡ true → est0 ≡ pos 0
      pub complement :
          c.ignore_unsat ≡ false
          → (n : ℤ) × (c' : Counter D F L W) × (count_formula oracles gmp c.exactcount_s0 c.p.nvars
                c.p.clauses
                (set_constants c)
              ≡ ok (n, c'))
            × (est0 ≡ (pos (2 ^ length c.p.forall_vars) -ℤ n) *ℤ pos (length c.p.exists_vars))
      pub enough :
          (is_zero s2 || not (le (sum_logs (of_double (d.dec 0 0)) logs) (set_constants c).thresh))
          ≡ true
      pub formula :
          total
          ≡ plus (of_mpz est0) (
              if is_zero s2
              then of_double (d.dec 0 0)
              else times
                  (over (set_constants c).thresh (of_double (d.of_ℕ (u64 (length logs)))))
                  (of_mpz s2))

    abbrev estimated : Counter D F L W → Outcome (Counter D F L W)
    estimated c = if c.okay then get_sample_num_est oracles c else ok c

    -- A counter at the start of its loop, with the counts made for `c`.
    abbrev Starts : Counter D F L W → ℤ → Counter D F L W → Type 0
    Starts c s2 c₄ =
        (c₄.iteration ≡ 0)
        × (c₄.log_skolemcount ≡ of_double (d.dec 0 0))
        × (c₄.thresh ≡ (set_constants c).thresh)
        × (c₄.okay ≡ not (is_zero s2))
        × (c₄.s2size ≡ s2)
        × (c₄.p ≡ create_g_formula c.p)
