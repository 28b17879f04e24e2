-- ===== src/Skolem/Specification.antt =====
-- The number that `count` (src/skolemfc.cpp) stands for, described apart from the code.
use skolemfc.Base.{ℕ, ◌*◌, ◌≡◌, true, not, ◌||◌, List, length, u64, All, if◌then◌else◌, ◌==◌}
use skolemfc.Base.Int.{pos}
use skolemfc.Lit.{LitApi}
use skolemfc.Cnf.{Assignment}
use skolemfc.Floats.{DoubleApi, MpfApi}
use skolemfc.Solver.{Solver}
use skolemfc.Counter.Inputs.{has_output, tally}
use skolemfc.Counter.Outputs.{two_outputs}
use skolemfc.Counter.Loop.{sum_logs, Continues}
use skolemfc.Skolem.Promises.{Within}
use skolemfc.Skolem.Loop.{CountsOutputs}

module _ {D L : Type 0} ⦃a : LitApi L⦄ (α : Assignment) (p : Solver D L) where
  -- The number of inputs without an output.
  abbrev pub without_outputs : ℕ
  without_outputs = tally p.forall_vars (λ β. not (has_output p.exists_vars p.clauses β)) α

  -- The number of inputs with two outputs or more.
  abbrev pub with_two : ℕ
  with_two = tally p.forall_vars (two_outputs p.exists_vars p.clauses) α

  -- The estimate for a formula, where each count is within a factor `k`: a number `e`, plus the
  -- threshold divided by the number of rounds and times a number `n`. A round counts the outputs at an
  -- input, and the rounds are just so many that the logarithms add up to more than the threshold.
  pub record IsEstimateOf {F : Type 0} ⦃d : DoubleApi D⦄ ⦃m : MpfApi D F⦄ (k e n : ℕ)
      (thresh total : F) : Type 0 where
    pub logs : List D
    pub counts : All (CountsOutputs α p k) logs
    pub no_more : Continues thresh (m.of_double (d.dec 0 0)) logs
    pub enough : (n == 0 || not (m.le (sum_logs (m.of_double (d.dec 0 0)) logs) thresh)) ≡ true
    pub formula :
        total
        ≡ m.plus (m.of_mpz (pos e)) (
            if n == 0
            then m.of_double (d.dec 0 0)
            else m.times
                (m.over thresh (m.of_double (d.of_ℕ (u64 (length logs)))))
                (m.of_mpz (pos n)))

  module _ {F : Type 0} ⦃d : DoubleApi D⦄ ⦃m : MpfApi D F⦄ (k : ℕ) (thresh total : F) where
    -- With |Y| times the inputs without an output, and the inputs with two outputs.
    abbrev pub IsSkolemEstimate : Type 0
    IsSkolemEstimate = IsEstimateOf k (without_outputs * length p.exists_vars) with_two thresh total

    -- Without the inputs that have no output, and with about as many inputs as have two outputs.
    abbrev pub IsLowerEstimate : Type 0
    IsLowerEstimate = (n : ℕ) × Within k with_two n × IsEstimateOf k 0 n thresh total
