-- ===== src/Skolem/Lower.antt =====
-- What `count` (src/skolemfc.cpp) returns with the options that are the default: inputs without an output
-- are left out, and ApproxMC counts G.
use skolemfc.Base.{ℕ, ◌^◌, ◌<◌, ◌≤◌, ◌≡◌, refl, ◌∙◌, true, false, length, ◌==◌}
use skolemfc.Base.Int.{pos}
use skolemfc.Lit.{LitApi, LitLaws}
use skolemfc.Cnf.{Assignment}
use skolemfc.Floats.{DoubleApi, MpfApi}
use skolemfc.Outcome.{Ensures-step, ok, Ensures, Ensures-imp}
use skolemfc.Oracles.{Oracles, GmpApi}
use skolemfc.Solver.{create_g_formula}
use skolemfc.Solver.Correct.{IsReady}
use skolemfc.Counter.{Counter}
use skolemfc.Counter.Count.{get_est0, get_g_count}
use skolemfc.Counter.Run.{set_constants, count}
use skolemfc.Counter.Returns.{Draws}
use skolemfc.Counter.Returns.{DrawsTwo, Unsampled}
use skolemfc.Skolem.Promises.{Approximates, ApproximatesInputs, SamplesModels}
use skolemfc.Skolem.Loop.{IsClosed, GainsOutputs}
use skolemfc.Skolem.Specification.{with_two, IsEstimateOf, IsLowerEstimate}
use skolemfc.Skolem.GCount.{get_g_count_near}
use skolemfc.Skolem.Ending.{ends-Estimate}
use skolemfc.Skolem.Estimate.{marked, marked-keeps}

get_est0_ignored :
    {D F L W : Type 0} ⦃a : LitApi L⦄ (oracles : Oracles W D L) (gmp : GmpApi) (c : Counter D F L W)
    → c.ignore_unsat ≡ true
    → get_est0 oracles gmp c ≡ ok (pos 0, c)
unfolding get_est0
get_est0_ignored oracles gmp c e = rw e refl

module _ {D F L W : Type 0} ⦃d : DoubleApi D⦄ ⦃m : MpfApi D F⦄ ⦃a : LitApi L⦄ (laws : LitLaws L)
    (oracles : Oracles W D L) (gmp : GmpApi) (α : Assignment) where
  -- For literals that obey their laws, and a formula F that is ready for `create_g_formula`, of which
  -- every variable is an input or an output and only once, and of which some input has two outputs; on
  -- a new counter for F with one thread and the fixed number of samples, which leaves out the inputs
  -- without an output and counts G with ApproxMC; with an ApproxMC whose count of G on X is within a
  -- factor `k` of the number of inputs that extend to a model of G, and whose counts are within `k` of
  -- the numbers of models; with a UniGen that always gives a sample, two if asked for more than one, and
  -- for G just samples of its models; if each logarithm of a number within `k` of the outputs at an
  -- input brings the sum nearer to the threshold; with fuel and rounds of 32 bits above the rank of the
  -- first sum: `count` returns or exits, and what it returns is 0 plus the threshold divided by the number
  -- of rounds and times a number within `k` of the inputs with two outputs, where each round stands for
  -- a number within `k` of the outputs at some input, and the rounds are just as many as it takes for
  -- the finite ones among the logarithms to add up to more than the threshold.
  pub count-IsLowerEstimate :
      (k : ℕ) (rank : F → ℕ) (fuel limit : ℕ) (quotient : ℕ → ℕ → ℕ) (c : Counter D F L W)
      → IsReady c.p
      → IsClosed c.p
      → 0 < length c.p.forall_vars
      → 0 < with_two α c.p
      → c.ignore_unsat ≡ true
      → c.exactcount_s2 ≡ false
      → 0 < k
      → ApproximatesInputs oracles k α c.p
      → Approximates oracles k α
      → SamplesModels oracles c.p
      → Draws oracles
      → DrawsTwo oracles
      → GainsOutputs α c.p k rank (set_constants c).thresh
      → Unsampled c
      → c.iteration ≡ 0
      → c.log_skolemcount ≡ m.of_double (d.dec 0 0)
      → c.okay ≡ true
      → c.numthreads ≤ 1
      → limit < 2 ^ 32
      → rank (m.of_double (d.dec 0 0)) < limit
      → rank (m.of_double (d.dec 0 0)) < fuel
      → Ensures
          (λ r. IsLowerEstimate α c.p k (set_constants c).thresh r.0)
          (count oracles gmp fuel quotient c)
  unfolding count set_constants
  count-IsLowerEstimate k rank fuel limit quotient c ready closed some_input some_two ignored
        default some_k near_inputs near models draws two g (no_sample, no_clearance, static) start
        lg okay single fits few more =
      let c₀ = set_constants c in
      let Q = λ (r : F × Counter D F L W). IsLowerEstimate α c.p k c₀.thresh r.0 in
      let (n, w, within, g_count) =
        get_g_count_near oracles laws gmp k α c₀ ready some_input default some_k some_two
          near_inputs in
      let z = n == 0 in
      let counted : Counter D F L W = record c₀ { p = create_g_formula c.p; world = w } in
      let (same_p, same_samples, same_clearance, same_static, okay', it, lg', th, nt) =
        marked-keeps z counted okay in
      Ensures-step Q (get_est0 oracles gmp c₀) _ _ (get_est0_ignored oracles gmp c₀ ignored) (
        Ensures-step Q (get_g_count oracles gmp _) _ _ g_count (
          Ensures-imp (λ (r : F × Counter D F L W). IsEstimateOf α c.p k 0 n c₀.thresh r.0) Q _
            (ends-Estimate laws oracles α c.p ready closed gmp 0 n k rank fuel limit quotient
              c₀.thresh (record (marked z counted) { s2size = pos n }) th some_k near (λ _. models)
              draws two g same_p
              (same_samples ∙ no_sample, same_clearance ∙ no_clearance, same_static ∙ static) refl
              okay' (it ∙ start) (lg' ∙ lg) (rw nt single) fits few more)
            (λ r e. (n, within, e))))
