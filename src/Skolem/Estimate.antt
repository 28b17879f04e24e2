-- ===== src/Skolem/Estimate.antt =====
-- What `count` (src/skolemfc.cpp) returns, in terms of the formula alone.
use skolemfc.Base.{
  ◌*◌, length, ℕ, ◌^◌, ◌<◌, ◌≤◌, ◌≡◌, refl, ◌∙◌, Bool, true, false, not, if◌then◌else◌, ◌==◌,
}
use skolemfc.Base.Int.{pos}
use skolemfc.Lit.{LitApi, LitLaws}
use skolemfc.Cnf.{Assignment}
use skolemfc.Floats.{DoubleApi, MpfApi}
use skolemfc.Outcome.{Ensures-step, Ensures}
use skolemfc.Oracles.{Oracles, GmpApi}
use skolemfc.Solver.{create_g_formula}
use skolemfc.Solver.Correct.{IsReady}
use skolemfc.Counter.{Counter}
use skolemfc.Counter.Text.{cnf_text}
use skolemfc.Counter.Count.{get_est0, get_g_count}
use skolemfc.Counter.Run.{set_constants, count}
use skolemfc.Counter.Inputs.{get_est0_exact}
use skolemfc.Counter.GCount.{get_g_count_exact}
use skolemfc.Counter.Returns.{Draws}
use skolemfc.Counter.Returns.{DrawsTwo, Unsampled}
use skolemfc.Skolem.Counts.{inputs_counted, ReportsInputs, ReportsModels}
use skolemfc.Skolem.Promises.{Approximates, SamplesModels}
use skolemfc.Skolem.Loop.{IsClosed, GainsOutputs}
use skolemfc.Skolem.Specification.{without_outputs, with_two, IsSkolemEstimate}
use skolemfc.Skolem.Ending.{ends-Estimate}

-- A count of 0 is the end of `okay`; nothing else changes.
abbrev pub marked : {D F L W : Type 0} → Bool → Counter D F L W → Counter D F L W
marked z c = if z then record c { okay = false } else c

pub marked-keeps :
    {D F L W : Type 0} (z : Bool) (c : Counter D F L W)
    → c.okay ≡ true
    → ((marked z c).p ≡ c.p)
      × ((marked z c).samples_from_unisamp ≡ c.samples_from_unisamp)
      × ((marked z c).sample_clearance_iteration ≡ c.sample_clearance_iteration)
      × ((marked z c).static_samp ≡ c.static_samp)
      × ((marked z c).okay ≡ not z)
      × ((marked z c).iteration ≡ c.iteration)
      × ((marked z c).log_skolemcount ≡ c.log_skolemcount)
      × ((marked z c).thresh ≡ c.thresh)
      × ((marked z c).numthreads ≡ c.numthreads)
marked-keeps true c e = (refl, refl, refl, refl, refl, refl, refl, refl, refl)
marked-keeps false c e = (refl, refl, refl, refl, e, refl, refl, refl, refl)

module _ {D F L W : Type 0} ⦃d : DoubleApi D⦄ ⦃m : MpfApi D F⦄ ⦃a : LitApi L⦄ (laws : LitLaws L)
    (oracles : Oracles W D L) (gmp : GmpApi) (α : Assignment) where
  -- For literals that obey their laws, and a formula F that is ready for `create_g_formula` and of
  -- which every variable is an input or an output and only once; on a new counter for F with one
  -- thread, the fixed number of samples and both counts made by Ganak; where Ganak prints the
  -- numbers of inputs with an output and of inputs that extend to a model of G; with a UniGen that
  -- always gives a sample, two if asked for more than one, and for G, if an input has two outputs,
  -- just samples of its models; with an ApproxMC whose counts are within a factor `k` of the numbers
  -- of models; if each logarithm of a number within `k` of the outputs at an input brings the sum
  -- nearer to the threshold; with fuel and rounds of 32 bits above the rank of the first sum:
  -- `count` returns or exits, and what it returns is |Y| times the number of inputs without an
  -- output, plus 0 if no input has two outputs, and else the threshold divided by the number of
  -- rounds and times the number of inputs with two outputs, where each round stands for a number
  -- within `k` of the outputs at some input, and the rounds are just as many as it takes for the
  -- finite ones among the logarithms to add up to more than the threshold.
  pub count-IsSkolemEstimate :
      (k : ℕ) (rank : F → ℕ) (fuel n : ℕ) (quotient : ℕ → ℕ → ℕ) (c : Counter D F L W)
      → IsReady c.p
      → IsClosed c.p
      → c.ignore_unsat ≡ false
      → c.exactcount_s0 ≡ true
      → c.exactcount_s2 ≡ true
      → ReportsInputs oracles gmp c α
      → ReportsModels oracles gmp c α
      → 0 < k
      → Approximates oracles k α
      → (0 < with_two α c.p → SamplesModels oracles c.p)
      → Draws oracles
      → DrawsTwo oracles
      → GainsOutputs α c.p k rank (set_constants c).thresh
      → Unsampled c
      → c.iteration ≡ 0
      → c.log_skolemcount ≡ m.of_double (d.dec 0 0)
      → c.okay ≡ true
      → c.numthreads ≤ 1
      → n < 2 ^ 32
      → rank (m.of_double (d.dec 0 0)) < n
      → rank (m.of_double (d.dec 0 0)) < fuel
      → Ensures
          (λ r. IsSkolemEstimate α c.p k (set_constants c).thresh r.0)
          (count oracles gmp fuel quotient c)
  unfolding count set_constants
  count-IsSkolemEstimate k rank fuel n quotient c ready closed all exact exact' r r' some_k near
        models draws two g (no_sample, no_clearance, static) start lg okay single fits few more =
      let c₀ = set_constants c in
      let Q = λ (r : F × Counter D F L W). IsSkolemEstimate α c.p k c₀.thresh r.0 in
      let z = with_two α c.p == 0 in
      let counted : Counter D F L W = record (inputs_counted oracles gmp c₀) {
        p = create_g_formula c.p;
        world =
            (oracles.run_ganak
              (cnf_text (create_g_formula c.p).n_g_vars (create_g_formula c.p).g_formula_clauses
                (create_g_formula c.p).forall_vars)
              (inputs_counted oracles gmp c₀).world).1;
      } in
      let (same_p, same_samples, same_clearance, same_static, okay', it, lg', th, nt) =
        marked-keeps z counted okay in
      Ensures-step Q (get_est0 oracles gmp c₀) _ _ (get_est0_exact oracles gmp c₀ α all exact r) (
        Ensures-step Q (get_g_count oracles gmp _) _ _
          (get_g_count_exact laws oracles gmp (inputs_counted oracles gmp c₀) α ready exact' r')
          (ends-Estimate laws oracles α c.p ready closed gmp
            (without_outputs α c.p * length c.p.exists_vars) (with_two α c.p) k rank fuel n quotient
            c₀.thresh (record (marked z counted) { s2size = pos (with_two α c.p) }) th some_k near
            models draws two g same_p
            (same_samples ∙ no_sample, same_clearance ∙ no_clearance, same_static ∙ static) refl
            okay' (it ∙ start) (lg' ∙ lg) (rw nt single) fits few more))
