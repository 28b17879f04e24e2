-- ===== src/Skolem/Ending.antt =====
-- `count` (src/skolemfc.cpp) behind its two counts: the samples, the loop and the estimate.
use skolemfc.Base.{
  ℕ, ◌^◌, ◌<◌, ◌≤◌, ◌≡◌, refl, ap, ◌∙◌, Bool, true, false, not, ◌&&◌, ◌||◌, List, [], arith, length,
  u64, All, if◌then◌else◌, ltb, ◌==◌, Bool-cases, inl, inr,
}
use skolemfc.Base.Int.{ℤ, pos}
use skolemfc.Lit.{LitApi, LitLaws}
use skolemfc.Cnf.{Assignment}
use skolemfc.Floats.{DoubleApi, MpfApi}
use skolemfc.Outcome.{Ensures-step, Outcome, ok, exited, Ensures, Ensures-if, ◌>>=◌}
use skolemfc.Oracles.{Oracles, GmpApi}
use skolemfc.Solver.{Solver, create_g_formula}
use skolemfc.Solver.Correct.{IsReady}
use skolemfc.Counter.{Counter}
use skolemfc.Counter.Samples.{get_sample_num_est, get_samples}
use skolemfc.Counter.Run.{get_est1, check_if_approxmc_error_exceeds, count_loop, count_samples}
use skolemfc.Counter.Loop.{sum_logs, Continues}
use skolemfc.Counter.Returns.{Draws}
use skolemfc.Counter.Estimate.{stop_reason}
use skolemfc.Counter.Returns.{DrawsTwo, Unsampled}
use skolemfc.Skolem.Promises.{Approximates, SamplesModels}
use skolemfc.Skolem.Rounds.{get_samples-Holds}
use skolemfc.Skolem.Loop.{
  IsClosed, IsInput, CountsOutputs, GainsOutputs, SumsOutputs, count_loop-SumsOutputs, draw-IsInput,
}
use skolemfc.Skolem.Specification.{IsEstimateOf}

second_branch :
    {A : Type 0} (b b' : Bool) (x y z : A)
    → b ≡ false
    → b' ≡ true
    → (if b then x else if b' then y else z) ≡ y
second_branch b b' x y z e e' = rw (e, e') refl

last_branch :
    {A : Type 0} (b b' : Bool) (x y z : A)
    → b ≡ false
    → b' ≡ false
    → (if b then x else if b' then y else z) ≡ z
last_branch b b' x y z e e' = rw (e, e') refl

-- Where the loop has stopped for a sum, with `okay` as the size of G has set it.
stopped_above :
    {F : Type 0} (le : F → F → Bool) (z okay : Bool) {x x' t t' : F}
    → x' ≡ x
    → t' ≡ t
    → okay ≡ not z
    → (le x' t' && okay) ≡ false
    → (z || not (le x t)) ≡ true
stopped_above le z okay {x} {x'} {t} {t'} e f o stop =
    rw (← e, ← f) (stop_reason okay z (le x' t') o stop)

module _ {D F L W : Type 0} ⦃d : DoubleApi D⦄ ⦃m : MpfApi D F⦄ ⦃a : LitApi L⦄ (laws : LitLaws L)
    (oracles : Oracles W D L) (α : Assignment) (p : Solver D L) (ready : IsReady p)
    (closed : IsClosed p) where
  -- The loop, from a counter without samples.
  count_samples-SumsOutputs :
      (k : ℕ) (rank : F → ℕ) (fuel n : ℕ) (quotient : ℕ → ℕ → ℕ) (c : Counter D F L W)
      → 0 < k
      → Approximates oracles k α
      → SamplesModels oracles p
      → Draws oracles
      → DrawsTwo oracles
      → GainsOutputs α p k rank c.thresh
      → c.p ≡ create_g_formula p
      → Unsampled c
      → 1 < c.sample_num_est
      → c.okay ≡ true
      → c.iteration ≡ 0
      → c.numthreads ≤ 1
      → n < 2 ^ 32
      → rank c.log_skolemcount < n
      → rank c.log_skolemcount < fuel
      → (c' : Counter D F L W) × (count_samples oracles fuel quotient c ≡ ok c')
        × SumsOutputs α p oracles k c c'
  unfolding count_samples get_samples
  count_samples-SumsOutputs k rank fuel n quotient c some_k near models draws two g e
        (no_sample, no_clearance, static) many okay start single fits few more =
      let c₁ = get_samples oracles c.sample_num_est 1 c in
      let size : length c₁.samples_from_unisamp < 2 ^ 63 = rw no_sample (draws _ _ _ _ _ _).1 in
      let pair : 1 < length c₁.samples_from_unisamp = rw no_sample (two _ _ _ _ _ _ many) in
      let one : ltb 1 c.numthreads ≡ false = ground arith in
      let holds =
        get_samples-Holds oracles (IsInput α p) (create_g_formula p)
          (draw-IsInput laws oracles α p ready closed models) c.sample_num_est 1 c
          (e, rw no_sample tt) in
      let (c₂, run, sums) =
        count_loop-SumsOutputs laws oracles α p ready closed k rank fuel n c₁ some_k near models
          draws g holds (omega arith, omega arith, omega arith, omega arith, omega arith) few
          more in
      (
        c₂,
        second_branch (ltb 1 c.numthreads) c.okay _ (count_loop oracles fuel c₁) _ one okay ∙ run,
        sums,
      )

  count_samples-stopped :
      (fuel : ℕ) (quotient : ℕ → ℕ → ℕ) (c : Counter D F L W)
      → c.numthreads ≤ 1
      → c.okay ≡ false
      → count_samples oracles fuel quotient c ≡ ok c
  unfolding count_samples
  count_samples-stopped fuel quotient c single stopped =
      let one : ltb 1 c.numthreads ≡ false = ground arith in
      last_branch (ltb 1 c.numthreads) c.okay _ _ (ok c) one stopped

  module _ (gmp : GmpApi) (e₀ n₀ : ℕ) where
    -- The end of `count`, behind the loop.
    abbrev pub finish : ℤ → Counter D F L W → Outcome (F × Counter D F L W)
    finish est0 c =
        let total = m.plus (m.of_mpz est0) (get_est1 c.s2size c) in
        if check_if_approxmc_error_exceeds total c.s2size c.max_error_logcounter c
        then exited
        else ok (total, c)

    finish-Estimate :
        (k : ℕ) (thresh : F) (logs : List D) (c : Counter D F L W)
        → c.s2size ≡ pos n₀
        → c.okay ≡ not (n₀ == 0)
        → c.thresh ≡ thresh
        → c.iteration ≡ u64 (length logs)
        → All (CountsOutputs α p k) logs
        → Continues thresh (m.of_double (d.dec 0 0)) logs
        → (n₀ == 0 || not (m.le (sum_logs (m.of_double (d.dec 0 0)) logs) thresh)) ≡ true
        → Ensures (λ r. IsEstimateOf α p k e₀ n₀ thresh r.0) (finish (pos e₀) c)
    unfolding get_est1
    finish-Estimate k thresh logs c size okay same rounds counts no_more enough =
        let est0 = pos e₀ in
        let total = m.plus (m.of_mpz est0) (get_est1 c.s2size c) in
        Ensures-if (λ (r : F × Counter D F L W). IsEstimateOf α p k e₀ n₀ thresh r.0)
          (check_if_approxmc_error_exceeds total c.s2size c.max_error_logcounter c) exited
          (ok (total, c)) (λ _. tt)
          (λ _. record {
            logs = logs;
            counts = counts;
            no_more = no_more;
            enough = enough;
            formula = elim (Bool-cases (n₀ == 0)) [
              | inl e ↦ rw (size, okay, e) refl
              | inr e ↦ rw (size, okay, e, same, rounds) refl
            ];
          })

    abbrev pub ends : ℕ → (ℕ → ℕ → ℕ) → ℤ → Counter D F L W → Outcome (F × Counter D F L W)
    ends fuel quotient est0 c = (if c.okay then get_sample_num_est oracles c else ok c) >>= λ c'.
        count_samples oracles fuel quotient c' >>= λ c''. finish est0 c''

    -- From the counts on: the loop is run if an input has two outputs.
    pub ends-Estimate :
        (k : ℕ) (rank : F → ℕ) (fuel n : ℕ) (quotient : ℕ → ℕ → ℕ) (thresh : F)
        (c : Counter D F L W)
        → c.thresh ≡ thresh
        → 0 < k
        → Approximates oracles k α
        → (0 < n₀ → SamplesModels oracles p)
        → Draws oracles
        → DrawsTwo oracles
        → GainsOutputs α p k rank thresh
        → c.p ≡ create_g_formula p
        → Unsampled c
        → c.s2size ≡ pos n₀
        → c.okay ≡ not (n₀ == 0)
        → c.iteration ≡ 0
        → c.log_skolemcount ≡ m.of_double (d.dec 0 0)
        → c.numthreads ≤ 1
        → n < 2 ^ 32
        → rank (m.of_double (d.dec 0 0)) < n
        → rank (m.of_double (d.dec 0 0)) < fuel
        → Ensures (λ r. IsEstimateOf α p k e₀ n₀ thresh r.0) (ends fuel quotient (pos e₀) c)
    unfolding get_sample_num_est
    ends-Estimate k rank fuel n quotient thresh c same some_k near models draws two g e
          (no_sample, no_clearance, static) size okay start lg single fits few more =
        let Q = λ (r : F × Counter D F L W). IsEstimateOf α p k e₀ n₀ thresh r.0 in
        elim (Bool-cases (n₀ == 0)) [
          | inl z ↦
              let stopped : c.okay ≡ false = okay ∙ ap not z in
              Ensures-step Q (if c.okay then get_sample_num_est oracles c else ok c) _ c
                (rw stopped refl)
                (Ensures-step Q (count_samples oracles fuel quotient c) _ c
                  (count_samples-stopped fuel quotient c single stopped)
                  (finish-Estimate k thresh [] c size okay same (start ∙ omega arith) tt tt
                    (rw z refl)))
          | inr z ↦
              let going : c.okay ≡ true = okay ∙ ap not z in
              let some_two : 0 < n₀ = ground (arith, z) in
              let c₄ = record c { sample_num_est = 500 } in
              let (c₅, run, (logs, counts, (i, l, t, o, s), no_more, stop)) =
                count_samples-SumsOutputs k rank fuel n quotient c₄ some_k near (models some_two)
                  draws two (rw same g) e (no_sample, no_clearance, static) (omega arith) going
                  start single fits (rw lg few) (rw lg more) in
              Ensures-step Q (if c.okay then get_sample_num_est oracles c else ok c) _ c₄
                (rw (going, static) refl)
                (Ensures-step Q (count_samples oracles fuel quotient c₄) _ c₅ run (
                  finish-Estimate k thresh logs c₅ (s ∙ size) (o ∙ okay) (t ∙ same)
                    (i ∙ rw start (omega arith)) counts (rw (lg, same) at no_more)
                    (stopped_above m.le (n₀ == 0) c₅.okay (l ∙ ap (λ x. sum_logs x logs) lg)
                      (t ∙ same) (o ∙ okay) stop)))
        ]
