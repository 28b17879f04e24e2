-- ===== src/Skolem/Loop.antt =====
-- What the counting loop (src/skolemfc.cpp) sums up, in terms of the formula that was read: the numbers
-- of outputs of F at sampled inputs.
use skolemfc.Base.{
  ℕ, zero, suc, ◌^◌, ◌<◌, ◌≡◌, refl, true, false, ◌&&◌, List, [], ◌∷◌, ◌++◌, arith, All, All-imp,
  Distinct, Bool-cases, inl, inr, and-eq-true,
}
use skolemfc.Base.Int.{ℤ}
use skolemfc.Lit.{LitApi, LitLaws}
use skolemfc.Cnf.{Assignment}
use skolemfc.Floats.{DoubleApi, MpfApi}
use skolemfc.Outcome.{ok, Yields-ok}
use skolemfc.Oracles.{Oracles, SolCount}
use skolemfc.Solver.{Solver, create_g_formula}
use skolemfc.Solver.Correct.{IsReady}
use mathlib.Core.List.{Perm}
use skolemfc.Counter.{Counter}
use skolemfc.Counter.Sample.{add_units, add_units_value}
use skolemfc.Counter.Count.{absolute_count_from_appmc, count_using_approxmc}
use skolemfc.Counter.Samples.{log_count, get_samples, sampler_settings}
use skolemfc.Counter.Rounds.{get_and_add_count_for_a_sample}
use skolemfc.Counter.Run.{count_loop}
use skolemfc.Counter.Loop.{Added, Added-cons, Continues}
use skolemfc.Counter.Returns.{Draws, InRange, round-InRange}
use skolemfc.Counter.Outputs.{variables}
use skolemfc.Skolem.{outputs}
use skolemfc.Skolem.Sample.{Names, along, Names-IsSample, follows-outputs}
use skolemfc.Skolem.Sampled.{follows-create_g_formula}
use skolemfc.Skolem.Rounds.{Sampled, CountedAt, Holds, round-Adds}
use skolemfc.Skolem.Promises.{Within, models, Approximates, SamplesModels, approxmc-Within}

-- Every variable is an input or an output, and only once.
pub record IsClosed {D L : Type 0} (p : Solver D L) : Type 0 where
  pub every : Perm (variables 0 p.nvars) (p.forall_vars ++ p.exists_vars)
  pub distinct : Distinct (p.forall_vars ++ p.exists_vars)
  pub small : All (λ x. x < 2 ^ 31) p.forall_vars

module _ {D L : Type 0} ⦃a : LitApi L⦄ (α : Assignment) (p : Solver D L) where
  -- A sample of an input at which F has an output.
  abbrev pub IsInput : List ℤ → Type 0
  IsInput sample =
      Names p.forall_vars sample × (0 < outputs p.exists_vars p.clauses (along sample α))

  -- The logarithm of a count that is within a factor of the number of outputs at some input.
  abbrev pub CountsOutputs : ⦃d : DoubleApi D⦄ → ℕ → D → Type 0
  CountsOutputs k y =
      (sample : List ℤ) × (s : SolCount) × IsInput sample
      × (y ≡ log_count s)
      × Within k (outputs p.exists_vars p.clauses (along sample α)) (absolute_count_from_appmc s)

  -- Adding the logarithm of a round's count to a sum that is not above `thresh` lowers `rank`.
  abbrev pub GainsOutputs :
      {F : Type 0} ⦃d : DoubleApi D⦄ ⦃m : MpfApi D F⦄ → ℕ → (rank : F → ℕ) → F → Type 0
  GainsOutputs {F} ⦃d⦄ ⦃m⦄ k rank thresh =
      (y : D) (x : F)
      → CountsOutputs k y
      → m.le x thresh ≡ true
      → (d.is_finite y ≡ true) × (rank (m.plus x (m.of_double y)) < rank x)

  -- What the loop has computed from `c` in terms of F: it has added logarithms of counts that are within
  -- the factor `k` of the numbers of outputs at some inputs, just until the sum was above the threshold.
  abbrev pub SumsOutputs :
      {F W : Type 0} ⦃d : DoubleApi D⦄ ⦃m : MpfApi D F⦄
      → Oracles W D L
      → ℕ
      → Counter D F L W
      → Counter D F L W
      → Type 0
  SumsOutputs ⦃m⦄ oracles k c c' =
      (logs : List D) × All (CountsOutputs k) logs
      × Added oracles logs c c'
      × Continues c.thresh c.log_skolemcount logs
      × (m.le c'.log_skolemcount c'.thresh && c'.okay ≡ false)

module _ {D F L W : Type 0} ⦃d : DoubleApi D⦄ ⦃m : MpfApi D F⦄ ⦃a : LitApi L⦄
    (oracles : Oracles W D L) where
  count_loop-round :
      (fuel : ℕ) (c c₁ c₂ : Counter D F L W)
      → m.le c.log_skolemcount c.thresh && c.okay ≡ true
      → get_and_add_count_for_a_sample oracles c ≡ ok c₁
      → count_loop oracles fuel c₁ ≡ ok c₂
      → count_loop oracles (suc fuel) c ≡ ok c₂
  unfolding count_loop
  count_loop-round fuel c c₁ c₂ e e₁ e₂ = rw (e, e₁) e₂

models-outputs :
    {D L : Type 0} ⦃a : LitApi L⦄ (laws : LitLaws L) (α : Assignment) (p : Solver D L)
    (closed : IsClosed p) (sample : List ℤ)
    → Names p.forall_vars sample
    → models p.nvars (add_units sample p.clauses) α
      ≡ outputs p.exists_vars p.clauses (along sample α)
models-outputs laws α p closed sample names =
    follows-outputs p sample (add_units sample p.clauses) α closed.every closed.distinct names (λ β.
      add_units_value laws β sample p.clauses
        (Names-IsSample p.forall_vars sample names closed.small))

module _ {D F L W : Type 0} ⦃d : DoubleApi D⦄ ⦃m : MpfApi D F⦄ ⦃a : LitApi L⦄ (laws : LitLaws L)
    (oracles : Oracles W D L) (α : Assignment) (p : Solver D L) (ready : IsReady p)
    (closed : IsClosed p) where
  open closed use {every}

  pub draw-IsInput : SamplesModels oracles p → Sampled oracles F (IsInput α p) (create_g_formula p)
  unfolding create_g_formula get_samples
  draw-IsInput promise wanted seed c e = rw e (
      All-imp _ _ _
        (λ s (names, (β, f, model)).
          (names, follows-create_g_formula laws p s α β ready every names f model))
        (promise (sampler_settings oracles seed c) wanted c.world))

  pub CountedAt-CountsOutputs :
      (k : ℕ) (y : D)
      → 0 < k
      → Approximates oracles k α
      → CountedAt oracles F (IsInput α p) (create_g_formula p) y
      → CountsOutputs α p k y
  unfolding create_g_formula
  CountedAt-CountsOutputs k y h near (c, e, sample, _, (names, some_output), log) =
      let same = models-outputs laws α p closed sample names in
      let s =
        (count_using_approxmc oracles p.nvars (add_units sample p.clauses) [] (d.dec 4657 3) e
          c).0 in
      (
        sample,
        s,
        (names, some_output),
        log,
        rw (← same) (
            approxmc-Within oracles k α p.nvars (add_units sample p.clauses) (d.dec 4657 3) e c h
              near (rw same some_output)),
      )

  -- For literals that obey their laws, and a formula F that is ready for `create_g_formula` and of which
  -- every variable is an input or an output and only once; with one thread, at a counter for F and G
  -- with its first two samples, each that of an input with an output; with a UniGen that always gives a
  -- sample, and for G just samples of its models; with an ApproxMC whose counts are within a factor `k`
  -- of the numbers of models; if each logarithm of a number within `k` of the outputs at an input brings
  -- the sum nearer to the threshold; with fuel and rounds of 32 bits above the rank of the sum: the
  -- counting loop returns, and it has added just logarithms of numbers that are within the factor `k`
  -- of the numbers of outputs of F at some inputs that have outputs, one in each round, until the sum was
  -- above the threshold or `okay` is false, and no round more: ahead of each the sum was not above it.
  pub count_loop-SumsOutputs :
      (k : ℕ) (rank : F → ℕ) (fuel n : ℕ) (c : Counter D F L W)
      → 0 < k
      → Approximates oracles k α
      → SamplesModels oracles p
      → Draws oracles
      → GainsOutputs α p k rank c.thresh
      → Holds oracles (IsInput α p) (create_g_formula p) c
      → InRange n c
      → rank c.log_skolemcount < n
      → rank c.log_skolemcount < fuel
      → (c' : Counter D F L W) × (count_loop oracles fuel c ≡ ok c')
        × SumsOutputs α p oracles k c c'
  unfolding count_loop
  count_loop-SumsOutputs k rank zero n c pos near models draws g h r few more = absurd (omega arith)
  count_loop-SumsOutputs k rank (suc fuel) zero c pos near models draws g h r few more =
      absurd (omega arith)
  count_loop-SumsOutputs k rank (suc fuel) (suc n) c pos near models draws g h r few more =
      elim (Bool-cases (m.le c.log_skolemcount c.thresh && c.okay)) [
        | inl e ↦
            let (c₁, e₁, _, _, r₁) = round-InRange oracles draws n c r in
            let (y, (i, l, t, o, s), at_sample, h₁) =
              Yields-ok _ _ c₁
                (round-Adds oracles (IsInput α p) (create_g_formula p) (draw-IsInput models) c h)
                e₁ in
            let outputs_y = CountedAt-CountsOutputs k y pos near at_sample in
            let (fin, lt) = g y c.log_skolemcount outputs_y (((and-eq-true _ _).0 e).0) in
            let (c₂, e₂, (ys, ls, ad, more_yet, stop)) =
              count_loop-SumsOutputs k rank fuel n c₁ pos near models draws (rw t g) h₁ r₁
                (rw (l, fin) (omega arith)) (rw (l, fin) (omega arith)) in
            (
              c₂,
              count_loop-round oracles fuel c c₁ c₂ e e₁ e₂,
              (
                y ∷ ys,
                (outputs_y, ls),
                Added-cons oracles y ys c c₁ c₂ (i, l, t, o, s) ad,
                (((and-eq-true _ _).0 e).0, rw (t, l) at more_yet),
                stop,
              ),
            )
        | inr e ↦ (c, rw e refl, ([], tt, (omega (arith, r), refl, refl, refl, refl), tt, e))
      ]
