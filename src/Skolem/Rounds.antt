-- ===== src/Skolem/Rounds.antt =====
-- The counting loop with what it knows of its samples (src/skolemfc.cpp): what holds of each sample that
-- UniGen gives holds of the sample of each round.
use skolemfc.Base.{
  ℕ, zero, suc, ◌+◌, ◌/◌, ◌^◌, ◌<◌, ◌≡◌, refl, ◌∙◌, true, false, some, ◌&&◌, List, [], ◌∷◌, ◌++◌,
  arith, u32, All, All-append, All-get_elem?, get_elem?, if◌then◌else◌, ltb,
}
use skolemfc.Base.Int.{ℤ}
use skolemfc.Lit.{LitApi}
use skolemfc.Floats.{DoubleApi, MpfApi}
use skolemfc.Outcome.{
  ok, Yields, Yields-bind, Yields-if, Yields-imp, Yields-all, Yields-elim, Yields-ok, Yields-both,
  out_of_range,
}
use skolemfc.Oracles.{Oracles}
use skolemfc.Solver.{Solver}
use skolemfc.Counter.{Counter}
use skolemfc.Counter.Sample.{at, add_units, create_formula_from_sample}
use skolemfc.Counter.Count.{count_using_approxmc}
use skolemfc.Counter.Samples.{
  log_count, join_all, get_samples, start_samplers, get_samples_multithread,
}
use skolemfc.Counter.Rounds.{
  needs_samples, new_total, round_delta, refill, count_sample, get_and_add_count_for_a_sample,
}
use skolemfc.Counter.Run.{count_loop}
use skolemfc.Counter.Loop.{
  Frame, Frame-Added, refill-Frame, Added, Added-cons, Drawn, SharesSamples, count_sample-Added,
}

at-Yields : {A : Type 0} (xs : List A) (i : ℕ) → Yields (λ x. get_elem? xs i ≡ some x) (at xs i)
unfolding at
at-Yields xs i = Yields-elim _ (get_elem? xs i) out_of_range ok tt (λ x e. e)

-- What is built is built from one of the samples.
create_formula-sample :
    {D F L W : Type 0} ⦃a : LitApi L⦄ (P : List ℤ → Type 0) (samples : List (List ℤ)) (i : ℕ)
    (c : Counter D F L W)
    → All P samples
    → Yields
        (λ f. (sample : List ℤ) × P sample × (f ≡ add_units sample c.p.clauses))
        (create_formula_from_sample samples i c)
unfolding create_formula_from_sample
create_formula-sample P samples i c h =
    Yields-bind _ _ (at samples _) _ (at-Yields samples _)
      (λ sample e. (sample, All-get_elem? P samples _ sample h e, refl))

module _ {D L W : Type 0} ⦃d : DoubleApi D⦄ ⦃a : LitApi L⦄ (oracles : Oracles W D L) where
  -- What a call of `get_samples` adds to the vector.
  abbrev pub draw : {F : Type 0} ⦃m : MpfApi D F⦄ → ℕ → ℕ → Counter D F L W → List (List ℤ)
  draw wanted seed c =
      (get_samples oracles wanted seed
        (record c { samples_from_unisamp = [] })).samples_from_unisamp

  module _ (F : Type 0) ⦃m : MpfApi D F⦄ (P : List ℤ → Type 0) (p : Solver D L) where
    -- `P` holds of what is drawn for the formula `p`.
    abbrev pub Sampled : Type 0
    Sampled = (wanted seed : ℕ) (c : Counter D F L W) → c.p ≡ p → All P (draw wanted seed c)

    -- The count of a round, under a sample of which `P` holds.
    abbrev pub CountedAt : D → Type 0
    CountedAt y =
        (c : Counter D F L W) × (e : D) × (sample : List ℤ) × (c.p ≡ p)
        × P sample
        × (y
            ≡ log_count
                (count_using_approxmc oracles p.nvars (add_units sample p.clauses) [] (d.dec 4657 3)
                  e c).0)

module _ {D F L W : Type 0} ⦃d : DoubleApi D⦄ ⦃m : MpfApi D F⦄ ⦃a : LitApi L⦄
    (oracles : Oracles W D L) where
  module _ (P : List ℤ → Type 0) (p : Solver D L) where
    -- The formula is `p`, and `P` holds of the samples.
    abbrev pub Holds : Counter D F L W → Type 0
    Holds c = (c.p ≡ p) × All P c.samples_from_unisamp

    module _ (draws : Sampled oracles F P p) where
      pub get_samples-Holds :
          (wanted seed : ℕ) (c : Counter D F L W)
          → Holds c
          → Holds (get_samples oracles wanted seed c)
      unfolding get_samples
      get_samples-Holds wanted seed c (e, h) =
          (e, All-append P c.samples_from_unisamp _ h (draws wanted seed c e))

      start_samplers-Holds :
          (wanted i more : ℕ) (c : Counter D F L W)
          → Holds c
          → Holds (start_samplers oracles wanted i more c)
      unfolding start_samplers
      start_samplers-Holds wanted i zero c h = h
      start_samplers-Holds wanted i (suc more) c h =
          let started = record c { threads = c.threads ++ (true ∷ []) } in
          start_samplers-Holds wanted (i + 1) more (get_samples oracles wanted i started)
            (get_samples-Holds wanted i started h)

      samples_multithread-Holds :
          (wanted : ℕ) (c : Counter D F L W)
          → Holds c
          → Yields Holds (get_samples_multithread oracles wanted c)
      unfolding get_samples_multithread
      samples_multithread-Holds wanted c h =
          let c' = start_samplers oracles (wanted / c.numthreads) 0 c.numthreads c in
          Yields-bind (λ _. Unit {0}) Holds (join_all c'.threads) _
            (Yields-all _ (join_all c'.threads) (λ _. tt))
            (λ joined _. start_samplers-Holds (wanted / c.numthreads) 0 c.numthreads c h)

      refill-Holds : (c : Counter D F L W) → Holds c → Yields Holds (refill oracles c)
      unfolding refill
      refill-Holds c (e, h) =
          Yields-if Holds (ltb 1 c.numthreads) _ _ (λ _. samples_multithread-Holds _ c (e, h))
            (λ _.
              let total = new_total c in
              let cleared = record c {
                sample_num_est = total;
                samples_from_unisamp = [];
                sample_clearance_iteration = u32 c.iteration;
              } in
              get_samples-Holds (if ltb 1000 total then 1000 else total) c.seed cleared (e, tt))

    Drawn-CountedAt :
        (c : Counter D F L W) (y : D) → Holds c → Drawn oracles c y → CountedAt oracles F P p y
    Drawn-CountedAt c y (e, h) (f, built, log) =
        let (sample, k, same) =
          Yields-ok _ _ f (create_formula-sample P c.samples_from_unisamp c.iteration c h) built in
        (c, round_delta c, sample, e, k, log ∙ rw (same, e) refl)

    module _ (draws : Sampled oracles F P p) where
      refilled :
          (c : Counter D F L W)
          → Holds c
          → Yields
              (λ c'. Frame oracles c c' × Holds c')
              (if needs_samples c then refill oracles c else ok c)
      refilled c h =
          Yields-if (λ c'. Frame oracles c c' × Holds c') (needs_samples c) _ _
            (λ _.
              Yields-imp (λ c'. (refill oracles c ≡ ok c') × Frame oracles c c')
                (λ c'. Frame oracles c c' × Holds c') (refill oracles c)
                (Yields-both (Frame oracles c) (refill oracles c) (refill-Frame oracles c))
                (λ c' (e, f). (f, Yields-ok Holds _ c' (refill-Holds draws c h) e)))
            (λ _. ((refl, refl, refl, refl, refl, refl), h))

      -- A round adds one count, under a sample of which `P` holds.
      abbrev pub Adds : Counter D F L W → Counter D F L W → Type 0
      Adds c c' = (y : D) × Added oracles (y ∷ []) c c' × CountedAt oracles F P p y × Holds c'

      pub round-Adds :
          (c : Counter D F L W)
          → Holds c
          → Yields (Adds c) (get_and_add_count_for_a_sample oracles c)
      unfolding get_and_add_count_for_a_sample
      round-Adds c h =
          Yields-bind (λ c'. Frame oracles c c' × Holds c') (Adds c) _ _ (refilled c h)
            λ c₁ (fr, (e₁, h₁)).
              Yields-imp
                (λ c'.
                  (y : D) × Added oracles (y ∷ []) c₁ c'
                  × Drawn oracles c₁ y
                  × SharesSamples oracles c₁ c')
                (Adds c) (count_sample oracles c₁) (count_sample-Added oracles c₁)
                (λ c₂ (y, ad, drawn, (same_p, same)). (
                  y,
                  Frame-Added oracles (y ∷ []) c c₁ c₂ c₂ fr ad
                      (refl, refl, refl, refl, refl, refl),
                  Drawn-CountedAt c₁ y (e₁, h₁) drawn,
                  (same_p ∙ e₁, rw same h₁),
                ))

      -- From `c`, the loop has added counts under samples of which `P` holds, until it stopped.
      abbrev pub SumsAt : Counter D F L W → Counter D F L W → Type 0
      SumsAt c c' =
          (logs : List D) × All (CountedAt oracles F P p) logs
          × Added oracles logs c c'
          × (m.le c'.log_skolemcount c'.thresh && c'.okay ≡ false)

      pub count_loop-SumsAt :
          (fuel : ℕ) (c : Counter D F L W)
          → c.iteration < 2 ^ 64
          → Holds c
          → Yields (SumsAt c) (count_loop oracles fuel c)
      unfolding count_loop
      count_loop-SumsAt zero c small h = tt
      count_loop-SumsAt (suc fuel) c small h =
          Yields-if (SumsAt c) (m.le c.log_skolemcount c.thresh && c.okay) _ _
            (λ _.
              Yields-bind (Adds c) (SumsAt c) (get_and_add_count_for_a_sample oracles c) _
                (round-Adds c h)
                λ c₁ (y, ad, at_sample, h₁).
                  Yields-imp (SumsAt c₁) (SumsAt c) (count_loop oracles fuel c₁)
                    (count_loop-SumsAt fuel c₁ (ground (arith, ad.0)) h₁)
                    (λ c₂ (ys, ls, ad', e).
                      (y ∷ ys, (at_sample, ls), Added-cons oracles y ys c c₁ c₂ ad ad', e)))
            (λ e. ([], tt, (omega arith, refl, refl, refl, refl), e))
