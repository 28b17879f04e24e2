-- ===== src/Counter/Loop.antt =====
-- The counting loop: what it sums, when it stops, and that it stops.
use skolemfc.Base.{
  ℕ, zero, suc, ◌+◌, ◌/◌, ◌≡◌, refl, ap, ◌∙◌, true, false, ◌&&◌, List, [], ◌∷◌, ◌++◌, arith, length,
  u64, if◌then◌else◌, ltb, Bool-cases, inl, inr,
}
use skolemfc.Lit.{LitApi}
use skolemfc.Cnf.{Formula}
use skolemfc.Floats.{DoubleApi, MpfApi}
use skolemfc.Outcome.{ok, Yields, Yields-bind, Yields-if, Yields-imp, Yields-all, Yields-self}
use skolemfc.Oracles.{Oracles}
use skolemfc.Solver.{Solver}
use skolemfc.Counter.{Counter}
use skolemfc.Counter.Show.{show_count}
use skolemfc.Counter.Sample.{create_formula_from_sample}
use skolemfc.Counter.Count.{count_using_approxmc}
use skolemfc.Counter.Samples.{
  log_count, join_all, start_samplers, get_samples, get_samples_multithread,
}
use skolemfc.Counter.Rounds.{
  needs_samples, round_delta, add_count, refill, count_sample, get_and_add_count_for_a_sample,
}

module _ {D F : Type 0} ⦃d : DoubleApi D⦄ ⦃m : MpfApi D F⦄ where
  -- The sum that the loop keeps: counts that are not finite are left out.
  abbrev pub sum_logs : F → List D → F
  sum_logs x [] = x
  sum_logs x (y ∷ ys) = sum_logs (if d.is_finite y then m.plus x (m.of_double y) else x) ys

  -- Ahead of each count the sum from `x` is not above `thresh`.
  abbrev pub Continues : F → F → List D → Type 0
  Continues thresh x [] = Unit
  Continues thresh x (y ∷ ys) =
      (m.le x thresh ≡ true)
      × Continues thresh (if d.is_finite y then m.plus x (m.of_double y) else x) ys

module _ {D L W : Type 0} ⦃d : DoubleApi D⦄ ⦃a : LitApi L⦄ (oracles : Oracles W D L) where
  -- The logarithm that a round adds comes from its own formula.
  abbrev pub Drawn : {F : Type 0} ⦃m : MpfApi D F⦄ → Counter D F L W → D → Type 0
  Drawn c y =
      (f : Formula L) × (create_formula_from_sample c.samples_from_unisamp c.iteration c ≡ ok f)
      × (y
          ≡ log_count
              (count_using_approxmc oracles c.p.nvars f [] (d.dec 4657 3) (round_delta c) c).0)

  -- A logarithm of the count that a round makes for the formula `p` at the iteration `it`.
  abbrev pub Logged : (F : Type 0) ⦃m : MpfApi D F⦄ → Solver D L → ℕ → D → Type 0
  Logged F p it y = (c : Counter D F L W) × (c.p ≡ p) × (c.iteration ≡ it) × Drawn c y

  -- One logarithm for each round, from the iteration `it` on.
  abbrev pub AllLogged : (F : Type 0) ⦃m : MpfApi D F⦄ → Solver D L → ℕ → List D → Type 0
  AllLogged F p it [] = Unit
  AllLogged F p it (y ∷ ys) = Logged F p it y × AllLogged F p (u64 (it + 1)) ys

module _ {D F L W : Type 0} ⦃d : DoubleApi D⦄ ⦃m : MpfApi D F⦄ ⦃a : LitApi L⦄
    (oracles : Oracles W D L) where
  open m use {le}

  -- What a piece leaves alone.
  abbrev pub Frame : Counter D F L W → Counter D F L W → Type 0
  Frame c c' =
      (c'.iteration ≡ c.iteration)
      × (c'.log_skolemcount ≡ c.log_skolemcount)
      × (c'.thresh ≡ c.thresh)
      × (c'.okay ≡ c.okay)
      × (c'.s2size ≡ c.s2size)
      × (c'.p ≡ c.p)

  -- From `c` to `c'` just these counts were added, one in each round.
  abbrev pub Added : List D → Counter D F L W → Counter D F L W → Type 0
  Added logs c c' =
      (c'.iteration ≡ u64 (c.iteration + length logs))
      × (c'.log_skolemcount ≡ sum_logs c.log_skolemcount logs)
      × (c'.thresh ≡ c.thresh)
      × (c'.okay ≡ c.okay)
      × (c'.s2size ≡ c.s2size)

  pub Frame-Added :
      (ys : List D) (c c₁ c₂ c₃ : Counter D F L W)
      → Frame c c₁
      → Added ys c₁ c₂
      → Frame c₂ c₃
      → Added ys c c₃
  Frame-Added ys c c₁ c₂ c₃ (i, l, t, o, s, _) (i', l', t', o', s') (i'', l'', t'', o'', s'', _) = (
    i'' ∙ i' ∙ ap (λ x. u64 (x + length ys)) i,
    l'' ∙ l' ∙ ap (λ x. sum_logs x ys) l,
    t'' ∙ t' ∙ t,
    o'' ∙ o' ∙ o,
    s'' ∙ s' ∙ s,
  )

  pub Added-cons :
      (y : D) (ys : List D) (c c₁ c₂ : Counter D F L W)
      → Added (y ∷ []) c c₁
      → Added ys c₁ c₂
      → Added (y ∷ ys) c c₂
  Added-cons y ys c c₁ c₂ (i, l, t, o, s) (i', l', t', o', s') =
      (omega arith, l' ∙ ap (λ x. sum_logs x ys) l, t' ∙ t, o' ∙ o, s' ∙ s)

  start_samplers-Frame :
      (wanted i more : ℕ) (c : Counter D F L W) → Frame c (start_samplers oracles wanted i more c)
  unfolding start_samplers
  start_samplers-Frame wanted i zero c = (refl, refl, refl, refl, refl, refl)
  start_samplers-Frame wanted i (suc more) c =
      start_samplers-Frame wanted (i + 1) more
        (get_samples oracles wanted i (record c { threads = c.threads ++ (true ∷ []) }))

  samples_multithread-Frame :
      (wanted : ℕ) (c : Counter D F L W)
      → Yields (Frame c) (get_samples_multithread oracles wanted c)
  unfolding get_samples_multithread
  samples_multithread-Frame wanted c =
      let c' = start_samplers oracles (wanted / c.numthreads) 0 c.numthreads c in
      Yields-bind (λ _. Unit {0}) (Frame c) (join_all c'.threads) _
        (Yields-all _ (join_all c'.threads) (λ _. tt))
        (λ joined _. start_samplers-Frame (wanted / c.numthreads) 0 c.numthreads c)

  pub refill-Frame : (c : Counter D F L W) → Yields (Frame c) (refill oracles c)
  unfolding refill
  refill-Frame c =
      Yields-if (Frame c) (ltb 1 c.numthreads) _ _ (λ _. samples_multithread-Frame _ c)
        (λ _. (refl, refl, refl, refl, refl, refl))

  show_count-Frame : (c : Counter D F L W) → Frame c (show_count c).1
  unfolding show_count
  show_count-Frame c = ground arith

  approxmc-Frame :
      (nvars : ℕ) (f : Formula L) (vars : List ℕ) (e e' : D) (c : Counter D F L W)
      → Frame c (count_using_approxmc oracles nvars f vars e e' c).1
  unfolding count_using_approxmc
  approxmc-Frame nvars f vars e e' c = ground arith

  add_count-Added :
      (y : D) (c : Counter D F L W)
      → Added (y ∷ []) c (add_count y (record c { iteration = u64 (c.iteration + 1) }))
  add_count-Added y c = elim (Bool-cases (d.is_finite y)) [
    | inl e ↦ rw e (refl, refl, refl, refl, refl)
    | inr e ↦ rw e (refl, refl, refl, refl, refl)
  ]

  -- What a round leaves alone behind its refill.
  abbrev pub SharesSamples : Counter D F L W → Counter D F L W → Type 0
  SharesSamples c c' = (c'.p ≡ c.p) × (c'.samples_from_unisamp ≡ c.samples_from_unisamp)

  counted-SharesSamples :
      (f : Formula L) (e : D) (c : Counter D F L W)
      → let (count, c') = count_using_approxmc oracles c.p.nvars f [] (d.dec 4657 3) e c in
        let next = record c' { iteration = u64 (c'.iteration + 1) } in
        SharesSamples c (show_count (add_count (log_count count) next)).1
  unfolding count_using_approxmc show_count
  counted-SharesSamples f e c = ground arith

  pub count_sample-Added :
      (c : Counter D F L W)
      → Yields
          (λ c'. (y : D) × Added (y ∷ []) c c' × Drawn oracles c y × SharesSamples c c')
          (count_sample oracles c)
  unfolding count_sample
  count_sample-Added c =
      let formula = create_formula_from_sample c.samples_from_unisamp c.iteration c in
      Yields-bind (λ f. formula ≡ ok f)
        (λ c'. (y : D) × Added (y ∷ []) c c' × Drawn oracles c y × SharesSamples c c') formula _
        (Yields-self formula)
        (λ f built.
          let run = count_using_approxmc oracles c.p.nvars f [] (d.dec 4657 3) (round_delta c) c in
          let y = log_count run.0 in
          let next = record run.1 { iteration = u64 (run.1.iteration + 1) } in
          (
            y,
            Frame-Added (y ∷ []) c run.1 (add_count y next) (show_count (add_count y next)).1
                (approxmc-Frame c.p.nvars f [] (d.dec 4657 3) (round_delta c) c)
                (add_count-Added y run.1) (show_count-Frame (add_count y next)),
            (f, built, refl),
            counted-SharesSamples f (round_delta c) c,
          ))

  pub round-Added :
      (c : Counter D F L W)
      → Yields
          (λ c'. (y : D) × Added (y ∷ []) c c' × Logged oracles F c.p c.iteration y × (c'.p ≡ c.p))
          (get_and_add_count_for_a_sample oracles c)
  unfolding get_and_add_count_for_a_sample
  round-Added c =
      let ready = if needs_samples c then refill oracles c else ok c in
      let Round = λ (c' : Counter D F L W).
        (y : D) × Added (y ∷ []) c c' × Logged oracles F c.p c.iteration y × (c'.p ≡ c.p) in
      Yields-bind (Frame c) Round ready _
        (Yields-if (Frame c) (needs_samples c) _ _ (λ _. refill-Frame c)
          (λ _. (refl, refl, refl, refl, refl, refl)))
        λ c₁ fr.
          Yields-imp
            (λ c'. (y : D) × Added (y ∷ []) c₁ c' × Drawn oracles c₁ y × SharesSamples c₁ c') Round
            (count_sample oracles c₁) (count_sample-Added c₁)
            (λ c₂ (y, ad, drawn, (same, _)). (
              y,
              Frame-Added (y ∷ []) c c₁ c₂ c₂ fr ad (refl, refl, refl, refl, refl, refl),
              (c₁, fr.5, fr.0, drawn),
              same ∙ fr.5,
            ))

  -- What the loop computes from `c`: the sum of the counts of its rounds, until it is above the
  -- threshold.
  abbrev pub Sums : Counter D F L W → Counter D F L W → Type 0
  Sums c c' =
      (logs : List D) × AllLogged oracles F c.p c.iteration logs
      × Added logs c c'
      × (le c'.log_skolemcount c'.thresh && c'.okay ≡ false)
