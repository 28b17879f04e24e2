-- ===== src/Configure.antt =====
-- `main` (src/main.cpp): the order in which it hands its options to the counter, behind the parse.
use skolemfc.Base.{
  ◌∙◌, ◌⊎◌, inl, inr, Bool-cases, true, false, refl, ℕ, ◌≡◌, Bool, not, if◌then◌else◌, arith,
}
use skolemfc.Outcome.{Outcome, ok, aborted}
use skolemfc.Floats.{DoubleApi, MpfApi}
use skolemfc.Counter.{
  Counter, left_epsilon, left_delta, set_noguarantee_mode, set_oracles, set_g_counter_parameters,
  set_num_threads, set_parameters, set_ignore_unsat, set_static_samp, set_dklr_parameters,
  split_budget,
}

-- The options that `main` hands on. The three for the oracles are uint32_t there; they stand as the
-- Booleans that they convert to in the call.
pub record Options (D : Type 0) : Type 0 where
  pub noguarantee : Bool
  pub use_unisamp_sampling : Bool
  pub exactcount_f : Bool
  pub exactcount_g : Bool
  pub g_counter_epsilon : D
  pub g_counter_delta : D
  pub nthreads : ℕ
  pub count_unsat_inputs : Bool
  pub static_samp_est : Bool
  pub epsilon_weightage_fc : D
  pub delta_weightage_fc : D
  pub max_error_logcounter : D

irreflexive :
    {D : Type 0} ⦃d : DoubleApi D⦄ (x : D)
    → ((x y : D) → d.less x y ≡ true → d.less y x ≡ false)
    → d.less x x ≡ false
irreflexive ⦃d⦄ x asymmetric = elim (Bool-cases (d.less x x)) [
  | inl e ↦ asymmetric x x e
  | inr e ↦ e
]

-- The smaller of two numbers is one of them, and neither is below it.
least-cases :
    {D : Type 0} ⦃d : DoubleApi D⦄ (x y : D)
    → d.least x y ≡ (if d.less y x then y else x)
    → ((x y : D) → d.less x y ≡ true → d.less y x ≡ false)
    → ((d.least x y ≡ x) ⊎ (d.least x y ≡ y))
      × (d.less x (d.least x y) ≡ false)
      × (d.less y (d.least x y) ≡ false)
least-cases ⦃d⦄ x y min asymmetric = elim (Bool-cases (d.less y x)) [
  | inl e ↦
      let at_y : d.least x y ≡ y = min ∙ rw e refl in
      (inr at_y, rw at_y (asymmetric y x e), rw at_y (irreflexive y asymmetric))
  | inr e ↦
      let at_x : d.least x y ≡ x = min ∙ rw e refl in
      (inl at_x, rw at_x (irreflexive x asymmetric), rw at_x e)
]

module _ {D F L W : Type 0} ⦃d : DoubleApi D⦄ ⦃m : MpfApi D F⦄ where
  -- The calls ahead of `set_dklr_parameters`. `check_ready` only prints, and is left out.
  unfoldable pub prepare : Options D → Counter D F L W → Counter D F L W
  unfolding set_noguarantee_mode set_oracles set_g_counter_parameters set_num_threads set_parameters
      set_ignore_unsat set_static_samp
  prepare o c₀ =
      let c₁ = set_noguarantee_mode o.noguarantee c₀ in
      let c₂ = set_oracles o.use_unisamp_sampling o.exactcount_f o.exactcount_g c₁ in
      let c₃ = set_g_counter_parameters o.g_counter_epsilon o.g_counter_delta c₂ in
      let c₄ = set_parameters (set_num_threads o.nthreads c₃) in
      set_static_samp o.static_samp_est (set_ignore_unsat (not o.count_unsat_inputs) c₄)

  -- The calls of the setters, in their order; the last one may abort.
  unfoldable pub configure : Options D → Counter D F L W → Outcome (Counter D F L W)
  unfolding prepare set_dklr_parameters
  configure o c =
      set_dklr_parameters o.epsilon_weightage_fc o.delta_weightage_fc o.max_error_logcounter
        (prepare o c)

  -- The counter behind the calls, if the last one does not abort.
  unfoldable pub configured : Options D → Counter D F L W → Counter D F L W
  unfolding prepare split_budget
  configured o c =
      split_budget o.epsilon_weightage_fc o.delta_weightage_fc o.max_error_logcounter (prepare o c)

  pub configure-ok :
      (o : Options D) (c : Counter D F L W)
      → d.less (d.dec 0 0) (prepare o c).epsilon ≡ true
      → configure o c ≡ ok (configured o c)
  unfolding configure configured
  configure-ok o c e = rw e refl

  -- The error that the assertion is about.
  pub prepare-epsilon :
      (o : Options D) (c : Counter D F L W) → (prepare o c).epsilon ≡ (configured o c).p.epsilon
  unfolding prepare configured
  prepare-epsilon o c = ground arith

  pub configure-aborted :
      (o : Options D) (c : Counter D F L W)
      → d.less (d.dec 0 0) (prepare o c).epsilon ≡ false
      → configure o c ≡ aborted
  unfolding configure
  configure-aborted o c e = rw e refl

  configured-fields :
      (o : Options D) (c : Counter D F L W)
      → let run = configured o c in
        (run.epsilon
          ≡ (if o.exactcount_g then c.p.epsilon else left_epsilon c.p.epsilon o.g_counter_epsilon))
        × (run.delta
            ≡ (if o.exactcount_g then c.p.delta else left_delta c.p.delta o.g_counter_delta))
        × (run.epsilon_gc ≡ (if o.noguarantee then d.dec 48 1 else o.g_counter_epsilon))
        × (run.delta_gc ≡ (if o.noguarantee then d.dec 8 1 else o.g_counter_delta))
        × (run.ignore_unsat ≡ not o.count_unsat_inputs)
        × (run.exactcount_s0 ≡ o.exactcount_f)
        × (run.exactcount_s2 ≡ o.exactcount_g)
        × (run.use_unisamp ≡ o.use_unisamp_sampling)
        × (run.static_samp ≡ o.static_samp_est)
        × (run.numthreads ≡ o.nthreads)
        × (run.max_error_logcounter ≡ o.max_error_logcounter)
  unfolding configured
  configured-fields o c = ground arith

  configure-cases :
      (o : Options D) (c : Counter D F L W)
      → configure o c
        ≡ (if d.less (d.dec 0 0) (configured o c).epsilon then ok (configured o c) else aborted)
  unfolding configure configured
  configure-cases o c = refl

  -- With a `std::min` that is the second number if that is below the first, and else the first, and a
  -- `<` that does not hold both ways: the calls of `main` end with a counter `run`, or with a failed
  -- assertion if the error of `run` is not above 0. Where G is counted exactly, its error and
  -- confidence are those of the solver. Otherwise its error is one of (1 + ε) / (1 + e) - 1 and
  -- ε + e ε - e, for the error `e` of the count of G, and neither of them is below it, and its
  -- confidence is what the count of G leaves of it. The approximate count of G has the error and the
  -- confidence asked for, or 4.8 and 0.8 without a guarantee; and no later call undoes an option.
  pub configure_lem :
      (o : Options D) (c : Counter D F L W)
      → ((x y : D) → d.least x y ≡ (if d.less y x then y else x))
      → ((x y : D) → d.less x y ≡ true → d.less y x ≡ false)
      → let eps = c.p.epsilon in
        let e = o.g_counter_epsilon in
        let one = d.dec 1 0 in
        let ratio = d.sub (d.div (d.add (d.dec 10 1) eps) (d.add one e)) one in
        let rest = d.sub (d.add eps (d.mul e eps)) e in
        (run : Counter D F L W) × (configure o c
          ≡ (if d.less (d.dec 0 0) run.epsilon then ok run else aborted))
        × (o.exactcount_g ≡ true → (run.epsilon ≡ eps) × (run.delta ≡ c.p.delta))
        × (o.exactcount_g ≡ false
            → ((run.epsilon ≡ ratio) ⊎ (run.epsilon ≡ rest))
              × (d.less ratio run.epsilon ≡ false)
              × (d.less rest run.epsilon ≡ false)
              × (run.delta
                  ≡ d.div (d.sub c.p.delta o.g_counter_delta) (d.add one o.g_counter_delta)))
        × (run.epsilon_gc ≡ (if o.noguarantee then d.dec 48 1 else e))
        × (run.delta_gc ≡ (if o.noguarantee then d.dec 8 1 else o.g_counter_delta))
        × (run.ignore_unsat ≡ not o.count_unsat_inputs)
        × (run.exactcount_s0 ≡ o.exactcount_f)
        × (run.exactcount_s2 ≡ o.exactcount_g)
        × (run.use_unisamp ≡ o.use_unisamp_sampling)
        × (run.static_samp ≡ o.static_samp_est)
        × (run.numthreads ≡ o.nthreads)
        × (run.max_error_logcounter ≡ o.max_error_logcounter)
  configure_lem o c min asymmetric =
      let (epsilon, delta, gc, gd, unsat, in_f, in_g, unisamp, static, threads, error) =
        configured-fields o c in
      (
        configured o c,
        configure-cases o c,
        (λ exact. (epsilon ∙ rw exact refl, delta ∙ rw exact refl)),
        (λ approximate.
            let left = epsilon ∙ rw approximate refl in
            let (either, above, above') = least-cases _ _ (min _ _) asymmetric in
            (rw left either, rw left above, rw left above', delta ∙ rw approximate refl)),
        gc,
        gd,
        unsat,
        in_f,
        in_g,
        unisamp,
        static,
        threads,
        error,
      )
