-- ===== src/Counter/Kept.antt =====
-- What the calls ahead of the loop leave alone: the loop's numbers, the number of threads and the
-- formula.
use skolemfc.Base.{
  ℕ, ◌/◌, ◌≡◌, refl, ◌∙◌, Bool, true, false, not, ◌&&◌, List, [], ◌∷◌, ◌++◌, arith, ◌+◌, zero, suc,
}
use skolemfc.Lit.{LitApi}
use skolemfc.Cnf.{Formula}
use skolemfc.Floats.{DoubleApi, MpfApi}
use skolemfc.Outcome.{Yields, Yields-bind, Yields-if, Yields-all}
use skolemfc.Oracles.{Oracles, GmpApi, GanakRun}
use skolemfc.Counter.{Counter}
use skolemfc.Counter.Text.{lines, find_count}
use skolemfc.Counter.Count.{
  is_zero, counted, read_ganak, count_using_approxmc, count_formula, get_est0, get_g_count,
}
use skolemfc.Counter.Samples.{
  join_all, model_units, get_sample_num_est, get_samples, start_samplers, get_samples_multithread,
}

-- All but `okay`.
abbrev pub KeptNumbers : {D F L W : Type 0} → Counter D F L W → Counter D F L W → Type 0
KeptNumbers c c' =
    (c'.iteration ≡ c.iteration)
    × (c'.log_skolemcount ≡ c.log_skolemcount)
    × (c'.thresh ≡ c.thresh)
    × (c'.numthreads ≡ c.numthreads)
    × (c'.s2size ≡ c.s2size)
    × (c'.p ≡ c.p)

abbrev pub Kept : {D F L W : Type 0} → Counter D F L W → Counter D F L W → Type 0
Kept c c' = KeptNumbers c c' × (c'.okay ≡ c.okay)

module _ {D F L W : Type 0} where
  pub Kept-refl : (c : Counter D F L W) → Kept c c
  Kept-refl c = ((refl, refl, refl, refl, refl, refl), refl)

  pub Kept-trans : (c c₁ c₂ : Counter D F L W) → Kept c c₁ → Kept c₁ c₂ → Kept c c₂
  Kept-trans c c₁ c₂ ((i, l, t, n, s, f), o) ((i', l', t', n', s', f'), o') =
      ((i' ∙ i, l' ∙ l, t' ∙ t, n' ∙ n, s' ∙ s, f' ∙ f), o' ∙ o)

module _ {D F L W : Type 0} (oracles : Oracles W D L) where
  pub approxmc-Kept :
      (nvars : ℕ) (f : Formula L) (vars : List ℕ) (e e' : D) (c : Counter D F L W)
      → Kept c (count_using_approxmc oracles nvars f vars e e' c).1
  unfolding count_using_approxmc
  approxmc-Kept nvars f vars e e' c = ground arith

module _ {D F L W : Type 0} ⦃d : DoubleApi D⦄ ⦃m : MpfApi D F⦄ ⦃a : LitApi L⦄
    (oracles : Oracles W D L) where
  pub get_samples-Kept :
      (wanted seed : ℕ) (c : Counter D F L W) → Kept c (get_samples oracles wanted seed c)
  unfolding get_samples
  get_samples-Kept wanted seed c = Kept-refl c

  start_samplers-Kept :
      (wanted i more : ℕ) (c : Counter D F L W) → Kept c (start_samplers oracles wanted i more c)
  unfolding start_samplers
  start_samplers-Kept wanted i zero c = Kept-refl c
  start_samplers-Kept wanted i (suc more) c =
      let c₁ = record c { threads = c.threads ++ (true ∷ []) } in
      let c₂ = get_samples oracles wanted i c₁ in
      Kept-trans c c₂ (start_samplers oracles wanted (i + 1) more c₂)
        (Kept-trans c c₁ c₂ (Kept-refl c) (get_samples-Kept wanted i c₁))
        (start_samplers-Kept wanted (i + 1) more c₂)

  pub samples_multithread-Kept :
      (wanted : ℕ) (c : Counter D F L W)
      → Yields (Kept c) (get_samples_multithread oracles wanted c)
  unfolding get_samples_multithread
  samples_multithread-Kept wanted c =
      let c' = start_samplers oracles (wanted / c.numthreads) 0 c.numthreads c in
      Yields-bind (λ _. Unit {0}) (Kept c) (join_all c'.threads) _
        (Yields-all _ (join_all c'.threads) (λ _. tt))
        (λ joined _. start_samplers-Kept (wanted / c.numthreads) 0 c.numthreads c)

  pub sample_num_est-Kept : (c : Counter D F L W) → Yields (Kept c) (get_sample_num_est oracles c)
  unfolding get_sample_num_est
  sample_num_est-Kept c =
      let solved = oracles.solve c.p.n_g_vars c.p.g_formula_clauses c.world in
      let units = model_units solved.1 c.p.forall_vars c.p.g_formula_clauses in
      Yields-if (Kept c) c.static_samp _ _ (λ _. Kept-refl c)
        λ _.
          Yields-bind (λ _. Unit {0}) (Kept c) units _ (Yields-all _ units (λ _. tt))
            (λ f _. approxmc-Kept oracles c.p.n_g_vars f [] _ _ (record c { world = solved.2 }))

module _ {D F L W : Type 0} ⦃a : LitApi L⦄ (oracles : Oracles W D L) (gmp : GmpApi) where
  read_ganak-Kept :
      (run : GanakRun) (c : Counter D F L W)
      → Yields (λ r. Kept c r.1) (read_ganak oracles gmp run c)
  unfolding read_ganak
  read_ganak-Kept GanakRun.no_tempfile c = tt
  read_ganak-Kept GanakRun.no_pipe c = Kept-refl c
  read_ganak-Kept GanakRun.no_fork c = tt
  read_ganak-Kept (GanakRun.printed output) c =
      let number = counted (find_count (lines output)) in
      Yields-bind (λ _. Unit {0}) (λ r. Kept c r.1) number _ (Yields-all _ number (λ _. tt))
        (λ n _. Kept-refl c)

  pub count_formula-Kept :
      (b : Bool) (nvars : ℕ) (f : Formula L) (c : Counter D F L W)
      → Yields (λ r. Kept c r.1) (count_formula oracles gmp b nvars f c)
  unfolding count_formula
  count_formula-Kept true nvars f c = read_ganak-Kept _ _
  count_formula-Kept false nvars f c = approxmc-Kept oracles nvars f c.p.forall_vars _ _ c

  pub est0-Kept : (c : Counter D F L W) → Yields (λ r. Kept c r.1) (get_est0 oracles gmp c)
  unfolding get_est0
  est0-Kept c =
      let counted = count_formula oracles gmp c.exactcount_s0 c.p.nvars c.p.clauses c in
      Yields-if (λ r. Kept c r.1) c.ignore_unsat _ _ (λ _. Kept-refl c)
        λ _.
          Yields-bind (λ r. Kept c r.1) (λ r. Kept c r.1) counted _
            (count_formula-Kept c.exactcount_s0 c.p.nvars c.p.clauses c) (λ r k. k)

  -- `okay` is kept unless the count is 0.
  pub g_count-Kept :
      (c : Counter D F L W)
      → Yields
          (λ r. KeptNumbers c r.1 × (r.1.okay ≡ (c.okay && not (is_zero r.0))))
          (get_g_count oracles gmp c)
  unfolding get_g_count
  g_count-Kept c =
      let counted =
        count_formula oracles gmp c.exactcount_s2 c.p.n_g_vars c.p.g_formula_clauses c in
      Yields-bind (λ r. Kept c r.1)
        (λ r. KeptNumbers c r.1 × (r.1.okay ≡ (c.okay && not (is_zero r.0)))) counted _
        (count_formula-Kept c.exactcount_s2 c.p.n_g_vars c.p.g_formula_clauses c)
        (λ r k. ground (arith, k))
