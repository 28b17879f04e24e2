-- ===== src/Counter/Joins.antt =====
-- Why a run with several threads never ends well: `threads` is never cleared, so a thread is joined
-- a second time.
use skolemfc.Base.{
  ℕ, zero, suc, ◌+◌, ◌≤◌, ◌≡◌, ◌≢◌, refl, ◌∙◌, Bool, true, false, List, [], ◌∷◌, ◌++◌, arith,
  length, if◌then◌else◌, ltb,
}
use skolemfc.Base.Int.{ℤ}
use skolemfc.Lit.{LitApi}
use skolemfc.Floats.{DoubleApi, MpfApi}
use skolemfc.Outcome.{
  Outcome, ok, Yields, Yields-bind, Yields-if, Yields-imp, Yields-all, Yields-ok,
}
use skolemfc.Oracles.{Oracles, GmpApi}
use skolemfc.Solver.{create_g_formula}
use skolemfc.Counter.{Counter}
use skolemfc.Counter.Sample.{create_formula_from_sample}
use skolemfc.Counter.Count.{get_est0, get_g_count}
use skolemfc.Counter.Samples.{join_all, get_sample_num_est, get_samples_multithread}
use skolemfc.Counter.Kept.{
  Kept, KeptNumbers, Kept-refl, samples_multithread-Kept, sample_num_est-Kept, est0-Kept,
  g_count-Kept,
}
use skolemfc.Counter.Partition.{partition, length-partition}
use skolemfc.Counter.Threads.{
  count_thread_sample, get_and_add_count_onethred, count_parts, get_and_add_count_multithred,
}
use skolemfc.Counter.Run.{set_constants, count_samples, count}

-- Some thread of the list has been joined.
abbrev HasJoined : List Bool → Type 0
HasJoined [] = ⊥
HasJoined (true ∷ threads) = HasJoined threads
HasJoined (false ∷ threads) = Unit

abbrev Never : {A : Type 0} → A → Type 0
Never a = ⊥

HasJoined-append : (ts us : List Bool) → HasJoined ts → HasJoined (ts ++ us)
HasJoined-append [] us h = absurd h
HasJoined-append (true ∷ ts) us h = HasJoined-append ts us h
HasJoined-append (false ∷ ts) us h = tt

-- A thread that has been joined cannot be joined again.
join_all-Never : (ts : List Bool) → HasJoined ts → Yields Never (join_all ts)
unfolding join_all
join_all-Never [] h = h
join_all-Never (true ∷ ts) h =
    Yields-bind Never Never (join_all ts) _ (join_all-Never ts h) (λ joined n. n)
join_all-Never (false ∷ ts) h = tt

-- After a join, all the threads have been joined.
join_all-HasJoined : (ts : List Bool) → ts ≢ [] → Yields HasJoined (join_all ts)
unfolding join_all
join_all-HasJoined [] ne = absurd (ne refl)
join_all-HasJoined (true ∷ ts) ne =
    Yields-bind (λ _. Unit {0}) HasJoined (join_all ts) _ (Yields-all _ (join_all ts) (λ _. tt))
      (λ joined _. tt)
join_all-HasJoined (false ∷ ts) ne = tt

concat_ne_nil : (ts : List Bool) → ts ++ (true ∷ []) ≢ []
concat_ne_nil [] e = cc
concat_ne_nil (t ∷ ts) e = cc

module _ {D F L W : Type 0} ⦃d : DoubleApi D⦄ ⦃m : MpfApi D F⦄ ⦃a : LitApi L⦄
    (oracles : Oracles W D L) where
  -- What a step leaves alone.
  abbrev Keeps : Counter D F L W → Counter D F L W → Type 0
  Keeps c c' = (c'.threads ≡ c.threads) × (c'.numthreads ≡ c.numthreads)

  count_thread_sample-Keeps :
      (samples : List (List ℤ)) (it : ℕ) (c : Counter D F L W)
      → Yields (Keeps c) (count_thread_sample oracles samples it c)
  unfolding count_thread_sample
  count_thread_sample-Keeps samples it c =
      Yields-bind (λ _. Unit {0}) (Keeps c) (create_formula_from_sample samples it c) _
        (Yields-all _ (create_formula_from_sample samples it c) (λ _. tt))
        (λ formula _. ground arith)

  onethred-Keeps :
      (samples : List (List ℤ)) (it more : ℕ) (c : Counter D F L W)
      → Yields (Keeps c) (get_and_add_count_onethred oracles samples it more c)
  unfolding get_and_add_count_onethred
  onethred-Keeps samples it zero c = (refl, refl)
  onethred-Keeps samples it (suc more) c =
      Yields-bind (Keeps c) (Keeps c) (count_thread_sample oracles samples it c) _
        (count_thread_sample-Keeps samples it c)
        λ c' k.
          Yields-imp (Keeps c') (Keeps c)
            (get_and_add_count_onethred oracles samples (it + 1) more c')
            (onethred-Keeps samples (it + 1) more c') (λ c'' l. (l.0 ∙ k.0, l.1 ∙ k.1))

  abbrev started : Counter D F L W → Counter D F L W
  started c = record c { threads = c.threads ++ (true ∷ []) }

  -- With a joined thread about, the next part cannot be counted.
  count_parts-Never :
      (part : List (List ℤ)) (parts : List (List (List ℤ))) (c : Counter D F L W)
      → HasJoined c.threads
      → Yields Never (count_parts oracles (part ∷ parts) c)
  unfolding count_parts
  count_parts-Never part parts c h =
      Yields-bind (Keeps (started c)) Never
        (get_and_add_count_onethred oracles part 0 (length part) (started c)) _
        (onethred-Keeps part 0 (length part) (started c))
        λ c' k.
          let joined : HasJoined c'.threads = rw (k.0) (HasJoined-append c.threads (true ∷ []) h) in
          Yields-bind Never Never (join_all c'.threads) _ (join_all-Never c'.threads joined)
            (λ j n. absurd n)

  -- The first part may be counted; then there is a joined thread.
  count_two_parts-Never :
      (part next : List (List ℤ)) (parts : List (List (List ℤ))) (c : Counter D F L W)
      → Yields Never (count_parts oracles (part ∷ next ∷ parts) c)
  unfolding count_parts
  count_two_parts-Never part next parts c =
      Yields-bind (Keeps (started c)) Never
        (get_and_add_count_onethred oracles part 0 (length part) (started c)) _
        (onethred-Keeps part 0 (length part) (started c))
        λ c' k.
          let some_thread : c'.threads ≢ [] = rw (k.0) (concat_ne_nil c.threads) in
          Yields-bind HasJoined Never (join_all c'.threads) _
            (join_all-HasJoined c'.threads some_thread)
            (λ j h. count_parts-Never next parts (record c' { threads = j }) h)

  many_parts-Never :
      (parts : List (List (List ℤ))) (c : Counter D F L W)
      → 2 ≤ length parts
      → Yields Never (count_parts oracles parts c)
  many_parts-Never [] c h = absurd (omega arith)
  many_parts-Never (part ∷ []) c h = absurd (omega arith)
  many_parts-Never (part ∷ next ∷ parts) c h = count_two_parts-Never part next parts c

  multithred-Never :
      (quotient : ℕ → ℕ → ℕ) (c : Counter D F L W)
      → 2 ≤ c.numthreads
      → Yields Never (get_and_add_count_multithred oracles quotient c)
  unfolding get_and_add_count_multithred
  multithred-Never quotient c h =
      let size = quotient (length c.samples_from_unisamp) c.numthreads in
      many_parts-Never (partition size c.numthreads c.samples_from_unisamp) c
        (rw (length-partition size c.numthreads c.samples_from_unisamp) h)

  module _ (gmp : GmpApi) where
    count_samples-Never :
        (fuel : ℕ) (quotient : ℕ → ℕ → ℕ) (c : Counter D F L W)
        → 2 ≤ c.numthreads
        → Yields Never (count_samples oracles fuel quotient c)
    unfolding count_samples
    count_samples-Never fuel quotient c h =
        let sampled = if c.okay then get_samples_multithread oracles c.sample_num_est c else ok c in
        Yields-if Never (ltb 1 c.numthreads) _ _
          (λ _.
            Yields-bind (Kept c) Never sampled _
              (Yields-if (Kept c) c.okay _ _
                (λ _. samples_multithread-Kept oracles c.sample_num_est c) (λ _. Kept-refl c))
              (λ c' k. multithred-Never quotient c' (omega (arith, k.0.3))))
          (λ e. absurd (ground arith))

    abbrev estimated : Counter D F L W → Outcome (Counter D F L W)
    estimated c = if c.okay then get_sample_num_est oracles c else ok c

    -- With two threads or more, no run of `count` returns an estimate, whatever the oracles, the fuel
    -- and the size of the parts.
    pub count_multithread_fails :
        (fuel : ℕ) (quotient : ℕ → ℕ → ℕ) (c : Counter D F L W) (r : F × Counter D F L W)
        → 2 ≤ c.numthreads
        → count oracles gmp fuel quotient c ≢ ok r
    unfolding count
    count_multithread_fails fuel quotient c r h e = Yields-ok Never _ r never e
      where
        never : Yields Never (count oracles gmp fuel quotient c)
        never =
            Yields-bind (λ r. Kept (set_constants c) r.1) Never
              (get_est0 oracles gmp (set_constants c)) _ (est0-Kept oracles gmp (set_constants c))
              λ r₁ k₁.
                let c₁ = record r₁.1 { p = create_g_formula r₁.1.p } in
                Yields-bind (λ r. KeptNumbers c₁ r.1) Never (get_g_count oracles gmp c₁) _
                  (Yields-imp _ _ (get_g_count oracles gmp c₁) (g_count-Kept oracles gmp c₁)
                    (λ r k. k.0))
                  λ r₂ k₂.
                    let c₃ = record r₂.1 { s2size = r₂.0 } in
                    Yields-bind (Kept c₃) Never (estimated c₃) _
                      (Yields-if (Kept c₃) c₃.okay _ _ (λ _. sample_num_est-Kept oracles c₃)
                        (λ _. Kept-refl c₃))
                      λ c₄ k₄.
                        Yields-bind Never Never (count_samples oracles fuel quotient c₄) _
                          (count_samples-Never fuel quotient c₄
                            (omega (arith, k₁.0.3, k₂.3, k₄.0.3)))
                          (λ c₅ n. absurd n)
