-- ===== src/Counter/Samplers.antt =====
-- The samplers of `get_samples_multithread` as threads (src/skolemfc.cpp): the orders in which their
-- calls of `unigen_callback` can come. What a sampler draws is its own, since each has its own oracles;
-- what they share is the vector of samples.
use mathlib.Core.List.{Perm, perm_middle, append_assoc, append-nil}
use mathlib.Core.List.Perm
use skolemfc.Base.{
  ℕ, zero, suc, ◌+◌, ◌≡◌, refl, ap, ◌∙◌, true, some, List, [], ◌∷◌, ◌++◌, get_elem?, All,
}
use skolemfc.Base.Int.{ℤ}
use skolemfc.Lit.{LitApi}
use skolemfc.Floats.{DoubleApi, MpfApi}
use skolemfc.Oracles.{Oracles}
use skolemfc.Counter.{Counter}
use skolemfc.Counter.Partition.{concat}
use skolemfc.Counter.Samples.{get_samples, start_samplers}

module _ {A : Type 0} where
  abbrev pub set_elem : List A → ℕ → A → List A
  set_elem [] i v = []
  set_elem (x ∷ xs) zero v = v ∷ xs
  set_elem (x ∷ xs) (suc i) v = x ∷ set_elem xs i v

module _ {A : Type 0} where
  -- A callback that no other overlaps: thread `i` pushes the next sample of its queue.
  pub data Callback (queues : List (List A)) (samples : List A) (queues' : List (List A))
      (samples' : List A) : Type 0 where
    callback :
        (i : ℕ) (s : A) (queue : List A)
        → get_elem? queues i ≡ some (s ∷ queue)
        → queues' ≡ set_elem queues i queue
        → samples' ≡ samples ++ (s ∷ [])
        → Callback queues samples queues' samples'

  -- Callbacks in any order.
  pub data Callbacks (queues : List (List A)) (samples : List A)
      : List (List A) → List A → Type 0 where
    here : Callbacks queues samples queues samples
    next :
        {queues₁ queues₂ : List (List A)} {samples₁ samples₂ : List A}
        → Callbacks queues samples queues₁ samples₁
        → Callback queues₁ samples₁ queues₂ samples₂
        → Callbacks queues samples queues₂ samples₂

  concat-set_elem :
      (queues : List (List A)) (i : ℕ) (s : A) (queue : List A)
      → get_elem? queues i ≡ some (s ∷ queue)
      → Perm (concat queues) (s ∷ concat (set_elem queues i queue))
  concat-set_elem [] i s queue e = cc
  concat-set_elem (q ∷ queues) zero s queue e =
      let same : q ≡ s ∷ queue = cc in rw same (Perm.refl _)
  concat-set_elem (q ∷ queues) (suc i) s queue e =
      Perm.trans (Perm.append_left q (concat-set_elem queues i s queue e)) (perm_middle q _)

  Callback-perm :
      {queues queues' : List (List A)} {samples samples' : List A}
      → Callback queues samples queues' samples'
      → Perm (samples ++ concat queues) (samples' ++ concat queues')
  Callback-perm {queues} {queues'} {samples} {samples'} (callback i s queue e q v) =
      rw (q, v, append_assoc samples (s ∷ []))
        (Perm.append_left samples (concat-set_elem queues i s queue e))

  Callbacks-perm :
      {queues : List (List A)} {samples : List A} {queues' : List (List A)} {samples' : List A}
      → Callbacks queues samples queues' samples'
      → Perm (samples ++ concat queues) (samples' ++ concat queues')
  Callbacks-perm here = Perm.refl _
  Callbacks-perm (next run step) = Perm.trans (Callbacks-perm run) (Callback-perm step)

  concat-empty : (queues : List (List A)) → All (λ q. q ≡ []) queues → concat queues ≡ []
  concat-empty [] h = refl
  concat-empty (q ∷ queues) (e, h) = rw (e, concat-empty queues h) refl

  Callbacks-trans :
      {queues queues₁ : List (List A)} {samples samples₁ : List A} {queues₂ : List (List A)}
      {samples₂ : List A}
      → Callbacks queues samples queues₁ samples₁
      → Callbacks queues₁ samples₁ queues₂ samples₂
      → Callbacks queues samples queues₂ samples₂
  Callbacks-trans run here = run
  Callbacks-trans run (next more step) = next (Callbacks-trans run more) step

  -- Another thread waits.
  Callbacks-wait :
      (q : List A) {queues : List (List A)} {samples : List A} {queues' : List (List A)}
      {samples' : List A}
      → Callbacks queues samples queues' samples'
      → Callbacks (q ∷ queues) samples (q ∷ queues') samples'
  Callbacks-wait q here = here
  Callbacks-wait q (next run (callback i s queue e f g)) =
      next (Callbacks-wait q run) (callback (suc i) s queue e (ap (◌∷◌ q) f) g)

  Callbacks-first :
      (q : List A) (queues : List (List A)) (samples : List A)
      → Callbacks (q ∷ queues) samples ([] ∷ queues) (samples ++ q)
  Callbacks-first [] queues samples = rw append-nil here
  Callbacks-first (s ∷ q) queues samples =
      Callbacks-trans (next here (callback 0 s q refl refl refl))
        (rw append_assoc at (Callbacks-first q queues (samples ++ (s ∷ []))))

  abbrev pub Finished : List (List A) → Type 0
  Finished = All (λ q. q ≡ [])

  -- One thread after the other is one of the orders.
  Callbacks-finish :
      (queues : List (List A)) (samples : List A)
      → (queues' : List (List A)) × Callbacks queues samples queues' (samples ++ concat queues)
        × Finished queues'
  Callbacks-finish [] samples = ([], rw append-nil here, tt)
  Callbacks-finish (q ∷ queues) samples =
      let (queues', run, done) = Callbacks-finish queues (samples ++ q) in
      (
        [] ∷ queues',
        Callbacks-trans (Callbacks-first q queues samples)
            (rw append_assoc at (Callbacks-wait [] run)),
        (refl, done),
      )

  -- Whatever the order, nothing is lost and nothing comes twice.
  pub Callbacks-Finished :
      (queues queues' : List (List A)) (samples samples' : List A)
      → Callbacks queues samples queues' samples'
      → Finished queues'
      → Perm (samples ++ concat queues) samples'
  Callbacks-Finished queues queues' samples samples' run done =
      rw (concat-empty queues' done, append-nil) at (Callbacks-perm run)

module _ {D F L W : Type 0} ⦃d : DoubleApi D⦄ ⦃m : MpfApi D F⦄ ⦃a : LitApi L⦄
    (oracles : Oracles W D L) where
  -- What the threads `i .. i + more` draw.
  abbrev pub drawn_samples : ℕ → ℕ → ℕ → Counter D F L W → List (List (List ℤ))
  drawn_samples wanted i zero c = []
  drawn_samples wanted i (suc more) c =
      let c' = get_samples oracles wanted i (record c { threads = c.threads ++ (true ∷ []) }) in
      (get_samples oracles wanted i (record c { samples_from_unisamp = [] })).samples_from_unisamp
      ∷ drawn_samples wanted (i + 1) more c'

  start_samplers-drawn :
      (wanted i more : ℕ) (c : Counter D F L W)
      → (start_samplers oracles wanted i more c).samples_from_unisamp
        ≡ c.samples_from_unisamp ++ concat (drawn_samples wanted i more c)
  unfolding start_samplers get_samples
  start_samplers-drawn wanted i zero c = rw append-nil refl
  start_samplers-drawn wanted i (suc more) c =
      start_samplers-drawn wanted (i + 1) more
        (get_samples oracles wanted i (record c { threads = c.threads ++ (true ∷ []) }))
      ∙ rw append_assoc refl

  -- For calls of `unigen_callback` that do not overlap: from the samples that are there, the calls of
  -- the threads' samplers can come to an end; and in whatever order they come, the vector then holds the
  -- samples that `start_samplers` gives with one thread after the other, in some order.
  pub start_samplers-perm :
      (wanted i more : ℕ) (c : Counter D F L W)
      → ((queues : List (List (List ℤ))) × (samples : List (List ℤ)) × Callbacks
            (drawn_samples wanted i more c)
            c.samples_from_unisamp
            queues
            samples
          × Finished queues)
        × ((queues : List (List (List ℤ))) (samples : List (List ℤ))
            → Callbacks (drawn_samples wanted i more c) c.samples_from_unisamp queues samples
            → Finished queues
            → Perm (start_samplers oracles wanted i more c).samples_from_unisamp samples)
  start_samplers-perm wanted i more c =
      let (queues, run, done) =
        Callbacks-finish (drawn_samples wanted i more c) c.samples_from_unisamp in
      (
        (queues, _, run, done),
        λ queues' samples run' done'.
            rw (start_samplers-drawn wanted i more c)
              (Callbacks-Finished _ queues' _ samples run' done'),
      )
