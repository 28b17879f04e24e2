-- ===== src/Counter/Returns.antt =====
-- A round of the counting loop returns: with samples at hand, it does not read past them.
use skolemfc.Base.{
  ℕ, zero, suc, ◌+◌, ◌-◌, ◌≤◌, ◌<◌, ◌^◌, ◌≡◌, refl, ◌∙◌, ap, true, false, some, List, [], ◌∷◌,
  arith, u32, u64, ltb, length, get_elem?, if◌then◌else◌, Bool-cases, inl, inr,
}
use skolemfc.Lit.{LitApi}
use skolemfc.Cnf.{Formula}
use skolemfc.Floats.{DoubleApi, MpfApi}
use skolemfc.Outcome.{ok, Yields-ok}
use skolemfc.Oracles.{Oracles, Settings, SimplifiedCnf, SolCount}
use skolemfc.Counter.{Counter}
use skolemfc.Counter.Show.{show_count}
use skolemfc.Counter.Sample.{at, add_units, create_formula_from_sample}
use skolemfc.Counter.Count.{count_using_approxmc}
use skolemfc.Counter.Samples.{log_count, get_samples}
use skolemfc.Counter.Rounds.{
  needs_samples, new_total, round_delta, add_count, refill, count_sample,
  get_and_add_count_for_a_sample,
}
use skolemfc.Counter.Loop.{Added, round-Added}

get_elem?-lt {ℓ} :
    {A : Type ℓ} (xs : List A) (i : ℕ) → i < length xs → (x : A) × (get_elem? xs i ≡ some x)
get_elem?-lt [] i h = absurd (omega arith)
get_elem?-lt (x ∷ xs) zero h = (x, refl)
get_elem?-lt (x ∷ xs) (suc i) h = get_elem?-lt xs i (omega arith)

-- Every call of UniGen gives a sample, and not more than the memory holds.
abbrev pub Draws : {W D L : Type 0} → Oracles W D L → Type 0
Draws {W} {D} {L} oracles =
    (s : Settings D) (f : SimplifiedCnf L) (vars : List ℕ) (count : SolCount) (wanted : ℕ) (w : W)
    → let samples = (oracles.unigen_sample s f vars count wanted w).0 in
      (0 < length samples) × (length samples < 2 ^ 63)

-- Asked for more than one sample, UniGen gives more than one.
abbrev pub DrawsTwo : {W D L : Type 0} → Oracles W D L → Type 0
DrawsTwo {W} {D} {L} oracles =
    (s : Settings D) (f : SimplifiedCnf L) (vars : List ℕ) (count : SolCount) (wanted : ℕ) (w : W)
    → 1 < wanted
    → 1 < length (oracles.unigen_sample s f vars count wanted w).0

-- Nothing has been sampled or cleared, and the number of samples is fixed.
abbrev pub Unsampled : {D F L W : Type 0} → Counter D F L W → Type 0
Unsampled c =
    (c.samples_from_unisamp ≡ []) × (c.sample_clearance_iteration ≡ 0) × (c.static_samp ≡ true)

module _ {D F L W : Type 0} where
  -- With one thread, `n` more rounds find their samples, if those that are missing are drawn anew.
  abbrev pub InRange : ℕ → Counter D F L W → Type 0
  InRange n c =
      (c.sample_clearance_iteration ≤ c.iteration)
      × (2 ≤ length c.samples_from_unisamp + c.sample_clearance_iteration)
      × (length c.samples_from_unisamp + c.sample_clearance_iteration < 2 ^ 64)
      × (c.iteration + n < 2 ^ 32)
      × (c.numthreads ≤ 1)

  -- The next sample is there.
  abbrev HasNext : Counter D F L W → Type 0
  HasNext c = c.iteration < length c.samples_from_unisamp + c.sample_clearance_iteration

  -- What a round leaves alone.
  abbrev Frame : Counter D F L W → Counter D F L W → Type 0
  Frame c c' =
      (c'.sample_clearance_iteration ≡ c.sample_clearance_iteration)
      × (c'.samples_from_unisamp ≡ c.samples_from_unisamp)
      × (c'.numthreads ≡ c.numthreads)

  show_count-Frame : (c : Counter D F L W) → Frame c (show_count c).1
  unfolding show_count
  show_count-Frame c = ground arith

module _ {D F L W : Type 0} ⦃d : DoubleApi D⦄ ⦃m : MpfApi D F⦄ ⦃a : LitApi L⦄
    (oracles : Oracles W D L) where
  open m use {le}

  add_count-Frame : (y : D) (c : Counter D F L W) → Frame c (add_count y c)
  add_count-Frame y c = elim (Bool-cases (d.is_finite y)) [
    | inl e ↦ rw e (refl, refl, refl)
    | inr e ↦ rw e (refl, refl, refl)
  ]

  approxmc-Frame :
      (nvars : ℕ) (f : Formula L) (vars : List ℕ) (e e' : D) (c : Counter D F L W)
      → Frame c (count_using_approxmc oracles nvars f vars e e' c).1
  unfolding count_using_approxmc
  approxmc-Frame nvars f vars e e' c = ground arith

  sampled :
      (c : Counter D F L W)
      → c.sample_clearance_iteration ≤ c.iteration
      → c.iteration < 2 ^ 32
      → HasNext c
      → (f : Formula L) × (create_formula_from_sample c.samples_from_unisamp c.iteration c ≡ ok f)
  unfolding create_formula_from_sample at
  sampled c h k n =
      let (x, e) =
        get_elem?-lt c.samples_from_unisamp (c.iteration - c.sample_clearance_iteration)
          (omega arith) in
      let i : u32 (u32 c.iteration + 2 ^ 32 - c.sample_clearance_iteration)
          ≡ c.iteration - c.sample_clearance_iteration =
        omega arith in
      (add_units x c.p.clauses, rw (i, e, at))

  count_sample-Frame :
      (c : Counter D F L W)
      → c.sample_clearance_iteration ≤ c.iteration
      → c.iteration < 2 ^ 32
      → HasNext c
      → (c' : Counter D F L W) × (count_sample oracles c ≡ ok c') × Frame c c'
  unfolding count_sample
  count_sample-Frame c h k n =
      let (f, e) = sampled c h k n in
      let run = count_using_approxmc oracles c.p.nvars f [] (d.dec 4657 3) (round_delta c) c in
      let next = record run.1 { iteration = u64 (run.1.iteration + 1) } in
      let y = log_count run.0 in
      let (a, b, t) = approxmc-Frame c.p.nvars f [] (d.dec 4657 3) (round_delta c) c in
      let (a', b', t') = add_count-Frame y next in
      let (a'', b'', t'') = show_count-Frame (add_count y next) in
      ((show_count (add_count y next)).1, rw e refl, (a'' ∙ a' ∙ a, b'' ∙ b' ∙ b, t'' ∙ t' ∙ t))

  drawn :
      (draws : Draws oracles) (wanted seed : ℕ) (c : Counter D F L W)
      → c.samples_from_unisamp ≡ []
      → let c' = get_samples oracles wanted seed c in
        (0 < length c'.samples_from_unisamp) × (length c'.samples_from_unisamp < 2 ^ 63)
  unfolding get_samples
  drawn draws wanted seed c e = rw e (draws _ _ _ _ _ _)

  get_samples-Frame :
      (wanted seed : ℕ) (c : Counter D F L W)
      → let c' = get_samples oracles wanted seed c in
        (c'.sample_clearance_iteration ≡ c.sample_clearance_iteration)
        × (c'.iteration ≡ c.iteration)
        × (c'.numthreads ≡ c.numthreads)
  unfolding get_samples
  get_samples-Frame wanted seed c = (refl, refl, refl)

  abbrev cleared : Counter D F L W → Counter D F L W
  cleared c = record c {
    sample_num_est = new_total c;
    samples_from_unisamp = [];
    sample_clearance_iteration = u32 c.iteration;
  }

  refill-InRange :
      (draws : Draws oracles) (n : ℕ) (c : Counter D F L W)
      → InRange (suc n) c
      → 1 < c.iteration
      → (c' : Counter D F L W) × (refill oracles c ≡ ok c')
        × InRange (suc n) c'
        × HasNext c'
        × (c'.iteration ≡ c.iteration)
  unfolding refill
  refill-InRange draws n c (h, some_sample, fits, rounds, single) late =
      let wanted = if ltb 1000 (new_total c) then 1000 else new_total c in
      let c' = get_samples oracles wanted c.seed (cleared c) in
      let (few, many) = drawn draws wanted c.seed (cleared c) refl in
      let (cl, it, nt) = get_samples-Frame wanted c.seed (cleared c) in
      let one : ltb 1 c.numthreads ≡ false = ground arith in
      let small : u32 c.iteration ≡ c.iteration = omega arith in
      (
        c',
        rw one refl,
        (omega arith, omega arith, omega arith, omega arith, omega arith),
        omega arith,
        it,
      )

  ready-InRange :
      (draws : Draws oracles) (n : ℕ) (c : Counter D F L W)
      → InRange (suc n) c
      → (c' : Counter D F L W) × ((if needs_samples c then refill oracles c else ok c) ≡ ok c')
        × InRange (suc n) c'
        × HasNext c'
        × (c'.iteration ≡ c.iteration)
  ready-InRange draws n c r = elim (Bool-cases (needs_samples c)) [
    | inl e ↦
        let late : 1 < c.iteration = ground (arith, e) in
        let (c', f, i, n, it) = refill-InRange draws n c r late in (c', rw e f, i, n, it)
    | inr e ↦ (c, rw e refl, r, ground (arith, e, r), refl)
  ]

  pub round-InRange :
      (draws : Draws oracles) (n : ℕ) (c : Counter D F L W)
      → InRange (suc n) c
      → (c' : Counter D F L W) × (get_and_add_count_for_a_sample oracles c ≡ ok c')
        × (y : D) × Added oracles (y ∷ []) c c'
        × InRange n c'
  unfolding get_and_add_count_for_a_sample
  round-InRange draws n c r =
      let (c₁, e₁, (h, some_sample, fits, rounds, single), next, it) = ready-InRange draws n c r in
      let (c₂, e₂, (cl, sa, nt)) = count_sample-Frame c₁ h (omega arith) next in
      let e : get_and_add_count_for_a_sample oracles c ≡ ok c₂ = rw e₁ e₂ in
      let (y, ad, _, _) = Yields-ok _ _ c₂ (round-Added oracles c) e in
      (
        c₂,
        e,
        y,
        ad,
        (
          omega arith,
          omega (arith, ap length sa),
          omega (arith, ap length sa),
          omega (arith, ad.0),
          omega arith,
        ),
      )
