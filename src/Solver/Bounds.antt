-- ===== src/Solver/Bounds.antt =====
-- The size of G and the range of its variables, as `create_g_formula` reports them.
use skolemfc.Base.{
  ℕ, ◌+◌, ◌*◌, ◌^◌, ◌<◌, ◌≤◌, ◌≡◌, refl, ap, ◌∙◌, inl, inr, Bool, false, List, [], ◌∷◌, ◌++◌, map,
  arith, length, length-append, get_or, index_of, index_of-some, u32, u64, All, All-append, All-imp,
  Option-cases,
}
use skolemfc.Lit.{LitApi, LitLaws}
use skolemfc.Cnf.{Clause, Formula, Below, ClauseBelow}
use skolemfc.Solver.{Solver, mapped_from, prime_lit, create_g_formula}
use skolemfc.Solver.Shape.{
  get_or-mapped_from, copies, pairs, auxiliaries, g_formula, create_g_formula-g_formula,
}
use skolemfc.Solver.Correct.{IsReady}

module _ (L : Type 0) ⦃a : LitApi L⦄ where
  length-pairs : (nvars n i : ℕ) (ys : List ℕ) → length (pairs {L = L} nvars n i ys) ≡ 2 * length ys
  length-pairs nvars n i [] = refl
  length-pairs nvars n i (y ∷ ys) = omega (arith, length-pairs nvars n (i + 1) ys)

module _ {L : Type 0} ⦃a : LitApi L⦄ where
  length-copies : (ys mapped : List ℕ) (f : Formula L) → length (copies ys mapped f) ≡ 2 * length f
  length-copies ys mapped [] = refl
  length-copies ys mapped (c ∷ f) = omega (arith, length-copies ys mapped f)

  -- G has twice the clauses of F, two clauses for each y, and one more.
  pub length-g_formula :
      (nvars : ℕ) (ys : List ℕ) (f : Formula L)
      → length (g_formula nvars ys f) ≡ 2 * length f + 2 * length ys + 1
  length-g_formula nvars ys f =
      let first : Formula L = copies ys (mapped_from nvars 0 ys) f in
      let middle : Formula L = pairs nvars (length ys) 0 ys in
      let last : Clause L = auxiliaries nvars (length ys) 0 ys in
      omega (
        arith,
        length-append first (middle ++ (last ∷ [])),
        length-append middle (last ∷ []),
        length-copies ys (mapped_from nvars 0 ys) f,
        length-pairs L nvars (length ys) 0 ys,
      )

module _ {L : Type 0} ⦃a : LitApi L⦄ (laws : LitLaws L) where
  open a use {mk, var, sign, neg}
  open laws use {var-mk, var-neg}

  module _ (nvars : ℕ) (ys : List ℕ) (fits : nvars + 2 * length ys < 2 ^ 31) where
    abbrev top : ℕ
    top = nvars + 2 * length ys

    prime_lit-lt : (l : L) → var l < nvars → var (prime_lit ys (mapped_from nvars 0 ys) l) < top
    unfolding prime_lit
    prime_lit-lt l h = elim (Option-cases (index_of (var l) ys)) [
      | inl e ↦ rw (e, prime_lit) (omega arith)
      | inr (i, e) ↦
          let lt = (index_of-some (var l) ys i e).1 in
          let there : get_or (mapped_from nvars 0 ys) i 0 ≡ nvars + i =
            omega (arith, get_or-mapped_from nvars 0 ys i (omega arith) lt) in
          rw (e, prime_lit, there) (rw (var-mk (nvars + i) (sign l) (omega arith)) (omega arith))
    ]

    prime_clause-ClauseBelow :
        (c : Clause L)
        → ClauseBelow nvars c
        → ClauseBelow top (map (prime_lit ys (mapped_from nvars 0 ys)) c)
    prime_clause-ClauseBelow [] b = tt
    prime_clause-ClauseBelow (l ∷ c) (p, ps) = (prime_lit-lt l p, prime_clause-ClauseBelow c ps)

    copies-Below :
        (f : Formula L) → Below nvars f → Below top (copies ys (mapped_from nvars 0 ys) f)
    copies-Below [] b = tt
    copies-Below (c ∷ f) (p, ps) = (
      All-imp (λ l. var l < nvars) (λ l. var l < top) c (λ l h. omega arith) p,
      (prime_clause-ClauseBelow c p, copies-Below f ps),
    )

    mk-lt : (x : ℕ) (s : Bool) → x < top → var (mk x s) < top
    mk-lt x s h = rw (var-mk x s (omega arith)) h

    neg-lt : (x : ℕ) → x < top → var (neg (mk x false)) < top
    neg-lt x h = rw var-neg (mk-lt x false h)

    -- The words y' and aux at position `i` do not wrap.
    words :
        (i : ℕ)
        → i < length ys
        → (u32 (u64 (nvars + i)) < top) × (u32 (u64 (nvars + length ys + i)) < top)
    words i h = omega arith

    pairs-Below :
        (i : ℕ) (zs : List ℕ)
        → i + length zs ≤ length ys
        → All (λ y. y < nvars) zs
        → Below {L = L} top (pairs nvars (length ys) i zs)
    pairs-Below i [] h b = tt
    pairs-Below i (z ∷ zs) h (p, ps) =
        let (y', aux) = words i (omega arith) in
        let y : z < top = omega arith in
        (
          (mk-lt _ _ y, (mk-lt _ _ y', (neg-lt _ aux, tt))),
          (
            (neg-lt _ y, (neg-lt _ y', (neg-lt _ aux, tt))),
            pairs-Below (i + 1) zs (omega arith) ps,
          ),
        )

    auxiliaries-ClauseBelow :
        (i : ℕ) (zs : List ℕ)
        → i + length zs ≤ length ys
        → ClauseBelow {L = L} top (auxiliaries nvars (length ys) i zs)
    auxiliaries-ClauseBelow i [] h = tt
    auxiliaries-ClauseBelow i (z ∷ zs) h =
        (mk-lt _ _ (words i (omega arith)).1, auxiliaries-ClauseBelow (i + 1) zs (omega arith))

    pub g_formula-Below :
        (f : Formula L) → Below nvars f → All (λ y. y < nvars) ys → Below top (g_formula nvars ys f)
    g_formula-Below f b e =
        All-append (ClauseBelow top) (copies ys (mapped_from nvars 0 ys) f) _ (copies-Below f b) (
          All-append (ClauseBelow top) (pairs nvars (length ys) 0 ys) _
            (pairs-Below 0 ys (omega arith) e) (auxiliaries-ClauseBelow 0 ys (omega arith), tt))

  module _ {D : Type 0} (p : Solver D L) (ready : IsReady p) where
    n_g_vars-eq : (create_g_formula p).n_g_vars ≡ p.nvars + 2 * length p.exists_vars
    unfolding create_g_formula
    n_g_vars-eq = let h = ready.fits in omega arith

    -- For literals that obey their laws and a formula F whose variables are below `nvars`, whose Y
    -- has no duplicates and is below `nvars`, and whose new variables fit a literal: every variable
    -- of G is below `n_g_vars`, which is `nvars` + 2 |Y| with no wrap-around, and G has two clauses
    -- for each clause of F, two for each variable of Y and one more.
    pub create_g_formula_bounds :
        Below (create_g_formula p).n_g_vars (create_g_formula p).g_formula_clauses
        × ((create_g_formula p).n_g_vars ≡ p.nvars + 2 * length p.exists_vars)
        × (length (create_g_formula p).g_formula_clauses
            ≡ 2 * length p.clauses + 2 * length p.exists_vars + 1)
    create_g_formula_bounds = (
      rw (n_g_vars-eq, create_g_formula-g_formula)
          (g_formula-Below p.nvars p.exists_vars ready.fits p.clauses ready.clauses_below
            ready.exists_below),
      n_g_vars-eq,
      ap length (create_g_formula-g_formula p) ∙ length-g_formula p.nvars p.exists_vars p.clauses,
    )
