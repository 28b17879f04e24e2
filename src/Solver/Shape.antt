-- ===== src/Solver/Shape.antt =====
-- The formula G without the loops' accumulators.
use skolemfc.Base.{
  ℕ, zero, suc, ◌+◌, ◌^◌, ◌<◌, ◌≡◌, sym, false, List, [], ◌∷◌, ◌++◌, map, arith, length, get_or,
  u32, u64,
}
use mathlib.Core.List.{append-nil, append_assoc}
use skolemfc.Lit.{LitApi}
use skolemfc.Cnf.{Clause, Formula}
use skolemfc.Solver.{
  Solver, mapped_from, prime_lit, prime_clause, copy_loop, diff_loop, create_g_formula,
}

-- `Y' = [nvars, nvars + n)`, as long as no word wraps.
pub get_or-mapped_from :
    (nvars i : ℕ) (ys : List ℕ) (j : ℕ)
    → nvars + i + length ys < 2 ^ 32
    → j < length ys
    → get_or (mapped_from nvars i ys) j 0 ≡ nvars + i + j
unfolding mapped_from
get_or-mapped_from nvars i [] j h lt = elim lt [ ]
get_or-mapped_from nvars i (y ∷ ys) zero h lt = omega arith
get_or-mapped_from nvars i (y ∷ ys) (suc j) h lt =
    omega (arith, get_or-mapped_from nvars (i + 1) ys j)

module _ {L : Type 0} ⦃a : LitApi L⦄ where
  open a use {mk, neg}

  abbrev pub copies : (ys mapped : List ℕ) → Formula L → Formula L
  copies ys mapped [] = []
  copies ys mapped (c ∷ cs) = c ∷ map (prime_lit ys mapped) c ∷ copies ys mapped cs

  -- The two clauses that make `aux` imply y ≠ y'.
  abbrev pub differ_pair : ℕ → ℕ → ℕ → Formula L
  differ_pair y y' aux =
      (mk y false ∷ mk y' false ∷ neg (mk aux false) ∷ [])
      ∷ (neg (mk y false) ∷ neg (mk y' false) ∷ neg (mk aux false) ∷ [])
      ∷ []

  abbrev pub pairs : (nvars n i : ℕ) → List ℕ → Formula L
  pairs nvars n i [] = []
  pairs nvars n i (y ∷ ys) =
      differ_pair y (u32 (u64 (nvars + i))) (u32 (u64 (nvars + n + i))) ++ pairs nvars n (i + 1) ys

  abbrev pub auxiliaries : (nvars n i : ℕ) → List ℕ → Clause L
  auxiliaries nvars n i [] = []
  auxiliaries nvars n i (y ∷ ys) =
      mk (u32 (u64 (nvars + n + i))) false ∷ auxiliaries nvars n (i + 1) ys

  prime_clause-map :
      (ys mapped : List ℕ) (c acc : Clause L)
      → prime_clause ys mapped acc c ≡ acc ++ map (prime_lit ys mapped) c
  unfolding prime_clause
  prime_clause-map ys mapped [] acc = sym (append-nil acc)
  prime_clause-map ys mapped (l ∷ c) acc = simp (prime_clause-map ys mapped c, append_assoc)

  copy_loop-copies :
      (ys mapped : List ℕ) (f g : Formula L) (scratch : Clause L)
      → (copy_loop ys mapped f g scratch).0 ≡ g ++ copies ys mapped f
  unfolding copy_loop
  copy_loop-copies ys mapped [] g scratch = sym (append-nil g)
  copy_loop-copies ys mapped (c ∷ f) g scratch =
      simp (copy_loop-copies ys mapped f, append_assoc, prime_clause-map)

  diff_loop-pairs :
      (nvars n i : ℕ) (ys : List ℕ) (g : Formula L) (d : Clause L)
      → diff_loop nvars n i ys g d ≡ (g ++ pairs nvars n i ys, d ++ auxiliaries nvars n i ys)
  unfolding diff_loop
  diff_loop-pairs nvars n i [] g d = simp append-nil
  diff_loop-pairs nvars n i (y ∷ ys) g d = simp (diff_loop-pairs nvars n (i + 1) ys, append_assoc)

  -- G holds F(X, Y), F(X, Y'), the pairs and the clause over the auxiliary variables.
  abbrev pub g_formula : ℕ → List ℕ → Formula L → Formula L
  g_formula nvars ys f =
      copies ys (mapped_from nvars 0 ys) f
      ++ (pairs nvars (length ys) 0 ys ++ (auxiliaries nvars (length ys) 0 ys ∷ []))

  pub create_g_formula-g_formula :
      {D : Type 0} (p : Solver D L)
      → (create_g_formula p).g_formula_clauses ≡ g_formula p.nvars p.exists_vars p.clauses
  unfolding create_g_formula
  create_g_formula-g_formula p = simp (copy_loop-copies, diff_loop-pairs, append_assoc)
