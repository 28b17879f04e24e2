-- ===== src/Solver/Values.antt =====
-- The values of G's parts: of the primed literals, of the pairs and of the clause over the
-- auxiliary variables.
use skolemfc.Base.{
  ℕ, zero, suc, ◌+◌, ◌^◌, ◌<◌, ◌≡◌, refl, sym, ◌∙◌, inl, inr, Bool, true, false, not, ◌&&◌, none,
  some, List, [], ◌∷◌, map, arith, length, get_or, get_elem?, index_of, index_of-some, u32, u64,
  All, if◌then◌else◌, Option-cases, or-eq-true, and-eq-true,
}
use skolemfc.Lit.{LitApi, LitLaws}
use skolemfc.Cnf.{
  Clause, Formula, Assignment, lit_value, clause_value, formula_value, formula_value-append,
}
use skolemfc.Solver.{mapped_from, prime_lit}
use skolemfc.Solver.Shape.{get_or-mapped_from, copies, differ_pair, pairs, auxiliaries}

-- The assignment that reads each y at its copy y'.
pub primed : ℕ → List ℕ → Assignment → Assignment
primed nvars ys γ v = elim (index_of v ys) [ none ↦ γ v | some i ↦ γ (nvars + i) ]

pub primed-none :
    (nvars : ℕ) (ys : List ℕ) (γ : Assignment) (v : ℕ)
    → index_of v ys ≡ none
    → primed nvars ys γ v ≡ γ v
unfolding primed
primed-none nvars ys γ v e = rw (e, primed)

pub primed-some :
    (nvars : ℕ) (ys : List ℕ) (γ : Assignment) (v i : ℕ)
    → index_of v ys ≡ some i
    → primed nvars ys γ v ≡ γ (nvars + i)
unfolding primed
primed-some nvars ys γ v i e = rw (e, primed)

module _ {L : Type 0} ⦃a : LitApi L⦄ (laws : LitLaws L) where
  open a use {mk, var, sign, neg}
  open laws use {var-mk, sign-mk, var-neg, sign-neg}

  lit_value-mk :
      (γ : Assignment) (x : ℕ) (s : Bool)
      → x < 2 ^ 31
      → lit_value γ (mk x s) ≡ (if s then not (γ x) else γ x)
  lit_value-mk γ x s h = rw (sign-mk x s, var-mk x s h)

  lit_value-neg : (γ : Assignment) (l : L) → lit_value γ (neg l) ≡ not (lit_value γ l)
  lit_value-neg γ l = ground (arith, var-neg l, sign-neg l)

  module _ (nvars : ℕ) (ys : List ℕ) (fits : nvars + length ys < 2 ^ 31) (γ : Assignment) where
    lit_value-prime_lit :
        (l : L)
        → lit_value γ (prime_lit ys (mapped_from nvars 0 ys) l) ≡ lit_value (primed nvars ys γ) l
    unfolding prime_lit primed
    lit_value-prime_lit l = elim (Option-cases (index_of (var l) ys)) [
      | inl e ↦ rw (e, prime_lit, primed)
      | inr (i, e) ↦
          let lt = (index_of-some (var l) ys i e).1 in
          let at = get_or-mapped_from nvars 0 ys i (omega arith) lt in
          let there : get_or (mapped_from nvars 0 ys) i 0 ≡ nvars + i = omega arith in
          rw (e, prime_lit, primed, there) (lit_value-mk γ (nvars + i) (sign l) (omega arith))
    ]

    clause_value-prime_lit :
        (c : Clause L)
        → clause_value γ (map (prime_lit ys (mapped_from nvars 0 ys)) c)
          ≡ clause_value (primed nvars ys γ) c
    clause_value-prime_lit [] = refl
    clause_value-prime_lit (l ∷ c) = rw (lit_value-prime_lit l, clause_value-prime_lit c)

    -- The copies hold exactly if F(X, Y) and F(X, Y') do.
    pub formula_value-copies :
        (f : Formula L)
        → formula_value γ (copies ys (mapped_from nvars 0 ys) f)
          ≡ (formula_value γ f && formula_value (primed nvars ys γ) f)
    formula_value-copies [] = refl
    formula_value-copies (c ∷ f) = ground (arith, clause_value-prime_lit c, formula_value-copies f)

  module _ (nvars n : ℕ) (γ : Assignment) where
    -- What the pairs say about the y at position `i + j` of all of Y.
    abbrev pub Tied : ℕ → List ℕ → Type 0
    Tied i ys =
        (j y : ℕ)
        → get_elem? ys j ≡ some y
        → γ (nvars + n + (i + j)) ≡ true
        → γ y ≡ not (γ (nvars + (i + j)))

    abbrev pair : ℕ → ℕ → Formula L
    pair y i = differ_pair y (u32 (u64 (nvars + i))) (u32 (u64 (nvars + n + i)))

    differ_pair_value :
        (y i : ℕ)
        → y < 2 ^ 31
        → nvars + n + i < 2 ^ 31
        → formula_value γ (pair y i) ≡ (
            if γ (nvars + n + i)
            then (if γ y then not (γ (nvars + i)) else γ (nvars + i))
            else true)
    differ_pair_value y i hy h =
        let y' = nvars + i in
        let aux = nvars + n + i in
        let ey' : u32 (u64 y') ≡ y' = omega arith in
        let ea : u32 (u64 aux) ≡ aux = omega arith in
        rw (ey', ea)
          (ground (
            arith,
            lit_value-neg γ (mk y false),
            lit_value-neg γ (mk y' false),
            lit_value-neg γ (mk aux false),
            lit_value-mk γ y false hy,
            lit_value-mk γ y' false (omega arith),
            lit_value-mk γ aux false h,
          ))

    pairs_split :
        (y i : ℕ) (ys : List ℕ)
        → formula_value {L = L} γ (pairs nvars n i (y ∷ ys))
          ≡ (formula_value γ (pair y i) && formula_value {L = L} γ (pairs nvars n (i + 1) ys))
    pairs_split y i ys = formula_value-append γ (pair y i) (pairs nvars n (i + 1) ys)

    pairs-true :
        (y i : ℕ) (ys : List ℕ)
        → formula_value {L = L} γ (pairs nvars n i (y ∷ ys)) ≡ true
        → (formula_value γ (pair y i) ≡ true)
          × (formula_value {L = L} γ (pairs nvars n (i + 1) ys) ≡ true)
    pairs-true y i ys e =
        (and-eq-true (formula_value γ (pair y i))
            (formula_value {L = L} γ (pairs nvars n (i + 1) ys))).0
          (sym (pairs_split y i ys) ∙ e)

    shift : (i j : ℕ) → i + suc j ≡ i + 1 + j
    shift i j = omega arith

    pub pairs-Tied :
        (i : ℕ) (ys : List ℕ)
        → nvars + n + i + length ys < 2 ^ 31
        → All (λ y. y < 2 ^ 31) ys
        → formula_value {L = L} γ (pairs nvars n i ys) ≡ true
        → Tied i ys
    pairs-Tied i [] h b e j y at on = cc
    pairs-Tied i (z ∷ ys) h b e zero y at on =
        let here = (pairs-true z i ys e).0 in
        let flat : i + 0 ≡ i = omega arith in
        rw flat (ground (arith, flat, differ_pair_value z i b.0 (omega arith)))
    pairs-Tied i (z ∷ ys) h b e (suc j) y at on =
        let later = (pairs-true z i ys e).1 in
        rw (shift i j) (pairs-Tied (i + 1) ys (omega arith) b.1 later j y at (rw (shift i j) at on))

    pub Tied-pairs :
        (i : ℕ) (ys : List ℕ)
        → nvars + n + i + length ys < 2 ^ 31
        → All (λ y. y < 2 ^ 31) ys
        → Tied i ys
        → formula_value {L = L} γ (pairs nvars n i ys) ≡ true
    Tied-pairs i [] h b t = refl
    Tied-pairs i (z ∷ ys) h b t =
        let flat : i + 0 ≡ i = omega arith in
        let here : γ (nvars + n + i) ≡ true → γ z ≡ not (γ (nvars + i)) = rw flat at (t 0 z refl) in
        let rest =
          Tied-pairs (i + 1) ys (omega arith) b.1
            (λ j y at on. rw (← shift i j) (t (suc j) y at (rw (shift i j) on))) in
        pairs_split z i ys
        ∙ (and-eq-true _ _).1 (ground (arith, here, differ_pair_value z i b.0 (omega arith)), rest)

    aux_value :
        (i : ℕ)
        → nvars + n + i < 2 ^ 31
        → lit_value γ (mk (u32 (u64 (nvars + n + i))) false) ≡ γ (nvars + n + i)
    aux_value i h =
        let e : u32 (u64 (nvars + n + i)) ≡ nvars + n + i = omega arith in
        rw e (lit_value-mk γ (nvars + n + i) false h)

    pub auxiliaries_on :
        (i : ℕ) (ys : List ℕ)
        → nvars + n + i + length ys < 2 ^ 31
        → clause_value {L = L} γ (auxiliaries nvars n i ys) ≡ true
        → (j y : ℕ) × (get_elem? ys j ≡ some y) × (γ (nvars + n + (i + j)) ≡ true)
    auxiliaries_on i [] h e = cc
    auxiliaries_on i (z ∷ ys) h e = elim (or-eq-true _ _ e) [
      | inl on ↦
          let flat : i + 0 ≡ i = omega arith in
          (0, z, refl, rw flat (sym (aux_value i (omega arith)) ∙ on))
      | inr later ↦
          let (j, y, at, on) = auxiliaries_on (i + 1) ys (omega arith) later in
          (suc j, y, at, rw (shift i j) on)
    ]

    pub on_auxiliaries :
        (i : ℕ) (ys : List ℕ) (j y : ℕ)
        → nvars + n + i + length ys < 2 ^ 31
        → get_elem? ys j ≡ some y
        → γ (nvars + n + (i + j)) ≡ true
        → clause_value {L = L} γ (auxiliaries nvars n i ys) ≡ true
    on_auxiliaries i [] j y h at on = cc
    on_auxiliaries i (z ∷ ys) zero y h at on =
        let flat : i + 0 ≡ i = omega arith in
        let here : γ (nvars + n + i) ≡ true = rw flat at on in rw (aux_value i (omega arith), here)
    on_auxiliaries i (z ∷ ys) (suc j) y h at on =
        let later = on_auxiliaries (i + 1) ys j y (omega arith) at (rw shift at on) in
        ground (arith, later)
