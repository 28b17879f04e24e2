-- ===== src/Solver/Correct.antt =====
-- `create_g_formula` against its specification: the models of G are the models of F with a second
-- model that differs on Y.
use skolemfc.Base.{
  ℕ, zero, suc, ◌+◌, ◌-◌, ◌*◌, ◌^◌, ◌<◌, ◌≡◌, ◌↔◌, sym, ap, ◌∙◌, inl, inr, Bool, true, not, ◌&&◌,
  none, some, List, [], ◌∷◌, ◌++◌, arith, length, get_or, get_elem?, index_of, index_of-some,
  index_of-Has, index_of-get_elem?, All-get_elem?, Has-get_elem?, get_or-get_elem?, All, All-imp,
  Has, Distinct, if◌then◌else◌, ltb, Option-cases, Bool-cases,
}
use skolemfc.Lit.{LitApi, LitLaws}
use skolemfc.Cnf.{
  Clause, Formula, Assignment, clause_value, formula_value, formula_value-append,
  formula_value_congr, Below, AgreeBelow, AgreeOff, DifferOn,
}
use skolemfc.Solver.{Solver, mapped_from, create_g_formula}
use skolemfc.Solver.Shape.{copies, pairs, auxiliaries, create_g_formula-g_formula}
use skolemfc.Solver.Values.{
  primed, primed-none, primed-some, formula_value-copies, Tied, pairs-Tied, Tied-pairs,
  auxiliaries_on, on_auxiliaries,
}

-- What `create_g_formula` relies on: every variable is below `nvars`, no variable is quantified
-- twice, and the new variables fit a literal.
pub record IsReady {D L : Type 0} ⦃a : LitApi L⦄ (p : Solver D L) : Type 0 where
  pub fits : p.nvars + 2 * length p.exists_vars < 2 ^ 31
  pub clauses_below : Below p.nvars p.clauses
  pub exists_below : All (λ y. y < p.nvars) p.exists_vars
  pub distinct : Distinct p.exists_vars

length_of_get_elem? : (ys : List ℕ) (j y : ℕ) → get_elem? ys j ≡ some y → j < length ys
length_of_get_elem? [] j y e = cc
length_of_get_elem? (z ∷ ys) zero y e = omega arith
length_of_get_elem? (z ∷ ys) (suc j) y e = omega (arith, length_of_get_elem? ys j y e)

abbrev differ : Bool → Bool → Bool
differ x y = if x then not y else y

-- The model of G that two models of F give: Y' has the values of the second, and an auxiliary
-- variable says where the two differ.
joined : ℕ → List ℕ → Assignment → Assignment → Assignment
joined nvars ys α β v =
    if ltb v nvars
    then α v
    else if ltb v (nvars + length ys)
    then β (get_or ys (v - nvars) 0)
    else differ (α (get_or ys (v - nvars - length ys) 0)) (β (get_or ys (v - nvars - length ys) 0))

module _ (nvars : ℕ) (ys : List ℕ) (α β : Assignment) where
  joined-below : (v : ℕ) → v < nvars → joined nvars ys α β v ≡ α v
  unfolding joined
  joined-below v h = ground arith

  joined-copy :
      (j y : ℕ) → j < length ys → get_elem? ys j ≡ some y → joined nvars ys α β (nvars + j) ≡ β y
  unfolding joined
  joined-copy j y lt at =
      let e : nvars + j - nvars ≡ j = omega arith in ground (arith, e, get_or-get_elem? ys j 0 at)

  joined-aux :
      (j y : ℕ)
      → get_elem? ys j ≡ some y
      → joined nvars ys α β (nvars + length ys + j) ≡ differ (α y) (β y)
  unfolding joined
  joined-aux j y at =
      let e : nvars + length ys + j - nvars - length ys ≡ j = omega arith in
      ground (arith, e, get_or-get_elem? ys j 0 at)

not_Has : (ys : List ℕ) (v : ℕ) → ¬ Has v ys → index_of v ys ≡ none
not_Has ys v h = elim (Option-cases (index_of v ys)) [
  | inl e ↦ e
  | inr (i, e) ↦ absurd (h (Has-get_elem? ys i v (index_of-some v ys i e).0))
]

index_of-none : (ys : List ℕ) (v : ℕ) → index_of v ys ≡ none → ¬ Has v ys
index_of-none ys v e h = let (i, f) = index_of-Has v ys h in cc

four_true :
    (x y z w : Bool)
    → ((x && y) && (z && w)) ≡ true
    → (x ≡ true) × (y ≡ true) × (z ≡ true) × (w ≡ true)
four_true x y z w e = ground arith

all_true :
    (x y z w : Bool) → x ≡ true → y ≡ true → z ≡ true → w ≡ true → ((x && y) && (z && w)) ≡ true
all_true x y z w hx hy hz hw = ground arith

module _ {D L : Type 0} ⦃a : LitApi L⦄ (laws : LitLaws L) (p : Solver D L) (ready : IsReady p) where
  open ready use {fits, clauses_below, exists_below, distinct}

  abbrev ys : List ℕ
  ys = p.exists_vars

  abbrev second : Assignment → Assignment
  second = primed p.nvars ys

  abbrev pairs_value : Assignment → Bool
  pairs_value γ = formula_value {L = L} γ (pairs p.nvars (length ys) 0 ys)

  abbrev auxiliaries_value : Assignment → Bool
  auxiliaries_value γ = clause_value {L = L} γ (auxiliaries p.nvars (length ys) 0 ys)

  abbrev value_of_g : Assignment → Bool
  value_of_g γ = formula_value γ (create_g_formula p).g_formula_clauses

  g_value :
      (γ : Assignment)
      → value_of_g γ ≡ (
          (formula_value γ p.clauses && formula_value (second γ) p.clauses)
          && (pairs_value γ && auxiliaries_value γ))
  g_value γ =
      let first : Formula L = copies ys (mapped_from p.nvars 0 ys) p.clauses in
      let middle : Formula L = pairs p.nvars (length ys) 0 ys in
      let last : Clause L = auxiliaries p.nvars (length ys) 0 ys in
      ap (formula_value γ) (create_g_formula-g_formula p)
      ∙ ground (
        arith,
        formula_value-append γ first (middle ++ (last ∷ [])),
        formula_value-append γ middle (last ∷ []),
        formula_value-copies laws p.nvars ys (omega arith) γ p.clauses,
      )

  exists_fit : All (λ y. y < 2 ^ 31) ys
  exists_fit = All-imp (λ y. y < p.nvars) (λ y. y < 2 ^ 31) ys (λ y h. omega arith) exists_below

  -- The second model of F that a model of G holds, with `α` above `nvars`.
  abbrev read_second : Assignment → Assignment → Assignment
  read_second α γ v = if ltb v p.nvars then second γ v else α v

  read_second-AgreeOff :
      (α γ : Assignment) → AgreeBelow p.nvars γ α → AgreeOff ys α (read_second α γ)
  read_second-AgreeOff α γ agree v h = elim (Bool-cases (ltb v p.nvars)) [
    | inl lt ↦ rw (lt, primed-none p.nvars ys γ v (not_Has ys v h)) (sym (agree v (ground arith)))
    | inr ge ↦ rw ge
  ]

  read_second-DifferOn :
      (α γ : Assignment)
      → AgreeBelow p.nvars γ α
      → pairs_value γ ≡ true
      → auxiliaries_value γ ≡ true
      → DifferOn ys α (read_second α γ)
  read_second-DifferOn α γ agree tied some_on =
      let (j, y, at, on) = auxiliaries_on laws p.nvars (length ys) γ 0 ys (omega arith) some_on in
      let below = All-get_elem? (λ v. v < p.nvars) ys j y exists_below at in
      let flip =
        pairs-Tied laws p.nvars (length ys) γ 0 ys (omega arith) exists_fit tied j y at on in
      let copy = primed-some p.nvars ys γ y j (index_of-get_elem? ys j y distinct at) in
      let flat : 0 + j ≡ j = omega arith in
      (y, Has-get_elem? ys j y at, ground (arith, flat, agree y below))

  -- A model of G gives two models of F.
  split_model :
      (α γ : Assignment)
      → AgreeBelow p.nvars γ α
      → value_of_g γ ≡ true
      → (β : Assignment) × AgreeOff ys α β
        × (formula_value α p.clauses ≡ true)
        × (formula_value β p.clauses ≡ true)
        × DifferOn ys α β
  split_model α γ agree e =
      let (fa, fb, tied, on) =
        four_true (formula_value γ p.clauses) (formula_value (second γ) p.clauses) (pairs_value γ)
          (auxiliaries_value γ) (sym (g_value γ) ∙ e) in
      (
        read_second α γ,
        read_second-AgreeOff α γ agree,
        formula_value_congr α γ p.nvars p.clauses clauses_below (λ v h. sym (agree v h)) ∙ fa,
        formula_value_congr (read_second α γ) (second γ) p.nvars p.clauses clauses_below
              (λ v h. ground arith)
            ∙ fb,
        read_second-DifferOn α γ agree tied on,
      )

  second-joined :
      (α β : Assignment) → AgreeOff ys α β → AgreeBelow p.nvars (second (joined p.nvars ys α β)) β
  second-joined α β off v h = elim (Option-cases (index_of v ys)) [
    | inl e ↦
        primed-none p.nvars ys (joined p.nvars ys α β) v e
        ∙ joined-below p.nvars ys α β v h
        ∙ off v (index_of-none ys v e)
    | inr (i, e) ↦
        let (at, lt) = index_of-some v ys i e in
        primed-some p.nvars ys (joined p.nvars ys α β) v i e ∙ joined-copy p.nvars ys α β i v lt at
  ]

  joined-Tied : (α β : Assignment) → Tied laws p.nvars (length ys) (joined p.nvars ys α β) 0 ys
  joined-Tied α β j y at on =
      let below = All-get_elem? (λ v. v < p.nvars) ys j y exists_below at in
      let lt = length_of_get_elem? ys j y at in
      let flat : 0 + j ≡ j = omega arith in
      rw flat (
        ground (
          arith,
          rw flat at on,
          joined-below p.nvars ys α β y below,
          joined-copy p.nvars ys α β j y lt at,
          joined-aux p.nvars ys α β j y at,
        ))

  joined-auxiliaries :
      (α β : Assignment) → DifferOn ys α β → auxiliaries_value (joined p.nvars ys α β) ≡ true
  joined-auxiliaries α β (y, has, differ) =
      let (j, e) = index_of-Has y ys has in
      let (at, lt) = index_of-some y ys j e in
      let flat : 0 + j ≡ j = omega arith in
      on_auxiliaries laws p.nvars (length ys) (joined p.nvars ys α β) 0 ys j y (omega arith) at
        (rw flat (joined-aux p.nvars ys α β j y at ∙ ground arith))

  -- Two models of F give a model of G.
  join_models :
      (α β : Assignment)
      → AgreeOff ys α β
      → formula_value α p.clauses ≡ true
      → formula_value β p.clauses ≡ true
      → DifferOn ys α β
      → (γ : Assignment) × AgreeBelow p.nvars γ α × (value_of_g γ ≡ true)
  join_models α β off fa fb d =
      let γ = joined p.nvars ys α β in
      let below = joined-below p.nvars ys α β in
      (
        γ,
        below,
        g_value γ
            ∙ all_true _ _ _ _ (formula_value_congr γ α p.nvars p.clauses clauses_below below ∙ fa)
                (formula_value_congr (second γ) β p.nvars p.clauses clauses_below
                    (second-joined α β off)
                  ∙ fb)
                (Tied-pairs laws p.nvars (length ys) γ 0 ys (omega arith) exists_fit
                  (joined-Tied α β))
                (joined-auxiliaries α β d),
      )

  -- For literals that obey their laws and a formula F whose variables are below `nvars`, whose Y has
  -- no duplicates and is below `nvars`, and whose new variables fit a literal: an assignment extends
  -- from below `nvars` to a model of G exactly if it is a model of F and some other model of F agrees
  -- with it off Y and differs from it on Y.
  pub create_g_formula_models :
      (α : Assignment)
      → ((γ : Assignment) × AgreeBelow p.nvars γ α
          × (formula_value γ (create_g_formula p).g_formula_clauses ≡ true))
        ↔ ((β : Assignment) × AgreeOff p.exists_vars α β
            × (formula_value α p.clauses ≡ true)
            × (formula_value β p.clauses ≡ true)
            × DifferOn p.exists_vars α β)
  create_g_formula_models α =
      (λ (γ, agree, e). split_model α γ agree e, λ (β, off, fa, fb, d). join_models α β off fa fb d)
