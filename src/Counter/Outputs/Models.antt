-- ===== src/Counter/Outputs/Models.antt =====
-- The models of the G formula (`create_g_formula`, src/skolemfc-int.cpp) against the outputs of F.
use skolemfc.Base.{
  ℕ, ◌+◌, ◌*◌, ◌<◌, ◌≡◌, refl, sym, ◌∙◌, inl, inr, true, not, List, arith, length, Has, ltb,
  Bool-cases, and-eq-true,
}
use skolemfc.Lit.{LitApi, LitLaws}
use skolemfc.Cnf.{Formula, Assignment, formula_value, formula_value_congr, AgreeBelow, AgreeOff}
use skolemfc.Solver.{Solver, create_g_formula}
use skolemfc.Solver.Correct.{IsReady, create_g_formula_models}
use skolemfc.Solver.Bounds.{create_g_formula_bounds}
use skolemfc.Counter.Outputs.{
  some_values_sound, some_values_complete, differ_on-DifferOn, DifferOn-differ_on, Has-variables,
  variables-Has, Has-append, upto, upto-AgreeBelow, same_truth, All-Has, some_values, differ_on,
  two_outputs, variables, hidden,
}

module _ {D L : Type 0} ⦃a : LitApi L⦄ (laws : LitLaws L) (p : Solver D L) (ready : IsReady p) where
  open ready use {fits, clauses_below, exists_below, distinct}

  abbrev ys : List ℕ
  ys = p.exists_vars

  abbrev g : Formula L
  g = (create_g_formula p).g_formula_clauses

  -- The variables that are not hidden: below `nvars` and not in Y, or above all of G.
  visible : (v : ℕ) → v < p.nvars → ¬ Has v ys → ¬ Has v (hidden p)
  visible v lt out h = elim ((Has-append ys _ v).0 h) [
    | inl e ↦ out e
    | inr e ↦ let n = variables-Has p.nvars (2 * length ys) v e in omega arith
  ]

  model_of_f :
      (γ α : Assignment)
      → formula_value γ p.clauses ≡ true
      → formula_value (upto p.nvars γ α) p.clauses ≡ true
  model_of_f γ α e =
      formula_value_congr (upto p.nvars γ α) γ p.nvars p.clauses clauses_below
        (upto-AgreeBelow p.nvars γ α)
      ∙ e

  abbrev last : ℕ
  last = p.nvars + 2 * length ys

  upto-AgreeOff : (α γ : Assignment) → AgreeOff (hidden p) α γ → AgreeOff ys α (upto p.nvars γ α)
  upto-AgreeOff α γ off v h = elim (Bool-cases (ltb v p.nvars)) [
    | inl e ↦ rw e (off v (visible v (ground arith) h))
    | inr e ↦ rw e
  ]

  upto-AgreeOff₂ :
      (α γ β : Assignment) → AgreeOff ys γ β → AgreeOff ys (upto p.nvars γ α) (upto p.nvars β α)
  upto-AgreeOff₂ α γ β off v h = elim (Bool-cases (ltb v p.nvars)) [
    | inl e ↦ rw e (off v h)
    | inr e ↦ rw e
  ]

  upto-differ :
      (α γ β : Assignment) (y : ℕ)
      → y < p.nvars
      → γ y ≡ not (β y)
      → upto p.nvars γ α y ≡ not (upto p.nvars β α y)
  upto-differ α γ β y lt d = ground arith

  upto-hidden :
      (α γ one : Assignment)
      → AgreeBelow p.nvars γ one
      → AgreeOff ys α one
      → AgreeOff (hidden p) α (upto last γ α)
  upto-hidden α γ one agree off v h = elim (Bool-cases (ltb v p.nvars)) [
    | inl e ↦
        let lt : v < p.nvars = ground arith in
        let in_g : ltb v last ≡ true = ground arith in
        rw in_g (
          off v (λ k. h ((Has-append ys (variables p.nvars (2 * length ys)) v).1 (inl k)))
          ∙ sym (agree v lt))
    | inr e ↦ elim (Bool-cases (ltb v last)) [
      | inl k ↦ absurd (
          h (
            (Has-append ys _ v).1
              (inr (Has-variables p.nvars (2 * length ys) v (ground arith) (ground arith)))))
      | inr k ↦ rw k
    ]
  ]

  two_of_g :
      (α : Assignment)
      → some_values (hidden p) (λ γ. formula_value γ g) α ≡ true
      → two_outputs ys p.clauses α ≡ true
  two_of_g α e =
      let (γ, off, t) = some_values_sound (hidden p) (λ γ. formula_value γ g) α e in
      let (β, offβ, fγ, fβ, (y, has, df)) =
        (create_g_formula_models laws p ready γ).0 (γ, (λ v h. refl), t) in
      let one = upto p.nvars γ α in
      let two = upto p.nvars β α in
      let off₁ = upto-AgreeOff α γ off in
      let off₂ = upto-AgreeOff₂ α γ β offβ in
      let d : differ_on ys one two ≡ true =
        DifferOn-differ_on ys one two y has
          (upto-differ α γ β y (All-Has p.nvars ys y exists_below has) df) in
      some_values_complete ys _ α one off₁ (
        (and-eq-true _ _).1 (
          model_of_f γ α fγ,
          some_values_complete ys _ one two off₂ ((and-eq-true _ _).1 (model_of_f β α fβ, d)),
        ))

  g_of_two :
      (α : Assignment)
      → two_outputs ys p.clauses α ≡ true
      → some_values (hidden p) (λ γ. formula_value γ g) α ≡ true
  g_of_two α e =
      let (one, off₁, t₁) = some_values_sound ys _ α e in
      let (f₁, s₁) = (and-eq-true _ _).0 t₁ in
      let (two, off₂, t₂) = some_values_sound ys _ one s₁ in
      let (f₂, d) = (and-eq-true _ _).0 t₂ in
      let (γ, agree, t) =
        (create_g_formula_models laws p ready one).1
          (two, off₂, f₁, f₂, differ_on-DifferOn ys one two d) in
      let (below, top, size) = create_g_formula_bounds laws p ready in
      let whole = upto last γ α in
      let off = upto-hidden α γ one agree off₁ in
      some_values_complete (hidden p) (λ γ. formula_value γ g) α whole off
        (formula_value_congr whole γ last g (rw top at below) (upto-AgreeBelow last γ α) ∙ t)

  -- Where the variables that are not inputs of F can be given values so that G holds, there are two
  -- values of Y that differ and satisfy F, and the other way round.
  pub g_outputs :
      (α : Assignment)
      → some_values (hidden p) (λ γ. formula_value γ g) α ≡ two_outputs ys p.clauses α
  g_outputs α = same_truth _ _ (two_of_g α) (g_of_two α)
