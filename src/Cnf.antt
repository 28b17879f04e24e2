-- ===== src/Cnf.antt =====
-- What a formula in conjunctive normal form means. The program never evaluates a formula; this is
-- the independent description against which its formulas are judged.
use skolemfc.Base.{
  ℕ, ◌<◌, ◌≡◌, refl, Bool, true, false, not, ◌&&◌, ◌||◌, List, [], ◌∷◌, ◌++◌, arith, All, Has,
  if◌then◌else◌,
}
use skolemfc.Lit.{LitApi}

abbrev pub Assignment : Type 0
Assignment = ℕ → Bool

abbrev pub Clause : Type 0 → Type 0
Clause L = List L

abbrev pub Formula : Type 0 → Type 0
Formula L = List (List L)

module _ {L : Type 0} ⦃a : LitApi L⦄ where
  open a use {var, sign}

  abbrev pub lit_value : Assignment → L → Bool
  lit_value α l = if sign l then not (α (var l)) else α (var l)

  abbrev pub clause_value : Assignment → Clause L → Bool
  clause_value α [] = false
  clause_value α (l ∷ c) = lit_value α l || clause_value α c

  abbrev pub formula_value : Assignment → Formula L → Bool
  formula_value α [] = true
  formula_value α (c ∷ f) = clause_value α c && formula_value α f

  -- Every variable of the formula is below `n`.
  abbrev pub ClauseBelow : ℕ → Clause L → Type 0
  ClauseBelow n = All λ l. var l < n

  abbrev pub Below : ℕ → Formula L → Type 0
  Below n = All (ClauseBelow n)

  pub formula_value-append :
      (α : Assignment) (f g : Formula L)
      → formula_value α (f ++ g) ≡ (formula_value α f && formula_value α g)
  formula_value-append α [] g = refl
  formula_value-append α (c ∷ f) g = ground (arith, formula_value-append α f g)

  pub clause_value_congr :
      (α β : Assignment) (n : ℕ) (c : Clause L)
      → ClauseBelow n c
      → ((v : ℕ) → v < n → α v ≡ β v)
      → clause_value α c ≡ clause_value β c
  clause_value_congr α β n [] b e = refl
  clause_value_congr α β n (l ∷ c) (p, ps) e =
      ground (arith, e (var l) p, clause_value_congr α β n c ps e)

  -- The value of a formula depends on the variables below its bound alone.
  pub formula_value_congr :
      (α β : Assignment) (n : ℕ) (f : Formula L)
      → Below n f
      → ((v : ℕ) → v < n → α v ≡ β v)
      → formula_value α f ≡ formula_value β f
  formula_value_congr α β n [] b e = refl
  formula_value_congr α β n (c ∷ f) (p, ps) e =
      ground (arith, clause_value_congr α β n c p e, formula_value_congr α β n f ps e)

-- Two assignments that agree below a bound, and outside a set of variables.
abbrev pub AgreeBelow : ℕ → Assignment → Assignment → Type 0
AgreeBelow n α β = (v : ℕ) → v < n → α v ≡ β v

abbrev pub AgreeOff : List ℕ → Assignment → Assignment → Type 0
AgreeOff ys α β = (v : ℕ) → ¬ Has v ys → α v ≡ β v

-- They differ on a variable of the set.
abbrev pub DifferOn : List ℕ → Assignment → Assignment → Type 0
DifferOn ys α β = (y : ℕ) × Has y ys × (α y ≡ not (β y))
