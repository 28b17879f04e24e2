-- ===== src/Counter/Outputs.antt =====
-- What the size of G's projection counts: the inputs with two outputs.
pub mod Models
use mathlib.Core.Path.{fun_ext}
use skolemfc.Base.{
  ℕ, zero, suc, ◌+◌, ◌-◌, ◌*◌, ◌^◌, ◌<◌, ◌≤◌, ◌≡◌, ◌↔◌, ◌⊎◌, refl, sym, ap, ◌∙◌, inl, inr, Bool,
  true, false, not, ◌&&◌, ◌||◌, List, [], ◌∷◌, ◌++◌, arith, length, All, Has, Distinct,
  if◌then◌else◌, ltb, ◌==◌, Bool-cases, and-eq-true, or-eq-true, ==_iff,
}
use skolemfc.Lit.{LitApi, LitLaws}
use skolemfc.Cnf.{
  Formula, Assignment, formula_value, formula_value_congr, Below, AgreeBelow, AgreeOff, DifferOn,
}
use skolemfc.Solver.{Solver, create_g_formula}
use skolemfc.Solver.Correct.{IsReady, create_g_formula_models}
use skolemfc.Solver.Bounds.{create_g_formula_bounds}
use skolemfc.Counter.Inputs.{assign, has_output, tally}

-- Some values of `ys` pass a test.
abbrev pub some_values : List ℕ → (Assignment → Bool) → Assignment → Bool
some_values [] test α = test α
some_values (y ∷ ys) test α =
    some_values ys test (assign α y true) || some_values ys test (assign α y false)

abbrev pub differ_on : List ℕ → Assignment → Assignment → Bool
differ_on [] α β = false
differ_on (y ∷ ys) α β = (if α y then not (β y) else β y) || differ_on ys α β

-- Two values of `ys` that differ satisfy the formula.
abbrev pub two_outputs : {L : Type 0} ⦃a : LitApi L⦄ → List ℕ → Formula L → Assignment → Bool
two_outputs ys f =
    some_values ys
      (λ β. formula_value β f && some_values ys (λ γ. formula_value γ f && differ_on ys β γ) β)

-- The variables from `n` on, `k` of them.
abbrev pub variables : ℕ → ℕ → List ℕ
variables n zero = []
variables n (suc k) = n ∷ variables (n + 1) k

-- The variables of G that are not inputs of F.
abbrev pub hidden : {D L : Type 0} → Solver D L → List ℕ
hidden p = p.exists_vars ++ variables p.nvars (2 * length p.exists_vars)

pub has_output-some_values :
    {L : Type 0} ⦃a : LitApi L⦄ (ys : List ℕ) (f : Formula L) (α : Assignment)
    → has_output ys f α ≡ some_values ys (λ β. formula_value β f) α
has_output-some_values [] f α = refl
has_output-some_values (y ∷ ys) f α = ground (
  arith,
  has_output-some_values ys f (assign α y true),
  has_output-some_values ys f (assign α y false),
)

-- Off `y`, an assignment is what `assign` leaves of it.
pub assign-AgreeOff :
    (ys : List ℕ) (α β : Assignment) (y : ℕ) (b : Bool)
    → AgreeOff ys (assign α y b) β
    → AgreeOff (y ∷ ys) α β
assign-AgreeOff ys α β y b off v h = elim (Bool-cases (v == y)) [
  | inl e ↦ absurd (h (inl (sym ((==_iff v y).0 e))))
  | inr e ↦ let o = off v (λ k. h (inr k)) in rw e at o
]

pub AgreeOff-assign :
    (ys : List ℕ) (α β : Assignment) (y : ℕ)
    → AgreeOff (y ∷ ys) α β
    → AgreeOff ys (assign α y (β y)) β
AgreeOff-assign ys α β y off v h = elim (Bool-cases (v == y)) [
  | inl e ↦ rw e (ap β (sym ((==_iff v y).0 e)))
  | inr e ↦ rw e (off v λ k. elim k [ inl q ↦ ground (arith, ==_iff v y) | inr q ↦ h q ])
]

pub some_values_sound :
    (ys : List ℕ) (test : Assignment → Bool) (α : Assignment)
    → some_values ys test α ≡ true
    → (β : Assignment) × AgreeOff ys α β × (test β ≡ true)
some_values_sound [] test α e = (α, (λ v h. refl), e)
some_values_sound (y ∷ ys) test α e = elim (or-eq-true _ _ e) [
  | inl l ↦
      let (β, off, t) = some_values_sound ys test (assign α y true) l in
      (β, assign-AgreeOff ys α β y true off, t)
  | inr r ↦
      let (β, off, t) = some_values_sound ys test (assign α y false) r in
      (β, assign-AgreeOff ys α β y false off, t)
]

either : (test : Bool → Bool) (b : Bool) → test b ≡ true → (test true || test false) ≡ true
either test true e = ground arith
either test false e = ground arith

pub some_values_complete :
    (ys : List ℕ) (test : Assignment → Bool) (α β : Assignment)
    → AgreeOff ys α β
    → test β ≡ true
    → some_values ys test α ≡ true
some_values_complete [] test α β off t =
    let same : α ≡ β = fun_ext (λ v. off v (λ h. h)) in rw same t
some_values_complete (y ∷ ys) test α β off t =
    either (λ b. some_values ys test (assign α y b)) (β y)
      (some_values_complete ys test (assign α y (β y)) β (AgreeOff-assign ys α β y off) t)

flip : (x y : Bool) → (if x then not y else y) ≡ true → x ≡ not y
flip true true e = cc
flip true false e = refl
flip false true e = refl
flip false false e = cc

pub differ_on-DifferOn :
    (ys : List ℕ) (α β : Assignment) → differ_on ys α β ≡ true → DifferOn ys α β
differ_on-DifferOn [] α β e = cc
differ_on-DifferOn (y ∷ ys) α β e = elim (or-eq-true _ _ e) [
  | inl l ↦ (y, inl refl, flip (α y) (β y) l)
  | inr r ↦ let (z, h, d) = differ_on-DifferOn ys α β r in (z, inr h, d)
]

pub DifferOn-differ_on :
    (ys : List ℕ) (α β : Assignment) (y : ℕ) → Has y ys → α y ≡ not (β y) → differ_on ys α β ≡ true
DifferOn-differ_on [] α β y h d = absurd h
DifferOn-differ_on (z ∷ ys) α β y (inl e) d = ground arith
DifferOn-differ_on (z ∷ ys) α β y (inr h) d = ground (arith, DifferOn-differ_on ys α β y h d)

pub Has-variables : (n k v : ℕ) → n ≤ v → v < n + k → Has v (variables n k)
Has-variables n zero v h l = absurd (omega arith)
Has-variables n (suc k) v h l = elim (Bool-cases (n == v)) [
  | inl e ↦ inl ((==_iff n v).0 e)
  | inr e ↦ inr (Has-variables (n + 1) k v (ground (arith, ==_iff n v)) (omega arith))
]

pub variables-Has : (n k v : ℕ) → Has v (variables n k) → n ≤ v
variables-Has n zero v h = absurd h
variables-Has n (suc k) v (inl e) = omega arith
variables-Has n (suc k) v (inr h) = omega (arith, variables-Has (n + 1) k v h)

pub Has-append : (xs ys : List ℕ) (v : ℕ) → Has v (xs ++ ys) ↔ (Has v xs ⊎ Has v ys)
Has-append [] ys v = (inr, λ h. elim h [ inl e ↦ absurd e | inr e ↦ e ])
Has-append (x ∷ xs) ys v =
    let (to, from) = Has-append xs ys v in
    (
      λ h. elim h [
        | inl e ↦ inl (inl e)
        | inr e ↦ elim (to e) [ inl q ↦ inl (inr q) | inr q ↦ inr q ]
      ],
      λ h. elim h [
        | inl q ↦ elim q [ inl e ↦ inl e | inr e ↦ inr (from (inl e)) ]
        | inr q ↦ inr (from (inr q))
      ],
    )

-- `γ` below `n`, and `α` from there on.
abbrev pub upto : ℕ → Assignment → Assignment → Assignment
upto n γ α v = if ltb v n then γ v else α v

pub upto-AgreeBelow : (n : ℕ) (γ α : Assignment) → AgreeBelow n (upto n γ α) γ
upto-AgreeBelow n γ α v h = ground arith

pub same_truth : (b c : Bool) → (b ≡ true → c ≡ true) → (c ≡ true → b ≡ true) → b ≡ c
same_truth true c f g = sym (f refl)
same_truth false true f g = g refl
same_truth false false f g = refl

pub All-Has : (n : ℕ) (ys : List ℕ) (y : ℕ) → All (λ v. v < n) ys → Has y ys → y < n
All-Has n [] y b h = absurd h
All-Has n (z ∷ ys) y b (inl e) = omega (arith, b.0)
All-Has n (z ∷ ys) y b (inr h) = All-Has n ys y b.1 h
