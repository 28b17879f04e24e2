-- ===== src/Skolem/Sampled.antt =====
-- What a sample stands for that some model of G follows (`create_g_formula`, src/skolemfc-int.cpp): an
-- input at which F has outputs.
use mathlib.Core.Logic.{∥∥₁_elim}
use mathlib.Core.Bool.{Bool-set}
use mathlib.Core.List.{Perm, Permᴰ}
use skolemfc.Base.{
  ℕ, zero, suc, ◌+◌, ◌-◌, ◌<◌, ◌≡◌, ◌⊎◌, refl, sym, ap, ◌∙◌, inl, inr, Bool, true, false, not, List,
  [], ◌∷◌, ◌++◌, arith, ◌==◌, ==_iff, Bool-cases, Has, and-eq-true,
}
use skolemfc.Base.Int.{ℤ, pos, negsuc, abs}
use skolemfc.Lit.{LitApi, LitLaws}
use skolemfc.Cnf.{Assignment, Formula, formula_value, formula_value_congr, Below}
use skolemfc.Solver.{Solver, create_g_formula}
use skolemfc.Solver.Correct.{IsReady, create_g_formula_models}
use skolemfc.Counter.Sample.{follows, is_negated}
use skolemfc.Counter.Inputs.{assign}
use skolemfc.Counter.Outputs.{
  some_values, some_values_complete, variables, Has-variables, Has-append,
}
use skolemfc.Skolem.{outputs}
use skolemfc.Skolem.Outputs.{has_output-outputs}
use skolemfc.Skolem.Sample.{Names, along}
use skolemfc.Counter.Outputs.{has_output-some_values}

-- A step of `along`, at a variable at which it gives what `β` gives.
assign-meets :
    (α β : Assignment) (x v : ℕ) (b : Bool) (rest : Type 0)
    → β x ≡ b
    → (α v ≡ β v) ⊎ ((x ≡ v) ⊎ rest)
    → (assign α x b v ≡ β v) ⊎ rest
assign-meets α β x v b rest e h = elim (Bool-cases (v == x)) [
  | inl q ↦ let same : v ≡ x = (==_iff v x).0 q in inl (rw q (sym e ∙ ap β (sym same)))
  | inr q ↦ elim h [
    | inl f ↦ inl (rw q f)
    | inr k ↦ elim k [ inl s ↦ absurd (ground (arith, ==_iff v x)) | inr r ↦ inr r ]
  ]
]

head_value :
    (n : ℤ) (x : ℕ) (β : Assignment) (sample : List ℤ)
    → abs n ≡ x + 1
    → follows β (n ∷ sample) ≡ true
    → (β x ≡ not (is_negated n)) × (follows β sample ≡ true)
head_value (pos zero) x β sample e f = absurd (omega arith)
head_value (pos (suc m)) x β sample e f =
    let same : m ≡ x = omega arith in
    let (value, rest) = (and-eq-true _ _).0 f in (rw (← same) value, rest)
head_value (negsuc m) x β sample e f =
    let same : m ≡ x = omega arith in
    let (value, rest) = (and-eq-true (not (β m)) (follows β sample)).0 f in
    (rw (← same) (ground (arith, value)), rest)

-- Where an assignment follows a sample, it agrees with the sample's values.
along-follows :
    (xs : List ℕ) (sample : List ℤ) (α β : Assignment) (v : ℕ)
    → Names xs sample
    → follows β sample ≡ true
    → (α v ≡ β v) ⊎ Has v xs
    → along sample α v ≡ β v
along-follows [] [] α β v h f (inl e) = e
along-follows [] [] α β v h f (inr k) = absurd k
along-follows [] (n ∷ sample) α β v h f k = absurd h
along-follows (x ∷ xs) [] α β v h f k = absurd h
along-follows (x ∷ xs) (n ∷ sample) α β v (e, h) f k =
    let index : abs n - 1 ≡ x = omega arith in
    let (value, rest) = head_value n x β sample e f in
    rw index (
      along-follows xs sample (assign α x (not (is_negated n))) β v h rest
        (assign-meets α β x v (not (is_negated n)) (Has v xs) value k))

Permᴰ-Has : {xs ys : List ℕ} (v : ℕ) → Permᴰ xs ys → Has v xs → Has v ys
Permᴰ-Has v Permᴰ.nil h = h
Permᴰ-Has v (Permᴰ.cons e p) (inl q) = inl (sym e ∙ q)
Permᴰ-Has v (Permᴰ.cons e p) (inr h) = inr (Permᴰ-Has v p h)
Permᴰ-Has v (Permᴰ.swap e f) (inl q) = inr (inl (sym e ∙ q))
Permᴰ-Has v (Permᴰ.swap e f) (inr (inl q)) = inl (sym f ∙ q)
Permᴰ-Has v (Permᴰ.swap e f) (inr (inr h)) = inr (inr h)
Permᴰ-Has v (Permᴰ.trans p q) h = Permᴰ-Has v q (Permᴰ-Has v p h)

-- Assignments that agree below `n`, but perhaps on `ys`.
abbrev AgreeBut : ℕ → List ℕ → Assignment → Assignment → Type 0
AgreeBut n ys α β = (v : ℕ) → v < n → ¬ Has v ys → α v ≡ β v

AgreeBut-assign :
    (n : ℕ) (ys : List ℕ) (α β : Assignment) (y : ℕ) (b : Bool)
    → AgreeBut n (y ∷ ys) α β
    → AgreeBut n ys (assign α y b) (assign β y b)
AgreeBut-assign n ys α β y b agree v h out = elim (Bool-cases (v == y)) [
  | inl e ↦ rw e refl
  | inr e ↦
      let off : ¬ Has v (y ∷ ys) =
        λ k. elim k [ inl q ↦ absurd (ground (arith, ==_iff v y)) | inr q ↦ out q ] in
      rw e (agree v h off)
]

module _ {L : Type 0} ⦃a : LitApi L⦄ where
  some_values_congr :
      (n : ℕ) (ys : List ℕ) (f : Formula L) (α β : Assignment)
      → Below n f
      → AgreeBut n ys α β
      → some_values ys (λ γ. formula_value γ f) α ≡ some_values ys (λ γ. formula_value γ f) β
  some_values_congr n [] f α β below agree =
      formula_value_congr α β n f below (λ v h. agree v h (λ k. k))
  some_values_congr n (y ∷ ys) f α β below agree = ground (
    arith,
    some_values_congr n ys f (assign α y true) (assign β y true) below
        (AgreeBut-assign n ys α β y true agree),
    some_values_congr n ys f (assign α y false) (assign β y false) below
        (AgreeBut-assign n ys α β y false agree),
  )

module _ {D L : Type 0} ⦃a : LitApi L⦄ where
  -- Every variable is an input or an output, so a sample settles all but the outputs.
  along-AgreeBut :
      (p : Solver D L) (sample : List ℤ) (α β : Assignment)
      → Perm (variables 0 p.nvars) (p.forall_vars ++ p.exists_vars)
      → Names p.forall_vars sample
      → follows β sample ≡ true
      → AgreeBut p.nvars p.exists_vars (along sample α) β
  along-AgreeBut p sample α β every names f v h out = ∥∥₁_elim every (Bool-set _ _) λ q.
      let (split, _) = Has-append p.forall_vars p.exists_vars v in
      elim (split (Permᴰ-Has v q (Has-variables 0 p.nvars v (omega arith) (omega arith)))) [
        | inl k ↦ along-follows p.forall_vars sample α β v names f (inr k)
        | inr k ↦ absurd (out k)
      ]

  -- Where a model of G follows a sample, F has an output at the sampled input.
  pub follows-create_g_formula :
      (laws : LitLaws L) (p : Solver D L) (sample : List ℤ) (α β : Assignment)
      → IsReady p
      → Perm (variables 0 p.nvars) (p.forall_vars ++ p.exists_vars)
      → Names p.forall_vars sample
      → follows β sample ≡ true
      → formula_value β (create_g_formula p).g_formula_clauses ≡ true
      → 0 < outputs p.exists_vars p.clauses (along sample α)
  follows-create_g_formula laws p sample α β ready every names f e =
      let (γ, off, model, _, _) =
        (create_g_formula_models laws p ready β).0 (β, (λ v h. refl), e) in
      let here =
        some_values_complete p.exists_vars (λ δ. formula_value δ p.clauses) β β (λ v h. refl)
          model in
      let there =
        some_values_congr p.nvars p.exists_vars p.clauses (along sample α) β ready.clauses_below
          (along-AgreeBut p sample α β every names f) in
      let found =
        has_output-some_values p.exists_vars p.clauses (along sample α) ∙ (there ∙ here) in
      ground (arith, has_output-outputs p.exists_vars p.clauses (along sample α), found)
