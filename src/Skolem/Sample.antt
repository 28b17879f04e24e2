-- ===== src/Skolem/Sample.antt =====
-- What the count of a round stands for: the models of the formula that `create_formula_from_sample`
-- (src/skolemfc.cpp) builds are the outputs at the sampled input.
use mathlib.Core.Path.{fun_ext}
use mathlib.Core.Logic.{∥∥₁_elim}
use mathlib.Core.List.{Perm, Permᴰ}
use native.Mathlib.Nat.{ℕ_set}
use skolemfc.Base.{
  ℕ, zero, suc, ◌+◌, ◌-◌, ◌^◌, ◌<◌, ◌≡◌, refl, sym, ap, ◌∙◌, inl, inr, Bool, true, false, not, ◌&&◌,
  List, [], ◌∷◌, ◌++◌, arith, get_elem?, some, if◌then◌else◌, ◌==◌, ==_iff, Bool-cases, Has,
  Distinct, All,
}
use skolemfc.Base.Int.{ℤ, pos, negsuc, abs}
use skolemfc.Lit.{LitApi, LitLaws}
use skolemfc.Cnf.{Assignment, Formula, formula_value, AgreeOff}
use skolemfc.Outcome.{ok}
use skolemfc.Solver.{Solver}
use skolemfc.Counter.{Counter}
use skolemfc.Counter.Sample.{
  create_formula_from_sample, create_formula_from_sample_models, follows, is_negated, IsSample,
}
use skolemfc.Counter.Inputs.{assign, tally}
use skolemfc.Counter.Outputs.{variables, assign-AgreeOff}
use skolemfc.Skolem.{outputs}

assign_comm :
    (α : Assignment) (x y : ℕ) (b c : Bool)
    → (x == y) ≡ false
    → assign (assign α x b) y c ≡ assign (assign α y c) x b
assign_comm α x y b c ne = fun_ext λ v. ground (arith, ne, ==_iff v x, ==_iff v y, ==_iff x y)

-- A number of values does not depend on the order of the variables.
tally-swap :
    (x y : ℕ) (zs : List ℕ) (test : Assignment → Bool) (α : Assignment)
    → tally (x ∷ y ∷ zs) test α ≡ tally (y ∷ x ∷ zs) test α
tally-swap x y zs test α = elim (Bool-cases (x == y)) [
  | inl e ↦ let same : x ≡ y = (==_iff x y).0 e in rw same refl
  | inr e ↦
      rw
        (
          assign_comm α x y true true e,
          assign_comm α x y true false e,
          assign_comm α x y false true e,
          assign_comm α x y false false e,
        )
        (omega arith)
]

Permᴰ-tally :
    {xs ys : List ℕ} (test : Assignment → Bool)
    → Permᴰ xs ys
    → (α : Assignment) → tally xs test α ≡ tally ys test α
Permᴰ-tally test Permᴰ.nil α = refl
Permᴰ-tally test (Permᴰ.cons {a} {b} {l₁} {l₂} e p) α =
    let high = Permᴰ-tally test p (assign α b true) in
    let low = Permᴰ-tally test p (assign α b false) in
    ap (λ v. tally (v ∷ l₁) test α) e ∙ omega (arith, high, low)
Permᴰ-tally test (Permᴰ.swap {a} {b} {a'} {b'} {l} e f) α =
    tally-swap a b l test α
    ∙ (ap (λ v. tally (b ∷ v ∷ l) test α) e ∙ ap (λ v. tally (v ∷ b' ∷ l) test α) f)
Permᴰ-tally test (Permᴰ.trans p q) α = Permᴰ-tally test p α ∙ Permᴰ-tally test q α

perm-tally :
    {xs ys : List ℕ} (test : Assignment → Bool) (α : Assignment)
    → Perm xs ys
    → tally xs test α ≡ tally ys test α
perm-tally test α p = ∥∥₁_elim p (ℕ_set _ _) (λ q. Permᴰ-tally test q α)

tally_congr :
    (zs : List ℕ) (test test' : Assignment → Bool) (α : Assignment)
    → ((β : Assignment) → AgreeOff zs α β → test β ≡ test' β)
    → tally zs test α ≡ tally zs test' α
tally_congr [] test test' α h = rw (h α (λ v _. refl)) refl
tally_congr (z ∷ zs) test test' α h = omega (
  arith,
  tally_congr zs test test' (assign α z true) (λ β off. h β (assign-AgreeOff zs α β z true off)),
  tally_congr zs test test' (assign α z false) (λ β off. h β (assign-AgreeOff zs α β z false off)),
)

tally_none : (zs : List ℕ) (α : Assignment) → tally zs (λ _. false) α ≡ 0
tally_none [] α = refl
tally_none (z ∷ zs) α =
    omega (arith, tally_none zs (assign α z true), tally_none zs (assign α z false))

-- A sample gives a value to each variable of a list, in its order.
abbrev pub Names : List ℕ → List ℤ → Type 0
Names [] [] = Unit
Names (x ∷ xs) (n ∷ sample) = (abs n ≡ x + 1) × Names xs sample
Names _ _ = ⊥

-- `α` with the values of a sample.
abbrev pub along : List ℤ → Assignment → Assignment
along [] α = α
along (n ∷ sample) α = along sample (assign α (abs n - 1) (not (is_negated n)))

pub Names-IsSample :
    (xs : List ℕ) (sample : List ℤ) → Names xs sample → All (λ x. x < 2 ^ 31) xs → IsSample sample
Names-IsSample [] [] h b = tt
Names-IsSample [] (n ∷ sample) h b = absurd h
Names-IsSample (x ∷ xs) [] h b = absurd h
Names-IsSample (x ∷ xs) (n ∷ sample) (e, h) (b, bs) =
    ((omega arith, omega arith), Names-IsSample xs sample h bs)

-- Where `x` has the value `b`, a sample that begins with `x` is followed if it gives that value and
-- the rest is followed.
pub follows-cons :
    (x : ℕ) (n : ℤ) (sample : List ℤ) (b : Bool) (β : Assignment)
    → abs n ≡ x + 1
    → β x ≡ b
    → follows β (n ∷ sample) ≡ ((if is_negated n then not b else b) && follows β sample)
follows-cons x (pos zero) sample b β e f = absurd (omega arith)
follows-cons x (pos (suc m)) sample b β e f = let same : m ≡ x = omega arith in rw (same, f) refl
follows-cons x (negsuc m) sample b β e f = let same : m ≡ x = omega arith in rw (same, f) refl

AgreeOff-value :
    (zs : List ℕ) (α β : Assignment) (x : ℕ) (b : Bool)
    → ¬ Has x zs
    → AgreeOff zs (assign α x b) β
    → β x ≡ b
AgreeOff-value zs α β x b out off =
    let own : (x == x) ≡ true = (==_iff x x).1 refl in sym (off x out) ∙ rw own refl

module _ (ys : List ℕ) (test : Assignment → Bool) where
  abbrev following : List ℤ → Assignment → Bool
  following sample β = test β && follows β sample

  tally-branch :
      (x : ℕ) (zs : List ℕ) (n : ℤ) (sample : List ℤ) (b : Bool) (α : Assignment)
      → abs n ≡ x + 1
      → ¬ Has x zs
      → tally zs (following (n ∷ sample)) (assign α x b) ≡ (
          if (if is_negated n then not b else b)
          then tally zs (following sample) (assign α x b)
          else 0)
  tally-branch x zs n sample b α e out =
      let at = λ (β : Assignment) (off : AgreeOff zs (assign α x b) β).
        follows-cons x n sample b β e (AgreeOff-value zs α β x b out off) in
      elim (Bool-cases (if is_negated n then not b else b)) [
        | inl hit ↦ rw hit (
            tally_congr zs (following (n ∷ sample)) (following sample) (assign α x b)
              (λ β off. rw (at β off, hit) refl))
        | inr miss ↦ rw miss (
            tally_congr zs (following (n ∷ sample)) (λ _. false) (assign α x b)
              (λ β off. let rest = at β off in ground (arith, rest, miss))
            ∙ tally_none zs (assign α x b))
      ]

  tally-following :
      (xs : List ℕ) (sample : List ℤ) (α : Assignment)
      → Names xs sample
      → Distinct (xs ++ ys)
      → tally (xs ++ ys) (following sample) α ≡ tally ys test (along sample α)
  tally-following [] [] α h d = ap (λ t. tally ys t α) (fun_ext λ β. ground arith)
  tally-following [] (n ∷ sample) α h d = absurd h
  tally-following (x ∷ xs) [] α h d = absurd h
  tally-following (x ∷ xs) (n ∷ sample) α (e, h) (out, d) =
      let index : abs n - 1 ≡ x = omega arith in
      let high = tally-branch x (xs ++ ys) n sample true α e out in
      let low = tally-branch x (xs ++ ys) n sample false α e out in
      elim (Bool-cases (is_negated n)) [
        | inl neg ↦
            let rest = tally-following xs sample (assign α x false) h d in
            rw (high, low, neg, index) (omega (arith, rest))
        | inr neg ↦
            let rest = tally-following xs sample (assign α x true) h d in
            rw (high, low, neg, index) (omega (arith, rest))
      ]

-- Models of F with a sample are the outputs of F at the sampled input.
pub follows-outputs :
    {D L : Type 0} ⦃a : LitApi L⦄ (p : Solver D L) (sample : List ℤ) (formula : Formula L)
    (α : Assignment)
    → Perm (variables 0 p.nvars) (p.forall_vars ++ p.exists_vars)
    → Distinct (p.forall_vars ++ p.exists_vars)
    → Names p.forall_vars sample
    → ((β : Assignment) → formula_value β formula ≡ (formula_value β p.clauses && follows β sample))
    → tally (variables 0 p.nvars) (λ β. formula_value β formula) α
      ≡ outputs p.exists_vars p.clauses (along sample α)
follows-outputs p sample formula α every distinct names models =
    let xs = p.forall_vars in
    let ys = p.exists_vars in
    let test : Assignment → Bool = λ β. formula_value β p.clauses in
    perm-tally (λ β. formula_value β formula) α every
    ∙ ap (λ t. tally (xs ++ ys) t α) (fun_ext models)
    ∙ tally-following ys test xs sample α names distinct

module _ {D F L W : Type 0} ⦃a : LitApi L⦄ (laws : LitLaws L) where
  -- For literals that obey their laws, where the variables below `nvars` are those of X and Y, each
  -- once, and are literals' variables; at an iteration below 2 ^ 32 that is `k` above the last clearance,
  -- where sample `k` gives a value to each variable of X in their order: the formula is built, and the
  -- number of its models over all variables is the number of outputs of F at the sampled input.
  pub create_formula_from_sample-outputs :
      (c : Counter D F L W) (samples : List (List ℤ)) (i k : ℕ) (sample : List ℤ) (α : Assignment)
      → Perm (variables 0 c.p.nvars) (c.p.forall_vars ++ c.p.exists_vars)
      → Distinct (c.p.forall_vars ++ c.p.exists_vars)
      → All (λ x. x < 2 ^ 31) c.p.forall_vars
      → c.sample_clearance_iteration + k ≡ i
      → i < 2 ^ 32
      → get_elem? samples k ≡ some sample
      → Names c.p.forall_vars sample
      → (formula : Formula L) × (create_formula_from_sample samples i c ≡ ok formula)
        × (tally (variables 0 c.p.nvars) (λ β. formula_value β formula) α
            ≡ outputs c.p.exists_vars c.p.clauses (along sample α))
  create_formula_from_sample-outputs c samples i k sample α every distinct small e fits at_k names =
      let (formula, built, models) =
        create_formula_from_sample_models laws c samples i k sample e fits at_k
          (Names-IsSample c.p.forall_vars sample names small) in
      (formula, built, follows-outputs c.p sample formula α every distinct names models)
