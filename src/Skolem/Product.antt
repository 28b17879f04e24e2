-- ===== src/Skolem/Product.antt =====
-- The product over the inputs, split into those without an output and those with two or more.
use mathlib.Core.Path.{fun_ext}
use native.Mathlib.Nat.{
  pow-zero, pow-suc, mul-mul-mul_comm, mul-le-mul, mul_assoc, add-mul, mul-one, one-mul,
}
use skolemfc.Base.{
  ℕ, zero, suc, ◌+◌, ◌*◌, ◌^◌, ◌≤◌, ◌≡◌, refl, ap, ◌∙◌, inl, inr, Bool, true, false, not, List, [],
  ◌∷◌, arith, length, leb, if◌then◌else◌, Distinct, Bool-cases,
}
use skolemfc.Lit.{LitApi}
use skolemfc.Cnf.{Assignment, Formula, formula_value}
use skolemfc.Counter.Inputs.{assign, has_output, tally, tally_complement}
use skolemfc.Counter.Outputs.{two_outputs}
use skolemfc.Skolem.{outputs, choices, many, product, skolem_count}
use skolemfc.Skolem.Tables.{skolem_count-product}
use skolemfc.Skolem.Outputs.{has_output-outputs, two_outputs-outputs}

pub pow-add : (b m n : ℕ) → b ^ (m + n) ≡ b ^ m * b ^ n
pow-add b m zero =
    let end : m + zero ≡ m = omega arith in rw (end, pow-zero b, mul-one (b ^ m)) refl
pow-add b m (suc n) =
    let step : m + suc n ≡ suc (m + n) = omega arith in
    rw (step, pow-suc b n, pow-suc b (m + n), pow-add b m n) (mul_assoc _ _ _)

product-mul :
    (xs : List ℕ) (u v : Assignment → ℕ) (α : Assignment)
    → product xs (λ β. u β * v β) α ≡ product xs u α * product xs v α
product-mul [] u v α = refl
product-mul (x ∷ xs) u v α =
    rw (product-mul xs u v (assign α x true), product-mul xs u v (assign α x false))
      (mul-mul-mul_comm _ _ _ _)

product-le :
    (xs : List ℕ) (u v : Assignment → ℕ) (α : Assignment)
    → ((β : Assignment) → u β ≤ v β)
    → product xs u α ≤ product xs v α
product-le [] u v α h = h α
product-le (x ∷ xs) u v α h =
    mul-le-mul (product-le xs u v (assign α x true) h) (product-le xs u v (assign α x false) h)

-- `2 ^ k` for each input that passes a test.
abbrev power_where : ℕ → (Assignment → Bool) → Assignment → ℕ
power_where k test β = if test β then 2 ^ k else 1

product-power_where :
    (xs : List ℕ) (k : ℕ) (test : Assignment → Bool) (α : Assignment)
    → product xs (power_where k test) α ≡ 2 ^ (tally xs test α * k)
product-power_where [] k test α = elim (Bool-cases (test α)) [
  | inl e ↦ rw (e, one-mul k) refl
  | inr e ↦ let nothing : 0 * k ≡ 0 = omega arith in rw (e, nothing) refl
]
product-power_where (x ∷ xs) k test α =
    let t = tally xs test (assign α x true) in
    let u = tally xs test (assign α x false) in
    let split : (t + u) * k ≡ t * k + u * k = add-mul t u k in
    rw
      (
        product-power_where xs k test (assign α x true),
        product-power_where xs k test (assign α x false),
        split,
        pow-add 2 (t * k) (u * k),
      )
      refl

factor :
    (n p : ℕ)
    → (if leb 1 n then n else p) ≡ (if not (leb 1 n) then p else 1) * (if leb 2 n then n else 1)
factor zero p = omega arith
factor (suc zero) p = refl
factor (suc (suc n)) p =
    let one : leb 1 (suc (suc n)) ≡ true = ground arith in
    let two : leb 2 (suc (suc n)) ≡ true = ground arith in rw (one, two) (omega arith)

module _ {L : Type 0} ⦃a : LitApi L⦄ (ys : List ℕ) (f : Formula L) (distinct : Distinct ys) where
  outputs_le : (β : Assignment) → outputs ys f β ≤ 2 ^ length ys
  outputs_le β = omega (arith, tally_complement ys (λ γ. formula_value γ f) β)

  choices-many :
      (β : Assignment)
      → choices ys f β ≡ power_where (length ys) (λ γ. not (has_output ys f γ)) β * many ys f β
  choices-many β =
      let one = has_output-outputs ys f β in
      let two = two_outputs-outputs ys f β distinct in
      rw (one, two) (factor (outputs ys f β) (2 ^ length ys))

  many_ge : (β : Assignment) → power_where 1 (two_outputs ys f) β ≤ many ys f β
  many_ge β = ground (arith, two_outputs-outputs ys f β distinct)

  many_le : (β : Assignment) → many ys f β ≤ power_where (length ys) (two_outputs ys f) β
  many_le β = ground (arith, outputs_le β)

module _ {L : Type 0} ⦃a : LitApi L⦄ (xs ys : List ℕ) (f : Formula L) (distinct : Distinct ys)
    (α : Assignment) where
  -- The inputs without an output take any value, and the inputs with one take that one.
  pub skolem_count-many :
      skolem_count xs ys f α
      ≡ 2 ^ (tally xs (λ β. not (has_output ys f β)) α * length ys) * product xs (many ys f) α
  skolem_count-many =
      let none = λ (β : Assignment). not (has_output ys f β) in
      let same : choices ys f ≡ (λ β. power_where (length ys) none β * many ys f β) =
        fun_ext (choices-many ys f distinct) in
      skolem_count-product xs ys f α
      ∙ ap (λ w. product xs w α) same
      ∙ product-mul xs (power_where (length ys) none) (many ys f) α
      ∙ rw (product-power_where xs (length ys) none α) refl

  pub many-bounds :
      let two = tally xs (two_outputs ys f) α in
      (2 ^ two ≤ product xs (many ys f) α) × (product xs (many ys f) α ≤ 2 ^ (two * length ys))
  many-bounds =
      let below = product-le xs _ _ α (many_ge ys f distinct) in
      let above = product-le xs _ _ α (many_le ys f distinct) in
      (
        rw (product-power_where xs 1 (two_outputs ys f) α, mul-one) at below,
        rw (product-power_where xs (length ys) (two_outputs ys f) α) at above,
      )
