-- ===== src/Skolem/Tables.antt =====
-- The number of Skolem functions is a product over the inputs.
use native.Mathlib.Nat.{pow-suc, add-mul}
use skolemfc.Base.{
  ℕ, ◌+◌, ◌*◌, ◌^◌, ◌≡◌, refl, ◌∙◌, Bool, true, false, ◌&&◌, List, [], ◌∷◌, ◌++◌, map, arith,
  length, if◌then◌else◌, Bool-cases, inl, inr,
}
use skolemfc.Lit.{LitApi}
use skolemfc.Cnf.{Assignment, Formula, formula_value}
use skolemfc.Counter.Inputs.{assign, has_output, tally}
use skolemfc.Skolem.{
  Table, leaf, node, all_values, pairs, tables, assign_all, is_skolem, number_of, skolem_count,
  product, choices,
}

module _ {A : Type 0} where
  number_of-append :
      (test : A → Bool) (xs ys : List A)
      → number_of test (xs ++ ys) ≡ number_of test xs + number_of test ys
  number_of-append test [] ys = omega arith
  number_of-append test (x ∷ xs) ys = omega (arith, number_of-append test xs ys)

  number_of-map :
      {B : Type 0} (test : A → Bool) (f : B → A) (xs : List B)
      → number_of test (map f xs) ≡ number_of (λ x. test (f x)) xs
  number_of-map test f [] = refl
  number_of-map test f (x ∷ xs) = omega (arith, number_of-map test f xs)

  number_of_all : (xs : List A) → number_of (λ _. true) xs ≡ length xs
  number_of_all [] = refl
  number_of_all (x ∷ xs) = omega (arith, number_of_all xs)

  number_of_none : (xs : List A) → number_of (λ _. false) xs ≡ 0
  number_of_none [] = refl
  number_of_none (x ∷ xs) = omega (arith, number_of_none xs)

length-all_values : (ys : List ℕ) → number_of (λ _. true) (all_values ys) ≡ 2 ^ length ys
length-all_values [] = refl
length-all_values (y ∷ ys) =
    rw
      (
        number_of-append (λ _. true) (map (◌∷◌ true) (all_values ys))
            (map (◌∷◌ false) (all_values ys)),
        number_of-map (λ _. true) (◌∷◌ true) (all_values ys),
        number_of-map (λ _. true) (◌∷◌ false) (all_values ys),
        pow-suc 2 (length ys),
      )
      (omega (arith, length-all_values ys))

number_of-node :
    (left right both : Table → Bool) (t : Table) (us : List Table)
    → ((u : Table) → both (node t u) ≡ (left t && right u))
    → number_of both (map (node t) us) ≡ (if left t then 1 else 0) * number_of right us
number_of-node left right both t [] h = omega arith
number_of-node left right both t (u ∷ us) h =
    let rest = number_of-node left right both t us h in
    elim (Bool-cases (left t)) [
      | inl e ↦ rw (h u, e) (omega (arith, rw e at rest))
      | inr e ↦ rw (h u, e) (omega (arith, rw e at rest))
    ]

-- A test of both branches of a tree.
number_of-pairs :
    (left right both : Table → Bool) (ts us : List Table)
    → ((t u : Table) → both (node t u) ≡ (left t && right u))
    → number_of both (pairs ts us) ≡ number_of left ts * number_of right us
number_of-pairs left right both [] us h = omega arith
number_of-pairs left right both (t ∷ ts) us h =
    rw
      (
        number_of-append both (map (node t) us) (pairs ts us),
        number_of-node left right both t us (h t),
        number_of-pairs left right both ts us h,
        add-mul,
      )
      refl

number_of-all_values :
    (ys : List ℕ) (test : Assignment → Bool) (α : Assignment)
    → number_of (λ bs. test (assign_all ys bs α)) (all_values ys) ≡ tally ys test α
number_of-all_values [] test α = omega arith
number_of-all_values (y ∷ ys) test α =
    let setting = λ (bs : List Bool). test (assign_all (y ∷ ys) bs α) in
    number_of-append setting (map (◌∷◌ true) (all_values ys)) (map (◌∷◌ false) (all_values ys))
    ∙ rw
        (
          number_of-map setting (◌∷◌ true) (all_values ys),
          number_of-map setting (◌∷◌ false) (all_values ys),
          number_of-all_values ys test (assign α y true),
          number_of-all_values ys test (assign α y false),
        )
        refl

module _ {L : Type 0} ⦃a : LitApi L⦄ where
  leaf-choices :
      (ys : List ℕ) (f : Formula L) (α : Assignment)
      → number_of (is_skolem [] ys f α) (map leaf (all_values ys)) ≡ choices ys f α
  leaf-choices ys f α =
      number_of-map (is_skolem [] ys f α) leaf (all_values ys)
      ∙ elim (Bool-cases (has_output ys f α)) [
        | inl e ↦ rw e (number_of-all_values ys (λ β. formula_value β f) α)
        | inr e ↦ rw e (length-all_values ys)
      ]

  -- A Skolem function is a choice for each input, each on its own.
  pub skolem_count-product :
      (xs ys : List ℕ) (f : Formula L) (α : Assignment)
      → skolem_count xs ys f α ≡ product xs (choices ys f) α
  skolem_count-product [] ys f α = leaf-choices ys f α
  skolem_count-product (x ∷ xs) ys f α =
      number_of-pairs (is_skolem xs ys f (assign α x true)) (is_skolem xs ys f (assign α x false))
        (is_skolem (x ∷ xs) ys f α) (tables xs ys) (tables xs ys) (λ t u. refl)
      ∙ rw
          (
            skolem_count-product xs ys f (assign α x true),
            skolem_count-product xs ys f (assign α x false),
          )
          refl
