-- ===== src/Skolem.antt =====
-- What the program is to count, described apart from it: the Skolem functions of a formula F over
-- inputs X and outputs Y. A function gives a value of Y to each value of X, and it is a Skolem function
-- if that value satisfies F wherever some value does.
pub mod Tables
pub mod Outputs
pub mod Product
pub mod Counts
pub mod Sample
pub mod Sampled
pub mod Rounds
pub mod Promises
pub mod Loop
pub mod Read
pub mod Specification
pub mod GCount
pub mod Ending
pub mod Estimate
pub mod Lower
pub mod Printed
pub mod Main
pub mod MainLower
use skolemfc.Base.{
  ℕ, ◌+◌, ◌*◌, ◌^◌, Bool, true, false, ◌&&◌, List, [], ◌∷◌, ◌++◌, map, length, if◌then◌else◌,
}
use skolemfc.Lit.{LitApi}
use skolemfc.Cnf.{Assignment, Formula, formula_value}
use skolemfc.Counter.Inputs.{assign, has_output, tally}
use skolemfc.Counter.Outputs.{two_outputs}

-- A function of the inputs, as the tree of its values: the left branch is for `true`.
pub data Table : Type 0 where
  leaf : List Bool → Table
  node : Table → Table → Table

abbrev pub all_values : List ℕ → List (List Bool)
all_values [] = [] ∷ []
all_values (y ∷ ys) = map (◌∷◌ true) (all_values ys) ++ map (◌∷◌ false) (all_values ys)

abbrev pub pairs : List Table → List Table → List Table
pairs [] us = []
pairs (t ∷ ts) us = map (node t) us ++ pairs ts us

-- Every function from the values of `xs` to the values of `ys`.
abbrev pub tables : List ℕ → List ℕ → List Table
tables [] ys = map leaf (all_values ys)
tables (x ∷ xs) ys = pairs (tables xs ys) (tables xs ys)

-- `α` with `ys` set to the values of a list.
abbrev pub assign_all : List ℕ → List Bool → Assignment → Assignment
assign_all (y ∷ ys) (b ∷ bs) α = assign_all ys bs (assign α y b)
assign_all _ _ α = α

module _ {L : Type 0} ⦃a : LitApi L⦄ where
  abbrev pub is_skolem : List ℕ → List ℕ → Formula L → Assignment → Table → Bool
  is_skolem [] ys f α (leaf bs) =
      if has_output ys f α then formula_value (assign_all ys bs α) f else true
  is_skolem (x ∷ xs) ys f α (node t u) =
      is_skolem xs ys f (assign α x true) t && is_skolem xs ys f (assign α x false) u
  is_skolem _ ys f α _ = false

  -- The number of values of `ys` that satisfy the formula.
  abbrev pub outputs : List ℕ → Formula L → Assignment → ℕ
  outputs ys f = tally ys (λ β. formula_value β f)

  -- How many values of `ys` a Skolem function may take.
  abbrev pub choices : List ℕ → Formula L → Assignment → ℕ
  choices ys f α = if has_output ys f α then outputs ys f α else 2 ^ length ys

  -- The outputs of an input that has two of them or more.
  abbrev pub many : List ℕ → Formula L → Assignment → ℕ
  many ys f α = if two_outputs ys f α then outputs ys f α else 1

-- How many entries of a list pass a test.
abbrev pub number_of : {A : Type 0} → (A → Bool) → List A → ℕ
number_of test [] = 0
number_of test (x ∷ xs) = (if test x then 1 else 0) + number_of test xs

abbrev pub skolem_count : {L : Type 0} ⦃a : LitApi L⦄ → List ℕ → List ℕ → Formula L → Assignment → ℕ
skolem_count xs ys f α = number_of (is_skolem xs ys f α) (tables xs ys)

-- The product of a number over the values of `xs`.
abbrev pub product : List ℕ → (Assignment → ℕ) → Assignment → ℕ
product [] weight α = weight α
product (x ∷ xs) weight α =
    product xs weight (assign α x true) * product xs weight (assign α x false)
