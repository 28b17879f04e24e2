-- ===== src/Counter/Sample.antt =====
-- `create_formula_from_sample`: F under the values that a sample gives to X.
use skolemfc.Base.{
  ℕ, zero, suc, ◌+◌, ◌-◌, ◌^◌, ◌<◌, ◌≤◌, ◌≡◌, Bool, true, false, not, ◌&&◌, none, some, List, [],
  ◌∷◌, ◌++◌, arith, get_elem?, u32, All, if◌then◌else◌,
}
use skolemfc.Base.Int.{ℤ, pos, negsuc, abs}
use skolemfc.Lit.{LitApi, LitLaws}
use skolemfc.Cnf.{Formula, Assignment, lit_value, formula_value, formula_value-append}
use skolemfc.Outcome.{Outcome, ok, out_of_range, ◌>>=◌}
use skolemfc.Counter.{Counter}

-- `-int_lit - 1` or `int_lit - 1`, as a uint32_t.
abbrev pub var_index : ℤ → ℕ
var_index (negsuc n) = u32 n
var_index (pos zero) = 2 ^ 32 - 1
var_index (pos (suc n)) = u32 n

abbrev pub is_negated : ℤ → Bool
is_negated (negsuc n) = true
is_negated (pos n) = false

-- `samples[i]`, which is not checked.
unfoldable pub at : {A : Type 0} → List A → ℕ → Outcome A
at xs i = elim (get_elem? xs i) [ none ↦ out_of_range | some x ↦ ok x ]

module _ {L : Type 0} ⦃a : LitApi L⦄ where
  open a use {mk, neg}

  abbrev pub literal_of : ℤ → L
  literal_of n = if is_negated n then neg (mk (var_index n) false) else mk (var_index n) false

  -- The loop over the sample, on the formula being built.
  unfoldable pub add_units : List ℤ → Formula L → Formula L
  add_units [] formula = formula
  add_units (n ∷ sample) formula = add_units sample (formula ++ ((literal_of n ∷ []) ∷ []))

  -- `sample_num` is an int, `sample_clearance_iteration` a uint32_t, and so is their difference.
  unfoldable pub create_formula_from_sample :
      {D F W : Type 0} → List (List ℤ) → ℕ → Counter D F L W → Outcome (Formula L)
  unfolding at add_units
  create_formula_from_sample samples sample_num c =
      at samples (u32 (u32 sample_num + 2 ^ 32 - c.sample_clearance_iteration)) >>= λ sample.
      ok (add_units sample c.p.clauses)

-- What a sample says of an assignment: `n` that variable n - 1 is true, `-n` that it is false.
abbrev pub follows : Assignment → List ℤ → Bool
follows α [] = true
follows α (pos zero ∷ sample) = false
follows α (pos (suc n) ∷ sample) = α n && follows α sample
follows α (negsuc n ∷ sample) = not (α n) && follows α sample

-- The literals of a sample name variables.
abbrev pub IsSample : List ℤ → Type 0
IsSample = All (λ n. (0 < abs n) × (abs n ≤ 2 ^ 31))

module _ {L : Type 0} ⦃a : LitApi L⦄ (laws : LitLaws L) where
  open a use {mk, neg}
  open laws use {var-mk, sign-mk, var-neg, sign-neg}

  lit_value-literal_of :
      (α : Assignment) (n : ℤ) (sample : List ℤ)
      → 0 < abs n
      → abs n ≤ 2 ^ 31
      → (lit_value {L = L} α (literal_of n) && follows α sample) ≡ follows α (n ∷ sample)
  lit_value-literal_of α (pos zero) sample h k = absurd (omega arith)
  lit_value-literal_of α (pos (suc n)) sample h k =
      let e : u32 n ≡ n = omega arith in rw (e, sign-mk n false, var-mk n false (omega arith))
  lit_value-literal_of α (negsuc n) sample h k =
      let e : u32 n ≡ n = omega arith in
      rw (e, sign-neg, sign-mk n false, var-neg, var-mk n false (omega arith))

  pub add_units_value :
      (α : Assignment) (sample : List ℤ) (formula : Formula L)
      → IsSample sample
      → formula_value α (add_units sample formula) ≡ (formula_value α formula && follows α sample)
  unfolding add_units
  add_units_value α [] formula h = ground arith
  add_units_value α (n ∷ sample) formula (p, ps) = ground (
    arith,
    add_units_value α sample (formula ++ ((literal_of n ∷ []) ∷ [])) ps,
    formula_value-append α formula ((literal_of n ∷ []) ∷ []),
    lit_value-literal_of α n sample p.0 p.1,
  )

  -- For literals that obey their laws, at an iteration below 2 ^ 32 that is `k` above the last
  -- clearance, where sample `k` exists and its literals name variables: the formula is built, and it
  -- holds under exactly those assignments that satisfy F and follow the sample.
  pub create_formula_from_sample_models :
      {D F W : Type 0} (c : Counter D F L W) (samples : List (List ℤ)) (i k : ℕ) (sample : List ℤ)
      → c.sample_clearance_iteration + k ≡ i
      → i < 2 ^ 32
      → get_elem? samples k ≡ some sample
      → IsSample sample
      → (formula : Formula L) × (create_formula_from_sample samples i c ≡ ok formula)
        × ((α : Assignment)
            → formula_value α formula ≡ (formula_value α c.p.clauses && follows α sample))
  unfolding create_formula_from_sample
  create_formula_from_sample_models c samples i k sample e small at_k h =
      let index : u32 (u32 i + 2 ^ 32 - c.sample_clearance_iteration) ≡ k = omega arith in
      (
        add_units sample c.p.clauses,
        rw (index, at_k, at),
        λ α. add_units_value α sample c.p.clauses h,
      )
