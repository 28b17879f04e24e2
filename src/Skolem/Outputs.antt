-- ===== src/Skolem/Outputs.antt =====
-- The tests of an input for one and for two outputs, as numbers of outputs.
use skolemfc.Base.{
  ℕ, ◌≤◌, ◌≡◌, refl, sym, ap, ◌∙◌, inl, inr, Bool, true, false, not, List, [], ◌∷◌, arith, leb,
  ◌==◌, Distinct, Bool-cases, and-eq-true, ==_iff,
}
use skolemfc.Lit.{LitApi}
use skolemfc.Cnf.{Assignment, Formula, formula_value, AgreeOff, DifferOn}
use skolemfc.Counter.Inputs.{assign, has_output, tally}
use skolemfc.Counter.Outputs.{
  some_values, two_outputs, has_output-some_values, assign-AgreeOff, AgreeOff-assign,
  some_values_sound, some_values_complete, differ_on-DifferOn, DifferOn-differ_on, same_truth,
}
use skolemfc.Skolem.{outputs}

some_values-tally :
    (ys : List ℕ) (test : Assignment → Bool) (α : Assignment)
    → some_values ys test α ≡ leb 1 (tally ys test α)
some_values-tally [] test α = ground arith
some_values-tally (y ∷ ys) test α = ground (
  arith,
  some_values-tally ys test (assign α y true),
  some_values-tally ys test (assign α y false),
)

one_value :
    (ys : List ℕ) (test : Assignment → Bool) (α β : Assignment)
    → AgreeOff ys α β
    → test β ≡ true
    → 1 ≤ tally ys test α
one_value ys test α β off t =
    let some = some_values_complete ys test α β off t in
    let same = some_values-tally ys test α in ground (arith, sym same ∙ some)

-- Two values that pass, and where they differ.
abbrev Apart : List ℕ → (Assignment → Bool) → Assignment → Type 0
Apart ys test α =
    (β : Assignment) × (γ : Assignment) × AgreeOff ys α β
    × AgreeOff ys α γ
    × (test β ≡ true)
    × (test γ ≡ true)
    × DifferOn ys β γ

AgreeOff-at :
    (ys : List ℕ) (α β : Assignment) (y : ℕ) (b : Bool)
    → AgreeOff (y ∷ ys) α β
    → β y ≡ b
    → AgreeOff ys (assign α y b) β
AgreeOff-at ys α β y b off e = rw e at (AgreeOff-assign ys α β y off)

never_own_not : (b c d : Bool) → b ≡ c → b ≡ not d → c ≡ d → ⊥
never_own_not true c true e f g = cc
never_own_not true c false e f g = cc
never_own_not false c true e f g = cc
never_own_not false c false e f g = cc

DifferOn-tail :
    (y : ℕ) (ys : List ℕ) (b : Bool) (β γ : Assignment)
    → β y ≡ b
    → γ y ≡ b
    → DifferOn (y ∷ ys) β γ
    → DifferOn ys β γ
DifferOn-tail y ys b β γ e f (z, inl same, d) =
    absurd (never_own_not (β z) b (γ z) (ap β (sym same) ∙ e) d (sym f ∙ ap γ same))
DifferOn-tail y ys b β γ e f (z, inr h, d) = (z, h, d)

Apart-tally :
    (ys : List ℕ) (test : Assignment → Bool) (α : Assignment)
    → Apart ys test α
    → 2 ≤ tally ys test α
Apart-tally [] test α (β, γ, o, p, t, u, (z, h, d)) = absurd h
Apart-tally (y ∷ ys) test α (β, γ, o, p, t, u, d) = elim (Bool-cases (β y)) [
  | inl b ↦ elim (Bool-cases (γ y)) [
    | inl c ↦
        let more = Apart-tally ys test (assign α y true) (
          β,
          γ,
          AgreeOff-at ys α β y true o b,
          AgreeOff-at ys α γ y true p c,
          t,
          u,
          DifferOn-tail y ys true β γ b c d,
        ) in
        omega arith
    | inr c ↦
        let one = one_value ys test (assign α y true) β (AgreeOff-at ys α β y true o b) t in
        let two = one_value ys test (assign α y false) γ (AgreeOff-at ys α γ y false p c) u in
        omega arith
  ]
  | inr b ↦ elim (Bool-cases (γ y)) [
    | inl c ↦
        let one = one_value ys test (assign α y true) γ (AgreeOff-at ys α γ y true p c) u in
        let two = one_value ys test (assign α y false) β (AgreeOff-at ys α β y false o b) t in
        omega arith
    | inr c ↦
        let more = Apart-tally ys test (assign α y false) (
          β,
          γ,
          AgreeOff-at ys α β y false o b,
          AgreeOff-at ys α γ y false p c,
          t,
          u,
          DifferOn-tail y ys false β γ b c d,
        ) in
        omega arith
  ]
]

tally-Apart :
    (ys : List ℕ) (test : Assignment → Bool) (α : Assignment)
    → Distinct ys
    → 2 ≤ tally ys test α
    → Apart ys test α
tally-Apart [] test α distinct h = absurd (ground arith)
tally-Apart (y ∷ ys) test α (new, distinct) h =
    elim (Bool-cases (leb 2 (tally ys test (assign α y true)))) [
      | inl e ↦
          let (β, γ, o, p, t, u, (z, k, d)) =
            tally-Apart ys test (assign α y true) distinct (ground arith) in
          (
            β,
            γ,
            assign-AgreeOff ys α β y true o,
            assign-AgreeOff ys α γ y true p,
            t,
            u,
            (z, inr k, d),
          )
      | inr e ↦ elim (Bool-cases (leb 2 (tally ys test (assign α y false)))) [
        | inl f ↦
            let (β, γ, o, p, t, u, (z, k, d)) =
              tally-Apart ys test (assign α y false) distinct (ground arith) in
            (
              β,
              γ,
              assign-AgreeOff ys α β y false o,
              assign-AgreeOff ys α γ y false p,
              t,
              u,
              (z, inr k, d),
            )
        | inr f ↦
            let some = some_values-tally ys test (assign α y true) in
            let other = some_values-tally ys test (assign α y false) in
            let (β, o, t) = some_values_sound ys test (assign α y true) (some ∙ ground arith) in
            let (γ, p, u) = some_values_sound ys test (assign α y false) (other ∙ ground arith) in
            let own : (y == y) ≡ true = (==_iff y y).1 refl in
            let high : β y ≡ true = sym (o y new) ∙ rw own refl in
            let low : γ y ≡ false = sym (p y new) ∙ rw own refl in
            (
              β,
              γ,
              assign-AgreeOff ys α β y true o,
              assign-AgreeOff ys α γ y false p,
              t,
              u,
              (y, inl refl, high ∙ rw low refl),
            )
      ]
    ]

module _ {L : Type 0} ⦃a : LitApi L⦄ where
  pub has_output-outputs :
      (ys : List ℕ) (f : Formula L) (α : Assignment) → has_output ys f α ≡ leb 1 (outputs ys f α)
  has_output-outputs ys f α =
      has_output-some_values ys f α ∙ some_values-tally ys (λ β. formula_value β f) α

  two_outputs-Apart :
      (ys : List ℕ) (f : Formula L) (α : Assignment)
      → two_outputs ys f α ≡ true
      → Apart ys (λ β. formula_value β f) α
  two_outputs-Apart ys f α e =
      let (β, o, both) = some_values_sound ys _ α e in
      let (t, inner) = (and-eq-true _ _).0 both in
      let (γ, p, both') = some_values_sound ys _ β inner in
      let (u, d) = (and-eq-true _ _).0 both' in
      (β, γ, o, (λ v h. o v h ∙ p v h), t, u, differ_on-DifferOn ys β γ d)

  Apart-two_outputs :
      (ys : List ℕ) (f : Formula L) (α : Assignment)
      → Apart ys (λ β. formula_value β f) α
      → two_outputs ys f α ≡ true
  Apart-two_outputs ys f α (β, γ, o, p, t, u, (y, h, d)) =
      let differ = DifferOn-differ_on ys β γ y h d in
      some_values_complete ys _ α β o
        (rw t (some_values_complete ys _ β γ (λ v k. sym (o v k) ∙ p v k) (rw (u, differ) refl)))

  pub two_outputs-outputs :
      (ys : List ℕ) (f : Formula L) (α : Assignment)
      → Distinct ys
      → two_outputs ys f α ≡ leb 2 (outputs ys f α)
  two_outputs-outputs ys f α distinct =
      same_truth _ _
        (λ e. let two = Apart-tally ys _ α (two_outputs-Apart ys f α e) in ground (arith, two))
        (λ e. Apart-two_outputs ys f α (tally-Apart ys _ α distinct (ground (arith, e))))
