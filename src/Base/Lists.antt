-- ===== src/Base/Lists.antt =====
-- Lists measured and indexed by native numbers, under the library's names.
use Prim.Native.Nat.{ℕ, zero, suc, ◌+◌, ◌-◌, ◌<◌, min}
use mathlib.Core.Path.{◌≡◌, refl, ap}
use mathlib.Core.Logic.{◌⊎◌, inl, inr}
use mathlib.Core.List.{List, [], ◌∷◌, ◌++◌}
use mathlib.Core.Option
use mathlib.Core.Option.{Option, none, some}
use native.Mathlib.Omega.{arith}
use skolemfc.Base.Tests.{◌==◌, if◌then◌else◌, Bool-cases, Option-cases, ==_iff}

module _ {ℓ} {A : Type ℓ} where
  abbrev pub length : List A → ℕ
  length [] = 0
  length (x ∷ xs) = suc (length xs)

  abbrev pub get_elem? : List A → ℕ → Option A
  get_elem? [] i = none
  get_elem? (x ∷ xs) zero = some x
  get_elem? (x ∷ xs) (suc i) = get_elem? xs i

  abbrev pub get_or : List A → ℕ → A → A
  get_or [] i d = d
  get_or (x ∷ xs) zero d = x
  get_or (x ∷ xs) (suc i) d = get_or xs i d

  abbrev pub take : ℕ → List A → List A
  take zero xs = []
  take (suc n) [] = []
  take (suc n) (x ∷ xs) = x ∷ take n xs

  abbrev pub drop : ℕ → List A → List A
  drop zero xs = xs
  drop (suc n) [] = []
  drop (suc n) (x ∷ xs) = drop n xs

  pub length-append : (xs ys : List A) → length (xs ++ ys) ≡ length xs + length ys
  length-append [] ys = omega arith
  length-append (x ∷ xs) ys = omega (arith, length-append xs ys)

  pub length-drop : (n : ℕ) (xs : List A) → length (drop n xs) ≡ length xs - n
  length-drop zero xs = omega arith
  length-drop (suc n) [] = omega arith
  length-drop (suc n) (x ∷ xs) = omega (arith, length-drop n xs)

  pub length-take : (n : ℕ) (xs : List A) → length (take n xs) ≡ min n (length xs)
  length-take zero xs = omega arith
  length-take (suc n) [] = omega arith
  length-take (suc n) (x ∷ xs) = omega (arith, length-take n xs)

  pub take-append-drop : (n : ℕ) (xs : List A) → take n xs ++ drop n xs ≡ xs
  take-append-drop zero xs = refl
  take-append-drop (suc n) [] = refl
  take-append-drop (suc n) (x ∷ xs) = ap (◌∷◌ x) (take-append-drop n xs)

  abbrev pub All {κ} : (A → Type κ) → List A → Type κ
  All P [] = Unit
  All P (x ∷ xs) = P x × All P xs

  pub All-get_elem? {κ} :
      (P : A → Type κ) (xs : List A) (i : ℕ) (x : A) → All P xs → get_elem? xs i ≡ some x → P x
  All-get_elem? P [] i x p e = cc
  All-get_elem? P (y ∷ ys) zero x (p, ps) e = let same : y ≡ x = cc in rw same at p
  All-get_elem? P (y ∷ ys) (suc i) x (p, ps) e = All-get_elem? P ys i x ps e

  pub All-append {κ} : (P : A → Type κ) (xs ys : List A) → All P xs → All P ys → All P (xs ++ ys)
  All-append P [] ys _ q = q
  All-append P (x ∷ xs) ys (p, ps) q = (p, All-append P xs ys ps q)

  pub All-imp {κ μ} :
      (P : A → Type κ) (Q : A → Type μ) (xs : List A) → ((x : A) → P x → Q x) → All P xs → All Q xs
  All-imp P Q [] f _ = tt
  All-imp P Q (x ∷ xs) f (p, ps) = (f x p, All-imp P Q xs f ps)

-- A number stands in a list.
abbrev pub Has : ℕ → List ℕ → Type 0
Has a [] = ⊥
Has a (x ∷ xs) = (x ≡ a) ⊎ Has a xs

abbrev pub Distinct : List ℕ → Type 0
Distinct [] = Unit
Distinct (x ∷ xs) = ¬ Has x xs × Distinct xs

-- The position of the first element that equals `a`: `std::find` and `std::distance`. `none` is
-- `end()`.
unfoldable pub index_of : ℕ → List ℕ → Option ℕ
index_of a [] = none
index_of a (x ∷ xs) = if x == a then some 0 else Option.map suc (index_of a xs)

pub index_of-Has : (a : ℕ) (xs : List ℕ) → Has a xs → (i : ℕ) × (index_of a xs ≡ some i)
unfolding index_of
index_of-Has a [] h = absurd h
index_of-Has a (x ∷ xs) h = elim (Bool-cases (x == a)) [
  | inl e ↦ (0, rw e)
  | inr e ↦ elim h [
    | inl p ↦ ground (arith, ==_iff x a)
    | inr p ↦ let (i, q) = index_of-Has a xs p in (suc i, rw (e, q))
  ]
]

pub index_of-some :
    (a : ℕ) (xs : List ℕ) (i : ℕ)
    → index_of a xs ≡ some i
    → (get_elem? xs i ≡ some a) × (i < length xs)
unfolding index_of
index_of-some a [] i h = cc
index_of-some a (x ∷ xs) i h = elim (Bool-cases (x == a)) [
  | inl e ↦ ground arith
  | inr e ↦ elim (Option-cases (index_of a xs)) [
    | inl q ↦ ground arith
    | inr (j, q) ↦ ground (arith, index_of-some a xs j q)
  ]
]

pub Has-get_elem? : (xs : List ℕ) (i a : ℕ) → get_elem? xs i ≡ some a → Has a xs
Has-get_elem? [] i a h = cc
Has-get_elem? (x ∷ xs) zero a h = inl (ground arith)
Has-get_elem? (x ∷ xs) (suc i) a h = inr (Has-get_elem? xs i a h)

-- In a list without repetition the first position of an element is the only one.
pub index_of-get_elem? :
    (xs : List ℕ) (i a : ℕ) → Distinct xs → get_elem? xs i ≡ some a → index_of a xs ≡ some i
unfolding index_of
index_of-get_elem? [] i a d h = cc
index_of-get_elem? (x ∷ xs) zero a d h = ground arith
index_of-get_elem? (x ∷ xs) (suc i) a d h = elim (Bool-cases (x == a)) [
  | inl e ↦ absurd (d.0 (rw ((==_iff x a).0 e) (Has-get_elem? xs i a h)))
  | inr e ↦ rw (e, index_of-get_elem? xs i a d.1 h)
]

pub get_or-get_elem? {ℓ} :
    {A : Type ℓ} (xs : List A) (i : ℕ) (d : A) {a : A} → get_elem? xs i ≡ some a → get_or xs i d ≡ a
get_or-get_elem? [] i d h = cc
get_or-get_elem? (x ∷ xs) zero d h = cc
get_or-get_elem? (x ∷ xs) (suc i) d h = get_or-get_elem? xs i d h
