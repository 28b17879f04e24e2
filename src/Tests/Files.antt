-- ===== src/Tests/Files.antt =====
-- A file system that is a function of the name, and an example of `print_cnf`.
use skolemfc.Base.{
  ℕ, ◌≡◌, ◌≢◌, refl, sym, ap, ◌∙◌, Bool, true, false, ◌&&◌, Option, none, some, List, [], ◌∷◌, ◌==◌,
  ==_iff, and-eq-true, Bool-cases, inl, inr, if◌then◌else◌,
}
use skolemfc.Outcome.{ok}
use skolemfc.Counter.Text.{cnf_text}
use skolemfc.Counter.PrintCnf.{FileApi, FileLaws, print_cnf, print_cnf-read}
use skolemfc.Tests.Packed.{packed}

abbrev same_name : List ℕ → List ℕ → Bool
same_name [] [] = true
same_name (x ∷ xs) (y ∷ ys) = x == y && same_name xs ys
same_name _ _ = false

same_name-true : (xs ys : List ℕ) → same_name xs ys ≡ true → xs ≡ ys
same_name-true [] [] e = refl
same_name-true [] (y ∷ ys) e = cc
same_name-true (x ∷ xs) [] e = cc
same_name-true (x ∷ xs) (y ∷ ys) e =
    let (h, t) = (and-eq-true _ _).0 e in
    let head : x ≡ y = (==_iff x y).0 h in rw (head, same_name-true xs ys t) refl

same_name_refl : (xs : List ℕ) → same_name xs xs ≡ true
same_name_refl [] = refl
same_name_refl (x ∷ xs) =
    let h : (x == x) ≡ true = (==_iff x x).1 refl in rw (h, same_name_refl xs) refl

abbrev Store : Type 0
Store = List ℕ → Option (List ℕ)

abbrev put : List ℕ → List ℕ → Store → Store
put name text store other = if same_name other name then some text else store other

put-other :
    (name text other : List ℕ) (store : Store)
    → other ≢ name
    → put name text store other ≡ store other
put-other name text other store h = elim (Bool-cases (same_name other name)) [
  | inl e ↦ absurd (h (same_name-true other name e))
  | inr e ↦ rw e refl
]

-- "m", whatever the template
abbrev made_name : List ℕ
made_name = b'm' ∷ []

instance abbrev files : FileApi Store
files = record { mkstemp = λ t w. some (made_name, put made_name [] w); write = put }

mkstemp-other :
    (t name other : List ℕ) (w w' : Store)
    → files.mkstemp t w ≡ some (name, w')
    → other ≢ name
    → w' other ≡ w other
mkstemp-other t name other w w' e h =
    let named : made_name ≡ name = cc in
    let stored : put made_name [] w ≡ w' = cc in
    ap (λ store. store other) (sym stored) ∙ put-other made_name [] other w (λ k. h (k ∙ named))

abbrev files_laws : FileLaws Store
files_laws = record {
  read = λ w name. w name;
  mkstemp-read = mkstemp-other;
  write-read = λ name other text w h. put-other name text other w h;
  write-same = λ name text w. rw (same_name_refl name) refl;
}

-- The store is empty at first.
print_cnf-read_example :
    (result : List ℕ) × (w' : Store) × (print_cnf {L = ℕ} 2
        ((0 ∷ 3 ∷ []) ∷ [])
        (0 ∷ [])
        (λ name. none)
      ≡ ok (result, w'))
    × (w' made_name ≡ some (cnf_text {L = ℕ} 2 ((0 ∷ 3 ∷ []) ∷ []) (0 ∷ [])))
    × (w' result ≡ none)
print_cnf-read_example =
    print_cnf-read {L = ℕ} files_laws 2 ((0 ∷ 3 ∷ []) ∷ []) (0 ∷ []) (λ name. none)
      (put made_name [] (λ name. none)) made_name refl (λ e. cc)
