-- ===== src/Parser/Format.antt =====
-- The format that the parser reads, described apart from it: a text for a formula with its two
-- quantifier blocks, and what the input buffer does on such a text.
use skolemfc.Base.{
  ℕ, ◌+◌, ◌^◌, ◌<◌, ◌≡◌, Bool, false, ◌&&◌, ◌||◌, Option, none, some, List, [], ◌∷◌, ◌++◌, All, leb,
  ◌==◌, length, if◌then◌else◌,
}
use skolemfc.Base.Int.{pos, negsuc}
use skolemfc.Lit.{LitApi}
use skolemfc.Cnf.{Formula}
use skolemfc.Stream.{StreamApi}
use skolemfc.Counter.Text.{decimal, p_cnf, newline, clauses_text, IsLine}

abbrev pub is_digit : ℕ → Bool
is_digit b = leb b'0' b && leb b b'9'

abbrev pub is_blank : ℕ → Bool
is_blank b = b == b' ' || b == b'\t' || b == b'\r'

abbrev pub head : List ℕ → Option ℕ
head [] = none
head (b ∷ bs) = some b

-- One space, or nothing.
abbrev pub lead : Bool → List ℕ
lead b = if b then b' ' ∷ [] else []

-- What the buffer does, told by the bytes that are left. A number and a word are read up to the byte
-- that ends them, behind at most one space.
pub record StreamText (C : Type 0) ⦃s : StreamApi C⦄ : Type 0 where
  pub contents : C → List ℕ
  pub peek-contents : (c : C) → s.peek c ≡ head (contents c)
  pub next-contents :
      (c : C) (b : ℕ) (rest : List ℕ) → contents c ≡ b ∷ rest → contents (s.next c) ≡ rest
  pub skip_whitespace-contents :
      (c : C) (b : Bool) (x : ℕ) (rest : List ℕ)
      → contents c ≡ lead b ++ (x ∷ rest)
      → is_blank x ≡ false
      → contents (s.skip_whitespace c) ≡ x ∷ rest
  pub skip_whitespace-end : (c : C) → contents c ≡ [] → contents (s.skip_whitespace c) ≡ []
  pub skip_line-contents :
      (c : C) (line rest : List ℕ)
      → contents c ≡ line ++ (newline ∷ rest)
      → IsLine line
      → contents (s.skip_line c) ≡ rest
  pub skip_eol-contents :
      (c : C) (rest : List ℕ)
      → contents c ≡ newline ∷ rest
      → (c' : C) × (s.skip_eol c ≡ some c') × (contents c' ≡ rest)
  pub parse_string-contents :
      (c : C) (b : Bool) (x : ℕ) (word rest : List ℕ)
      → contents c ≡ lead b ++ (x ∷ (word ++ (b' ' ∷ rest)))
      → All (λ y. (is_blank y || y == newline) ≡ false) (x ∷ word)
      → ((s.parse_string c).0 ≡ x ∷ word) × (contents (s.parse_string c).1 ≡ b' ' ∷ rest)
  pub parse_int-pos :
      (c : C) (b : Bool) (n stop : ℕ) (rest : List ℕ)
      → contents c ≡ lead b ++ (decimal n ++ (stop ∷ rest))
      → n < 2 ^ 31
      → is_digit stop ≡ false
      → (c' : C) × (s.parse_int c ≡ some (pos n, c')) × (contents c' ≡ stop ∷ rest)
  pub parse_int-negsuc :
      (c : C) (b : Bool) (n stop : ℕ) (rest : List ℕ)
      → contents c ≡ lead b ++ (b'-' ∷ (decimal (n + 1) ++ (stop ∷ rest)))
      → n + 1 < 2 ^ 31
      → is_digit stop ≡ false
      → (c' : C) × (s.parse_int c ≡ some (negsuc n, c')) × (contents c' ≡ stop ∷ rest)

-- A literal is its variable and its sign, and `<<` prints it as in DIMACS.
pub record LitText (L : Type 0) ⦃a : LitApi L⦄ : Type 0 where
  pub mk-var : (l : L) → a.var l < 2 ^ 31 → a.mk (a.var l) (a.sign l) ≡ l
  pub print-var :
      (l : L)
      → a.print l ≡ (if a.sign l then b'-' ∷ decimal (a.var l + 1) else decimal (a.var l + 1))

-- The rest of a quantifier line, behind its letter.
abbrev pub vars_text : List ℕ → List ℕ
vars_text [] = b' ' ∷ b'0' ∷ newline ∷ []
vars_text (v ∷ vs) = b' ' ∷ (decimal (v + 1) ++ vars_text vs)

-- A formula over `n` variables with inputs `xs` and outputs `ys`.
abbrev pub qdimacs : {L : Type 0} ⦃a : LitApi L⦄ → ℕ → List ℕ → List ℕ → Formula L → List ℕ
qdimacs n xs ys f =
    p_cnf
    ++ (decimal n
        ++ (b' '
            ∷ (decimal (length f)
                ++ (newline
                    ∷ (b'a' ∷ (vars_text xs ++ (b'e' ∷ (vars_text ys ++ clauses_text f))))))))
