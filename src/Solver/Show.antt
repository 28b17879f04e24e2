-- ===== src/Solver/Show.antt =====
-- `SklFCInt::print_formula` (src/skolemfc-int.cpp), as the text that it prints.
use skolemfc.Base.{ℕ, List, [], ◌∷◌, ◌++◌}
use skolemfc.Lit.{LitApi}
use skolemfc.Cnf.{Clause, Formula}

-- "is created formula"
abbrev pub is_created_formula : List ℕ
is_created_formula =
    b'i' ∷ b's' ∷ b' ' ∷ b'c' ∷ b'r' ∷ b'e' ∷ b'a' ∷ b't' ∷ b'e' ∷ b'd' ∷ b' ' ∷ b'f' ∷ b'o' ∷ b'r'
    ∷ b'm' ∷ b'u' ∷ b'l' ∷ b'a' ∷ []

-- "printing G formula"
abbrev pub printing_g_formula : List ℕ
printing_g_formula =
    b'p' ∷ b'r' ∷ b'i' ∷ b'n' ∷ b't' ∷ b'i' ∷ b'n' ∷ b'g' ∷ b' ' ∷ b'G' ∷ b' ' ∷ b'f' ∷ b'o' ∷ b'r'
    ∷ b'm' ∷ b'u' ∷ b'l' ∷ b'a' ∷ []

abbrev pub below : List ℕ
below = b'B' ∷ b'e' ∷ b'l' ∷ b'o' ∷ b'w' ∷ []

abbrev pub finished : List ℕ
finished = b'F' ∷ b'i' ∷ b'n' ∷ b'i' ∷ b's' ∷ b'h' ∷ b'e' ∷ b'd' ∷ []

-- A line of a comment: a word and what stands behind it.
abbrev pub commented : List ℕ → List ℕ → List ℕ
commented word line = b'c' ∷ b' ' ∷ (word ++ (b' ' ∷ (line ++ (b'\n' ∷ []))))

module _ {L : Type 0} ⦃a : LitApi L⦄ where
  -- The loop over a clause of `print_formula`.
  unfoldable pub literals_text : Clause L → List ℕ
  literals_text [] = []
  literals_text (l ∷ cl) = a.print l ++ (b' ' ∷ literals_text cl)

  -- The loop over its clauses.
  unfoldable pub print_clauses : Formula L → List ℕ
  unfolding literals_text
  print_clauses [] = []
  print_clauses (cl ∷ f) = (b'c' ∷ b' ' ∷ (literals_text cl ++ (b'\n' ∷ []))) ++ print_clauses f

  -- `print_formula`: what it prints.
  unfoldable pub print_formula : Formula L → List ℕ
  unfolding print_clauses
  print_formula f =
      commented below is_created_formula
      ++ (print_clauses f ++ commented finished printing_g_formula)
