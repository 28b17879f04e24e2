-- ===== src/Counter/Text.antt =====
-- The text that `count_using_ganak` and `print_cnf` write, and the line of Ganak's output that
-- `count_using_ganak` reads.
use mathlib.Core.List.{append-nil, append_assoc}
use skolemfc.Base.{
  ℕ, zero, suc, ◌+◌, ◌/◌, ◌%◌, ◌≡◌, ap, ◌∙◌, false, Option, none, some, List, [], ◌∷◌, ◌++◌, arith,
  length, u32, All, All-append, if◌then◌else◌, ltb, ◌==◌,
}
use skolemfc.Lit.{LitApi}
use skolemfc.Cnf.{Clause, Formula}

abbrev pub newline : ℕ
newline = b'\n'

-- `<<` on an unsigned number. The fuel is one more than the number.
unfoldable pub decimal_onto : ℕ → ℕ → List ℕ → List ℕ
decimal_onto zero n acc = acc
decimal_onto (suc fuel) n acc =
    let digit = b'0' + n % 10 in
    let more = decimal_onto fuel (n / 10) (digit ∷ acc) in if ltb n 10 then digit ∷ acc else more

unfoldable pub decimal : ℕ → List ℕ
unfolding decimal_onto
decimal n = decimal_onto (suc n) n []

-- "p cnf "
abbrev pub p_cnf : List ℕ
p_cnf = b'p' ∷ b' ' ∷ b'c' ∷ b'n' ∷ b'f' ∷ b' ' ∷ []

-- "c p show"
abbrev pub c_p_show : List ℕ
c_p_show = b'c' ∷ b' ' ∷ b'p' ∷ b' ' ∷ b's' ∷ b'h' ∷ b'o' ∷ b'w' ∷ []

-- "c s exact arb int "
abbrev pub count_line : List ℕ
count_line =
    b'c' ∷ b' ' ∷ b's' ∷ b' ' ∷ b'e' ∷ b'x' ∷ b'a' ∷ b'c' ∷ b't' ∷ b' ' ∷ b'a' ∷ b'r' ∷ b'b' ∷ b' '
    ∷ b'i' ∷ b'n' ∷ b't' ∷ b' ' ∷ []

-- The loop over the projection variables.
unfoldable pub show_vars : List ℕ → List ℕ
unfolding decimal
show_vars [] = []
show_vars (v ∷ vs) = (b' ' ∷ decimal (u32 (v + 1))) ++ show_vars vs

unfoldable pub show_line : List ℕ → List ℕ
unfolding show_vars
show_line [] = []
show_line (v ∷ vs) = c_p_show ++ (show_vars (v ∷ vs) ++ (b' ' ∷ b'0' ∷ newline ∷ []))

module _ {L : Type 0} ⦃a : LitApi L⦄ where
  unfoldable pub clause_text : Clause L → List ℕ
  clause_text [] = b'0' ∷ newline ∷ []
  clause_text (l ∷ c) = a.print l ++ (b' ' ∷ clause_text c)

  unfoldable pub clauses_text : Formula L → List ℕ
  unfolding clause_text
  clauses_text [] = []
  clauses_text (c ∷ f) = clause_text c ++ clauses_text f

  -- `cnfContent`.
  unfoldable pub cnf_text : ℕ → Formula L → List ℕ → List ℕ
  unfolding decimal show_line clauses_text
  cnf_text nvars f projection =
      (p_cnf ++ (decimal nvars ++ (b' ' ∷ (decimal (length f) ++ (newline ∷ [])))))
      ++ (show_line projection ++ clauses_text f)

-- `getline`: the lines of a text, the last of them with or without its end.
abbrev last_line : List ℕ → List (List ℕ)
last_line [] = []
last_line (b ∷ line) = (b ∷ line) ∷ []

unfoldable pub lines_from : List ℕ → List ℕ → List (List ℕ)
lines_from line [] = last_line line
lines_from line (c ∷ text) =
    let more = line ∷ lines_from [] text in
    let same = lines_from (line ++ (c ∷ [])) text in if c == newline then more else same

unfoldable pub lines : List ℕ → List (List ℕ)
unfolding lines_from
lines = lines_from []

-- What stands behind a prefix: `rfind(prefix, 0) == 0` and `substr(strlen(prefix))`.
unfoldable pub strip : List ℕ → List ℕ → Option (List ℕ)
strip [] text = some text
strip (c ∷ prefix) [] = none
strip (c ∷ prefix) (b ∷ text) = let rest = strip prefix text in if c == b then rest else none

-- The loop over the lines: the number behind the first count line.
unfoldable pub find_count : List (List ℕ) → Option (List ℕ)
unfolding strip
find_count [] = none
find_count (line ∷ more) =
    let rest = find_count more in
    elim (strip count_line line) [ none ↦ rest | some number ↦ some number ]

-- No byte of a line ends it, and no line of the first part is a count line.
abbrev pub IsLine : List ℕ → Type 0
IsLine = All (λ c. (c == newline) ≡ false)

abbrev pub HasNoCount : List (List ℕ) → Type 0
HasNoCount = All (λ line. strip count_line line ≡ none)

abbrev pub unlines : List (List ℕ) → List ℕ
unlines [] = []
unlines (l ∷ ls) = l ++ (newline ∷ unlines ls)

lines_from-IsLine :
    (line done rest : List ℕ)
    → IsLine line
    → lines_from done (line ++ (newline ∷ rest)) ≡ (done ++ line) ∷ lines rest
unfolding lines_from lines
lines_from-IsLine [] done rest h = rw append-nil
lines_from-IsLine (c ∷ line) done rest (p, ps) =
    rw (p, lines_from-IsLine line (done ++ (c ∷ [])) rest ps) (rw append_assoc)

lines-IsLine :
    (line rest : List ℕ) → IsLine line → lines (line ++ (newline ∷ rest)) ≡ line ∷ lines rest
unfolding lines
lines-IsLine line rest h = lines_from-IsLine line [] rest h

count_line-IsLine : IsLine count_line
count_line-IsLine = ground arith

-- In an output of lines of which the first ones are no count lines and the next one is, followed by
-- anything: what is found is the text behind that count line's prefix.
pub find_count_lem :
    (before : List (List ℕ)) (number rest : List ℕ)
    → All IsLine before
    → HasNoCount before
    → IsLine number
    → find_count (lines (unlines before ++ ((count_line ++ number) ++ (newline ∷ rest))))
      ≡ some number
unfolding find_count
find_count_lem [] number rest h n k = rw (
    lines-IsLine (count_line ++ number) rest
      (All-append (λ c. (c == newline) ≡ false) count_line number count_line-IsLine k))
find_count_lem (l ∷ before) number rest h n k =
    ap find_count (ap lines (append_assoc l (newline ∷ unlines before) _) ∙ lines-IsLine l _ h.0)
    ∙ rw (n.0, find_count) (find_count_lem before number rest h.1 n.1 k)
