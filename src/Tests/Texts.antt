-- ===== src/Tests/Texts.antt =====
-- Examples of a text that is refused, by the parser and by `main`, of a run that aborts, and of the
-- texts that the code writes.
use skolemfc.Base.{ℕ, ◌≡◌, refl, true, List, [], ◌∷◌, ◌++◌, u64, ◌+◌, Option, some, arith}
use skolemfc.Cnf.{Formula}
use skolemfc.Outcome.{ok, refused}
use skolemfc.Solver
use skolemfc.Counter.Text.{decimal, clauses_text, cnf_text, show_line, show_vars}
use skolemfc.Parser.{Parser, start}
use skolemfc.Parser.Main.{parse_dimacs, parse_dimacs_main}
use skolemfc.Parser.Commented.{print_formula-read}
use skolemfc.Solver.Show.{print_formula}
use skolemfc.Parser.Format.{qdimacs}
use skolemfc.Parser.Refused.{parse_dimacs-refused}
use skolemfc.Parser.Projected.{parse_dimacs-cnf_text}
use skolemfc.Outcome.{exited, aborted}
use skolemfc.CommandLine.{Given, stored, add_skolemfc_options, main}
use skolemfc.CommandLine.Aborted.{main-aborted}
use skolemfc.CommandLine.Refused.{main-exited}
use skolemfc.Tests.Numbers.{whole, whole_mpf, gmp}
use skolemfc.Tests.Inputs.{oracles}
use skolemfc.Tests.Estimates.{given}
use skolemfc.Tests.Packed.{packed}
use skolemfc.Tests.Buffer.{buffer}
use skolemfc.Tests.Written.{buffer_text, packed_text}

-- The header has one variable, and the clause has two.
parse_dimacs-refused_example :
    parse_dimacs {D = ℕ} {L = ℕ} 40 true 0
      (start (Solver.create 8 4 1 0) [])
      (qdimacs {L = ℕ} 1 (0 ∷ []) [] ((0 ∷ 3 ∷ []) ∷ []))
    ≡ refused
unfolding decimal clauses_text
parse_dimacs-refused_example =
    parse_dimacs-refused buffer_text packed_text 8 4 1 0 1 40 (0 ∷ []) [] [] [] (0 ∷ []) [] 3
      (qdimacs {L = ℕ} 1 (0 ∷ []) [] ((0 ∷ 3 ∷ []) ∷ [])) refl (omega arith) (omega arith)
      (omega arith) (omega arith, tt) tt tt (omega arith, tt) (omega arith) (omega arith)

parse_dimacs-cnf_text_example :
    let p = Solver.create {D = ℕ} {L = ℕ} 8 4 1 0 in
    let f : Formula ℕ = (0 ∷ 3 ∷ []) ∷ [] in
    (q : Parser ℕ ℕ) × (parse_dimacs 60 true 0 (start p []) (cnf_text {L = ℕ} 2 f (0 ∷ [])) ≡ ok q)
    × (q.solver ≡ record p { nvars = 2; clauses = f })
unfolding cnf_text decimal clauses_text show_line show_vars
parse_dimacs-cnf_text_example =
    parse_dimacs-cnf_text buffer_text packed_text 8 4 1 0 2 60 ((0 ∷ 3 ∷ []) ∷ []) (0 ∷ [])
      (cnf_text {L = ℕ} 2 ((0 ∷ 3 ∷ []) ∷ []) (0 ∷ [])) refl (omega arith) (omega arith)
      (omega arith) ((omega arith, omega arith), tt)

-- The clause has a variable above the header's number.
abbrev wrong : List ℕ
wrong = qdimacs {L = ℕ} 1 (0 ∷ []) [] ((0 ∷ 3 ∷ []) ∷ [])

abbrev open_wrong : List ℕ → Option (List ℕ)
open_wrong name = some wrong

main-exited_example :
    main {F = ℕ} {L = ℕ} open_wrong oracles gmp 0 40 9 (λ n k. n) 0 (stored given) ≡ exited
unfolding decimal clauses_text
main-exited_example =
    main-exited open_wrong buffer_text packed_text oracles gmp 0 40 9 1 (λ n k. n) 0 given
      (b'f' ∷ []) wrong (0 ∷ []) [] [] [] (0 ∷ []) [] 3 refl refl refl refl refl (omega arith)
      (omega arith) (omega arith) (omega arith, tt) tt tt (omega arith, tt) (omega arith)
      (omega arith)

-- The text of the clauses, with a header behind it.
print_formula-read_example :
    let f : Formula ℕ = (0 ∷ []) ∷ (0 ∷ 3 ∷ []) ∷ [] in
    let p = start (Solver.create {D = ℕ} {L = ℕ} 8 4 1 0) [] in
    (c' : List ℕ) × (parse_dimacs_main (2 + 2 + 60) p (print_formula f ++ wrong)
      ≡ parse_dimacs_main 60 (record p { line_num = u64 (0 + (2 + 2)) }) c')
    × (c' ≡ wrong)
unfolding start
print_formula-read_example =
    print_formula-read buffer_text packed_text ((0 ∷ []) ∷ (0 ∷ 3 ∷ []) ∷ []) 60
      (start (Solver.create {D = ℕ} {L = ℕ} 8 4 1 0) [])
      (print_formula {L = ℕ} ((0 ∷ []) ∷ (0 ∷ 3 ∷ []) ∷ []) ++ wrong) wrong refl refl
      (omega arith, (omega arith, tt))

-- No error is allowed.
abbrev strict : Given ℕ
strict = record given { epsilon = some 0 }

abbrev right : List ℕ
right = qdimacs {L = ℕ} 2 (0 ∷ []) (1 ∷ []) ((0 ∷ 3 ∷ []) ∷ [])

abbrev open_right : List ℕ → Option (List ℕ)
open_right name = some right

main-aborted_example :
    main {F = ℕ} {L = ℕ} open_right oracles gmp 0 50 9 (λ n k. n) 0 (stored strict) ≡ aborted
unfolding decimal clauses_text Solver.create add_skolemfc_options
main-aborted_example =
    main-aborted open_right buffer_text packed_text oracles gmp 0 0 strict 50 9 2 (λ n k. n)
      (0 ∷ []) (1 ∷ []) ((0 ∷ 3 ∷ []) ∷ []) (b'f' ∷ []) right refl refl refl refl refl refl refl
      (omega arith) (omega arith) (omega arith) (omega arith, tt) (omega arith, tt)
      ((omega arith, (omega arith, tt)), tt) refl
