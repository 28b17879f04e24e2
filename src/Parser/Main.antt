-- ===== src/Parser/Main.antt =====
-- `parse_DIMACS_main` and `parse_DIMACS` (src/dimacsparser.h).
use skolemfc.Base.{ℕ, zero, suc, Bool, none, some, ◌==◌, if◌then◌else◌}
use skolemfc.Lit.{LitApi}
use skolemfc.Outcome.{Outcome, ok, timeout, ◌>>=◌}
use skolemfc.Stream.{StreamApi}
use skolemfc.Parser.{Parser, next_line, parse_and_add_clause}
use skolemfc.Parser.Lines.{parse_header, parse_comments, parse_vars, forall_block, exists_block}

module _ {D L C : Type 0} ⦃a : LitApi L⦄ ⦃s : StreamApi C⦄ where
  open s use {peek, next, skip_whitespace, skip_line, parse_string}

  -- One round of the loop, at a byte that is not EOF. The inner loops get `fuel`.
  unfoldable pub parse_line : ℕ → ℕ → Parser D L → C → Outcome (Parser D L × C)
  parse_line fuel b p c =
      if b == b'p'
      then parse_header p c >>= (λ (q, c'). ok (next_line q, skip_line c'))
      else if b == b'c'
      then (let (str, c') = parse_string (next c) in parse_comments str p c')
      else if b == b'a'
      then parse_vars forall_block fuel p (next c)
      else if b == b'e'
      then parse_vars exists_block fuel p (next c)
      else if b == b'\n'
      then ok (next_line p, skip_line c)
      else parse_and_add_clause fuel p c

  unfoldable pub parse_dimacs_main : ℕ → Parser D L → C → Outcome (Parser D L)
  unfolding parse_line
  parse_dimacs_main zero p c = timeout
  parse_dimacs_main (suc fuel) p c = elim (peek (skip_whitespace c)) [
    | none ↦ ok p
    | some b ↦
        parse_line (suc fuel) b p (skip_whitespace c) >>= λ (q, c'). parse_dimacs_main fuel q c'
  ]

  -- `parse_DIMACS`; the result `true` is the parser at the end, with its solver.
  unfoldable pub parse_dimacs : ℕ → Bool → ℕ → Parser D L → C → Outcome (Parser D L)
  unfolding parse_dimacs_main
  parse_dimacs fuel strict offset p c =
      parse_dimacs_main fuel (record p { strict_header = strict; offset_vars = offset }) c
