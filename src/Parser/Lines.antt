-- ===== src/Parser/Lines.antt =====
-- The header, the comments and the quantifier blocks (src/dimacsparser.h).
use skolemfc.Base.{
  ℕ, zero, suc, ◌+◌, ◌-◌, ◌^◌, Bool, true, false, not, ◌&&◌, List, [], ◌∷◌, ltb, ◌==◌, u32, u64,
  if◌then◌else◌,
}
use skolemfc.Base.Int.{ℤ, pos, negsuc, to_u32, to_i32}
use skolemfc.Solver.{new_vars, add_exists_var, add_forall_var}
use skolemfc.Outcome.{Outcome, ok, refused, exited, timeout, required, ◌>>=◌}
use skolemfc.Stream.{StreamApi}
use skolemfc.Parser.{Parser, next_line, var_of, is_zero, is_negative}

-- The size_t that an int converts to.
abbrev pub to_size : ℤ → ℕ
to_size (pos n) = n
to_size (negsuc n) = 2 ^ 64 - 1 - n

-- Equality of strings.
unfoldable pub equal : List ℕ → List ℕ → Bool
equal [] [] = true
equal (x ∷ xs) (y ∷ ys) = x == y && equal xs ys
equal _ _ = false

abbrev pub cnf : List ℕ
cnf = b'c' ∷ b'n' ∷ b'f' ∷ []

-- "Solver::new_vars("
abbrev pub debug_new_vars : List ℕ
debug_new_vars =
    b'S' ∷ b'o' ∷ b'l' ∷ b'v' ∷ b'e' ∷ b'r' ∷ b':' ∷ b':' ∷ b'n' ∷ b'e' ∷ b'w' ∷ b'_' ∷ b'v' ∷ b'a'
    ∷ b'r' ∷ b's' ∷ b'(' ∷ []

abbrev pub is_empty : List ℕ → Bool
is_empty [] = true
is_empty (x ∷ xs) = false

-- Which list a quantifier block fills, and the member that counts its variables.
pub data Quantifier : Type 0 where
  forall_block exists_block : Quantifier

module _ {D L : Type 0} where
  -- What `parse_header` does with the two numbers.
  unfoldable pub set_header : ℤ → ℤ → Parser D L → Outcome (Parser D L)
  unfolding new_vars
  set_header vars cls p =
      let total = to_i32 (u32 (to_u32 vars + p.offset_vars)) in
      let q = record p { num_header_vars = total; num_header_cls = cls } in
      let more = u32 (to_u32 total + 2 ^ 32 - p.solver.nvars) in
      if is_negative vars
      then refused
      else if is_negative cls
      then refused
      else ok (
          if ltb p.solver.nvars (to_size total)
          then record q { solver = new_vars more q.solver }
          else q)

  unfoldable pub add_var : Quantifier → ℕ → Parser D L → Parser D L
  unfolding add_forall_var add_exists_var
  add_var forall_block v p = record p {
    solver = add_forall_var v p.solver;
    forall_vars_added = u64 (p.forall_vars_added + 1);
  }
  add_var exists_block v p = record p {
    solver = add_exists_var v p.solver;
    exists_vars_added = u64 (p.exists_vars_added + 1);
  }

module _ {D L C : Type 0} ⦃s : StreamApi C⦄ where
  open s use {next, skip_whitespace, skip_line, parse_int, parse_string}

  -- `parse_header` behind `p cnf`.
  unfoldable pub header_numbers : Parser D L → C → Outcome (Parser D L × C)
  header_numbers p c = required (parse_int c) >>= λ (vars, c').
      required (parse_int c') >>= λ (cls, c''). set_header vars cls p >>= λ q. ok (q, c'')

  unfoldable pub parse_header : Parser D L → C → Outcome (Parser D L × C)
  unfolding equal
  parse_header p c =
      let (str, c') = parse_string (skip_whitespace (next c)) in
      if equal str cnf
      then (if p.header_found && p.strict_header
          then exited
          else header_numbers (record p { header_found = true }) c')
      else refused

  -- `parseComments`: a comment `c Solver::new_vars( n` adds variables in a debugging run.
  unfoldable pub parse_comments : List ℕ → Parser D L → C → Outcome (Parser D L × C)
  unfolding equal new_vars
  parse_comments str p c =
      if not (is_empty p.debug_lib) && equal str debug_new_vars
      then (required (parse_int (skip_whitespace c)) >>= λ (n, c').
          ok (next_line (record p { solver = new_vars (to_u32 n) p.solver }), skip_line c'))
      else ok (next_line p, skip_line c)

  -- The loops of `parseForallVars` and `parseExistsVars`, up to the 0.
  unfoldable pub read_vars : Quantifier → ℕ → Parser D L → C → Outcome (Parser D L × C)
  unfolding add_var
  read_vars k zero p c = timeout
  read_vars k (suc fuel) p c = required (parse_int c) >>= λ (n, c').
      let rest = read_vars k fuel (add_var k (var_of n) p) c' in
      if is_zero n then ok (p, c') else rest

  -- `parseForallVars` and `parseExistsVars`.
  unfoldable pub parse_vars : Quantifier → ℕ → Parser D L → C → Outcome (Parser D L × C)
  parse_vars k fuel p c = read_vars k fuel p c >>= λ (q, c'). ok (next_line q, skip_line c')
