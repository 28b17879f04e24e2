-- ===== src/Parser.antt =====
-- `class DimacsParser` (src/dimacsparser.h). What it prints is left out, and so are members that no
-- code reads. A refused input ends the program (src/main.cpp), so a refusal carries no state.
pub mod Lines
pub mod Main
pub mod Valid
mod LinesValid
pub mod Accepted
pub mod Format
pub mod ClauseText
pub mod Blocks
pub mod Header
pub mod RoundTrip
pub mod Opening
pub mod Written
pub mod Refused
pub mod Projected
pub mod Commented
use skolemfc.Base.{
  ℕ, zero, suc, ◌+◌, ◌-◌, ◌*◌, ◌^◌, Bool, true, false, not, ◌&&◌, ◌||◌, Option, none, some, List,
  [], ◌∷◌, ◌++◌, ltb, leb, ◌==◌, u32, u64, if◌then◌else◌,
}
use skolemfc.Base.Int.{ℤ, pos, negsuc, abs, leb_ℤ, ltb_ℤ, to_u32, to_i32}
use skolemfc.Lit.{LitApi}
use skolemfc.Cnf.{Clause}
use skolemfc.Solver.{Solver, new_vars, add_clause, add_exists_var, add_forall_var}
use skolemfc.Outcome.{Outcome, ok, refused, exited, aborted, timeout, required, ◌>>=◌}
use skolemfc.Stream.{StreamApi}

pub record Parser (D L : Type 0) : Type 0 where
  pub max_var : ℕ
  pub solver : Solver D L
  pub debug_lib : List ℕ
  pub line_num : ℕ
  pub strict_header : Bool
  pub header_found : Bool
  pub num_header_vars : ℤ
  pub num_header_cls : ℤ
  pub offset_vars : ℕ
  pub lits : Clause L
  pub norm_clauses_added : ℕ
  pub forall_vars_added : ℕ
  pub exists_vars_added : ℕ

abbrev pub is_zero : ℤ → Bool
is_zero (pos n) = n == 0
is_zero (negsuc n) = false

abbrev pub is_negative : ℤ → Bool
is_negative (pos n) = false
is_negative (negsuc n) = true

-- `std::abs(parsed_lit) - 1`, as a uint32_t; read only where the literal is not 0.
abbrev pub var_of : ℤ → ℕ
var_of n = u32 (abs n - 1)

module _ {D L : Type 0} where
  abbrev pub next_line : Parser D L → Parser D L
  next_line p = record p { line_num = u64 (p.line_num + 1) }

  -- `DimacsParser::DimacsParser`, with the members' initialisers.
  unfoldable pub start : Solver D L → List ℕ → Parser D L
  start solver debug_lib = record {
    max_var = 2 ^ 64 - 1;
    solver = solver;
    debug_lib = debug_lib;
    line_num = 0;
    strict_header = false;
    header_found = false;
    num_header_vars = pos 0;
    num_header_cls = pos 0;
    offset_vars = 0;
    lits = [];
    norm_clauses_added = 0;
    forall_vars_added = 0;
    exists_vars_added = 0;
  }

  -- `aborted` is `assert(!strict_header)`.
  unfoldable pub check_var : ℕ → Parser D L → Outcome (Parser D L)
  unfolding new_vars
  check_var var p =
      if ltb p.max_var var
      then refused
      else if leb (2 ^ 28) var
      then refused
      else if p.strict_header && not p.header_found
      then refused
      else if leb_ℤ p.num_header_vars (to_i32 var) && p.strict_header
      then refused
      else if leb p.solver.nvars var
      then (if p.strict_header
          then aborted
          else ok (record p { solver = new_vars (u32 (var - p.solver.nvars + 1)) p.solver }))
      else ok p

module _ {C : Type 0} ⦃s : StreamApi C⦄ where
  abbrev pub at_space : C → Bool
  at_space c = elim (s.peek c) [ none ↦ false | some b ↦ b == b' ' ]

module _ {D L C : Type 0} ⦃a : LitApi L⦄ ⦃s : StreamApi C⦄ where
  open a use {mk}
  open s use {skip_whitespace, skip_eol, parse_int}

  unfoldable pub read_clause : ℕ → Parser D L → C → Outcome (Parser D L × C)
  read_clause zero p c = timeout
  read_clause (suc fuel) p c = required (parse_int c) >>= λ (n, c').
      let var = u32 (var_of n + p.offset_vars) in
      let rest = λ (q : Parser D L).
        read_clause fuel (record q { lits = q.lits ++ (mk var (is_negative n) ∷ []) }) c' in
      if is_zero n
      then ok (p, c')
      else check_var var p >>= λ q. let more = rest q in if at_space c' then more else refused

  unfoldable pub parse_and_add_clause : ℕ → Parser D L → C → Outcome (Parser D L × C)
  parse_and_add_clause fuel p c = read_clause fuel (record p { lits = [] }) c >>= λ (q, c').
      required (skip_eol (skip_whitespace c')) >>= λ c''. ok (
        record q {
          line_num = u64 (q.line_num + 1);
          solver = add_clause q.lits q.solver;
          norm_clauses_added = u64 (q.norm_clauses_added + 1);
        },
        c'',
      )
