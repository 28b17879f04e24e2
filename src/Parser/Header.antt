-- ===== src/Parser/Header.antt =====
-- What the parser makes of a header in the format, on a new solver.
use skolemfc.Base.{
  ℕ, zero, suc, ◌+◌, ◌-◌, ◌<◌, ◌^◌, ◌≡◌, refl, true, false, List, [], ◌∷◌, ◌++◌, arith, u32, ltb,
}
use skolemfc.Base.Int.{pos, to_u32, to_i32}
use skolemfc.Outcome.{ok}
use skolemfc.Lit.{LitApi}
use skolemfc.Stream.{StreamApi}
use skolemfc.Solver.{Solver, new_vars}
use skolemfc.Counter.Text.{decimal, newline, p_cnf}
use skolemfc.Parser.{Parser, next_line}
use skolemfc.Parser.Lines.{equal, set_header, header_numbers, parse_header}
use skolemfc.Parser.Main.{parse_line}
use skolemfc.Parser.Format.{StreamText}

module _ {D L : Type 0} where
  -- The parser before the first line, of a solver without variables.
  abbrev pub begun : Solver D L → Parser D L
  begun p = record {
    max_var = 2 ^ 64 - 1;
    solver = record p { nvars = 0 };
    debug_lib = [];
    line_num = 0;
    strict_header = true;
    header_found = false;
    num_header_vars = pos 0;
    num_header_cls = pos 0;
    offset_vars = 0;
    lits = [];
    norm_clauses_added = 0;
    forall_vars_added = 0;
    exists_vars_added = 0;
  }

  -- The parser behind the numbers of the header.
  abbrev pub headed : ℕ → ℕ → Solver D L → Parser D L
  headed n m p = record (begun p) {
    header_found = true;
    num_header_vars = pos n;
    num_header_cls = pos m;
    solver = record p { nvars = n };
  }

  set_header-headed :
      (n m : ℕ) (p : Solver D L)
      → n < 2 ^ 28
      → set_header (pos n) (pos m) (record (begun p) { header_found = true }) ≡ ok (headed n m p)
  unfolding set_header new_vars
  set_header-headed zero m p h = refl
  set_header-headed (suc n) m p h =
      let total : to_i32 (u32 (to_u32 (pos (suc n)) + 0)) ≡ pos (suc n) = ground arith in
      let more : u32 (0 + u32 (to_u32 (pos (suc n)) + 2 ^ 32 - 0)) ≡ suc n = omega arith in
      let raise : ltb 0 (suc n) ≡ true = ground arith in rw (total, raise, more) refl

module _ {D L C : Type 0} ⦃a : LitApi L⦄ ⦃s : StreamApi C⦄ (text : StreamText C) where
  open text use {contents}

  pub parse_header-text :
      (n m fuel : ℕ) (p : Solver D L) (c : C) (rest : List ℕ)
      → contents c ≡ p_cnf ++ (decimal n ++ (b' ' ∷ (decimal m ++ (newline ∷ rest))))
      → n < 2 ^ 28
      → m < 2 ^ 31
      → (c' : C) × (parse_line fuel b'p' (begun p) c ≡ ok (next_line (headed n m p), c'))
        × (contents c' ≡ rest)
  unfolding parse_line parse_header header_numbers equal
  parse_header-text n m fuel p c rest e h k =
      let numbers = decimal n ++ (b' ' ∷ (decimal m ++ (newline ∷ rest))) in
      let behind = text.next-contents c b'p' _ e in
      let word = text.skip_whitespace-contents (s.next c) true b'c' _ behind refl in
      let (same, f) =
        text.parse_string-contents (s.skip_whitespace (s.next c)) false b'c' (b'n' ∷ b'f' ∷ [])
          numbers word (refl, (refl, (refl, tt))) in
      let c₀ = (s.parse_string (s.skip_whitespace (s.next c))).1 in
      let (c₁, i, g) =
        text.parse_int-pos c₀ true n b' ' (decimal m ++ (newline ∷ rest)) f (omega arith) refl in
      let (c₂, j, l) = text.parse_int-pos c₁ true m newline rest g k refl in
      (
        s.skip_line c₂,
        rw (same, i, j, set_header-headed n m p h) refl,
        text.skip_line-contents c₂ [] rest l tt,
      )
