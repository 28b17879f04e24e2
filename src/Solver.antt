-- ===== src/Solver.antt =====
-- `struct SklFCInt` (src/skolemfc-int.h and src/skolemfc-int.cpp): the formula that is counted,
-- and `create_g_formula`. What the code prints is left out but for `print_formula`.
pub mod Shape
mod Values
pub mod Correct
pub mod Bounds
pub mod Show
use mathlib.Core.Option
use skolemfc.Base.{
  ℕ, zero, suc, ◌+◌, ◌*◌, Bool, true, false, Option, none, some, List, [], ◌∷◌, ◌++◌, length,
  get_or, index_of, u32, u64, ◌==◌, if◌then◌else◌,
}
use skolemfc.Lit.{LitApi}
use skolemfc.Cnf.{Clause, Formula}

-- `D` is the type of the doubles. Fields that no code reads (`thresh`, `sum_logcount`,
-- `sampl_prob` and the like) are left out.
pub record Solver (D L : Type 0) : Type 0 where
  pub nvars : ℕ
  pub n_g_vars : ℕ
  pub seed : ℕ
  pub epsilon : D
  pub delta : D
  pub verbosity : ℕ
  pub clauses : Formula L
  pub g_formula_clauses : Formula L
  pub exists_vars : List ℕ
  pub forall_vars : List ℕ
  pub new_clause : Clause L
  pub diff_clause : Clause L

module _ {D L : Type 0} where
  -- `SklFCInt::SklFCInt`, with the members' initialisers.
  unfoldable pub create : D → D → ℕ → ℕ → Solver D L
  create epsilon delta seed verbosity = record {
    nvars = 0;
    n_g_vars = 0;
    seed = seed;
    epsilon = epsilon;
    delta = delta;
    verbosity = verbosity;
    clauses = [];
    g_formula_clauses = [];
    exists_vars = [];
    forall_vars = [];
    new_clause = [];
    diff_clause = [];
  }

  -- `SklFCInt::new_vars`: `none` is the abort of `release_assert(nvars == 0)`.
  unfoldable pub set_new_vars : ℕ → Solver D L → Option (Solver D L)
  set_new_vars n p = if p.nvars == 0 then some (record p { nvars = n }) else none

  -- `SklFC::new_vars`, which adds to the count and checks nothing.
  unfoldable pub new_vars : ℕ → Solver D L → Solver D L
  new_vars num p = record p { nvars = u32 (p.nvars + num) }

  unfoldable pub add_clause : Clause L → Solver D L → Solver D L
  add_clause cl p = record p { clauses = p.clauses ++ (cl ∷ []) }

  unfoldable pub add_exists_var : ℕ → Solver D L → Solver D L
  add_exists_var v p = record p { exists_vars = p.exists_vars ++ (v ∷ []) }

  unfoldable pub add_forall_var : ℕ → Solver D L → Solver D L
  add_forall_var v p = record p { forall_vars = p.forall_vars ++ (v ∷ []) }

-- `mapped_exists_vars[i..size)`: a sum of size_t, kept as a uint32_t.
unfoldable pub mapped_from : ℕ → ℕ → List ℕ → List ℕ
mapped_from nvars i [] = []
mapped_from nvars i (y ∷ ys) = u32 (u64 (nvars + i)) ∷ mapped_from nvars (i + 1) ys

module _ {L : Type 0} ⦃a : LitApi L⦄ where
  open a use {mk, var, sign, neg}

  -- The body of the inner loop: the literal of Y' in place of one of Y.
  unfoldable pub prime_lit : (exists_vars mapped : List ℕ) → L → L
  prime_lit ys mapped l = elim (index_of (var l) ys) [
    | none ↦ l
    | some i ↦ mk (get_or mapped i 0) (sign l)
  ]

  unfoldable pub prime_clause : (exists_vars mapped : List ℕ) → Clause L → Clause L → Clause L
  prime_clause ys mapped acc [] = acc
  prime_clause ys mapped acc (l ∷ c) =
      prime_clause ys mapped (acc ++ (prime_lit ys mapped l ∷ [])) c

  -- The loop over the clauses, on the formula being built and the scratch member `new_clause`.
  unfoldable pub copy_loop :
      (exists_vars mapped : List ℕ) → Formula L → Formula L → Clause L → Formula L × Clause L
  copy_loop ys mapped [] g scratch = (g, scratch)
  copy_loop ys mapped (c ∷ cs) g scratch =
      let primed = prime_clause ys mapped [] c in
      copy_loop ys mapped cs ((g ++ (c ∷ [])) ++ (primed ∷ [])) primed

  -- The loop over the pairs (y, y') from position `i`; `n` is `exists_vars.size()`.
  unfoldable pub diff_loop : (nvars n i : ℕ) → List ℕ → Formula L → Clause L → Formula L × Clause L
  diff_loop nvars n i [] g diff = (g, diff)
  diff_loop nvars n i (y ∷ ys) g diff =
      let y' = u32 (u64 (nvars + i)) in
      let aux = u32 (u64 (nvars + n + i)) in
      let first = mk y false ∷ mk y' false ∷ neg (mk aux false) ∷ [] in
      let second = neg (mk y false) ∷ neg (mk y' false) ∷ neg (mk aux false) ∷ [] in
      diff_loop nvars n (i + 1) ys ((g ++ (first ∷ [])) ++ (second ∷ []))
        (diff ++ (mk aux false ∷ []))

  -- `SklFCInt::create_g_formula`.
  unfoldable pub create_g_formula : {D : Type 0} → Solver D L → Solver D L
  unfolding mapped_from copy_loop diff_loop prime_clause prime_lit index_of
  create_g_formula p =
      let ys = p.exists_vars in
      let mapped = mapped_from p.nvars 0 ys in
      let (copies, scratch) = copy_loop ys mapped p.clauses [] p.new_clause in
      let (g, diff) = diff_loop p.nvars (length ys) 0 ys copies [] in
      record p {
        g_formula_clauses = g ++ (diff ∷ []);
        new_clause = scratch;
        diff_clause = diff;
        n_g_vars = u32 (u64 (p.nvars + 2 * length ys));
      }
