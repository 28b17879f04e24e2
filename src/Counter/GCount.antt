-- ===== src/Counter/GCount.antt =====
-- `get_g_count` against a count of the inputs: with an exact oracle it is the number of values of X
-- for which two values of Y satisfy F.
use mathlib.Core.Path.{fun_ext}
use skolemfc.Base.{◌≡◌, refl, ap, ◌∙◌, true, false, ◌==◌, if◌then◌else◌}
use skolemfc.Base.Int.{ℤ, pos}
use skolemfc.Lit.{LitApi, LitLaws}
use skolemfc.Cnf.{Assignment}
use skolemfc.Outcome.{ok}
use skolemfc.Oracles.{Oracles, GmpApi}
use skolemfc.Solver.{create_g_formula}
use skolemfc.Solver.Correct.{IsReady}
use skolemfc.Counter.{Counter}
use skolemfc.Counter.Text.{cnf_text}
use skolemfc.Counter.Count.{is_zero, count_formula, get_g_count}
use skolemfc.Counter.Inputs.{has_output, tally, Reports, count_formula_exact}
use skolemfc.Counter.Outputs.{hidden, two_outputs, has_output-some_values}
use skolemfc.Counter.Outputs.Models.{g_outputs}

pub g_count_counted :
    {D F L W : Type 0} ⦃a : LitApi L⦄ (oracles : Oracles W D L) (gmp : GmpApi)
    (c c' : Counter D F L W) (n : ℤ)
    → count_formula oracles gmp c.exactcount_s2 c.p.n_g_vars c.p.g_formula_clauses c ≡ ok (n, c')
    → get_g_count oracles gmp c ≡ ok (n, if is_zero n then record c' { okay = false } else c')
unfolding get_g_count
g_count_counted oracles gmp c c' n e = rw e refl

-- With the exact oracle on the formula that `create_g_formula` has just built, and Ganak printing how
-- many values of X extend to a model of G: `get_g_count` returns the number of values of X for which
-- two different values of Y satisfy F; `okay` becomes false if that is 0, and nothing else changes but
-- the state of the world.
pub get_g_count_exact :
    {D F L W : Type 0} ⦃a : LitApi L⦄ (laws : LitLaws L) (oracles : Oracles W D L) (gmp : GmpApi)
    (c₀ : Counter D F L W) (α : Assignment)
    → IsReady c₀.p
    → c₀.exactcount_s2 ≡ true
    → let c = record c₀ { p = create_g_formula c₀.p } in
      let run =
        oracles.run_ganak (cnf_text c.p.n_g_vars c.p.g_formula_clauses c.p.forall_vars) c.world in
      Reports gmp run.0
        (pos (tally c₀.p.forall_vars (has_output (hidden c₀.p) c.p.g_formula_clauses) α))
      → let n = tally c₀.p.forall_vars (two_outputs c₀.p.exists_vars c₀.p.clauses) α in
        let c' = record c { world = run.1 } in
        get_g_count oracles gmp c ≡ ok (pos n, if n == 0 then record c' { okay = false } else c')
get_g_count_exact laws oracles gmp c₀ α ready exact r =
    let p = c₀.p in
    let c = record c₀ { p = create_g_formula p } in
    let same : has_output (hidden p) c.p.g_formula_clauses ≡ two_outputs p.exists_vars p.clauses =
      fun_ext
        λ β. has_output-some_values (hidden p) c.p.g_formula_clauses β ∙ g_outputs laws p ready β in
    g_count_counted oracles gmp c _ _ (
      count_formula_exact oracles gmp c.exactcount_s2 c.p.n_g_vars c.p.g_formula_clauses _ c exact
        (rw (ap (λ t. tally p.forall_vars t α) same) at r))
