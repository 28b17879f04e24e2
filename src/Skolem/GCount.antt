-- ===== src/Skolem/GCount.antt =====
-- What `get_g_count` (src/skolemfc.cpp) makes of ApproxMC's count of G, which is the default.
use mathlib.Core.Path.{fun_ext, subst, subst⁻¹}
use skolemfc.Base.{
  ℕ, ◌<◌, ◌≡◌, Bool, refl, ap, ◌∙◌, false, none, some, List, [], ◌∷◌, length, arith, ◌==◌,
  if◌then◌else◌,
}
use skolemfc.Base.Int.{pos}
use skolemfc.Lit.{LitApi, LitLaws}
use skolemfc.Cnf.{Assignment, Formula}
use skolemfc.Outcome.{ok}
use skolemfc.Oracles.{Oracles, Settings, SolCount, GmpApi}
use skolemfc.Solver.{Solver, create_g_formula}
use skolemfc.Solver.Correct.{IsReady}
use skolemfc.Counter.{Counter}
use skolemfc.Counter.Count.{
  absolute_count_from_appmc, count_using_approxmc, count_formula, get_g_count, sampling_set,
}
use skolemfc.Counter.Inputs.{has_output, tally}
use skolemfc.Counter.Outputs.{hidden, two_outputs, has_output-some_values}
use skolemfc.Counter.Outputs.Models.{g_outputs}
use skolemfc.Counter.GCount.{g_count_counted}
use skolemfc.Skolem.Promises.{Within, Answers, ApproximatesInputs, branch-Within}
use skolemfc.Skolem.Specification.{with_two}

sampling_set-some : (xs : List ℕ) → 0 < length xs → sampling_set xs ≡ some xs
unfolding sampling_set
sampling_set-some [] h = absurd (omega arith)
sampling_set-some (x ∷ xs) h = refl

-- Only the state of the world is another one.
branch-world :
    {D F L W : Type 0} (vars : List ℕ) (s s' : SolCount) (c : Counter D F L W) (w w' : W)
    → (w'' : W) × ((elim vars as (λ _. SolCount × Counter D F L W) [
      | [] ↦ (s, record c { world = w })
      | v ∷ vs ↦ (s', record c { world = w' })
    ]).1
        ≡ record c { world = w'' })
branch-world [] s s' c w w' = (w, refl)
branch-world (v ∷ vs) s s' c w w' = (w', refl)

g_inputs :
    {D L : Type 0} ⦃a : LitApi L⦄ (p : Solver D L)
    → (create_g_formula p).forall_vars ≡ p.forall_vars
unfolding create_g_formula
g_inputs p = refl

module _ {D F L W : Type 0} ⦃a : LitApi L⦄ (oracles : Oracles W D L) where
  approxmc-world :
      (nvars : ℕ) (f : Formula L) (vars : List ℕ) (e e' : D) (c : Counter D F L W)
      → (w : W) × ((count_using_approxmc oracles nvars f vars e e' c).1 ≡ record c { world = w })
  unfolding count_using_approxmc
  approxmc-world nvars f vars e e' c = branch-world _ _ _ c _ _

  approxmc-sampled :
      (k n nvars : ℕ) (f : Formula L) (xs : List ℕ) (e e' : D) (c : Counter D F L W)
      → 0 < k
      → Answers oracles k n
          (record { nvars = nvars; clauses = f; red_clauses = []; sampl_vars = sampling_set xs })
          (record { epsilon = some e; delta = some e'; seed = none })
          c.world
      → Within k n (absolute_count_from_appmc (count_using_approxmc oracles nvars f xs e e' c).0)
  unfolding count_using_approxmc
  approxmc-sampled k n nvars f xs e e' c some_k (one, many) =
      branch-Within k n _ _ _ _ some_k one many

  approxmc-Inputs :
      (k : ℕ) (α : Assignment) (p : Solver D L) (e e' : D) (c : Counter D F L W)
      → let g = create_g_formula p in
        let n = tally p.forall_vars (has_output (hidden p) g.g_formula_clauses) α in
        (0 < length g.forall_vars)
        → 0 < k
        → 0 < n
        → ApproximatesInputs oracles k α p
        → Within k n (
            absolute_count_from_appmc
              (count_using_approxmc oracles g.n_g_vars g.g_formula_clauses g.forall_vars e e' c).0)
  approxmc-Inputs k α p e e' c some_input some_k some_n near =
      let g = create_g_formula p in
      let n = tally p.forall_vars (has_output (hidden p) g.g_formula_clauses) α in
      let settings : Settings D = record { epsilon = some e; delta = some e'; seed = none } in
      approxmc-sampled k n g.n_g_vars g.g_formula_clauses g.forall_vars e e' c some_k (
        subst⁻¹
          (λ s.
            Answers oracles k n
              (record {
                nvars = g.n_g_vars;
                clauses = g.g_formula_clauses;
                red_clauses = [];
                sampl_vars = s;
              })
              settings c.world)
          (sampling_set-some g.forall_vars some_input) (near settings c.world some_n))

  count_formula_approx :
      (gmp : GmpApi) (b : Bool) (nvars : ℕ) (f : Formula L) (c c' : Counter D F L W)
      → b ≡ false
      → let run = count_using_approxmc oracles nvars f c.p.forall_vars c.epsilon_gc c.delta_gc c in
        (run.1 ≡ c')
        → count_formula oracles gmp b nvars f c ≡ ok (pos (absolute_count_from_appmc run.0), c')
  unfolding count_formula
  count_formula_approx gmp b nvars f c c' e same =
      let run = count_using_approxmc oracles nvars f c.p.forall_vars c.epsilon_gc c.delta_gc c in
      rw e (ap (λ c''. ok (pos (absolute_count_from_appmc run.0), c'')) same)

  -- The formula that `create_g_formula` has just built, where some input has two outputs.
  pub get_g_count_near :
      (laws : LitLaws L) (gmp : GmpApi) (k : ℕ) (α : Assignment) (c₀ : Counter D F L W)
      → IsReady c₀.p
      → 0 < length c₀.p.forall_vars
      → c₀.exactcount_s2 ≡ false
      → 0 < k
      → 0 < with_two α c₀.p
      → ApproximatesInputs oracles k α c₀.p
      → let c = record c₀ { p = create_g_formula c₀.p } in
        (n : ℕ) × (w : W) × Within k (with_two α c₀.p) n
        × (get_g_count oracles gmp c
            ≡ ok (
              pos n,
              if n == 0
                  then record (record c { world = w }) { okay = false }
                  else record c { world = w },
            ))
  get_g_count_near laws gmp k α c₀ ready some_input default some_k some_two near =
      let p = c₀.p in
      let g = create_g_formula p in
      let c = record c₀ { p = g } in
      let same : has_output (hidden p) g.g_formula_clauses ≡ two_outputs p.exists_vars p.clauses =
        fun_ext
          λ β. has_output-some_values (hidden p) g.g_formula_clauses β ∙ g_outputs laws p ready β in
      let size : tally p.forall_vars (has_output (hidden p) g.g_formula_clauses) α ≡ with_two α p =
        ap (λ t. tally p.forall_vars t α) same in
      let (w, e) =
        approxmc-world g.n_g_vars g.g_formula_clauses g.forall_vars c.epsilon_gc c.delta_gc c in
      let n =
        absolute_count_from_appmc
          (count_using_approxmc oracles g.n_g_vars g.g_formula_clauses g.forall_vars c.epsilon_gc
            c.delta_gc c).0 in
      (
        n,
        w,
        subst (λ n'. Within k n' n) size
            (approxmc-Inputs k α p c.epsilon_gc c.delta_gc c
              (subst⁻¹ (λ xs. 0 < length xs) (g_inputs p) some_input) some_k (rw size some_two)
              near),
        g_count_counted oracles gmp c (record c { world = w }) (pos n)
            (count_formula_approx gmp c.exactcount_s2 g.n_g_vars g.g_formula_clauses c _ default e),
      )
