-- ===== src/Skolem/Counts.antt =====
-- What the two exact counts of `count` (`get_est0` and `get_g_count`, src/skolemfc.cpp) say of the
-- number of Skolem functions.
use native.Mathlib.Nat.{mul-le-mul_left}
use skolemfc.Base.{ℕ, ◌+◌, ◌*◌, ◌^◌, ◌≤◌, ◌≡◌, true, false, not, length, Distinct}
use skolemfc.Base.Int.{pos}
use skolemfc.Lit.{LitApi, LitLaws}
use skolemfc.Cnf.{Assignment}
use skolemfc.Outcome.{ok}
use skolemfc.Oracles.{Oracles, GmpApi}
use skolemfc.Solver.{create_g_formula}
use skolemfc.Solver.Correct.{IsReady}
use skolemfc.Counter.{Counter}
use skolemfc.Counter.Text.{cnf_text}
use skolemfc.Counter.Count.{get_est0, get_g_count}
use skolemfc.Counter.Inputs.{has_output, tally, Reports, get_est0_exact}
use skolemfc.Counter.Outputs.{two_outputs, hidden}
use skolemfc.Counter.GCount.{get_g_count_exact}
use skolemfc.Skolem.{skolem_count, product, many}
use skolemfc.Skolem.Product.{pow-add, skolem_count-many, many-bounds}

module _ {D F L W : Type 0} ⦃a : LitApi L⦄ (oracles : Oracles W D L) (gmp : GmpApi) where
  open oracles use {run_ganak}

  -- Ganak prints how many inputs have an output.
  abbrev pub ReportsInputs : Counter D F L W → Assignment → Type 0
  ReportsInputs c α =
      let text = cnf_text c.p.nvars c.p.clauses c.p.forall_vars in
      Reports gmp (run_ganak text c.world).0
        (pos (tally c.p.forall_vars (has_output c.p.exists_vars c.p.clauses) α))

  -- The counter behind the count of the inputs.
  abbrev pub inputs_counted : Counter D F L W → Counter D F L W
  inputs_counted c = record c {
    world = (run_ganak (cnf_text c.p.nvars c.p.clauses c.p.forall_vars) c.world).1;
  }

  -- Where Y has no duplicates, inputs without an output are counted with Ganak, and Ganak prints how many
  -- inputs have one: `get_est0` returns an exponent `e`, and changes nothing but the state of the world;
  -- the Skolem functions of F are 2 ^ e times the product, over the inputs with two outputs or more, of
  -- their numbers of outputs.
  pub skolem_count-get_est0 :
      (c : Counter D F L W) (α : Assignment)
      → Distinct c.p.exists_vars
      → c.ignore_unsat ≡ false
      → c.exactcount_s0 ≡ true
      → ReportsInputs c α
      → (e : ℕ) × (get_est0 oracles gmp c ≡ ok (pos e, inputs_counted c))
        × (skolem_count c.p.forall_vars c.p.exists_vars c.p.clauses α
            ≡ 2 ^ e * product c.p.forall_vars (many c.p.exists_vars c.p.clauses) α)
  skolem_count-get_est0 c α distinct all exact r = (
    tally c.p.forall_vars (λ β. not (has_output c.p.exists_vars c.p.clauses β)) α
        * length c.p.exists_vars,
    get_est0_exact oracles gmp c α all exact r,
    skolem_count-many c.p.forall_vars c.p.exists_vars c.p.clauses distinct α,
  )

  -- Ganak prints how many inputs extend to a model of G, when G is built behind the first count.
  abbrev pub ReportsModels : Counter D F L W → Assignment → Type 0
  ReportsModels c α =
      let g = create_g_formula c.p in
      Reports gmp
        (run_ganak (cnf_text g.n_g_vars g.g_formula_clauses g.forall_vars)
          (inputs_counted c).world).0
        (pos (tally c.p.forall_vars (has_output (hidden c.p) g.g_formula_clauses) α))

  -- For a formula that is ready for `create_g_formula`, where both counts are made by Ganak and are
  -- exact: `get_est0` returns a number `e`, `create_g_formula` and `get_g_count` behind it return a
  -- number `s`, and the number of Skolem functions is at least 2 ^ (e + s) and at most 2 ^ (e + s |Y|).
  pub skolem_count-get_g_count :
      (laws : LitLaws L) (c : Counter D F L W) (α : Assignment)
      → IsReady c.p
      → c.ignore_unsat ≡ false
      → c.exactcount_s0 ≡ true
      → c.exactcount_s2 ≡ true
      → ReportsInputs c α
      → ReportsModels c α
      → (e : ℕ) × (s : ℕ) × (c' : Counter D F L W) × (get_est0 oracles gmp c
          ≡ ok (pos e, inputs_counted c))
        × (get_g_count oracles gmp (record (inputs_counted c) { p = create_g_formula c.p })
            ≡ ok (pos s, c'))
        × (2 ^ (e + s) ≤ skolem_count c.p.forall_vars c.p.exists_vars c.p.clauses α)
        × (skolem_count c.p.forall_vars c.p.exists_vars c.p.clauses α
            ≤ 2 ^ (e + s * length c.p.exists_vars))
  skolem_count-get_g_count laws c α ready all exact exact' r r' =
      let ys = c.p.exists_vars in
      let (e, counted, split) = skolem_count-get_est0 c α ready.distinct all exact r in
      let models = get_g_count_exact laws oracles gmp (inputs_counted c) α ready exact' r' in
      let s = tally c.p.forall_vars (two_outputs ys c.p.clauses) α in
      let (below, above) = many-bounds c.p.forall_vars ys c.p.clauses ready.distinct α in
      (
        e,
        s,
        _,
        counted,
        models,
        rw (split, pow-add 2 e s) (mul-le-mul_left (2 ^ e) below),
        rw (split, pow-add 2 e (s * length ys)) (mul-le-mul_left (2 ^ e) above),
      )
