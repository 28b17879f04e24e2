-- ===== src/Skolem/Read.antt =====
-- The reading of a file (src/dimacsparser.h) and the exact counts of `count` (src/skolemfc.cpp) together.
use skolemfc.Base.{
  ℕ, ◌+◌, ◌*◌, ◌^◌, ◌<◌, ◌≤◌, ◌≡◌, sym, ap, ◌∙◌, true, false, List, [], length, All, arith,
  Distinct,
}
use skolemfc.Base.Int.{pos}
use skolemfc.Lit.{LitApi, LitLaws}
use skolemfc.Cnf.{Assignment, Formula, Below}
use skolemfc.Outcome.{ok}
use skolemfc.Stream.{StreamApi}
use skolemfc.Oracles.{Oracles, GmpApi}
use skolemfc.Solver.{Solver, create, create_g_formula}
use skolemfc.Solver.Correct.{IsReady}
use skolemfc.Counter.{Counter}
use skolemfc.Counter.Count.{get_est0, get_g_count}
use skolemfc.Parser.{Parser, start}
use skolemfc.Parser.Main.{parse_dimacs}
use skolemfc.Parser.Format.{StreamText, LitText, qdimacs}
use skolemfc.Parser.Blocks.{Writable}
use skolemfc.Parser.Written.{parse_dimacs-qdimacs}
use skolemfc.Skolem.{skolem_count}
use skolemfc.Skolem.Counts.{inputs_counted, ReportsInputs, ReportsModels, skolem_count-get_g_count}

module _ {D F L W C : Type 0} ⦃a : LitApi L⦄ ⦃s : StreamApi C⦄ (text : StreamText C)
    (lits : LitText L) (laws : LitLaws L) (oracles : Oracles W D L) (gmp : GmpApi) where
  open text use {contents}

  -- For literals that obey their laws, and a buffer and literals whose numbers are written as usual: if
  -- the buffer holds the text of F over `n` variables with inputs `xs` and outputs `ys`, the outputs
  -- below `n` and each only once, the literals below `n`, the quantified variables below 2 ^ 31 - 1, `n`
  -- and twice the number of outputs together below 2 ^ 28, the clauses fewer than 2 ^ 31, with more fuel
  -- than the text has bytes; and if both counts are made by Ganak for this formula and are exact: the
  -- parser accepts the text, and for a counter with the formula that it has read `get_est0` returns a
  -- number `e`, and `create_g_formula` and `get_g_count` behind it a number `z`, so that the number of
  -- Skolem functions of F is at least 2 ^ (e + z) and at most 2 ^ (e + z |Y|).
  pub skolem_count-parse_dimacs :
      (epsilon delta : D) (seed verbosity n fuel : ℕ) (xs ys : List ℕ) (f : Formula L) (c : C)
      (k : Counter D F L W) (α : Assignment)
      → contents c ≡ qdimacs n xs ys f
      → length (contents c) < fuel
      → n + 2 * length ys < 2 ^ 28
      → length f < 2 ^ 31
      → Writable xs
      → Writable ys
      → Below n f
      → All (λ y. y < n) ys
      → Distinct ys
      → k.p ≡ record (create epsilon delta seed verbosity) {
        nvars = n;
        forall_vars = xs;
        exists_vars = ys;
        clauses = f;
      }
      → k.ignore_unsat ≡ false
      → k.exactcount_s0 ≡ true
      → k.exactcount_s2 ≡ true
      → ReportsInputs oracles gmp k α
      → ReportsModels oracles gmp k α
      → (q : Parser D L) × (parse_dimacs fuel true 0
            (start (create epsilon delta seed verbosity) [])
            c
          ≡ ok q)
        × (q.solver ≡ k.p)
        × ((e : ℕ) × (z : ℕ) × (k' : Counter D F L W) × (get_est0 oracles gmp k
              ≡ ok (pos e, inputs_counted oracles gmp k))
            × (get_g_count oracles gmp
                  (record (inputs_counted oracles gmp k) { p = create_g_formula k.p })
                ≡ ok (pos z, k'))
            × (2 ^ (e + z) ≤ skolem_count xs ys f α)
            × (skolem_count xs ys f α ≤ 2 ^ (e + z * length ys)))
  skolem_count-parse_dimacs epsilon delta seed verbosity n fuel xs ys f c k α e h fits short wx wy
        below outputs_below distinct solver all exact exact' r r' =
      let (q, parsed, same) =
        parse_dimacs-qdimacs text lits epsilon delta seed verbosity n fuel xs ys f c e h
          (omega arith) short wx wy below in
      let inputs : k.p.forall_vars ≡ xs = ap (λ (p : Solver D L). p.forall_vars) solver in
      let outputs : k.p.exists_vars ≡ ys = ap (λ (p : Solver D L). p.exists_vars) solver in
      let clauses : k.p.clauses ≡ f = ap (λ (p : Solver D L). p.clauses) solver in
      let is_ready : IsReady k.p = rw solver (record {
        fits = omega arith;
        clauses_below = below;
        exists_below = outputs_below;
        distinct = distinct;
      }) in
      let (e, z, k', est0, g_count, least, most) =
        skolem_count-get_g_count oracles gmp laws k α is_ready all exact exact' r r' in
      (
        q,
        parsed,
        same ∙ sym solver,
        (
          e,
          z,
          k',
          est0,
          g_count,
          rw (inputs, outputs, clauses) at least,
          rw (inputs, outputs, clauses) at most,
        ),
      )
