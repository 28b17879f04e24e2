-- ===== src/Tests/Functions.antt =====
-- Examples of the counts of Skolem functions, and of the orders of the samplers.
use mathlib.Core.List.{Perm}
use mathlib.Core.List.Perm
use skolemfc.Base.{ℕ, ◌+◌, ◌*◌, ◌^◌, ◌≤◌, ◌≡◌, refl, true, false, List, [], ◌∷◌, length, arith}
use skolemfc.Base.Int.{ℤ, pos, negsuc}
use skolemfc.Cnf.{Formula, formula_value}
use skolemfc.Outcome.{ok}
use skolemfc.Solver
use skolemfc.Solver.{create_g_formula}
use skolemfc.Solver.Correct.{IsReady}
use skolemfc.Counter
use skolemfc.Counter.{Counter}
use skolemfc.Counter.Text.{strip, decimal, clauses_text}
use skolemfc.Counter.Count.{get_est0, get_g_count}
use skolemfc.Counter.Inputs.{tally}
use skolemfc.Counter.Outputs.{variables}
use skolemfc.Counter.Sample.{create_formula_from_sample}
use skolemfc.Counter.Samples.{start_samplers}
use skolemfc.Counter.Samplers.{Callbacks, Finished, drawn_samples, start_samplers-perm}
use skolemfc.Skolem.{skolem_count, product, many, outputs}
use skolemfc.Skolem.Counts.{inputs_counted, skolem_count-get_est0, skolem_count-get_g_count}
use skolemfc.Skolem.Sample.{along, create_formula_from_sample-outputs}
use skolemfc.Skolem.Read.{skolem_count-parse_dimacs}
use skolemfc.Parser.{Parser, start}
use skolemfc.Parser.Main.{parse_dimacs}
use skolemfc.Parser.Format.{qdimacs}
use skolemfc.Tests.Buffer.{buffer}
use skolemfc.Tests.Written.{buffer_text, packed_text}
use skolemfc.Tests.Packed.{packed, packed_laws}
use skolemfc.Tests.Numbers.{whole, whole_mpf, gmp}
use skolemfc.Tests.Inputs.{oracles, ready}
use skolemfc.Tests.Counts.{ganak, exact, one_input}

skolem_count-get_est0_example :
    (e : ℕ) × (get_est0 ganak gmp exact ≡ ok (pos e, inputs_counted ganak gmp exact))
    × (skolem_count exact.p.forall_vars exact.p.exists_vars exact.p.clauses (λ v. false)
        ≡ 2 ^ e
          * product exact.p.forall_vars (many exact.p.exists_vars exact.p.clauses) (λ v. false))
unfolding Counter.create Solver.create strip
skolem_count-get_est0_example =
    skolem_count-get_est0 ganak gmp exact (λ v. false) (λ h. h, tt) refl refl one_input

abbrev pub both : Counter ℕ ℕ ℕ ℕ
both = record exact { exactcount_s2 = true }

pub both-IsReady : IsReady both.p
unfolding Solver.create
both-IsReady = record {
  fits = omega arith;
  clauses_below = ((omega arith, tt), ((omega arith, (omega arith, tt)), tt));
  exists_below = ground arith;
  distinct = (λ h. h, tt);
}

-- One input has outputs, and it has two.
skolem_count-get_g_count_example :
    let f = both.p.clauses in
    let functions = skolem_count both.p.forall_vars both.p.exists_vars f (λ v. false) in
    (e : ℕ) × (s : ℕ) × (c' : Counter ℕ ℕ ℕ ℕ) × (get_est0 ganak gmp both
      ≡ ok (pos e, inputs_counted ganak gmp both))
    × (get_g_count ganak gmp
          (record (inputs_counted ganak gmp both) { p = create_g_formula both.p })
        ≡ ok (pos s, c'))
    × (2 ^ (e + s) ≤ functions)
    × (functions ≤ 2 ^ (e + s * length both.p.exists_vars))
unfolding Counter.create Solver.create create_g_formula strip
skolem_count-get_g_count_example =
    skolem_count-get_g_count ganak gmp packed_laws both (λ v. false) both-IsReady refl refl refl
      one_input one_input

skolem_count-parse_dimacs_example :
    let p = Solver.create {D = ℕ} {L = ℕ} 8 4 1 1 in
    let f : Formula ℕ = (0 ∷ []) ∷ (0 ∷ 3 ∷ []) ∷ [] in
    let functions = skolem_count (0 ∷ []) (1 ∷ []) f (λ v. false) in
    (q : Parser ℕ ℕ) × (parse_dimacs 50 true 0 (start p []) (qdimacs 2 (0 ∷ []) (1 ∷ []) f) ≡ ok q)
    × (q.solver ≡ both.p)
    × ((e : ℕ) × (z : ℕ) × (k' : Counter ℕ ℕ ℕ ℕ) × (get_est0 ganak gmp both
          ≡ ok (pos e, inputs_counted ganak gmp both))
        × (get_g_count ganak gmp
              (record (inputs_counted ganak gmp both) { p = create_g_formula both.p })
            ≡ ok (pos z, k'))
        × (2 ^ (e + z) ≤ functions)
        × (functions ≤ 2 ^ (e + z * 1)))
unfolding Counter.create Solver.create create_g_formula strip decimal clauses_text
skolem_count-parse_dimacs_example =
    skolem_count-parse_dimacs buffer_text packed_text packed_laws ganak gmp 8 4 1 1 2 50 (0 ∷ [])
      (1 ∷ []) ((0 ∷ []) ∷ (0 ∷ 3 ∷ []) ∷ [])
      (qdimacs {L = ℕ} 2 (0 ∷ []) (1 ∷ []) ((0 ∷ []) ∷ (0 ∷ 3 ∷ []) ∷ [])) both (λ v. false) refl
      (omega arith) (omega arith) (omega arith) (omega arith, tt) (omega arith, tt)
      ((omega arith, tt), ((omega arith, (omega arith, tt)), tt)) (ground arith) ((λ h. h), tt) refl
      refl refl refl one_input one_input

create_formula_from_sample-outputs_example :
    (formula : Formula ℕ) × (create_formula_from_sample ready.samples_from_unisamp 1 ready
      ≡ ok formula)
    × (tally (variables 0 ready.p.nvars) (λ β. formula_value β formula) (λ v. false)
        ≡ outputs ready.p.exists_vars ready.p.clauses (along (negsuc 0 ∷ []) (λ v. false)))
unfolding Counter.create
create_formula_from_sample-outputs_example =
    create_formula_from_sample-outputs packed_laws ready ready.samples_from_unisamp 1 1
      (negsuc 0 ∷ []) (λ v. false) (Perm.refl _) ((λ h. omega (arith, h), (λ h. h, tt)))
      (omega arith, tt) refl (omega arith) refl (refl, tt)

start_samplers-perm_example :
    ((queues : List (List (List ℤ))) × (samples : List (List ℤ)) × Callbacks
        (drawn_samples oracles 250 0 2 ready)
        ready.samples_from_unisamp
        queues
        samples
      × Finished queues)
    × ((queues : List (List (List ℤ))) (samples : List (List ℤ))
        → Callbacks (drawn_samples oracles 250 0 2 ready) ready.samples_from_unisamp queues samples
        → Finished queues
        → Perm (start_samplers oracles 250 0 2 ready).samples_from_unisamp samples)
start_samplers-perm_example = start_samplers-perm oracles 250 0 2 ready
