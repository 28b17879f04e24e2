-- ===== src/Counter/Threads.antt =====
-- `get_and_add_count_onethred` and `get_and_add_count_multithred`. A thread runs to its end when
-- it is started: in the code each one is joined before the next is started.
use skolemfc.Base.{ℕ, zero, suc, ◌+◌, true, none, List, [], ◌∷◌, ◌++◌, length, u64, if◌then◌else◌}
use skolemfc.Base.Int.{ℤ}
use skolemfc.Lit.{LitApi}
use skolemfc.Floats.{DoubleApi, MpfApi}
use skolemfc.Outcome.{Outcome, ok, ◌>>=◌}
use skolemfc.Oracles.{SimplifiedCnf, Settings, Oracles}
use skolemfc.Counter.{Counter}
use skolemfc.Counter.Sample.{create_formula_from_sample}
use skolemfc.Counter.Samples.{log_count, join_all}
use skolemfc.Counter.Partition.{partition}

abbrev pub default_settings : {D : Type 0} → Settings D
default_settings = record { epsilon = none; delta = none; seed = none }

module _ {D F L W : Type 0} ⦃d : DoubleApi D⦄ ⦃m : MpfApi D F⦄ ⦃a : LitApi L⦄
    (oracles : Oracles W D L) where
  open d use {add}
  open m use {of_double, plus, le}
  open oracles use {appmc_count}

  -- The body of the loop at sample `it`: count, then add under the lock.
  unfoldable pub count_thread_sample :
      List (List ℤ) → ℕ → Counter D F L W → Outcome (Counter D F L W)
  unfolding log_count
  count_thread_sample samples it c = create_formula_from_sample samples it c >>= λ formula.
      (let cnf : SimplifiedCnf L = record {
        nvars = c.p.nvars;
        clauses = formula;
        red_clauses = [];
        sampl_vars = none;
      } in
        let (count, world) = appmc_count default_settings cnf c.world in
        let c' = record c { world = world } in
        ok (
          if le c.log_skolemcount c.thresh
          then record c' {
            iteration = u64 (c.iteration + 1);
            log_skolemcount = plus c.log_skolemcount (of_double (log_count count));
          }
          else c'))

  -- The loop from sample `it`, with the number of samples to go.
  unfoldable pub get_and_add_count_onethred :
      List (List ℤ) → ℕ → ℕ → Counter D F L W → Outcome (Counter D F L W)
  unfolding count_thread_sample
  get_and_add_count_onethred samples it zero c = ok c
  get_and_add_count_onethred samples it (suc more) c =
      count_thread_sample samples it c >>= λ c'. get_and_add_count_onethred samples (it + 1) more c'

  -- The loop over the parts: start a thread, then join every thread of `threads`.
  unfoldable pub count_parts : List (List (List ℤ)) → Counter D F L W → Outcome (Counter D F L W)
  unfolding get_and_add_count_onethred
  count_parts [] c = ok c
  count_parts (part ∷ parts) c =
      get_and_add_count_onethred part 0 (length part)
        (record c { threads = c.threads ++ (true ∷ []) })
      >>= λ c'. join_all c'.threads >>= λ joined. count_parts parts (record c' { threads = joined })

  -- `quotient n k` is `std::ceil(n / k)` on doubles, as a size_t.
  unfoldable pub get_and_add_count_multithred :
      (ℕ → ℕ → ℕ) → Counter D F L W → Outcome (Counter D F L W)
  unfolding count_parts partition
  get_and_add_count_multithred quotient c =
      let size = quotient (length c.samples_from_unisamp) c.numthreads in
      count_parts (partition size c.numthreads c.samples_from_unisamp) c
