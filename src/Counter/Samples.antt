-- ===== src/Counter/Samples.antt =====
-- `get_sample_num_est`, `get_samples` and `get_samples_multithread`, with the threads that the last
-- of them starts and joins.
use skolemfc.Base.{
  ℕ, zero, suc, ◌+◌, ◌-◌, ◌*◌, ◌/◌, ◌%◌, ◌^◌, Bool, true, false, none, some, List, [], ◌∷◌, ◌++◌,
  u32, u64, if◌then◌else◌, leb,
}
use skolemfc.Base.Int.{ℤ, pos, negsuc}
use skolemfc.Lit.{LitApi}
use skolemfc.Cnf.{Formula}
use skolemfc.Floats.{DoubleApi, MpfApi}
use skolemfc.Outcome.{Outcome, ok, raised, aborted, ◌>>=◌}
use skolemfc.Oracles.{SolCount, SimplifiedCnf, Settings, Oracles, Lbool, l_true, l_false, l_undef}
use skolemfc.Counter.{Counter}
use skolemfc.Counter.Sample.{at}
use skolemfc.Counter.Count.{count_using_approxmc}

-- `((n + multisample) / multisample) * multisample` on ints, which divide towards 0, as a uint64_t. A
-- double that does not fit an int is undefined there, and not modelled.
abbrev pub round_up : ℤ → ℕ
round_up (pos n) = u64 ((n + 500) / 500 * 500)
round_up (negsuc n) =
    if leb n 499 then (499 - n) / 500 * 500 else u64 (2 ^ 64 - (n - 499) / 500 * 500)

-- The uint64_t that a double converts to.
abbrev pub to_u64 : ℤ → ℕ
to_u64 (pos n) = u64 n
to_u64 (negsuc n) = 2 ^ 64 - 1 - n % 2 ^ 64

-- `thread.join()` for each thread: a thread that is not joinable raises `std::system_error`.
unfoldable pub join_all : List Bool → Outcome (List Bool)
join_all [] = ok []
join_all (true ∷ threads) = join_all threads >>= λ joined. ok (false ∷ joined)
join_all (false ∷ threads) = raised

module _ {L : Type 0} ⦃a : LitApi L⦄ where
  unfoldable pub model_unit : ℕ → Lbool → Outcome (List L)
  model_unit var l_true = ok (a.mk var false ∷ [])
  model_unit var l_false = ok (a.mk var true ∷ [])
  model_unit var l_undef = aborted

  -- The loop over `forall_vars`: the units that fix X as the model does.
  unfoldable pub model_units : List Lbool → List ℕ → Formula L → Outcome (Formula L)
  unfolding at model_unit
  model_units model [] f = ok f
  model_units model (var ∷ vars) f = at model var >>= λ value.
      model_unit var value >>= λ unit. model_units model vars (f ++ (unit ∷ []))

module _ {D : Type 0} ⦃d : DoubleApi D⦄ where
  open d use {of_ℕ, add, log2}

  -- `hashCount + log2(cellSolCount)`.
  unfoldable pub log_count : SolCount → D
  log_count c = add (of_ℕ c.hash_count) (log2 (of_ℕ c.cell_sol_count))

module _ {D F L W : Type 0} ⦃d : DoubleApi D⦄ ⦃m : MpfApi D F⦄ ⦃a : LitApi L⦄
    (oracles : Oracles W D L) where
  open d use {dec, div, trunc}
  open m use {get_d}
  open oracles use {minimize, appmc_count, solve, unigen_sample}

  unfoldable pub get_sample_num_est : Counter D F L W → Outcome (Counter D F L W)
  unfolding model_units log_count count_using_approxmc
  get_sample_num_est c =
      let (res, model, world) = solve c.p.n_g_vars c.p.g_formula_clauses c.world in
      let estimated = model_units model c.p.forall_vars c.p.g_formula_clauses >>= λ f.
      (let (count, c') =
          count_using_approxmc oracles c.p.n_g_vars f [] (dec 466 2) (dec 7 1)
            (record c { world = world }) in
        ok (record c' {
          sample_num_est = round_up (trunc (div (get_d c.thresh) (log_count count)));
        })) in
      if c.static_samp then ok (record c { sample_num_est = 500 }) else estimated

  -- What `get_samples` sets on its `AppMC`.
  abbrev pub sampler_settings : ℕ → Counter D F L W → Settings D
  sampler_settings seed c = record {
    epsilon = if c.use_unisamp then some (dec 414 3) else none;
    delta = if c.use_unisamp then some (dec 1 1) else none;
    seed = some (u32 (u64 (c.iteration * seed)));
  }

  unfoldable pub get_samples : ℕ → ℕ → Counter D F L W → Counter D F L W
  get_samples wanted seed c =
      let cnf : SimplifiedCnf L = record {
        nvars = c.p.n_g_vars;
        clauses = c.p.g_formula_clauses;
        red_clauses = [];
        sampl_vars = some c.p.forall_vars;
      } in
      let (small, vars, world) = minimize cnf c.world in
      let ready = record small { sampl_vars = some vars } in
      let (count, world') = appmc_count (sampler_settings seed c) ready world in
      let (samples, world'') =
        unigen_sample (sampler_settings seed c) ready c.p.forall_vars count wanted world' in
      record c { samples_from_unisamp = c.samples_from_unisamp ++ samples; world = world'' }

  -- The threads `i .. numthreads`, each run to its end when it is started.
  unfoldable pub start_samplers : ℕ → ℕ → ℕ → Counter D F L W → Counter D F L W
  unfolding get_samples
  start_samplers wanted i zero c = c
  start_samplers wanted i (suc more) c =
      start_samplers wanted (i + 1) more
        (get_samples wanted i (record c { threads = c.threads ++ (true ∷ []) }))

  unfoldable pub get_samples_multithread : ℕ → Counter D F L W → Outcome (Counter D F L W)
  unfolding start_samplers join_all
  get_samples_multithread wanted c =
      let c' = start_samplers (wanted / c.numthreads) 0 c.numthreads c in
      join_all c'.threads >>= λ joined. ok (record c' { threads = joined })
