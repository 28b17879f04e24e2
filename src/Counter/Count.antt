-- ===== src/Counter/Count.antt =====
-- The oracles' calls: `count_using_ganak`, `count_using_approxmc`, `get_est0`, `get_g_count`, and
-- the conversions between a count and its logarithm.
use skolemfc.Base.{
  ℕ, zero, suc, ◌+◌, ◌-◌, ◌*◌, ◌^◌, ◌<◌, ◌≤◌, ◌≡◌, Bool, true, false, Option, none, some, List, [],
  ◌∷◌, arith, length, u32, if◌then◌else◌, ltb, ◌==◌,
}
use skolemfc.Base.Int.{ℤ, pos, negsuc, ◌-ℤ◌, ◌*ℤ◌}
use skolemfc.Lit.{LitApi}
use skolemfc.Cnf.{Formula}
use skolemfc.Outcome.{Outcome, ok, exited, ◌>>=◌}
use skolemfc.Oracles.{SolCount, SimplifiedCnf, Settings, Oracles, GanakRun, GmpApi}
use skolemfc.Counter.{Counter}
use skolemfc.Counter.Text.{cnf_text, lines, find_count}

abbrev pub is_zero : ℤ → Bool
is_zero (pos n) = n == 0
is_zero (negsuc n) = false

-- `absolute_count_from_appmc`.
unfoldable pub absolute_count_from_appmc : SolCount → ℕ
absolute_count_from_appmc c = 2 ^ c.hash_count * c.cell_sol_count

-- `log_count_from_absolute`; `mpz_sizeinbase` looks at the absolute value.
unfoldable pub log_count_from_absolute : GmpApi → ℕ → SolCount
log_count_from_absolute g count = record {
  cell_sol_count = if ltb 0 count then 1 else 0;
  hash_count = u32 (u32 (g.size_in_base2 count) + 2 ^ 32 - 1);
}

-- What GMP's manual says of `mpz_sizeinbase(n, 2)`: the number of bits of `n`, and 1 for 0.
pub record IsSizeInBase2 (g : GmpApi) : Type 0 where
  pub size_zero : g.size_in_base2 0 ≡ 1
  pub size_pos :
      (n : ℕ)
      → 0 < n
      → (0 < g.size_in_base2 n)
        × (2 ^ (g.size_in_base2 n - 1) ≤ n)
        × (n < 2 * 2 ^ (g.size_in_base2 n - 1))

-- For a count whose number of bits fits 32 bits, and GMP as documented: taking the logarithm and
-- going back gives at most the count, and more than half of it unless it is 0.
pub absolute_count-log_count :
    (g : GmpApi) (count : ℕ)
    → IsSizeInBase2 g
    → g.size_in_base2 count < 2 ^ 32
    → let back = absolute_count_from_appmc (log_count_from_absolute g count) in
      (back ≤ count) × (0 < count → count < 2 * back)
unfolding absolute_count_from_appmc log_count_from_absolute
absolute_count-log_count g zero size fits = omega arith
absolute_count-log_count g (suc n) size fits =
    let (some_bits, above, below) = size.size_pos (suc n) (omega arith) in
    let e : u32 (u32 (g.size_in_base2 (suc n)) + 2 ^ 32 - 1) ≡ g.size_in_base2 (suc n) - 1 =
      omega arith in
    let one : ltb 0 (suc n) ≡ true = ground arith in rw (e, one) (omega arith, λ _. omega arith)

unfoldable pub sampling_set : List ℕ → Option (List ℕ)
sampling_set [] = none
sampling_set (v ∷ vs) = some (v ∷ vs)

-- With no count line the program exits.
abbrev pub counted : Option (List ℕ) → Outcome (List ℕ)
counted none = exited
counted (some number) = ok number

module _ {D F L W : Type 0} (oracles : Oracles W D L) where
  open oracles use {minimize, appmc_count}

  unfoldable pub count_using_approxmc :
      ℕ → Formula L → List ℕ → D → D → Counter D F L W → SolCount × Counter D F L W
  unfolding sampling_set
  count_using_approxmc nvars f proj_vars epsilon delta c =
      let cnf : SimplifiedCnf L = record {
        nvars = nvars;
        clauses = f;
        red_clauses = [];
        sampl_vars = sampling_set proj_vars;
      } in
      let (small, vars, world) = minimize cnf c.world in
      let settings : Settings D = record {
        epsilon = some epsilon;
        delta = some delta;
        seed = none;
      } in
      let counted = appmc_count settings (record small { sampl_vars = some vars }) world in
      elim vars [
        | [] ↦ (record { hash_count = 0; cell_sol_count = 1 }, record c { world = world })
        | v ∷ vs ↦ (counted.0, record c { world = counted.1 })
      ]

module _ {D F L W : Type 0} ⦃a : LitApi L⦄ (oracles : Oracles W D L) (gmp : GmpApi) where
  open oracles use {run_ganak}

  -- What the parent process makes of the run of Ganak.
  unfoldable pub read_ganak : GanakRun → Counter D F L W → Outcome (ℤ × Counter D F L W)
  read_ganak GanakRun.no_tempfile c = exited
  read_ganak GanakRun.no_pipe c = ok (pos 1, c)
  read_ganak GanakRun.no_fork c = exited
  read_ganak (GanakRun.printed output) c =
      counted (find_count (lines output)) >>= λ number. ok (gmp.set_str number, c)

  unfoldable pub count_using_ganak :
      ℕ → Formula L → List ℕ → ℕ → Counter D F L W → Outcome (ℤ × Counter D F L W)
  unfolding read_ganak
  count_using_ganak nvars f projection time_limit c =
      let (run, world) = run_ganak (cnf_text nvars f projection) c.world in
      let parsed = read_ganak run (record c { world = world }) in
      if time_limit == 0 then ok (pos 0, c) else parsed

  -- The branch on `exactcount_s0` or `exactcount_s2`.
  unfoldable pub count_formula :
      Bool → ℕ → Formula L → Counter D F L W → Outcome (ℤ × Counter D F L W)
  unfolding count_using_ganak count_using_approxmc absolute_count_from_appmc
  count_formula true nvars f c = count_using_ganak nvars f c.p.forall_vars 1 c
  count_formula false nvars f c =
      let (count, c') =
        count_using_approxmc oracles nvars f c.p.forall_vars c.epsilon_gc c.delta_gc c in
      ok (pos (absolute_count_from_appmc count), c')

  unfoldable pub get_est0 : Counter D F L W → Outcome (ℤ × Counter D F L W)
  unfolding count_formula ◌-ℤ◌ ◌*ℤ◌
  get_est0 c =
      let counted = count_formula c.exactcount_s0 c.p.nvars c.p.clauses c in
      if c.ignore_unsat
      then ok (pos 0, c)
      else counted >>= λ (size, c').
          ok ((pos (2 ^ length c.p.forall_vars) -ℤ size) *ℤ pos (length c.p.exists_vars), c')

  unfoldable pub get_g_count : Counter D F L W → Outcome (ℤ × Counter D F L W)
  unfolding count_formula
  get_g_count c =
      count_formula c.exactcount_s2 c.p.n_g_vars c.p.g_formula_clauses c >>= λ (size, c').
      ok (size, if is_zero size then record c' { okay = false } else c')
