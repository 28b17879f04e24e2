-- ===== src/Counter/Inputs.antt =====
-- `get_est0` against a count of the inputs: with an exact oracle it is |Y| times the number of
-- values of X for which no value of Y satisfies F.
use native.Mathlib.Nat.{pow-suc}
use skolemfc.Base.{
  ℕ, ◌+◌, ◌-◌, ◌*◌, ◌^◌, ◌≡◌, ◌∙◌, Bool, true, false, not, ◌||◌, List, [], ◌∷◌, ◌++◌, arith, length,
  All, if◌then◌else◌, leb, ◌==◌,
}
use skolemfc.Base.Int.{ℤ, pos, ◌-ℤ◌, ◌*ℤ◌}
use skolemfc.Lit.{LitApi}
use skolemfc.Cnf.{Formula, Assignment, formula_value}
use skolemfc.Outcome.{ok}
use skolemfc.Oracles.{Oracles, GanakRun, GmpApi}
use skolemfc.Counter.{Counter}
use skolemfc.Counter.Text.{
  cnf_text, find_count_lem, newline, count_line, unlines, IsLine, HasNoCount,
}
use skolemfc.Counter.Count.{read_ganak, count_formula, get_est0}

abbrev pub assign : Assignment → ℕ → Bool → Assignment
assign α x b v = if v == x then b else α v

-- Some values of `ys` satisfy the formula.
abbrev pub has_output : {L : Type 0} ⦃a : LitApi L⦄ → List ℕ → Formula L → Assignment → Bool
has_output [] f α = formula_value α f
has_output (y ∷ ys) f α = has_output ys f (assign α y true) || has_output ys f (assign α y false)

-- The number of values of `xs` at which a test holds.
abbrev pub tally : List ℕ → (Assignment → Bool) → Assignment → ℕ
tally [] test α = if test α then 1 else 0
tally (x ∷ xs) test α = tally xs test (assign α x true) + tally xs test (assign α x false)

pub tally_complement :
    (xs : List ℕ) (test : Assignment → Bool) (α : Assignment)
    → tally xs test α + tally xs (λ β. not (test β)) α ≡ 2 ^ length xs
tally_complement [] test α = ground arith
tally_complement (x ∷ xs) test α =
    let one = tally_complement xs test (assign α x true) in
    let two = tally_complement xs test (assign α x false) in
    rw (pow-suc 2 (length xs)) (omega arith)

difference : (total t u k : ℕ) → t + u ≡ total → (pos total -ℤ pos t) *ℤ pos k ≡ pos (u * k)
unfolding ◌-ℤ◌ ◌*ℤ◌
difference total t u k e = rw (← e) (
    let s : t + u + 0 - (0 + t) ≡ u = omega arith in
    let l : leb (0 + t) (t + u + 0) ≡ true = ground arith in rw (l, s) (ground arith))

-- A run of Ganak that prints a count line for `n`, perhaps among other lines.
pub record Reports (gmp : GmpApi) (run : GanakRun) (n : ℤ) : Type 0 where
  pub before : List (List ℕ)
  pub number : List ℕ
  pub rest : List ℕ
  pub prints :
      run ≡ GanakRun.printed (unlines before ++ ((count_line ++ number) ++ (newline ∷ rest)))
  pub before_lines : All IsLine before
  pub before_counts : HasNoCount before
  pub number_line : IsLine number
  pub reads : gmp.set_str number ≡ n

module _ {D F L W : Type 0} ⦃a : LitApi L⦄ (oracles : Oracles W D L) (gmp : GmpApi) where
  open oracles use {run_ganak}

  read_ganak-Reports :
      (run : GanakRun) (n : ℤ) (c : Counter D F L W)
      → Reports gmp run n
      → read_ganak oracles gmp run c ≡ ok (n, c)
  unfolding read_ganak
  read_ganak-Reports run n c r =
      let found =
        find_count_lem r.before r.number r.rest r.before_lines r.before_counts r.number_line in
      rw (r.prints, read_ganak, found, r.reads)

  pub count_formula_exact :
      (b : Bool) (nvars : ℕ) (f : Formula L) (n : ℤ) (c : Counter D F L W)
      → b ≡ true
      → Reports gmp (run_ganak (cnf_text nvars f c.p.forall_vars) c.world).0 n
      → count_formula oracles gmp b nvars f c
        ≡ ok (n, record c { world = (run_ganak (cnf_text nvars f c.p.forall_vars) c.world).1 })
  unfolding count_formula
  count_formula_exact b nvars f n c e r =
      let text = cnf_text nvars f c.p.forall_vars in
      rw e (
        read_ganak-Reports (run_ganak text c.world).0 n
          (record c { world = (run_ganak text c.world).1 }) r)

  est0_counted :
      (c c' : Counter D F L W) (n : ℤ)
      → c.ignore_unsat ≡ false
      → count_formula oracles gmp c.exactcount_s0 c.p.nvars c.p.clauses c ≡ ok (n, c')
      → get_est0 oracles gmp c
        ≡ ok ((pos (2 ^ length c.p.forall_vars) -ℤ n) *ℤ pos (length c.p.exists_vars), c')
  unfolding get_est0
  est0_counted c c' n all e = simp (all, e)

  -- Where inputs without an output are counted with Ganak, and Ganak prints the number of values of X
  -- for which F has an output: `get_est0` returns |Y| times the number of values of X for which it
  -- has none, and changes nothing but the state of the world.
  pub get_est0_exact :
      (c : Counter D F L W) (α : Assignment)
      → c.ignore_unsat ≡ false
      → c.exactcount_s0 ≡ true
      → let test = has_output c.p.exists_vars c.p.clauses in
        let text = cnf_text c.p.nvars c.p.clauses c.p.forall_vars in
        Reports gmp (run_ganak text c.world).0 (pos (tally c.p.forall_vars test α))
        → get_est0 oracles gmp c
          ≡ ok (
            pos (
                tally c.p.forall_vars (λ β. not (has_output c.p.exists_vars c.p.clauses β)) α
                * length c.p.exists_vars),
            record c {
              world = (run_ganak (cnf_text c.p.nvars c.p.clauses c.p.forall_vars) c.world).1;
            },
          )
  get_est0_exact c α all exact r =
      let test = has_output c.p.exists_vars c.p.clauses in
      let sum = tally_complement c.p.forall_vars test α in
      est0_counted c _ _ all (count_formula_exact _ c.p.nvars c.p.clauses _ c exact r)
      ∙ rw (difference _ _ _ (length c.p.exists_vars) sum)
