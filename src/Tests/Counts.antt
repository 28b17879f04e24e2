-- ===== src/Tests/Counts.antt =====
-- Examples of the counts that the oracles report.
use skolemfc.Base.{
  ℕ, ◌+◌, ◌*◌, ◌<◌, ◌≤◌, ◌≡◌, refl, false, not, some, List, [], ◌∷◌, ◌++◌, length, arith,
}
use skolemfc.Base.Int.{pos}
use skolemfc.Outcome.{ok}
use skolemfc.Oracles.{Oracles, GanakRun}
use skolemfc.Counter
use skolemfc.Counter.{Counter}
use skolemfc.Counter.Text.{count_line, newline, unlines, lines, find_count, find_count_lem, strip}
use skolemfc.Counter.Count.{
  absolute_count_from_appmc, log_count_from_absolute, absolute_count-log_count, get_est0,
}
use skolemfc.Counter.Inputs.{has_output, tally, Reports, get_est0_exact}
use skolemfc.Tests.Packed.{packed}
use skolemfc.Tests.Numbers.{whole, whole_mpf, gmp, gmp-IsSizeInBase2}
use skolemfc.Tests.Inputs.{oracles, ready, solver}

-- "c o 9"
abbrev comment : List ℕ
comment = b'c' ∷ b' ' ∷ b'o' ∷ b' ' ∷ b'9' ∷ []

find_count_lem_example :
    find_count (lines (unlines (comment ∷ []) ++ ((count_line ++ (b'1' ∷ [])) ++ (newline ∷ []))))
    ≡ some (b'1' ∷ [])
unfolding strip
find_count_lem_example =
    find_count_lem (comment ∷ []) (b'1' ∷ []) [] ((refl, (refl, (refl, (refl, (refl, tt))))), tt)
      (refl, tt) (refl, tt)

absolute_count-log_count_example :
    let back = absolute_count_from_appmc (log_count_from_absolute gmp 13) in
    (back ≤ 13) × (0 < 13 → 13 < 2 * back)
absolute_count-log_count_example = absolute_count-log_count gmp 13 gmp-IsSizeInBase2 (omega arith)

-- Ganak counts one input, and the counter asks for an exact count of F, which is x under x or not y.
abbrev pub ganak : Oracles ℕ ℕ ℕ
ganak = record oracles {
  run_ganak = λ text w. (
    GanakRun.printed (unlines (comment ∷ []) ++ ((count_line ++ (b'1' ∷ [])) ++ (newline ∷ []))),
    w + 1,
  );
}

abbrev pub exact : Counter ℕ ℕ ℕ ℕ
exact = record ready {
  p = record solver { clauses = (0 ∷ []) ∷ (0 ∷ 3 ∷ []) ∷ [] };
  ignore_unsat = false;
}

pub one_input :
    Reports gmp
      (GanakRun.printed (unlines (comment ∷ []) ++ ((count_line ++ (b'1' ∷ [])) ++ (newline ∷ []))))
      (pos 1)
unfolding strip
one_input = record {
  before = comment ∷ [];
  number = b'1' ∷ [];
  rest = [];
  prints = refl;
  before_lines = ((refl, (refl, (refl, (refl, (refl, tt))))), tt);
  before_counts = (refl, tt);
  number_line = (refl, tt);
  reads = refl;
}

get_est0_exact_example :
    get_est0 ganak gmp exact
    ≡ ok (
      pos (
          tally exact.p.forall_vars
            (λ β. not (has_output exact.p.exists_vars exact.p.clauses β))
            (λ v. false)
          * length exact.p.exists_vars),
      record exact { world = 1 },
    )
unfolding Counter.create
get_est0_exact_example = get_est0_exact ganak gmp exact (λ v. false) refl refl one_input
