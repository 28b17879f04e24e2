-- ===== src/CommandLine.antt =====
-- `main`, `add_supported_options` and `readInAFile` (src/main.cpp): from the command line to the
-- estimate. Boost's parser and the file system are parameters.
pub mod Main
pub mod Static
pub mod Refused
pub mod Aborted
use skolemfc.Base.{ℕ, Bool, true, false, Option, none, some, List, [], not, ◌==◌, if◌then◌else◌}
use skolemfc.Lit.{LitApi}
use skolemfc.Floats.{DoubleApi, MpfApi}
use skolemfc.Outcome.{Outcome, ok, refused, exited, aborted, raised, out_of_range, timeout, ◌>>=◌}
use skolemfc.Stream.{StreamApi}
use skolemfc.Oracles.{Oracles, GmpApi}
use skolemfc.Parser.{start}
use skolemfc.Parser.Main.{parse_dimacs}
use skolemfc.Counter
use skolemfc.Counter.{Counter}
use skolemfc.Counter.Run.{count}
use skolemfc.Configure.{Options, configure}

-- What the command line gives: a value for an option that is there, and whether a switch is there.
pub record Given (D : Type 0) : Type 0 where
  pub help : Bool
  pub version : Bool
  pub verb : Option ℕ
  pub seed : Option ℕ
  pub threads : Option ℕ
  pub epsilon : Option D
  pub delta : Option D
  pub count_unsat : Bool
  pub no_static_samp : Bool
  pub input : Option (List ℕ)
  pub no_guarantee : Bool
  pub use_unisamp : Option ℕ
  pub exact_f : Option ℕ
  pub exact_g : Option ℕ
  pub epsilon_fc : Option D
  pub delta_fc : Option D
  pub delta_g : Option D
  pub epsilon_g : Option D
  pub max_error_logcounter : Option D

-- What the options leave in the variables of the file and in `vm`.
pub record CommandLine (D : Type 0) : Type 0 where
  pub help : Bool
  pub version : Bool
  pub epsilon : D
  pub delta : D
  pub seed : ℕ
  pub verbosity : ℕ
  pub options : Options D
  pub input : Option (List ℕ)

-- How Boost's `store` and `notify` end: with the variables set, with one of the exceptions that are
-- caught, or with another one.
pub data Stored (D : Type 0) : Type 0 where
  stored : Given D → Stored D
  unknown_option bad_any_cast invalid_option_value multiple_occurrences required_option : Stored D
  too_many_positional_options ambiguous_option invalid_command_line_syntax : Stored D
  uncaught : Stored D

-- `po::value(&x)->default_value(d)`.
abbrev pub value : {A : Type 0} → A → Option A → A
value d none = d
value d (some a) = a

-- `po::bool_switch(&x)->default_value(d)`: true where the switch is there.
abbrev pub bool_switch : Bool → Bool → Bool
bool_switch d given = if given then true else d

-- A number that is used as a `bool`.
abbrev pub is_set : ℕ → Bool
is_set n = not (n == 0)

module _ {D : Type 0} ⦃d : DoubleApi D⦄ where
  open d use {dec}

  -- `add_skolemfc_options`, with the initialisers of the variables: what the options leave in them.
  unfoldable pub add_skolemfc_options : Given D → CommandLine D
  add_skolemfc_options g = record {
    help = g.help;
    version = g.version;
    epsilon = value (dec 8 1) g.epsilon;
    delta = value (dec 4 1) g.delta;
    seed = value 0 g.seed;
    verbosity = value 1 g.verb;
    options = record {
      noguarantee = bool_switch false g.no_guarantee;
      use_unisamp_sampling = is_set (value 1 g.use_unisamp);
      exactcount_f = is_set (value 1 g.exact_f);
      exactcount_g = is_set (value 0 g.exact_g);
      g_counter_epsilon = value (dec 8 2) g.epsilon_g;
      g_counter_delta = value (dec 8 2) g.delta_g;
      nthreads = value 1 g.threads;
      count_unsat_inputs = bool_switch false g.count_unsat;
      static_samp_est = bool_switch true g.no_static_samp;
      epsilon_weightage_fc = value (dec 6 1) g.epsilon_fc;
      delta_weightage_fc = value (dec 5 1) g.delta_fc;
      max_error_logcounter = value (dec 1 1) g.max_error_logcounter;
    };
    input = g.input;
  }

  unfoldable pub add_supported_options : Stored D → Outcome (CommandLine D)
  unfolding add_skolemfc_options
  add_supported_options (stored g) =
      if g.help then exited else if g.version then exited else ok (add_skolemfc_options g)
  add_supported_options uncaught = raised
  add_supported_options _ = exited

-- `if (!parser.parse_DIMACS(in, true)) exit(-1)`.
abbrev pub or_exit : {A : Type 0} → Outcome A → Outcome A
or_exit refused = exited
or_exit m = m

module _ {D F L W C : Type 0} ⦃d : DoubleApi D⦄ ⦃m : MpfApi D F⦄ ⦃a : LitApi L⦄ ⦃s : StreamApi C⦄
    (open_file : List ℕ → Option C) where
  unfoldable pub read_in_a_file : ℕ → List ℕ → Counter D F L W → Outcome (Counter D F L W)
  read_in_a_file fuel filename c = elim (open_file filename) [
    | none ↦ exited
    | some file ↦ or_exit (parse_dimacs fuel true 0 (start c.p []) file) >>= λ q.
        ok (record c { p = q.solver })
  ]

  -- `main`, up to the estimate that it prints. `fuel` is for the parser, `rounds` for the loop.
  unfoldable pub main :
      (oracles : Oracles W D L)
      → GmpApi
      → (junk : D) → (fuel rounds : ℕ) → (quotient : ℕ → ℕ → ℕ) → W
      → Stored D
      → Outcome (F × Counter D F L W)
  unfolding add_supported_options read_in_a_file
  main oracles gmp junk fuel rounds quotient world boost = add_supported_options boost >>= λ line.
      elim line.input [
        | none ↦ exited
        | some filename ↦
            read_in_a_file fuel filename
              (Counter.create junk 0 line.epsilon line.delta line.seed line.verbosity world)
            >>= λ c. configure line.options c >>= λ c'. count oracles gmp rounds quotient c'
      ]
