-- ===== src/CommandLine/Main.antt =====
-- What a run of `main` that prints an estimate has gone through.
use skolemfc.Base.{ℕ, ◌≤◌, ◌≡◌, true, false, Option, some, List, []}
use skolemfc.Lit.{LitApi, LitLaws}
use skolemfc.Floats.{DoubleApi, MpfApi}
use skolemfc.Outcome.{Outcome, ok}
use skolemfc.Stream.{StreamApi, StreamLaws}
use skolemfc.Oracles.{Oracles, GmpApi}
use skolemfc.Solver.{Solver}
use skolemfc.Parser.{Parser, start}
use skolemfc.Parser.Main.{parse_dimacs}
use skolemfc.Parser.Accepted.{IsAccepted}
use skolemfc.Counter
use skolemfc.Counter.{Counter}
use skolemfc.Counter.Estimate.{IsEstimate}
use skolemfc.Configure.{configured}
use skolemfc.CommandLine.{CommandLine, Given, Stored, stored, add_skolemfc_options}

module _ {D : Type 0} ⦃d : DoubleApi D⦄ where
  -- The command line was read, and asks for no help.
  abbrev IsRead : Stored D → CommandLine D → Type 0
  IsRead boost line =
      (g : Given D) × (boost ≡ stored g)
      × (line ≡ add_skolemfc_options g)
      × (g.help ≡ false)
      × (g.version ≡ false)

module _ {D L C : Type 0} ⦃a : LitApi L⦄ ⦃s : StreamApi C⦄ (open_file : List ℕ → Option C) where
  -- The parser that has accepted the file with a name.
  abbrev Parsed : ℕ → List ℕ → Solver D L → Parser D L → Type 0
  Parsed fuel filename p q =
      (file : C) × (open_file filename ≡ some file)
      × (parse_dimacs fuel true 0 (start p []) file ≡ ok q)

module _ {D L W C : Type 0} (F : Type 0) ⦃d : DoubleApi D⦄ ⦃m : MpfApi D F⦄ ⦃a : LitApi L⦄
    ⦃s : StreamApi C⦄ (open_file : List ℕ → Option C) (laws : LitLaws L)
    (input : StreamLaws C) where
  -- A new counter with the solver of the parse of a file that was accepted.
  abbrev Loaded : ℕ → List ℕ → Counter D F L W → Counter D F L W → Type 0
  Loaded fuel filename c c' =
      (q : Parser D L) × IsAccepted q
      × (c' ≡ record c { p = q.solver })
      × Parsed open_file fuel filename c.p q

  module _ (oracles : Oracles W D L) (gmp : GmpApi) where
    -- How a run of `main` has come to print `total`.
    pub record IsPrinted (fuel : ℕ) (junk : D) (world : W) (boost : Stored D) (total : F)
        : Type 0 where
      pub given : Given D
      pub line : CommandLine D
      pub filename : List ℕ
      pub file : C
      pub parser : Parser D L
      pub read : boost ≡ stored given
      pub options : line ≡ add_skolemfc_options given
      pub no_help : given.help ≡ false
      pub no_version : given.version ≡ false
      pub named : line.input ≡ some filename
      pub opened : open_file filename ≡ some file
      pub parsed :
          parse_dimacs fuel true 0
            (start (skolemfc.Solver.create line.epsilon line.delta line.seed line.verbosity) [])
            file
          ≡ ok parser
      pub accepted : IsAccepted parser
      pub one_thread : line.options.nthreads ≤ 1
      pub estimate :
          IsEstimate oracles gmp
            (configured line.options
              (record (Counter.create junk 0 line.epsilon line.delta line.seed line.verbosity
                world) { p = parser.solver }))
            total
