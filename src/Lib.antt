-- ===== src/Lib.antt =====
-- SkolemFC, an approximate counter of Skolem functions (src/ of the repository): a model of the program
-- and what is proved of it.
--
-- The program reads a formula F over inputs X and outputs Y (class DimacsParser, src/dimacsparser.h)
-- into a solver (struct SklFCInt, src/skolemfc-int.h and src/skolemfc-int.cpp). The counter (class
-- SklFC, src/skolemfc.h and src/skolemfc.cpp) builds a second formula G over X, Y, a copy Y' and
-- auxiliary variables (`create_g_formula`), which has a model exactly where an input has two outputs.
-- It counts inputs without an output (`get_est0`) and models of G (`get_g_count`), draws models of G as
-- samples, counts the outputs under each sample, and adds the logarithms up until they pass a
-- threshold. Its estimate is printed by `count`. src/main.cpp reads the options and the file and calls
-- these parts.
--
-- The files:
-- Base         names of the library, tests and lists over the native numbers, machine words, ℤ
-- Lit, Cnf     `CMSat::Lit` as a parameter with its laws; what a formula in CNF means
-- Outcome      how a piece ends: a value, a refusal, exit, abort, an exception, a bad read; Post and
--              Partial say what holds at the end
-- Stream       `StreamBuffer` as a parameter with its laws
-- Floats       `double` and `mpf_class` as parameters; nothing is assumed of them
-- Oracles      ApproxMC, Arjun, UniGen, CryptoMiniSat and Ganak as functions of a state of the world;
--              GMP
-- Solver       `SklFCInt`; Shape, Values, Correct and Bounds are about
--              `create_g_formula`, and Show has what `print_formula` prints
-- Parser       `DimacsParser`; `check_var`, `readClause` and `parse_and_add_clause` here, the other
--              lines in Lines, the loop in Main; Valid, LinesValid and Accepted hold the proofs about
--              what is accepted. Format describes the text of a formula apart from the parser;
--              ClauseText, Blocks, Header, Opening, RoundTrip and Written prove what the parser makes of it,
--              Refused of one with a literal that is too large, Projected of the text for Ganak,
--              Commented of what `print_formula` prints
-- Counter      the members and setters of `SklFC`, and its methods by topic: Show (`show_count`), Text
--              (what is written for Ganak and read back), Count (the calls that count), Samples
--              (`get_sample_num_est`, `get_samples`, threads), Sample (`create_formula_from_sample`),
--              Rounds (`get_and_add_count_for_a_sample`), Partition and Threads
--              (`get_and_add_count_multithred`), Run (`set_constants`, the loop, `count`), PrintCnf
--              (`print_cnf`). Inputs, Outputs and GCount say what the two counts stand for; Joins,
--              Budget, Kept, Loop, Returns and Estimate hold proofs about the
--              run. Samplers has the orders in which sampler threads can push their samples
-- Skolem       Skolem functions and their number, described apart from the code. Tables and Product
--              find the number as a product over the inputs, Outputs relates it to the counts of the
--              code, Counts to `get_est0` and `get_g_count`, Sample and Sampled to the formula under a
--              sample, and Rounds and Loop to what `count_loop` sums up, with what Promises asks of
--              ApproxMC, Arjun and UniGen. Read goes from the text of a formula to its number.
--              Specification says what the estimate is in terms of F alone; Ending and Estimate compare
--              `count` with it where Ganak counts, GCount and Lower where the options are the default,
--              and Printed, Main and MainLower a whole run of `main`
-- Configure    the order in which `main` calls the setters, with the assertion of the last one
-- CommandLine  the options with their defaults, `readInAFile` and `main`; Main, Static, Refused and
--              Aborted hold proofs about whole runs
-- Tests        a small stand-in for each parameter, and examples
--
-- A method becomes a function from the object's record to the record behind it, and names follow the
-- code's. A `return false`, `exit`, failed assertion, exception of the C++ library and read out of
-- bounds is an `Outcome`. Integers of a fixed width wrap around where the code's do (`u32`, `u64`).
-- Conversions between `int` and `uint32_t` are written out.
--
-- Fuel: `parse_dimacs` and its inner loops take fuel, and any number above the number of bytes left is
-- enough, since each round consumes a byte. `count_loop` takes fuel; since the sum depends on what
-- ApproxMC answers, enough fuel is told by a rank of the sum. `decimal` gives itself enough fuel, one
-- more than the number.
--
-- Parameters: Boost's parser of options (`Stored` says how it ends), the opening of a file, and in
-- PrintCnf the file system. `StreamText` and `LitText` say what the input buffer and `<<` do on the
-- bytes of a text; they are used where a written formula is read back, and only there. `Draws` and
-- `DrawsTwo` ask of UniGen that it gives samples;
-- `Approximates`, `ApproximatesInputs` and `SamplesModels` say that counts are near the numbers of models
-- and that samples of G are of its models. ApproxMC and UniGen do so with some probability, which is not modelled.
--
-- Not modelled: clocks, and printing but for `print_formula`; `check_ready` and `match`; the texts of the
-- options; debugging members that no code reads. Arithmetic traps: those that `main` turns on for
-- `double`, and GMP's on a division by zero, which `get_est1` reaches without a round for a negative
-- threshold and `check_if_approxmc_error_exceeds` for a count of 0; the division is a total parameter,
-- so a theorem that says that a run returns says it up to these traps. In the same way, the conversion
-- of a double to an int where it does not fit, in `get_sample_num_est`, which is undefined there.
-- The counting threads are started and joined one after the other in the source, too. In the runs of
-- the model each sampler comes to its end when it is started; Samplers covers the other orders of the
-- calls of `unigen_callback`, but not calls that overlap, which the lock that is commented out allows.
-- `double` and `mpf_class` have no laws here but those that a theorem names, so the accuracy of the
-- estimate is not covered. src/time_mem.h is a copy from another project.
pub mod Base
pub mod Lit
pub mod Cnf
pub mod Solver
pub mod Outcome
pub mod Stream
pub mod Parser
pub mod Floats
pub mod Oracles
pub mod Counter
pub mod Configure
pub mod CommandLine
pub mod Skolem
mod Tests
