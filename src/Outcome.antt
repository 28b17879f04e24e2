-- ===== src/Outcome.antt =====
-- How a piece of the program ends: with a value, with a `return false`, with `exit`, with an
-- `abort` (a failed assertion), with an exception of the C++ library, or with a read out of bounds.
-- `timeout` is no behaviour of the program: it says that the fuel of a loop ran out.
mod Value
mod Post
mod Partial
pub use Value.*
pub use Post.*
pub use Partial.*
