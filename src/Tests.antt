-- ===== src/Tests.antt =====
-- Concrete inputs: a small stand-in for each library that the code calls, and one example of each
-- theorem.
mod Packed
mod Buffer
mod Numbers
mod Inputs
mod Written
mod Files
mod Runs
mod Formulas
mod Counts
mod Estimates
mod Functions
mod Texts
mod Loops
mod Whole
