-- ===== src/Outcome/Value.antt =====
-- The ways in which a piece of the program ends, and the sequence of two pieces.
use skolemfc.Base.{Option, none, some}

pub data Outcome (A : Type 0) : Type 0 where
  ok : A → Outcome A
  refused exited aborted raised out_of_range timeout : Outcome A

infixl 5 ◌>>=◌
abbrev pub ◌>>=◌ : {A B : Type 0} → Outcome A → (A → Outcome B) → Outcome B
ok a >>= f = f a
refused >>= f = refused
exited >>= f = exited
aborted >>= f = aborted
raised >>= f = raised
out_of_range >>= f = out_of_range
timeout >>= f = timeout

-- A call that answers `false` is followed by `return false`.
abbrev pub required : {A : Type 0} → Option A → Outcome A
required none = refused
required (some a) = ok a
