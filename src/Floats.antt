-- ===== src/Floats.antt =====
-- The numbers that are not part of this repository: `double` and GMP's `mpf_class`. The model takes
-- the two types and the operations that the code calls as parameters, and assumes nothing of them
-- unless a theorem says so. GMP traps on a division by zero; here `over` and `div` are total.
use skolemfc.Base.{ℕ, Bool}
use skolemfc.Base.Int.{ℤ}

pub record DoubleApi (D : Type 0) : Type 0 where
  -- the literal m / 10 ^ k, and the conversion from an unsigned integer
  pub dec : ℕ → ℕ → D
  pub of_ℕ : ℕ → D
  pub add : D → D → D
  pub sub : D → D → D
  pub mul : D → D → D
  pub div : D → D → D
  pub least : D → D → D
  pub less : D → D → Bool
  pub log : D → D
  pub log2 : D → D
  pub ceil : D → D
  pub is_finite : D → Bool
  -- the conversion to an integer, which drops the fraction
  pub trunc : D → ℤ

pub record MpfApi (D F : Type 0) : Type 0 where
  pub of_double : D → F
  pub of_mpz : ℤ → F
  pub get_d : F → D
  pub plus : F → F → F
  pub times : F → F → F
  pub over : F → F → F
  pub le : F → F → Bool
  pub lt : F → F → Bool
  -- `mpz_class * double`, as it is compared with an `mpf_class`
  pub mpz_times : ℤ → D → F
