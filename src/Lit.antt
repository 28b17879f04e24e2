-- ===== src/Lit.antt =====
-- Literals. `CMSat::Lit` belongs to CryptoMiniSat and is not part of this repository, so the model
-- takes it as a parameter: the operations that the code calls, and the laws that its documentation
-- gives for them.
use skolemfc.Base.{ℕ, ◌^◌, ◌<◌, ◌≡◌, Bool, not, List}

-- `Lit(var, sign)`, `.var()`, `.sign()`, `~` and the bytes that `<<` prints.
pub record LitApi (L : Type 0) : Type 0 where
  pub mk : ℕ → Bool → L
  pub var : L → ℕ
  pub sign : L → Bool
  pub neg : L → L
  pub print : L → List ℕ

-- A literal packs its variable and its sign into 32 bits, so 31 bits are left for the variable.
pub record LitLaws (L : Type 0) ⦃a : LitApi L⦄ : Type 0 where
  pub var-mk : (v : ℕ) (s : Bool) → v < 2 ^ 31 → a.var (a.mk v s) ≡ v
  pub sign-mk : (v : ℕ) (s : Bool) → a.sign (a.mk v s) ≡ s
  pub var-neg : (l : L) → a.var (a.neg l) ≡ a.var l
  pub sign-neg : (l : L) → a.sign (a.neg l) ≡ not (a.sign l)
