-- ===== src/Stream.antt =====
-- The input. `StreamBuffer` belongs to CryptoMiniSat and is not part of this repository, so the
-- model takes it as a parameter: the operations that the parser calls, and what it relies on.
use skolemfc.Base.{ℕ, ◌^◌, ◌≤◌, ◌<◌, ◌≡◌, Option, some, List}
use skolemfc.Base.Int.{ℤ, abs}

pub record StreamApi (C : Type 0) : Type 0 where
  -- `*in`; `none` is EOF
  pub peek : C → Option ℕ
  -- `++in`
  pub next : C → C
  pub skip_whitespace : C → C
  pub skip_line : C → C
  -- `none` is the result `false`
  pub skip_eol : C → Option C
  pub parse_int : C → Option (ℤ × C)
  pub parse_string : C → List ℕ × C

-- No operation goes back in the input; a byte and a number are consumed. A number is an int32_t
-- whose absolute value is one, too.
pub record StreamLaws (C : Type 0) ⦃a : StreamApi C⦄ : Type 0 where
  pub left : C → ℕ
  pub next-lt : (c : C) (b : ℕ) → a.peek c ≡ some b → left (a.next c) < left c
  pub skip_whitespace-le : (c : C) → left (a.skip_whitespace c) ≤ left c
  pub skip_line-le : (c : C) → left (a.skip_line c) ≤ left c
  pub skip_line-lt : (c : C) → a.peek c ≡ some b'\n' → left (a.skip_line c) < left c
  pub skip_eol-le : (c c' : C) → a.skip_eol c ≡ some c' → left c' ≤ left c
  pub parse_string-le : (c : C) → left (a.parse_string c).1 ≤ left c
  pub parse_int-lt : (c c' : C) (n : ℤ) → a.parse_int c ≡ some (n, c') → left c' < left c
  pub parse_int-abs : (c c' : C) (n : ℤ) → a.parse_int c ≡ some (n, c') → abs n < 2 ^ 31
