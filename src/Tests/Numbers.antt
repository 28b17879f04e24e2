-- ===== src/Tests/Numbers.antt =====
-- Whole numbers in the place of `double` and `mpf_class`, and GMP's two operations on them.
use native.Mathlib.Nat.{pow-suc}
use skolemfc.Base.{
  ℕ, zero, suc, ◌+◌, ◌-◌, ◌*◌, ◌/◌, ◌^◌, ◌≤◌, ◌<◌, ◌≡◌, ◌≢◌, refl, true, List, [], ◌∷◌, ltb, leb,
  ◌==◌, if◌then◌else◌, arith, Bool-cases, inl, inr, ==_iff,
}
use skolemfc.Base.Int.{pos, pos_part}
use skolemfc.Floats.{DoubleApi, MpfApi}
use skolemfc.Oracles.{GmpApi}
use skolemfc.Counter.Count.{IsSizeInBase2}

instance abbrev pub whole : DoubleApi ℕ
whole = record {
  dec = λ m k. m / 10 ^ k;
  of_ℕ = λ n. n;
  add = λ x y. x + y;
  sub = λ x y. x - y;
  mul = λ x y. x * y;
  div = λ x y. x / y;
  least = λ x y. if ltb y x then y else x;
  less = ltb;
  log = λ x. x;
  log2 = λ x. x;
  ceil = λ x. x;
  is_finite = λ x. true;
  trunc = λ x. pos x;
}

instance abbrev pub whole_mpf : MpfApi ℕ ℕ
whole_mpf = record {
  of_double = λ x. x;
  of_mpz = pos_part;
  get_d = λ x. x;
  plus = λ x y. x + y;
  times = λ x y. x * y;
  over = λ x y. x / y;
  le = leb;
  lt = ltb;
  mpz_times = λ n x. pos_part n * x;
}

abbrev read_decimal : ℕ → List ℕ → ℕ
read_decimal n [] = n
read_decimal n (b ∷ bs) = read_decimal (10 * n + (b - b'0')) bs

-- The largest power of 2 that is at most the number, for a number above 0.
abbrev next_exponent : ℕ → ℕ → ℕ
next_exponent n e = if n == 2 ^ (e + 1) then e + 1 else e

abbrev exponent : ℕ → ℕ
exponent zero = 0
exponent (suc n) = next_exponent (suc n) (exponent n)

abbrev pub gmp : GmpApi
gmp = record { set_str = λ bs. pos (read_decimal 0 bs); size_in_base2 = λ n. exponent n + 1 }

pow_next : (e : ℕ) → 2 ^ (e + 1) ≡ 2 * 2 ^ e
pow_next e = let s : e + 1 ≡ suc e = omega arith in rw (s, pow-suc 2 e) (omega arith)

next_exponent_lem :
    (n e : ℕ)
    → 2 ^ e ≤ n
    → n < 2 ^ (e + 1)
    → (2 ^ next_exponent (suc n) e ≤ suc n) × (suc n < 2 ^ (next_exponent (suc n) e + 1))
next_exponent_lem n e h k = elim (Bool-cases (suc n == 2 ^ (e + 1))) [
  | inl q ↦
      let eq : suc n ≡ 2 ^ (e + 1) = (==_iff _ _).0 q in
      let p = pow_next (e + 1) in rw q (omega arith, omega arith)
  | inr q ↦ let ne : suc n ≢ 2 ^ (e + 1) = ground arith in rw q (omega arith, omega arith)
]

exponent_lem : (n : ℕ) → 0 < n → (2 ^ exponent n ≤ n) × (n < 2 ^ (exponent n + 1))
exponent_lem zero h = absurd (omega arith)
exponent_lem (suc zero) h = (omega arith, omega arith)
exponent_lem (suc (suc n)) h =
    let (below, above) = exponent_lem (suc n) (omega arith) in
    next_exponent_lem (suc n) (exponent (suc n)) below above

pub gmp-IsSizeInBase2 : IsSizeInBase2 gmp
gmp-IsSizeInBase2 = record {
  size_zero = refl;
  size_pos = λ n h.
      let e : exponent n + 1 - 1 ≡ exponent n = omega arith in
      let p = pow_next (exponent n) in
      (omega arith, rw e (exponent_lem n h).0, rw (e, ← p) (exponent_lem n h).1);
}
