-- ===== src/Tests/Packed.antt =====
-- Literals as CryptoMiniSat packs them: 2 * var + sign, in 32 bits.
use skolemfc.Base.{ℕ, ◌+◌, ◌-◌, ◌*◌, ◌/◌, ◌%◌, ◌^◌, ◌∷◌, arith, ◌==◌, if◌then◌else◌}
use skolemfc.Lit.{LitApi, LitLaws}
use skolemfc.Counter.Text.{decimal}

instance abbrev pub packed : LitApi ℕ
packed = record {
  mk = λ v s. (2 * v + (if s then 1 else 0)) % 2 ^ 32;
  var = λ l. l / 2;
  sign = λ l. l % 2 == 1;
  neg = λ l. if l % 2 == 0 then l + 1 else l - 1;
  print = λ l. if l % 2 == 1 then b'-' ∷ decimal (l / 2 + 1) else decimal (l / 2 + 1);
}

pub packed_laws : LitLaws ℕ
packed_laws = record {
  var-mk = λ v s h. ground arith;
  sign-mk = λ v s. ground arith;
  var-neg = λ l. ground arith;
  sign-neg = λ l. ground arith;
}
