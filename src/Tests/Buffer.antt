-- ===== src/Tests/Buffer.antt =====
-- An input buffer over a list of bytes.
use skolemfc.Base.{
  ℕ, ◌+◌, ◌-◌, ◌*◌, ◌^◌, ◌≤◌, ◌<◌, ◌≡◌, ◌&&◌, ◌||◌, Option, none, some, List, [], ◌∷◌, length, ltb,
  leb, ◌==◌, if◌then◌else◌, arith,
}
use skolemfc.Base.Int.{ℤ, pos, negsuc, abs}
use skolemfc.Stream.{StreamApi, StreamLaws}
use skolemfc.Parser.Format.{is_blank, is_digit, head}

abbrev pub skip_blank : List ℕ → List ℕ
skip_blank [] = []
skip_blank (b ∷ bs) = let more = skip_blank bs in if is_blank b then more else b ∷ bs

abbrev pub behind_line : List ℕ → List ℕ
behind_line [] = []
behind_line (b ∷ bs) = let more = behind_line bs in if b == b'\n' then bs else more

abbrev pub word : List ℕ → List ℕ × List ℕ
word [] = ([], [])
word (b ∷ bs) =
    let more = word bs in if is_blank b || b == b'\n' then ([], b ∷ bs) else (b ∷ more.0, more.1)

abbrev pub digits : ℕ → List ℕ → ℕ × List ℕ
digits n [] = (n, [])
digits n (b ∷ bs) =
    let more = digits (10 * n + (b - b'0')) bs in if is_digit b then more else (n, b ∷ bs)

abbrev pub at_number : List ℕ → Option (ℤ × List ℕ)
at_number [] = none
at_number (b ∷ bs) =
    let (n, rest) = digits 0 bs in
    let (k, rest') = digits (b - b'0') bs in
    if b == b'-' && leb 1 n && ltb n (2 ^ 31)
    then some (negsuc (n - 1), rest)
    else if is_digit b && ltb k (2 ^ 31)
    then some (pos k, rest')
    else none

abbrev pub end_of_line : List ℕ → Option (List ℕ)
end_of_line [] = some []
end_of_line (b ∷ bs) = if b == b'\n' then some bs else none

abbrev pub tail : List ℕ → List ℕ
tail [] = []
tail (b ∷ bs) = bs

instance abbrev pub buffer : StreamApi (List ℕ)
buffer = record {
  peek = head;
  next = tail;
  skip_whitespace = skip_blank;
  skip_line = behind_line;
  skip_eol = end_of_line;
  parse_int = λ c. at_number (skip_blank c);
  parse_string = λ c. word (skip_blank c);
}

pub length-skip_blank : (c : List ℕ) → length (skip_blank c) ≤ length c
length-skip_blank [] = omega arith
length-skip_blank (b ∷ bs) = ground (arith, length-skip_blank bs)

pub length-behind_line : (c : List ℕ) → length (behind_line c) ≤ length c
length-behind_line [] = omega arith
length-behind_line (b ∷ bs) = ground (arith, length-behind_line bs)

pub length-word : (c : List ℕ) → length (word c).1 ≤ length c
length-word [] = omega arith
length-word (b ∷ bs) = ground (arith, length-word bs)

length-digits : (n : ℕ) (c : List ℕ) → length (digits n c).1 ≤ length c
length-digits n [] = omega arith
length-digits n (b ∷ bs) = ground (arith, length-digits (10 * n + (b - b'0')) bs)

pub length-at_number :
    (c c' : List ℕ) (n : ℤ) → at_number c ≡ some (n, c') → (length c' < length c) × (abs n < 2 ^ 31)
length-at_number [] c' n e = cc
length-at_number (b ∷ bs) c' n e = ground (arith, length-digits 0 bs, length-digits (b - b'0') bs)

pub length-tail : (c : List ℕ) (b : ℕ) → head c ≡ some b → length (tail c) < length c
length-tail [] b e = cc
length-tail (b' ∷ bs) b e = omega arith

pub length-line : (c : List ℕ) → head c ≡ some b'\n' → length (behind_line c) < length c
length-line [] e = cc
length-line (b ∷ bs) e = ground arith

pub length-end_of_line : (c c' : List ℕ) → end_of_line c ≡ some c' → length c' ≤ length c
length-end_of_line [] c' e = ground arith
length-end_of_line (b ∷ bs) c' e = ground arith

abbrev pub buffer_laws : StreamLaws (List ℕ)
buffer_laws = record {
  left = length;
  next-lt = length-tail;
  skip_whitespace-le = length-skip_blank;
  skip_line-le = length-behind_line;
  skip_line-lt = length-line;
  skip_eol-le = length-end_of_line;
  parse_string-le = λ c. omega (arith, length-word (skip_blank c), length-skip_blank c);
  parse_int-lt =
      λ c c' n e. omega (arith, (length-at_number (skip_blank c) c' n e).0, length-skip_blank c);
  parse_int-abs = λ c c' n e. (length-at_number (skip_blank c) c' n e).1;
}
