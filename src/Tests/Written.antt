-- ===== src/Tests/Written.antt =====
-- The buffer and the literals of the tests read what is written for them.
use skolemfc.Base.{
  ℕ, zero, suc, ◌+◌, ◌-◌, ◌*◌, ◌/◌, ◌%◌, ◌<◌, ◌^◌, ◌≡◌, refl, ap, ◌∙◌, Bool, true, false, ◌||◌,
  some, List, [], ◌∷◌, ◌++◌, All, arith, ltb, leb, ◌==◌, Bool-cases, inl, inr,
}
use skolemfc.Base.Int.{pos, negsuc}
use skolemfc.Cnf.{Formula}
use skolemfc.Outcome.{ok}
use skolemfc.Solver
use skolemfc.Counter.Text.{IsLine, decimal_onto, decimal, newline, clauses_text}
use skolemfc.Parser.{Parser, start}
use skolemfc.Parser.Main.{parse_dimacs}
use skolemfc.Parser.Format.{StreamText, LitText, is_digit, is_blank, lead}
use skolemfc.Parser.Written.{parse_dimacs-qdimacs}
use skolemfc.Tests.Packed.{packed}
use skolemfc.Tests.Buffer.{buffer, behind_line, skip_blank, digits, at_number, word}

-- A number as it is written, with what stands behind it, is read back.
abbrev ReadsBack : ℕ → List ℕ → List ℕ → Type 0
ReadsBack n acc text =
    (k : ℕ) × (more : List ℕ) × (text ≡ (b'0' + k) ∷ more)
    × (k < 10)
    × (digits k more ≡ digits n acc)

decimal_onto-ReadsBack :
    (fuel n : ℕ) (acc : List ℕ) → n < fuel → ReadsBack n acc (decimal_onto fuel n acc)
unfolding decimal_onto
decimal_onto-ReadsBack zero n acc h = absurd (omega arith)
decimal_onto-ReadsBack (suc fuel) n acc h =
    let digit : is_digit (b'0' + n % 10) ≡ true = ground arith in
    let same : 10 * (n / 10) + (b'0' + n % 10 - b'0') ≡ n = omega arith in
    let last : n % 10 < 10 = omega arith in
    elim (Bool-cases (ltb n 10)) [
      | inl e ↦
          let small : n % 10 ≡ n = ground arith in
          rw e (n % 10, acc, refl, last, ap (λ k. digits k acc) small)
      | inr e ↦
          let (k, more, t, lt, d) =
            decimal_onto-ReadsBack fuel (n / 10) ((b'0' + n % 10) ∷ acc) (ground arith) in
          rw e (k, more, t, lt, d ∙ rw (digit, same) refl)
    ]

append-decimal_onto :
    (fuel n : ℕ) (acc rest : List ℕ)
    → decimal_onto fuel n acc ++ rest ≡ decimal_onto fuel n (acc ++ rest)
unfolding decimal_onto
append-decimal_onto zero n acc rest = refl
append-decimal_onto (suc fuel) n acc rest = elim (Bool-cases (ltb n 10)) [
  | inl e ↦ rw e refl
  | inr e ↦ rw e (append-decimal_onto fuel (n / 10) ((b'0' + n % 10) ∷ acc) rest)
]

decimal-ReadsBack :
    (n stop : ℕ) (rest : List ℕ)
    → is_digit stop ≡ false
    → (k : ℕ) × (more : List ℕ) × (decimal n ++ (stop ∷ rest) ≡ (b'0' + k) ∷ more)
      × (k < 10)
      × (digits k more ≡ (n, stop ∷ rest))
unfolding decimal
decimal-ReadsBack n stop rest h =
    let (k, more, t, lt, d) = decimal_onto-ReadsBack (suc n) n (stop ∷ rest) (omega arith) in
    (k, more, append-decimal_onto (suc n) n [] (stop ∷ rest) ∙ t, lt, d ∙ rw h refl)

pub skip_lead :
    (c : List ℕ) (b : Bool) (x : ℕ) (rest : List ℕ)
    → c ≡ lead b ++ (x ∷ rest)
    → is_blank x ≡ false
    → skip_blank c ≡ x ∷ rest
skip_lead c true x rest e h = rw (e, h) refl
skip_lead c false x rest e h = rw (e, h) refl

at_number-decimal :
    (n stop : ℕ) (rest : List ℕ)
    → n < 2 ^ 31
    → is_digit stop ≡ false
    → at_number (decimal n ++ (stop ∷ rest)) ≡ some (pos n, stop ∷ rest)
at_number-decimal n stop rest h s =
    let (k, more, t, lt, d) = decimal-ReadsBack n stop rest s in
    let no_minus : (b'0' + k == b'-') ≡ false = ground arith in
    let digit : is_digit (b'0' + k) ≡ true = ground arith in
    let small : ltb n (2 ^ 31) ≡ true = ground arith in
    let value : b'0' + k - b'0' ≡ k = omega arith in rw (t, no_minus, digit, value, d, small) refl

pub at_number-minus :
    (n stop : ℕ) (rest : List ℕ)
    → n + 1 < 2 ^ 31
    → is_digit stop ≡ false
    → at_number (b'-' ∷ (decimal (n + 1) ++ (stop ∷ rest))) ≡ some (negsuc n, stop ∷ rest)
at_number-minus n stop rest h s =
    let (k, more, t, lt, d) = decimal-ReadsBack (n + 1) stop rest s in
    let digit : is_digit (b'0' + k) ≡ true = ground arith in
    let value : 10 * 0 + (b'0' + k - b'0') ≡ k = omega arith in
    let small : ltb (n + 1) (2 ^ 31) ≡ true = ground arith in
    let above : leb 1 (n + 1) ≡ true = ground arith in
    let minus_one : n + 1 - 1 ≡ n = omega arith in
    rw (t, digit, value, d, above, small, minus_one) refl

pub parse_int-decimal :
    (c : List ℕ) (b : Bool) (n stop : ℕ) (rest : List ℕ)
    → c ≡ lead b ++ (decimal n ++ (stop ∷ rest))
    → n < 2 ^ 31
    → is_digit stop ≡ false
    → at_number (skip_blank c) ≡ some (pos n, stop ∷ rest)
parse_int-decimal c b n stop rest e h s =
    let (k, more, t, lt, d) = decimal-ReadsBack n stop rest s in
    let skipped : skip_blank c ≡ decimal n ++ (stop ∷ rest) =
      skip_lead c b (b'0' + k) more (e ∙ rw t refl) (ground arith) ∙ rw t refl in
    rw skipped (at_number-decimal n stop rest h s)

word-text :
    (text rest : List ℕ)
    → All (λ y. (is_blank y || y == newline) ≡ false) text
    → word (text ++ (b' ' ∷ rest)) ≡ (text, b' ' ∷ rest)
word-text [] rest h = refl
word-text (b ∷ bs) rest (h, hs) = rw (h, word-text bs rest hs) refl

pub parse_string-word :
    (c : List ℕ) (b : Bool) (x : ℕ) (text rest : List ℕ)
    → c ≡ lead b ++ (x ∷ (text ++ (b' ' ∷ rest)))
    → All (λ y. (is_blank y || y == newline) ≡ false) (x ∷ text)
    → ((word (skip_blank c)).0 ≡ x ∷ text) × ((word (skip_blank c)).1 ≡ b' ' ∷ rest)
parse_string-word c b x text rest e (h, hs) =
    let dark : is_blank x ≡ false = ground (arith, h) in
    rw (skip_lead c b x (text ++ (b' ' ∷ rest)) e dark, h, word-text text rest hs) (refl, refl)

behind_line-append :
    (line rest : List ℕ) → IsLine line → behind_line (line ++ (newline ∷ rest)) ≡ rest
behind_line-append [] rest h = refl
behind_line-append (b ∷ line) rest (h, hs) = rw h (behind_line-append line rest hs)

pub behind_line-IsLine :
    (c line rest : List ℕ) → c ≡ line ++ (newline ∷ rest) → IsLine line → behind_line c ≡ rest
behind_line-IsLine c line rest e h = rw e (behind_line-append line rest h)

abbrev pub buffer_text : StreamText (List ℕ)
buffer_text = record {
  contents = λ c. c;
  peek-contents = λ c. refl;
  next-contents = λ c b rest e. rw e refl;
  skip_whitespace-contents = skip_lead;
  skip_whitespace-end = λ c e. rw e refl;
  skip_line-contents = behind_line-IsLine;
  skip_eol-contents = λ c rest e. (rest, rw e refl, refl);
  parse_string-contents = parse_string-word;
  parse_int-pos =
      λ c b n stop rest e h s. (stop ∷ rest, parse_int-decimal c b n stop rest e h s, refl);
  parse_int-negsuc = λ c b n stop rest e h s.
      (stop ∷ rest, rw (skip_lead c b b'-' _ e refl) (at_number-minus n stop rest h s), refl);
}

pub packed_text : LitText ℕ
packed_text = record { mk-var = λ l h. ground arith; print-var = λ l. refl }

-- "p cnf 2 1\na 1 0\ne 2 0\n1 -2 0\n"
abbrev pub written : List ℕ
written =
    b'p' ∷ b' ' ∷ b'c' ∷ b'n' ∷ b'f' ∷ b' ' ∷ b'2' ∷ b' ' ∷ b'1' ∷ b'\n' ∷ b'a' ∷ b' ' ∷ b'1' ∷ b' '
    ∷ b'0' ∷ b'\n' ∷ b'e' ∷ b' ' ∷ b'2' ∷ b' ' ∷ b'0' ∷ b'\n' ∷ b'1' ∷ b' ' ∷ b'-' ∷ b'2' ∷ b' '
    ∷ b'0' ∷ b'\n' ∷ []

parse_dimacs-qdimacs_example :
    let p = Solver.create {D = ℕ} {L = ℕ} 8 4 1 0 in
    let f : Formula ℕ = (0 ∷ 3 ∷ []) ∷ [] in
    (q : Parser ℕ ℕ) × (parse_dimacs 40 true 0 (start p []) written ≡ ok q)
    × (q.solver ≡ record p { nvars = 2; forall_vars = 0 ∷ []; exists_vars = 1 ∷ []; clauses = f })
unfolding decimal clauses_text
parse_dimacs-qdimacs_example =
    parse_dimacs-qdimacs buffer_text packed_text 8 4 1 0 2 40 (0 ∷ []) (1 ∷ []) ((0 ∷ 3 ∷ []) ∷ [])
      written refl (omega arith) (omega arith) (omega arith) (omega arith, tt) (omega arith, tt)
      ((omega arith, omega arith), tt)
