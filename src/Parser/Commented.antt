-- ===== src/Parser/Commented.antt =====
-- What the parser makes of the text that `print_formula` (src/skolemfc-int.cpp) prints.
use mathlib.Core.List.{append_assoc}
use skolemfc.Base.{
  ℕ, zero, suc, ◌+◌, ◌/◌, ◌%◌, ◌<◌, ◌≡◌, refl, ap, ◌∙◌, true, false, ◌||◌, List, [], ◌∷◌, ◌++◌,
  arith, length, All, All-append, u64, ltb, ◌==◌, Bool-cases, inl, inr,
}
use skolemfc.Lit.{LitApi}
use skolemfc.Cnf.{Clause, Formula}
use skolemfc.Stream.{StreamApi}
use skolemfc.Counter.Text.{decimal_onto, decimal, newline, IsLine}
use skolemfc.Solver.Show.{
  is_created_formula, printing_g_formula, below, finished, commented, literals_text, print_clauses,
  print_formula,
}
use skolemfc.Parser.{Parser, next_line}
use skolemfc.Parser.Lines.{parse_comments}
use skolemfc.Parser.Main.{parse_line, parse_dimacs_main}
use skolemfc.Parser.Format.{StreamText, LitText, is_blank}
use skolemfc.Parser.Opening.{step}

-- No byte ends a word.
abbrev IsWord : List ℕ → Type 0
IsWord = All (λ y. (is_blank y || y == newline) ≡ false)

IsWord-IsLine : (word : List ℕ) → IsWord word → IsLine word
IsWord-IsLine [] w = tt
IsWord-IsLine (x ∷ word) (h, w) = (ground (arith, h), IsWord-IsLine word w)

decimal_onto-IsWord :
    (fuel n : ℕ) (acc : List ℕ)
    → n < fuel
    → IsWord acc
    → (x : ℕ) × (word : List ℕ) × (decimal_onto fuel n acc ≡ x ∷ word) × IsWord (x ∷ word)
unfolding decimal_onto
decimal_onto-IsWord zero n acc h w = absurd (omega arith)
decimal_onto-IsWord (suc fuel) n acc h w =
    let small : n % 10 < 10 = omega arith in
    let digit : (is_blank (b'0' + n % 10) || (b'0' + n % 10) == newline) ≡ false = ground arith in
    elim (Bool-cases (ltb n 10)) [
      | inl e ↦ rw e (b'0' + n % 10, acc, refl, (digit, w))
      | inr e ↦
          rw e (decimal_onto-IsWord fuel (n / 10) ((b'0' + n % 10) ∷ acc) (ground arith) (digit, w))
    ]

module _ {L : Type 0} ⦃a : LitApi L⦄ (lits : LitText L) where
  print-IsWord : (l : L) → (x : ℕ) × (word : List ℕ) × (a.print l ≡ x ∷ word) × IsWord (x ∷ word)
  unfolding decimal
  print-IsWord l =
      let (x, word, e, w) =
        decimal_onto-IsWord (suc (a.var l + 1)) (a.var l + 1) [] (omega arith) tt in
      elim (Bool-cases (a.sign l)) [
        | inl k ↦
            let printed = rw k at (lits.print-var l) in
            (b'-', x ∷ word, printed ∙ ap (λ t. b'-' ∷ t) e, (refl, w))
        | inr k ↦ let printed = rw k at (lits.print-var l) in (x, word, printed ∙ e, w)
      ]

  literals_text-IsLine : (cl : Clause L) → IsLine (literals_text cl)
  unfolding literals_text
  literals_text-IsLine [] = tt
  literals_text-IsLine (l ∷ cl) =
      let (x, word, e, w) = print-IsWord l in
      let printed : IsLine (a.print l) = rw e (IsWord-IsLine (x ∷ word) w) in
      All-append (λ c. (c == newline) ≡ false) (a.print l) (b' ' ∷ literals_text cl) printed
        (refl, literals_text-IsLine cl)

module _ {D L C : Type 0} ⦃a : LitApi L⦄ ⦃s : StreamApi C⦄ (text : StreamText C) where
  open text use {contents}

  comment_line :
      (x : ℕ) (word line : List ℕ) (fuel : ℕ) (p : Parser D L) (c : C) (rest : List ℕ)
      → p.debug_lib ≡ []
      → contents c ≡ b'c' ∷ b' ' ∷ ((x ∷ word) ++ (b' ' ∷ (line ++ (newline ∷ rest))))
      → IsWord (x ∷ word)
      → IsLine line
      → (c' : C) × (parse_dimacs_main (suc fuel) p c ≡ parse_dimacs_main fuel (next_line p) c')
        × (contents c' ≡ rest)
  unfolding parse_line parse_comments
  comment_line x word line fuel p c rest quiet e w l =
      let e₀ = text.skip_whitespace-contents c false b'c' _ e refl in
      let c₀ = s.skip_whitespace c in
      let behind = text.next-contents c₀ b'c' _ e₀ in
      let (read, f) = text.parse_string-contents (s.next c₀) true x word _ behind w in
      let c' = s.skip_line (s.parse_string (s.next c₀)).1 in
      (
        c',
        step text fuel b'c' p (next_line p) c c' _ e refl (rw quiet refl),
        text.skip_line-contents _ (b' ' ∷ line) rest f (refl, l),
      )

-- The parser behind some lines.
abbrev behind_lines : {D L : Type 0} → ℕ → Parser D L → Parser D L
behind_lines zero p = p
behind_lines (suc n) p = behind_lines n (next_line p)

behind_lines-suc :
    {D L : Type 0} (n : ℕ) (p : Parser D L)
    → behind_lines (suc n) p ≡ record p { line_num = u64 (p.line_num + suc n) }
behind_lines-suc zero p = ap (λ k. record p { line_num = u64 k }) (omega arith)
behind_lines-suc (suc n) p =
    let same : u64 (u64 (p.line_num + 1) + suc n) ≡ u64 (p.line_num + suc (suc n)) = omega arith in
    behind_lines-suc n (next_line p) ∙ ap (λ k. record p { line_num = k }) same

behind_lines-next_line :
    {D L : Type 0} (n : ℕ) (p : Parser D L) → next_line (behind_lines n p) ≡ behind_lines (suc n) p
behind_lines-next_line zero p = refl
behind_lines-next_line (suc n) p = behind_lines-next_line n (next_line p)

behind_lines-debug_lib :
    {D L : Type 0} (n : ℕ) (p : Parser D L) → (behind_lines n p).debug_lib ≡ p.debug_lib
behind_lines-debug_lib zero p = refl
behind_lines-debug_lib (suc n) p = behind_lines-debug_lib n (next_line p)

joined :
    (word line more rest : List ℕ)
    → (((word ++ (b' ' ∷ line)) ++ (newline ∷ [])) ++ more) ++ rest
      ≡ word ++ (b' ' ∷ (line ++ (newline ∷ (more ++ rest))))
joined word line more rest =
    rw
      (
        append_assoc ((word ++ (b' ' ∷ line)) ++ (newline ∷ [])) more rest,
        append_assoc (word ++ (b' ' ∷ line)) (newline ∷ []) (more ++ rest),
        append_assoc word (b' ' ∷ line) (newline ∷ (more ++ rest)),
      )
      refl

module _ {D L C : Type 0} ⦃a : LitApi L⦄ ⦃s : StreamApi C⦄ (text : StreamText C)
    (lits : LitText L) where
  open text use {contents}

  print_clauses-read :
      (f : Formula L) (fuel : ℕ) (p : Parser D L) (c : C) (rest : List ℕ)
      → p.debug_lib ≡ []
      → contents c ≡ print_clauses f ++ rest
      → All (λ cl. 0 < length cl) f
      → (c' : C) × (parse_dimacs_main (length f + fuel) p c
          ≡ parse_dimacs_main fuel (behind_lines (length f) p) c')
        × (contents c' ≡ rest)
  unfolding print_clauses literals_text
  print_clauses-read [] fuel p c rest quiet e full =
      (c, ap (λ k. parse_dimacs_main k p c) (omega arith), e)
  print_clauses-read ([] ∷ f) fuel p c rest quiet e (some_literal, full) = absurd (omega arith)
  print_clauses-read ((l ∷ cl) ∷ f) fuel p c rest quiet e (some_literal, full) =
      let (x, word, printed, w) = print-IsWord lits l in
      let behind = print_clauses f ++ rest in
      let (c₁, i, f₁) =
        comment_line text x word (literals_text cl) (length f + fuel) p c behind quiet
          (e
            ∙ ap (λ t. b'c' ∷ b' ' ∷ t)
                (joined (a.print l) (literals_text cl) (print_clauses f) rest
                  ∙ ap (λ t. t ++ (b' ' ∷ (literals_text cl ++ (newline ∷ behind)))) printed))
          w (literals_text-IsLine lits cl) in
      let (c₂, j, f₂) = print_clauses-read f fuel (next_line p) c₁ rest quiet f₁ full in
      (c₂, ap (λ k. parse_dimacs_main k p c) (omega arith) ∙ (i ∙ j), f₂)

  -- On a buffer and literals whose numbers are written as usual, with a parser that has no name of a
  -- debugging library, and at the text that `print_formula` prints for clauses of which none is empty:
  -- what follows that text is parsed as if it stood alone, but for the line number, which has grown
  -- by two more than there are clauses, modulo 2 ^ 64; the loop has made as many rounds.
  pub print_formula-read :
      (f : Formula L) (fuel : ℕ) (p : Parser D L) (c : C) (rest : List ℕ)
      → p.debug_lib ≡ []
      → contents c ≡ print_formula f ++ rest
      → All (λ cl. 0 < length cl) f
      → (c' : C) × (parse_dimacs_main (length f + 2 + fuel) p c
          ≡ parse_dimacs_main fuel (record p { line_num = u64 (p.line_num + (length f + 2)) }) c')
        × (contents c' ≡ rest)
  unfolding print_formula
  print_formula-read f fuel p c rest quiet e full =
      let n = length f in
      let last = commented finished printing_g_formula ++ rest in
      let q = behind_lines n (next_line p) in
      let (c₁, i, f₁) =
        comment_line text b'B' (b'e' ∷ b'l' ∷ b'o' ∷ b'w' ∷ []) is_created_formula (n + (suc fuel))
          p c (print_clauses f ++ last) quiet
          (e
            ∙ ap (λ t. commented below is_created_formula ++ t)
                (append_assoc (print_clauses f) _ rest))
          (ground arith) (ground arith) in
      let (c₂, j, f₂) = print_clauses-read f (suc fuel) (next_line p) c₁ last quiet f₁ full in
      let (c₃, k, f₃) =
        comment_line text b'F' (b'i' ∷ b'n' ∷ b'i' ∷ b's' ∷ b'h' ∷ b'e' ∷ b'd' ∷ [])
          printing_g_formula fuel q c₂ rest (behind_lines-debug_lib n (next_line p) ∙ quiet) f₂
          (ground arith) (ground arith) in
      let size : suc (suc n) ≡ n + 2 = omega arith in
      let lines : next_line q ≡ record p { line_num = u64 (p.line_num + (n + 2)) } =
        behind_lines-next_line n (next_line p)
        ∙ behind_lines-suc (suc n) p
        ∙ ap (λ m. record p { line_num = u64 (p.line_num + m) }) size in
      (
        c₃,
        ap (λ m. parse_dimacs_main m p c) (omega arith)
            ∙ (i ∙ (j ∙ (k ∙ ap (λ p'. parse_dimacs_main fuel p' c₃) lines))),
        f₃,
      )
