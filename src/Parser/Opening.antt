-- ===== src/Parser/Opening.antt =====
-- What the parser makes of the header and the two quantifier lines of a text in the format.
use skolemfc.Base.{ℕ, suc, ◌+◌, ◌<◌, ◌^◌, ◌≡◌, refl, ◌∙◌, false, List, ◌∷◌, ◌++◌, arith, length}
use skolemfc.Lit.{LitApi}
use skolemfc.Outcome.{ok}
use skolemfc.Stream.{StreamApi}
use skolemfc.Solver.{Solver}
use skolemfc.Counter.Text.{decimal, newline, p_cnf}
use skolemfc.Parser.{Parser, next_line}
use skolemfc.Parser.Lines.{forall_block, exists_block}
use skolemfc.Parser.Main.{parse_line, parse_dimacs_main}
use skolemfc.Parser.Format.{StreamText, is_blank, vars_text}
use skolemfc.Parser.ClauseText.{Behind}
use skolemfc.Parser.Blocks.{
  Writable, add_vars, add_vars-Behind, add_vars-forall, add_vars-exists, parse_vars-text,
}
use skolemfc.Parser.Header.{begun, headed, parse_header-text}

module _ {D L C : Type 0} ⦃a : LitApi L⦄ ⦃s : StreamApi C⦄ (text : StreamText C) where
  open text use {contents}

  -- A line that begins with `b` is read, and the loop goes on behind it.
  pub step :
      (fuel b : ℕ) (p q : Parser D L) (c c' : C) (rest : List ℕ)
      → contents c ≡ b ∷ rest
      → is_blank b ≡ false
      → parse_line (suc fuel) b p (s.skip_whitespace c) ≡ ok (q, c')
      → parse_dimacs_main (suc fuel) p c ≡ parse_dimacs_main fuel q c'
  unfolding parse_dimacs_main
  step fuel b p q c c' rest e blank line =
      let start = text.skip_whitespace-contents c false b rest e blank in
      rw (parse_dimacs_main, text.peek-contents (s.skip_whitespace c), start, line) refl

  parse_line-forall :
      (vs : List ℕ) (fuel : ℕ) (p : Parser D L) (c : C) (rest : List ℕ)
      → contents c ≡ b'a' ∷ (vars_text vs ++ rest)
      → length (vars_text vs) < fuel
      → Writable vs
      → (c' : C) × (parse_line fuel b'a' p c ≡ ok (next_line (add_vars forall_block vs p), c'))
        × (contents c' ≡ rest)
  unfolding parse_line
  parse_line-forall vs fuel p c rest e h w =
      parse_vars-text text forall_block vs fuel p (s.next c) rest (text.next-contents c b'a' _ e) h
        w

  parse_line-exists :
      (vs : List ℕ) (fuel : ℕ) (p : Parser D L) (c : C) (rest : List ℕ)
      → contents c ≡ b'e' ∷ (vars_text vs ++ rest)
      → length (vars_text vs) < fuel
      → Writable vs
      → (c' : C) × (parse_line fuel b'e' p c ≡ ok (next_line (add_vars exists_block vs p), c'))
        × (contents c' ≡ rest)
  unfolding parse_line
  parse_line-exists vs fuel p c rest e h w =
      parse_vars-text text exists_block vs fuel p (s.next c) rest (text.next-contents c b'e' _ e) h
        w

  -- The loop, up to the clauses.
  pub parse_opening :
      (n m fuel : ℕ) (xs ys : List ℕ) (p : Solver D L) (c : C) (rest : List ℕ)
      → contents c
        ≡ p_cnf
          ++ (decimal n
              ++ (b' '
                  ∷ (decimal m
                      ++ (newline ∷ (b'a' ∷ (vars_text xs ++ (b'e' ∷ (vars_text ys ++ rest))))))))
      → length (vars_text xs) + length (vars_text ys) < fuel
      → n < 2 ^ 28
      → m < 2 ^ 31
      → Writable xs
      → Writable ys
      → (q : Parser D L) × (c' : C) × (parse_dimacs_main (suc (suc (suc fuel))) (begun p) c
          ≡ parse_dimacs_main fuel q c')
        × (contents c' ≡ rest)
        × Behind n q
        × (q.solver ≡ record p {
          nvars = n;
          forall_vars = p.forall_vars ++ xs;
          exists_vars = p.exists_vars ++ ys;
        })
  parse_opening n m fuel xs ys p c rest e h few short wx wy =
      let e₀ = text.skip_whitespace-contents c false b'p' _ e refl in
      let (c₁, i, g) =
        parse_header-text text n m (suc (suc (suc fuel))) p (s.skip_whitespace c) _ e₀ few short in
      let q₁ = next_line (headed n m p) in
      let b : Behind n q₁ = (few, refl, refl, refl, refl, refl, refl) in
      let e₁ = text.skip_whitespace-contents c₁ false b'a' _ g refl in
      let (c₂, j, k) =
        parse_line-forall xs (suc (suc fuel)) q₁ (s.skip_whitespace c₁) _ e₁ (omega arith) wx in
      let q₂ = next_line (add_vars forall_block xs q₁) in
      let e₂ = text.skip_whitespace-contents c₂ false b'e' _ k refl in
      let (c₃, l, o) =
        parse_line-exists ys (suc fuel) q₂ (s.skip_whitespace c₂) _ e₂ (omega arith) wy in
      let q₃ = next_line (add_vars exists_block ys q₂) in
      (
        q₃,
        c₃,
        step (suc (suc fuel)) b'p' (begun p) q₁ c c₁ _ e refl i
            ∙ (step (suc fuel) b'a' q₁ q₂ c₁ c₂ _ g refl j ∙ step fuel b'e' q₂ q₃ c₂ c₃ _ k refl l),
        o,
        add_vars-Behind exists_block n ys q₂ (add_vars-Behind forall_block n xs q₁ b),
        rw (add_vars-exists ys q₂, add_vars-forall xs q₁) refl,
      )
