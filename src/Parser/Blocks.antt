-- ===== src/Parser/Blocks.antt =====
-- What the parser makes of a quantifier line in the format.
use mathlib.Core.List.{append_assoc, append-nil}
use skolemfc.Base.{
  ℕ, zero, suc, ◌+◌, ◌<◌, ◌^◌, ◌≡◌, refl, ◌∙◌, true, false, List, [], ◌∷◌, ◌++◌, arith, length,
  length-append, All,
}
use skolemfc.Base.Int.{pos}
use skolemfc.Outcome.{ok}
use skolemfc.Stream.{StreamApi}
use skolemfc.Counter.Text.{decimal, newline}
use skolemfc.Parser.{Parser, next_line, is_zero, var_of}
use skolemfc.Parser.Lines.{Quantifier, forall_block, exists_block, add_var, read_vars, parse_vars}
use skolemfc.Parser.Format.{StreamText, lead, vars_text}
use skolemfc.Parser.ClauseText.{Behind}

-- A quantified variable is written as an int32_t.
abbrev pub Writable : List ℕ → Type 0
Writable = All (λ v. v + 1 < 2 ^ 31)

module _ {D L : Type 0} where
  abbrev pub add_vars : Quantifier → List ℕ → Parser D L → Parser D L
  add_vars k [] p = p
  add_vars k (v ∷ vs) p = add_vars k vs (add_var k v p)

  add_var-Behind :
      (k : Quantifier) (n v : ℕ) (p : Parser D L) → Behind n p → Behind n (add_var k v p)
  unfolding add_var
  add_var-Behind forall_block n v p b = b
  add_var-Behind exists_block n v p b = b

  pub add_vars-Behind :
      (k : Quantifier) (n : ℕ) (vs : List ℕ) (p : Parser D L)
      → Behind n p
      → Behind n (add_vars k vs p)
  add_vars-Behind k n [] p b = b
  add_vars-Behind k n (v ∷ vs) p b =
      add_vars-Behind k n vs (add_var k v p) (add_var-Behind k n v p b)

  pub add_vars-forall :
      (vs : List ℕ) (p : Parser D L)
      → (add_vars forall_block vs p).solver
        ≡ record p.solver { forall_vars = p.solver.forall_vars ++ vs }
  unfolding add_var
  add_vars-forall [] p = rw append-nil refl
  add_vars-forall (v ∷ vs) p = add_vars-forall vs (add_var forall_block v p) ∙ rw append_assoc refl

  pub add_vars-exists :
      (vs : List ℕ) (p : Parser D L)
      → (add_vars exists_block vs p).solver
        ≡ record p.solver { exists_vars = p.solver.exists_vars ++ vs }
  unfolding add_var
  add_vars-exists [] p = rw append-nil refl
  add_vars-exists (v ∷ vs) p = add_vars-exists vs (add_var exists_block v p) ∙ rw append_assoc refl

vars_text-space : (vs : List ℕ) → (rest : List ℕ) × (vars_text vs ≡ b' ' ∷ rest)
vars_text-space [] = (b'0' ∷ newline ∷ [], refl)
vars_text-space (v ∷ vs) = (decimal (v + 1) ++ vars_text vs, refl)

length-vars_text : (vs : List ℕ) → length vs < length (vars_text vs)
length-vars_text [] = omega arith
length-vars_text (v ∷ vs) =
    omega (arith, length-append (decimal (v + 1)) (vars_text vs), length-vars_text vs)

module _ {D L C : Type 0} ⦃s : StreamApi C⦄ (text : StreamText C) where
  open text use {contents}

  read_vars-text :
      (k : Quantifier) (vs : List ℕ) (fuel : ℕ) (p : Parser D L) (c : C) (rest : List ℕ)
      → contents c ≡ vars_text vs ++ rest
      → length vs < fuel
      → Writable vs
      → (c' : C) × (read_vars k fuel p c ≡ ok (add_vars k vs p, c'))
        × (contents c' ≡ newline ∷ rest)
  unfolding read_vars decimal
  read_vars-text k vs zero p c rest e f w = absurd (omega arith)
  read_vars-text k [] (suc fuel) p c rest e f w =
      let (c₁, i, g) = text.parse_int-pos c true 0 newline rest e (omega arith) refl in
      (c₁, rw i refl, g)
  read_vars-text k (v ∷ vs) (suc fuel) p c rest e f (w, ws) =
      let (t, o) = vars_text-space vs in
      let spaced : contents c ≡ lead true ++ (decimal (v + 1) ++ (b' ' ∷ (t ++ rest))) =
        e ∙ rw (append_assoc, o) refl in
      let (c₁, i, g) = text.parse_int-pos c true (v + 1) b' ' (t ++ rest) spaced w refl in
      let no_zero : is_zero (pos (v + 1)) ≡ false = ground arith in
      let same : var_of (pos (v + 1)) ≡ v = omega arith in
      let (c₂, j, h) =
        read_vars-text k vs fuel (add_var k v p) c₁ rest (g ∙ rw o refl) (omega arith) ws in
      (c₂, rw (i, no_zero, same, j) refl, h)

  -- The line, behind its letter.
  pub parse_vars-text :
      (k : Quantifier) (vs : List ℕ) (fuel : ℕ) (p : Parser D L) (c : C) (rest : List ℕ)
      → contents c ≡ vars_text vs ++ rest
      → length (vars_text vs) < fuel
      → Writable vs
      → (c' : C) × (parse_vars k fuel p c ≡ ok (next_line (add_vars k vs p), c'))
        × (contents c' ≡ rest)
  unfolding parse_vars
  parse_vars-text k vs fuel p c rest e f w =
      let (c₁, i, g) = read_vars-text k vs fuel p c rest e (omega (arith, length-vars_text vs)) w in
      (s.skip_line c₁, rw i refl, text.skip_line-contents c₁ [] rest g tt)
