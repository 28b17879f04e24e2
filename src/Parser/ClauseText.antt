-- ===== src/Parser/ClauseText.antt =====
-- What `readClause` makes of a clause in the format: its literals.
use mathlib.Core.List.{append_assoc, append-nil}
use skolemfc.Base.{
  ℕ, zero, suc, ◌+◌, ◌-◌, ◌<◌, ◌^◌, ◌≡◌, refl, ap, ◌∙◌, Bool, true, false, some, List, [], ◌∷◌,
  ◌++◌, arith, length, u32, ltb, leb, if◌then◌else◌, Bool-cases, inl, inr,
}
use skolemfc.Base.Int.{ℤ, pos, negsuc, leb_ℤ, to_i32}
use skolemfc.Lit.{LitApi}
use skolemfc.Cnf.{Clause, ClauseBelow}
use skolemfc.Outcome.{ok}
use skolemfc.Stream.{StreamApi}
use skolemfc.Counter.Text.{decimal, newline, clause_text}
use skolemfc.Parser.{Parser, is_zero, is_negative, var_of, at_space, check_var, read_clause}
use skolemfc.Parser.Format.{StreamText, LitText, lead}

-- The parser behind the header of a formula with `n` variables.
abbrev pub Behind : {D L : Type 0} → ℕ → Parser D L → Type 0
Behind n p =
    (n < 2 ^ 28)
    × (p.max_var ≡ 2 ^ 64 - 1)
    × (p.strict_header ≡ true)
    × (p.header_found ≡ true)
    × (p.num_header_vars ≡ pos n)
    × (p.offset_vars ≡ 0)
    × (p.solver.nvars ≡ n)

module _ {L : Type 0} ⦃a : LitApi L⦄ where
  -- The number that a literal is written as.
  abbrev pub lit_int : L → ℤ
  lit_int l = if a.sign l then negsuc (a.var l) else pos (a.var l + 1)

  pub lit_int-facts :
      (l : L)
      → a.var l < 2 ^ 31
      → (is_zero (lit_int l) ≡ false)
        × (var_of (lit_int l) ≡ a.var l)
        × (is_negative (lit_int l) ≡ a.sign l)
  lit_int-facts l h = elim (Bool-cases (a.sign l)) [
    | inl e ↦ rw e (refl, omega arith, refl)
    | inr e ↦ rw e (ground arith, omega arith, refl)
  ]

module _ {C : Type 0} ⦃s : StreamApi C⦄ (text : StreamText C) where
  open text use {contents}

  pub at_space-contents : (c : C) (rest : List ℕ) → contents c ≡ b' ' ∷ rest → at_space c ≡ true
  at_space-contents c rest e = rw (at_space, text.peek-contents c, e) refl

module _ {L C : Type 0} ⦃a : LitApi L⦄ ⦃s : StreamApi C⦄ (text : StreamText C)
    (lits : LitText L) where
  open text use {contents}

  pub parse_literal :
      (l : L) (b : Bool) (c : C) (rest : List ℕ)
      → contents c ≡ lead b ++ (a.print l ++ (b' ' ∷ rest))
      → a.var l + 1 < 2 ^ 31
      → (c' : C) × (s.parse_int c ≡ some (lit_int l, c')) × (contents c' ≡ b' ' ∷ rest)
  parse_literal l b c rest e h = elim (Bool-cases (a.sign l)) [
    | inl k ↦
        let printed = rw k at (lits.print-var l) in
        rw k (text.parse_int-negsuc c b (a.var l) b' ' rest (rw printed at e) (omega arith) refl)
    | inr k ↦
        let printed = rw k at (lits.print-var l) in
        rw k (text.parse_int-pos c b (a.var l + 1) b' ' rest (rw printed at e) (omega arith) refl)
  ]

module _ {D L : Type 0} where
  pub check_var-Behind : (n v : ℕ) (p : Parser D L) → Behind n p → v < n → check_var v p ≡ ok p
  unfolding check_var
  check_var-Behind n v p (few, limit, strict, found, header, offset, nvars) lt =
      let below_max : ltb p.max_var v ≡ false = ground arith in
      let small : leb (2 ^ 28) v ≡ false = ground arith in
      let in_header : leb_ℤ p.num_header_vars (to_i32 v) ≡ false = rw header (ground arith) in
      let known : leb p.solver.nvars v ≡ false = ground arith in
      rw (below_max, small, strict, found, in_header, known) refl

module _ {D L C : Type 0} ⦃a : LitApi L⦄ ⦃s : StreamApi C⦄ (text : StreamText C)
    (lits : LitText L) where
  open text use {contents}

  pub read_clause-text :
      (n : ℕ) (cl : Clause L) (b : Bool) (fuel : ℕ) (p : Parser D L) (c : C) (rest : List ℕ)
      → contents c ≡ lead b ++ (clause_text cl ++ rest)
      → length cl < fuel
      → ClauseBelow n cl
      → Behind n p
      → (c' : C) × (read_clause fuel p c ≡ ok (record p { lits = p.lits ++ cl }, c'))
        × (contents c' ≡ newline ∷ rest)
  unfolding read_clause clause_text decimal
  read_clause-text n cl b zero p c rest e k below behind = absurd (omega arith)
  read_clause-text n [] b (suc fuel) p c rest e k below behind =
      let (c', i, f) = text.parse_int-pos c b 0 newline rest e (omega arith) refl in
      (c', rw (i, append-nil) refl, f)
  read_clause-text n (l ∷ cl) b (suc fuel) p c rest e k (lt, below) behind =
      let (few, limit, strict, found, header, offset, nvars) = behind in
      let (c₁, i, f) =
        parse_literal text lits l b c (clause_text cl ++ rest)
          (e ∙ ap (λ x. lead b ++ x) (append_assoc (a.print l) _ _)) (omega arith) in
      let (zero_no, same_var, same_sign) = lit_int-facts l (omega arith) in
      let var : u32 (var_of (lit_int l) + p.offset_vars) ≡ a.var l =
        rw (same_var, offset) (omega arith) in
      let q = record p { lits = p.lits ++ (l ∷ []) } in
      let (c₂, j, g) = read_clause-text n cl true fuel q c₁ rest f (omega arith) below behind in
      (
        c₂,
        rw
            (
              i,
              zero_no,
              var,
              check_var-Behind n (a.var l) p behind lt,
              at_space-contents text c₁ _ f,
              same_sign,
              lits.mk-var l (omega arith),
              j,
            )
            (rw append_assoc refl),
        g,
      )
