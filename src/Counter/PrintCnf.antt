-- ===== src/Counter/PrintCnf.antt =====
-- `SklFC::print_cnf` (src/skolemfc.cpp), which no code calls. The file system is a parameter.
use skolemfc.Base.{ℕ, ◌≡◌, ◌≢◌, refl, ◌∙◌, none, some, Option, List, [], ◌∷◌}
use skolemfc.Lit.{LitApi}
use skolemfc.Cnf.{Formula}
use skolemfc.Outcome.{Outcome, ok, exited}
use skolemfc.Counter.Text.{cnf_text}

-- `mkstemp`, whose `none` is the result -1, and `write` with `close`, on a file by its name.
pub record FileApi (W : Type 0) : Type 0 where
  pub mkstemp : List ℕ → W → Option (List ℕ × W)
  pub write : List ℕ → List ℕ → W → W

-- What is in a file, if there is one: `mkstemp` makes an empty one under a name that it chooses, and
-- no other file changes.
pub record FileLaws (W : Type 0) ⦃files : FileApi W⦄ : Type 0 where
  pub read : W → List ℕ → Option (List ℕ)
  pub mkstemp-read :
      (template name other : List ℕ) (w w' : W)
      → files.mkstemp template w ≡ some (name, w')
      → other ≢ name
      → read w' other ≡ read w other
  pub write-read :
      (name other text : List ℕ) (w : W)
      → other ≢ name
      → read (files.write name text w) other ≡ read w other
  pub write-same : (name text : List ℕ) (w : W) → read (files.write name text w) name ≡ some text

-- "/tmp/ganak_input_XXXXXX"
abbrev pub template : List ℕ
template =
    b'/' ∷ b't' ∷ b'm' ∷ b'p' ∷ b'/' ∷ b'g' ∷ b'a' ∷ b'n' ∷ b'a' ∷ b'k' ∷ b'_' ∷ b'i' ∷ b'n' ∷ b'p'
    ∷ b'u' ∷ b't' ∷ b'_' ∷ b'X' ∷ b'X' ∷ b'X' ∷ b'X' ∷ b'X' ∷ b'X' ∷ []

module _ {L W : Type 0} ⦃a : LitApi L⦄ ⦃files : FileApi W⦄ where
  unfoldable pub print_cnf : ℕ → Formula L → List ℕ → W → Outcome (List ℕ × W)
  unfolding cnf_text
  print_cnf nvars clauses projection w = elim (files.mkstemp template w) [
    | none ↦ exited
    | some file ↦ ok (template, files.write file.0 (cnf_text nvars clauses projection) file.1)
  ]

  -- Where `mkstemp` makes a file under another name than its template: the file that it makes holds the
  -- formula, but `print_cnf` returns a name under which the file system has what it had before the call.
  pub print_cnf-read :
      (laws : FileLaws W) (nvars : ℕ) (clauses : Formula L) (projection : List ℕ) (w made : W)
      (name : List ℕ)
      → files.mkstemp template w ≡ some (name, made)
      → template ≢ name
      → (result : List ℕ) × (w' : W) × (print_cnf nvars clauses projection w ≡ ok (result, w'))
        × (laws.read w' name ≡ some (cnf_text nvars clauses projection))
        × (laws.read w' result ≡ laws.read w result)
  unfolding print_cnf
  print_cnf-read laws nvars clauses projection w made name e other =
      let text = cnf_text nvars clauses projection in
      (
        template,
        files.write name text made,
        rw (print_cnf, e) refl,
        laws.write-same name text made,
        laws.write-read name template text made other
            ∙ laws.mkstemp-read template name template w made e other,
      )
