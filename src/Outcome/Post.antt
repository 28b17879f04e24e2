-- ===== src/Outcome/Post.antt =====
-- Postconditions of a piece, which is to end with a value, a refusal or `exit`.
use skolemfc.Base.{◌≡◌, refl, Bool, true, false, Option, none, some, if◌then◌else◌}
use skolemfc.Outcome.Value.{
  Outcome, ok, refused, exited, aborted, raised, out_of_range, timeout, ◌>>=◌, required,
}

-- A postcondition: it holds of the value, and the piece neither fails an assertion, nor raises, nor
-- reads out of bounds, nor runs out of fuel. It may refuse its input or exit.
abbrev pub Ensures : {A : Type 0} → (A → Type 0) → Outcome A → Type 0
Ensures P (ok a) = P a
Ensures P refused = Unit
Ensures P exited = Unit
Ensures P aborted = ⊥
Ensures P raised = ⊥
Ensures P out_of_range = ⊥
Ensures P timeout = ⊥

pub Ensures-bind :
    {A B : Type 0} (P : A → Type 0) (Q : B → Type 0) (m : Outcome A) (f : A → Outcome B)
    → Ensures P m
    → ((a : A) → P a → Ensures Q (f a))
    → Ensures Q (m >>= f)
Ensures-bind P Q (ok a) f h k = k a h
Ensures-bind P Q refused f h k = tt
Ensures-bind P Q exited f h k = tt
Ensures-bind P Q aborted f h k = absurd h
Ensures-bind P Q raised f h k = absurd h
Ensures-bind P Q out_of_range f h k = absurd h
Ensures-bind P Q timeout f h k = absurd h

pub Ensures-imp :
    {A : Type 0} (P Q : A → Type 0) (m : Outcome A)
    → Ensures P m
    → ((a : A) → P a → Q a)
    → Ensures Q m
Ensures-imp P Q (ok a) h k = k a h
Ensures-imp P Q refused h k = tt
Ensures-imp P Q exited h k = tt
Ensures-imp P Q aborted h k = absurd h
Ensures-imp P Q raised h k = absurd h
Ensures-imp P Q out_of_range h k = absurd h
Ensures-imp P Q timeout h k = absurd h

-- A step that ends with a value.
pub Ensures-step :
    {A B : Type 0} (Q : B → Type 0) (m : Outcome A) (f : A → Outcome B) (a : A)
    → m ≡ ok a
    → Ensures Q (f a)
    → Ensures Q (m >>= f)
Ensures-step Q m f a e h = rw e h

pub step_to :
    {A B : Type 0} (m : Outcome A) (f : A → Outcome B) (a : A) (r : Outcome B)
    → m ≡ ok a
    → f a ≡ r
    → m >>= f ≡ r
step_to m f a r e h = rw e h

-- What is done with a value that is there.
pub present :
    {A B : Type 0} (o : Option A) (m : Outcome B) (f : A → Outcome B) (a : A)
    → o ≡ some a
    → elim o [ none ↦ m | some x ↦ f x ] ≡ f a
present o m f a e = rw e refl

pub Ensures-required :
    {A : Type 0} (P : A → Type 0) (o : Option A)
    → ((a : A) → o ≡ some a → P a)
    → Ensures P (required o)
Ensures-required P none k = tt
Ensures-required P (some a) k = k a refl

pub Ensures-elim :
    {A B : Type 0} (P : B → Type 0) (o : Option A) (m : Outcome B) (f : A → Outcome B)
    → (o ≡ none → Ensures P m)
    → ((a : A) → o ≡ some a → Ensures P (f a))
    → Ensures P (elim o [ none ↦ m | some a ↦ f a ])
Ensures-elim P none m f k l = k refl
Ensures-elim P (some a) m f k l = l a refl

pub Ensures-if :
    {A : Type 0} (P : A → Type 0) (b : Bool) (m n : Outcome A)
    → (b ≡ true → Ensures P m)
    → (b ≡ false → Ensures P n)
    → Ensures P (if b then m else n)
Ensures-if P true m n k l = k refl
Ensures-if P false m n k l = l refl

pub Ensures-ok :
    {A : Type 0} (P : A → Type 0) (m : Outcome A) (a : A) → Ensures P m → m ≡ ok a → P a
Ensures-ok P m a h e = rw e at h
