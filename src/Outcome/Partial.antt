-- ===== src/Outcome/Partial.antt =====
-- What holds of a piece's value if there is one, and that a piece ends.
use skolemfc.Base.{◌≡◌, ◌≢◌, refl, Bool, true, false, Option, none, some, if◌then◌else◌}
use skolemfc.Outcome.Value.{
  Outcome, ok, refused, exited, aborted, raised, out_of_range, timeout, ◌>>=◌,
}
use skolemfc.Outcome.Post.{Ensures}

-- Partial correctness: what holds of the value, if there is one.
abbrev pub Yields : {A : Type 0} → (A → Type 0) → Outcome A → Type 0
Yields P (ok a) = P a
Yields P _ = Unit

pub Yields-bind :
    {A B : Type 0} (P : A → Type 0) (Q : B → Type 0) (m : Outcome A) (f : A → Outcome B)
    → Yields P m
    → ((a : A) → P a → Yields Q (f a))
    → Yields Q (m >>= f)
Yields-bind P Q (ok a) f h k = k a h
Yields-bind P Q refused f h k = tt
Yields-bind P Q exited f h k = tt
Yields-bind P Q aborted f h k = tt
Yields-bind P Q raised f h k = tt
Yields-bind P Q out_of_range f h k = tt
Yields-bind P Q timeout f h k = tt

pub Yields-if :
    {A : Type 0} (P : A → Type 0) (b : Bool) (m n : Outcome A)
    → (b ≡ true → Yields P m)
    → (b ≡ false → Yields P n)
    → Yields P (if b then m else n)
Yields-if P true m n k l = k refl
Yields-if P false m n k l = l refl

pub Yields-self : {A : Type 0} (m : Outcome A) → Yields (λ a. m ≡ ok a) m
Yields-self (ok a) = refl
Yields-self refused = tt
Yields-self exited = tt
Yields-self aborted = tt
Yields-self raised = tt
Yields-self out_of_range = tt
Yields-self timeout = tt

pub Yields-all : {A : Type 0} (P : A → Type 0) (m : Outcome A) → ((a : A) → P a) → Yields P m
Yields-all P (ok a) k = k a
Yields-all P refused k = tt
Yields-all P exited k = tt
Yields-all P aborted k = tt
Yields-all P raised k = tt
Yields-all P out_of_range k = tt
Yields-all P timeout k = tt

pub Yields-ok : {A : Type 0} (P : A → Type 0) (m : Outcome A) (a : A) → Yields P m → m ≡ ok a → P a
Yields-ok P m a h e = rw e at h

pub Yields-imp :
    {A : Type 0} (P Q : A → Type 0) (m : Outcome A)
    → Yields P m
    → ((a : A) → P a → Q a)
    → Yields Q m
Yields-imp P Q (ok a) h k = k a h
Yields-imp P Q refused h k = tt
Yields-imp P Q exited h k = tt
Yields-imp P Q aborted h k = tt
Yields-imp P Q raised h k = tt
Yields-imp P Q out_of_range h k = tt
Yields-imp P Q timeout h k = tt

-- The piece ends, whatever way, and `P` holds of the value if there is one.
abbrev pub Ends : {A : Type 0} → (A → Type 0) → Outcome A → Type 0
Ends P (ok a) = P a
Ends P timeout = ⊥
Ends P _ = Unit

pub Ends-bind :
    {A B : Type 0} (P : A → Type 0) (Q : B → Type 0) (m : Outcome A) (f : A → Outcome B)
    → Ends P m
    → ((a : A) → P a → Ends Q (f a))
    → Ends Q (m >>= f)
Ends-bind P Q (ok a) f h k = k a h
Ends-bind P Q refused f h k = tt
Ends-bind P Q exited f h k = tt
Ends-bind P Q aborted f h k = tt
Ends-bind P Q raised f h k = tt
Ends-bind P Q out_of_range f h k = tt
Ends-bind P Q timeout f h k = absurd h

pub Ends-if :
    {A : Type 0} (P : A → Type 0) (b : Bool) (m n : Outcome A)
    → (b ≡ true → Ends P m)
    → (b ≡ false → Ends P n)
    → Ends P (if b then m else n)
Ends-if P true m n k l = k refl
Ends-if P false m n k l = l refl

pub Ends-both :
    {A : Type 0} (P : A → Type 0) (m : Outcome A) → Ends (λ _. Unit {0}) m → Yields P m → Ends P m
Ends-both P (ok a) h k = k
Ends-both P refused h k = tt
Ends-both P exited h k = tt
Ends-both P aborted h k = tt
Ends-both P raised h k = tt
Ends-both P out_of_range h k = tt
Ends-both P timeout h k = h

-- What holds of a value, together with where it comes from.
pub Yields-both :
    {A : Type 0} (P : A → Type 0) (m : Outcome A) → Yields P m → Yields (λ a. (m ≡ ok a) × P a) m
Yields-both P (ok a) k = (refl, k)
Yields-both P refused k = tt
Yields-both P exited k = tt
Yields-both P aborted k = tt
Yields-both P raised k = tt
Yields-both P out_of_range k = tt
Yields-both P timeout k = tt

pub Yields-never : {A : Type 0} (P : A → Type 0) (m : Outcome A) → ((a : A) → m ≢ ok a) → Yields P m
Yields-never P (ok a) k = absurd (k a refl)
Yields-never P refused k = tt
Yields-never P exited k = tt
Yields-never P aborted k = tt
Yields-never P raised k = tt
Yields-never P out_of_range k = tt
Yields-never P timeout k = tt

pub Ensures-Yields : {A : Type 0} (P : A → Type 0) (m : Outcome A) → Ensures P m → Yields P m
Ensures-Yields P (ok a) h = h
Ensures-Yields P refused h = tt
Ensures-Yields P exited h = tt
Ensures-Yields P aborted h = tt
Ensures-Yields P raised h = tt
Ensures-Yields P out_of_range h = tt
Ensures-Yields P timeout h = tt

pub Yields-elim :
    {A B : Type 0} (P : B → Type 0) (o : Option A) (m : Outcome B) (f : A → Outcome B)
    → Yields P m
    → ((a : A) → o ≡ some a → Yields P (f a))
    → Yields P (elim o [ none ↦ m | some a ↦ f a ])
Yields-elim P none m f k l = k
Yields-elim P (some a) m f k l = l a refl

-- A postcondition, with what holds of the value besides.
pub Ensures-both :
    {A : Type 0} (P Q : A → Type 0) (m : Outcome A)
    → Ensures P m
    → Yields Q m
    → Ensures (λ a. P a × Q a) m
Ensures-both P Q (ok a) h k = (h, k)
Ensures-both P Q refused h k = tt
Ensures-both P Q exited h k = tt
Ensures-both P Q aborted h k = h
Ensures-both P Q raised h k = h
Ensures-both P Q out_of_range h k = h
Ensures-both P Q timeout h k = h
