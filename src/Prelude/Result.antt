-- ===== src/Prelude/Result.antt =====
-- A computation that may raise: its value, or the error.
use mathlib.Core.Path.{◌≡◌, refl}
use mathlib.Core.Bool.{Bool, true, false}

pub data Result {ℓ κ} (E : Type κ) (A : Type ℓ) : Type (ℓ ⊔ κ) where
  ok : A → Result E A
  err : E → Result E A

infixl 5 ◌>>=◌ ◌>>◌
abbrev pub ◌>>=◌ : {E A B : Type 0} → Result E A → (A → Result E B) → Result E B
err raised >>= next = err raised
ok value >>= next = next value

abbrev pub ◌>>◌ : {E A B : Type 0} → Result E A → Result E B → Result E B
first >> second = first >>= λ ignored. second

-- A chain that succeeds has a first part that does.
pub >>=-eq-ok :
    {E A B : Type 0} (first : Result E A) (next : A → Result E B) {result : B}
    → (first >>= next) ≡ ok result
    → (value : A) × (first ≡ ok value) × (next value ≡ ok result)
>>=-eq-ok (err raised) next h = cc
>>=-eq-ok (ok value) next h = (value, refl, h)

-- if not test: raise error
abbrev pub require : {E : Type 0} → Bool → E → Result E (Unit {0})
require false error = err error
require true error = ok tt

-- Whatever error is raised satisfies `P`.
abbrev pub Raises : {E A : Type 0} → (E → Type 0) → Result E A → Type 0
Raises P (ok a) = Unit
Raises P (err e) = P e

pub Raises-bind :
    {E A B : Type 0} (P : E → Type 0) (m : Result E A) (f : A → Result E B)
    → Raises P m
    → ((a : A) → m ≡ ok a → Raises P (f a))
    → Raises P (m >>= f)
Raises-bind P (ok a) f h k = k a refl
Raises-bind P (err e) f h k = h

pub Raises-require :
    {E : Type 0} (P : E → Type 0) (b : Bool) (e : E) → (b ≡ false → P e) → Raises P (require b e)
Raises-require P true e h = tt
Raises-require P false e h = h refl

-- Whatever value is returned satisfies `P`.
abbrev pub Returns : {E A : Type 0} → (A → Type 0) → Result E A → Type 0
Returns P (ok a) = P a
Returns P (err e) = Unit

pub Returns-bind :
    {E A B : Type 0} (P : B → Type 0) (m : Result E A) (f : A → Result E B)
    → ((a : A) → m ≡ ok a → Returns P (f a))
    → Returns P (m >>= f)
Returns-bind P (ok a) f k = k a refl
Returns-bind P (err e) f k = tt
