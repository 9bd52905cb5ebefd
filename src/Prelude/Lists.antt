-- ===== src/Prelude/Lists.antt =====
-- Boolean and propositional quantifiers over lists, membership as a type, and lengths.
use Prim.Native.Nat.{ℕ, suc}
use Prim.Native.String.{String}
use mathlib.Core.Path.{◌≡◌, subst}
use mathlib.Core.Logic.{◌⊎◌, inl, inr}
use mathlib.Core.Bool.{Bool, true, false, ◌&&◌, ◌||◌}
use mathlib.Core.List.{List, [], ◌∷◌}
use native.Mathlib.Omega.{arith}
use rayspec_py.Prelude.Tests.{str_eq, eq_iff, if◌then◌else◌}

module _ {ℓ} {A : Type ℓ} where
  abbrev pub length : List A → ℕ
  length [] = 0
  length (x ∷ xs) = suc (length xs)

  -- any(...) and all(...) of Python
  abbrev pub any : (A → Bool) → List A → Bool
  any p [] = false
  any p (x ∷ xs) = p x || any p xs

  abbrev pub all : (A → Bool) → List A → Bool
  all p [] = true
  all p (x ∷ xs) = p x && all p xs

  -- [x for x in xs if p x]
  abbrev pub select : (A → Bool) → List A → List A
  select p [] = []
  select p (x ∷ xs) = let rest = select p xs in if p x then x ∷ rest else rest

  abbrev pub All {κ} : (A → Type κ) → List A → Type κ
  All P [] = Unit
  All P (x ∷ xs) = P x × All P xs

  abbrev pub Any : (A → Type 0) → List A → Type 0
  Any P [] = ⊥
  Any P (x ∷ xs) = P x ⊎ Any P xs

module _ {ℓ κ μ} {A : Type ℓ} {P : A → Type κ} {Q : A → Type μ} where
  pub All-map : (f : (x : A) → P x → Q x) (xs : List A) → All P xs → All Q xs
  All-map f [] h = tt
  All-map f (x ∷ xs) h = (f x h.0, All-map f xs h.1)

-- x in xs
abbrev pub elem : String → List String → Bool
elem x [] = false
elem x (y ∷ ys) = str_eq y x || elem x ys

abbrev pub In : String → List String → Type 0
In x [] = ⊥
In x (y ∷ ys) = (y ≡ x) ⊎ In x ys

pub elem→In : (x : String) (xs : List String) → elem x xs ≡ true → In x xs
elem→In x [] h = ground arith
elem→In x (y ∷ ys) h = ground (arith, eq_iff y x, elem→In x ys)

pub In→elem : (x : String) (xs : List String) → In x xs → elem x xs ≡ true
In→elem x [] h = elim h [ ]
In→elem x (y ∷ ys) h = ground (arith, eq_iff y x, In→elem x ys)

pub All-In {κ} : (P : String → Type κ) (xs : List String) → All P xs → (x : String) → In x xs → P x
All-In P [] h x m = elim m [ ]
All-In P (y ∷ ys) h x (inl e) = subst P e h.0
All-In P (y ∷ ys) h x (inr m) = All-In P ys h.1 x m
