-- ===== src/Policy/Layers/Smallest.antt =====
-- What `_min_of` of policy/layers.py answers: an amount is within the merged ceiling exactly when it
-- is within the ceiling of every layer.
use rayspec_py.Prelude.{
  ℕ, ◌≤◌, ◌≡◌, ◌↔◌, ◌⊎◌, refl, inl, Option, none, some, List, [], ◌∷◌, ◌++◌, All, arith,
}
use rayspec_py.Policy.Layers.{PolicyLayer, least, min_present, present, one, min_of}

abbrev pub InN : ℕ → List ℕ → Type 0
InN x [] = ⊥
InN x (y ∷ ys) = (y ≡ x) ⊎ InN x ys

-- A ceiling that is not set is above everything.
abbrev pub AtMost : ℕ → Option ℕ → Type 0
AtMost n none = Unit
AtMost n (some ceiling) = n ≤ ceiling

pub least-InN : (m : ℕ) (xs : List ℕ) → InN (least m xs) (m ∷ xs)
least-InN m [] = inl refl
least-InN m (x ∷ xs) = ground (arith, least-InN m xs, least-InN x xs)

AtMost-least : (n m : ℕ) (xs : List ℕ) → (n ≤ least m xs) ↔ ((n ≤ m) × All (λ x. n ≤ x) xs)
AtMost-least n m [] = (ground arith, ground arith)
AtMost-least n m (x ∷ xs) = (
  ground (arith, AtMost-least n m xs, AtMost-least n x xs),
  ground (arith, AtMost-least n m xs, AtMost-least n x xs),
)

AtMost-min_present : (n : ℕ) (xs : List ℕ) → AtMost n (min_present xs) ↔ All (λ x. n ≤ x) xs
AtMost-min_present n [] = (λ h. h, λ h. h)
AtMost-min_present n (x ∷ xs) = AtMost-least n x xs

AtMost-one :
    (n : ℕ) (o : Option ℕ) (xs : List ℕ)
    → All (λ x. n ≤ x) (one o ++ xs) ↔ (AtMost n o × All (λ x. n ≤ x) xs)
AtMost-one n none xs = (λ h. (tt, h), λ h. h.1)
AtMost-one n (some c) xs = (λ h. h, λ h. h)

AtMost-present :
    (n : ℕ) (pick : PolicyLayer → Option ℕ) (ls : List PolicyLayer)
    → All (λ x. n ≤ x) (present pick ls) ↔ All (λ l. AtMost n (pick l)) ls
AtMost-present n pick [] = (λ h. h, λ h. h)
AtMost-present n pick (l ∷ ls) =
    let (to, from) = AtMost-present n pick ls in
    let (split, join) = AtMost-one n (pick l) (present pick ls) in
    (λ h. let (here, rest) = split h in (here, to rest), λ h. join (h.0, from h.1))

pub AtMost-min_of :
    (n : ℕ) (pick : PolicyLayer → Option ℕ) (ls : List PolicyLayer)
    → AtMost n (min_of pick ls) ↔ All (λ l. AtMost n (pick l)) ls
AtMost-min_of n pick ls =
    let (to, from) = AtMost-min_present n (present pick ls) in
    let (tos, froms) = AtMost-present n pick ls in (λ h. tos (to h), λ h. from (froms h))
