-- ===== src/Engine/Paths/Decimal.antt =====
-- The index of a segment is read back from its print (engine/paths.py).
use Prim.Native.Nat.{◌/◌, ◌%◌}
use rayspec_py.Prelude.{
  ℕ, zero, suc, ◌+◌, ◌*◌, ◌<◌, ◌≡◌, refl, sym, ◌∙◌, ap, inl, inr, Option, none, some, List, [], ◌∷◌,
  arith, ltb, Bool-cases,
}
use rayspec_py.Engine.Paths.{span_digits, match_index, decimal}

-- What the parser relies on of the values of digits: those of ASCII, and that `]` has none.
pub record IsDecimal (digit : ℕ → Option ℕ) : Type 0 where
  pub ascii : (d : ℕ) → d < 10 → digit (b'0' + d) ≡ some d
  pub bracket : digit b']' ≡ none

module _ (digit : ℕ → Option ℕ) (h : IsDecimal digit) where
  span-cons :
      (a c d : ℕ) (cs : List ℕ)
      → digit c ≡ some d
      → span_digits digit a (c ∷ cs) ≡ span_digits digit (a * 10 + d) cs
  unfolding span_digits
  span-cons a c d cs e = ground arith

  span_one :
      (a d : ℕ) (rest : List ℕ)
      → d < 10
      → span_digits digit a ((b'0' + d) ∷ rest) ≡ span_digits digit (a * 10 + d) rest
  span_one a d rest l = span-cons a (b'0' + d) d rest (h.ascii d l)

  span-decimal :
      (fuel n : ℕ) (rest : List ℕ)
      → n < fuel
      → span_digits digit 0 (decimal fuel n rest) ≡ span_digits digit n rest
  unfolding decimal
  span-decimal zero n rest l = ground arith
  span-decimal (suc fuel) n rest l = elim (Bool-cases (ltb n 10)) [
    | inl small ↦
        rw small
          (span_one 0 n rest (ground arith) ∙ ap (λ k. span_digits digit k rest) (omega arith))
    | inr large ↦
        let big : 9 < n = ground arith in
        rw large (
          span-decimal fuel (n / 10) ((b'0' + n % 10) ∷ rest) (omega arith)
          ∙ span_one (n / 10) (n % 10) rest (omega arith)
          ∙ ap (λ k. span_digits digit k rest) (omega arith))
  ]

  -- A print of a number begins with a digit.
  decimal-head :
      (fuel n : ℕ) (rest : List ℕ)
      → n < fuel
      → (c d : ℕ) × (cs : List ℕ) × (decimal fuel n rest ≡ c ∷ cs) × (digit c ≡ some d)
  unfolding decimal
  decimal-head zero n rest l = ground arith
  decimal-head (suc fuel) n rest l = elim (Bool-cases (ltb n 10)) [
    | inl small ↦ (b'0' + n, n, rest, rw small refl, h.ascii n (ground arith))
    | inr large ↦
        let big : 9 < n = ground arith in
        let (c, d, cs, e, k) = decimal-head fuel (n / 10) ((b'0' + n % 10) ∷ rest) (omega arith) in
        (c, d, cs, rw large e, k)
  ]

  span-bracket : (n : ℕ) → span_digits digit n (b']' ∷ []) ≡ (n, b']' ∷ [])
  unfolding span_digits
  span-bracket n = let e = h.bracket in ground arith

  indexed_by :
      (name text : List ℕ) (c d : ℕ) (cs : List ℕ) (n : ℕ)
      → text ≡ c ∷ cs
      → digit c ≡ some d
      → span_digits digit 0 text ≡ (n, b']' ∷ [])
      → match_index digit name (b'[' ∷ text) ≡ some (name, some n)
  unfolding match_index
  indexed_by name text c d cs n e k s =
      let same = ap (λ t. span_digits digit 0 t) e in
      let s' : span_digits digit d cs ≡ (n, b']' ∷ []) =
        ap (λ m. span_digits digit m cs) (omega arith)
        ∙ sym (span-cons 0 c d cs k)
        ∙ sym same
        ∙ s in
      ground arith

  pub match_index-decimal :
      (name : List ℕ) (n : ℕ)
      → match_index digit name (b'[' ∷ decimal (suc n) n (b']' ∷ [])) ≡ some (name, some n)
  match_index-decimal name n =
      let (c, d, cs, e, k) = decimal-head (suc n) n (b']' ∷ []) (omega arith) in
      indexed_by name (decimal (suc n) n (b']' ∷ [])) c d cs n e k
        (span-decimal (suc n) n (b']' ∷ []) (omega arith) ∙ span-bracket n)
