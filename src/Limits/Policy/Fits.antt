-- ===== src/Limits/Policy/Fits.antt =====
-- limits/policy.py: the values that are read without an OverflowError.
use rayspec_py.Prelude.{
  ℕ, ◌≡◌, ◌≢◌, ◌*◌, ◌^◌, ◌||◌, ◌==◌, leb, ap, Bool-cases, inl, inr, refl, String, false, Option,
  none, some, List, [], ◌∷◌, ◌++◌, All, arith,
}
use rayspec_py.Prelude.Dict.{Dict}
use rayspec_py.Prelude.Result.{ok}
use rayspec_py.Prelude.Int.{pos, negsuc, pos_part, neg_part}
use rayspec_py.Limits.Ledger.{float_limit}
use Prim.Native.Nat.{◌%◌}
use rayspec_py.Limits.Policy.{
  Number, Value, Key, in_limits, Problem, number_of_text, not_negative, number_at, count_of,
  count_at, put_limit, read_limits, finite, infinite, nan, negative_infinite,
}

module _ (float_of : String → Option Number) where
  -- A value whose number `int` and `float` can take: no infinity, no integer beyond the floats.
  abbrev pub Fits : Value → Type 0
  Fits (Value.number x) = x ≢ infinite
  Fits (Value.integer n) = leb float_limit (pos_part n) || leb float_limit (neg_part n) ≡ false
  Fits (Value.text t) = float_of t ≢ some infinite
  Fits v = Unit

  count-not_negative :
      (key : Key) (x : Number)
      → x ≢ infinite
      → (r : Option ℕ × List Problem) × (count_of key (not_negative key x) ≡ ok r)
  count-not_negative key nan n = (_, refl)
  count-not_negative key infinite n = absurd (n refl)
  count-not_negative key negative_infinite n = (_, refl)
  count-not_negative key (finite (negsuc m)) n = (_, refl)
  count-not_negative key (finite (pos m)) n = elim (Bool-cases (m % 10 ^ 10 == 0)) [
    | inl e ↦ rw e (_, refl)
    | inr e ↦ rw e (_, refl)
  ]

  count-text :
      (key : Key) (o : Option Number)
      → o ≢ some infinite
      → (r : Option ℕ × List Problem) × (count_of key (number_of_text key o) ≡ ok r)
  count-text key none n = (_, refl)
  count-text key (some x) n = count-not_negative key x (λ e. n (ap some e))

  Fits-count_at :
      (key : Key) (v : Value)
      → Fits v
      → (r : Option ℕ × List Problem) × (count_at float_of key v ≡ ok r)
  unfolding count_at number_at
  Fits-count_at key Value.null f = (_, refl)
  Fits-count_at key Value.other f = (_, refl)
  Fits-count_at key (Value.boolean b) f = (_, refl)
  Fits-count_at key (Value.integer (pos n)) f =
      rw f (count-not_negative key (finite (pos (n * 10 ^ 10))) (λ e. ground arith))
  Fits-count_at key (Value.integer (negsuc n)) f = rw f (_, refl)
  Fits-count_at key (Value.number x) f = count-not_negative key x f
  Fits-count_at key (Value.text t) f = count-text key (float_of t) f

  pub read_limits-ok :
      (entries : Dict Value) (limits : Dict ℕ)
      → All (λ e. Fits e.1) entries
      → (x : Dict ℕ × List Problem) × (read_limits float_of entries limits ≡ ok x)
  unfolding read_limits
  read_limits-ok [] limits f = (_, refl)
  read_limits-ok ((key, raw) ∷ entries) limits f =
      let (r, e) = Fits-count_at (in_limits key) raw f.0 in
      let (x, e') = read_limits-ok entries (put_limit limits key r.0) f.1 in
      ((x.0, r.1 ++ x.1), rw (e, e') refl)
