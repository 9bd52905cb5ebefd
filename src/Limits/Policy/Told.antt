-- ===== src/Limits/Policy/Told.antt =====
-- No ceiling of the policy is dropped in silence (limits/policy.py).
use rayspec_py.Prelude.{
  ℕ, ◌≡◌, ◌≢◌, ◌⊎◌, ◌*◌, ◌^◌, ◌==◌, subst, Bool-cases, inl, inr, refl, String, In, Bool,
  if◌then◌else◌, true, false, Option, none, some, List, [], ◌∷◌, ◌++◌, All, Any, All-map, arith,
  eq_iff,
}
use rayspec_py.Prelude.Dict.{Distinct, keys, Dict, get, put, get-put}
use rayspec_py.Prelude.Result.{ok, err, Returns, ◌>>=◌}
use rayspec_py.Prelude.Int.{pos, negsuc}
use Prim.Native.Nat.{◌%◌, ◌/◌, suc, ◌-◌}
use rayspec_py.Limits.Policy.{
  Number, Value, null, overflow, Key, in_limits, Problem, Reading, Limited, number_of_integer,
  number_of_text, not_negative, number_at, whole, count_of, count_at, put_limit, add_limit,
  read_limits, concurrency_limits, mapping, finite, infinite, nan, negative_infinite,
}
use rayspec_py.Limits.Policy.Fits.{Fits, read_limits-ok}

-- The number that a value stands for, in units of 10^-10.
abbrev pub IsNumber : (String → Option Number) → Value → Number → Type 0
IsNumber float_of (Value.integer (pos n)) x = x ≡ finite (pos (n * 10 ^ 10))
IsNumber float_of (Value.integer (negsuc n)) x = x ≡ finite (negsuc (suc n * 10 ^ 10 - 1))
IsNumber float_of (Value.number y) x = y ≡ x
IsNumber float_of (Value.text t) x = float_of t ≡ some x
IsNumber float_of v x = ⊥

-- A whole number, in the same units.
abbrev pub count : ℕ → Number
count n = finite (pos (n * 10 ^ 10))

-- A value that gave a ceiling, of which `D` holds, that is null, or that is named with its key.
abbrev Told : {A : Type 0} → (A → Type 0) → Key → Value → Option A × List Problem → Type 0
Told D key v (some a, problems) = D a
Told D key v (none, problems) = (v ≡ null) ⊎ Any (λ p. p.key ≡ key) problems

not_negative-Told :
    (D : Number → Type 0) (key : Key) (v : Value) (x : Number)
    → D x
    → Returns (Told D key v) (not_negative key x)
not_negative-Told D key v nan d = inr (inl refl)
not_negative-Told D key v infinite d = d
not_negative-Told D key v negative_infinite d = inr (inl refl)
not_negative-Told D key v (finite (pos n)) d = d
not_negative-Told D key v (finite (negsuc n)) d = inr (inl refl)

whole-Told :
    (D : Number → Type 0) (key : Key) (v : Value) (x : Number)
    → D x
    → Returns (Told (λ n. D (count n)) key v) (whole key x)
whole-Told D key v nan d = tt
whole-Told D key v infinite d = tt
whole-Told D key v negative_infinite d = tt
whole-Told D key v (finite (negsuc n)) d = tt
whole-Told D key v (finite (pos n)) d = elim (Bool-cases (n % 10 ^ 10 == 0)) [
  | inl e ↦ rw e (subst (λ m. D (finite (pos m))) (exact n e) d)
  | inr e ↦ rw e (inr (inl refl))
]
  where
    exact : (m : ℕ) → (m % 10 ^ 10 == 0) ≡ true → m ≡ m / 10 ^ 10 * 10 ^ 10
    exact m h = ground arith

count_of-Told :
    (D : Number → Type 0) (key : Key) (v : Value) (r : Reading Number)
    → Returns (Told D key v) r
    → Returns (Told (λ n. D (count n)) key v) (count_of key r)
count_of-Told D key v (err e) h = tt
count_of-Told D key v (ok (none, problems)) h = h
count_of-Told D key v (ok (some x, problems)) h = whole-Told D key v x h

extend :
    (P Q : Dict ℕ × List Problem → Type 0) (problems : List Problem) (r : Limited)
    → Returns P r
    → ((x : Dict ℕ × List Problem) → P x → Q (x.0, problems ++ x.1))
    → Returns Q (r >>= λ x. ok (x.0, problems ++ x.1))
extend P Q problems (ok x) h f = f x h
extend P Q problems (err e) h f = tt

-- What one entry adds to what the others do.
add_limit-Returns :
    (D : ℕ → Type 0) (P : Option ℕ → Dict ℕ × List Problem → Type 0)
    (Q : Dict ℕ × List Problem → Type 0) (rest : Dict ℕ → Limited) (key : String) (v : Value)
    (limits : Dict ℕ) (r : Reading ℕ)
    → Returns (Told D (in_limits key) v) r
    → ((a : Option ℕ) → Returns (P a) (rest (put_limit limits key a)))
    → ((a : Option ℕ) (problems : List Problem) (x : Dict ℕ × List Problem)
        → Told D (in_limits key) v (a, problems)
        → P a x
        → Q (x.0, problems ++ x.1))
    → Returns Q (add_limit rest key limits r)
add_limit-Returns D P Q rest key v limits (err e) t h f = tt
add_limit-Returns D P Q rest key v limits (ok (a, problems)) t h f =
    extend (P a) Q problems (rest (put_limit limits key a)) (h a) (λ x. f a problems x t)

both :
    (P Q : Dict ℕ × List Problem → Type 0) (r : Limited)
    → Returns P r
    → Returns Q r
    → Returns (λ x. P x × Q x) r
both P Q (ok x) p q = (p, q)
both P Q (err e) p q = tt

Any-left : (P : Problem → Type 0) (xs ys : List Problem) → Any P xs → Any P (xs ++ ys)
Any-left P [] ys a = elim a [ ]
Any-left P (x ∷ xs) ys (inl p) = inl p
Any-left P (x ∷ xs) ys (inr a) = inr (Any-left P xs ys a)

Any-right : (P : Problem → Type 0) (xs ys : List Problem) → Any P ys → Any P (xs ++ ys)
Any-right P [] ys a = a
Any-right P (x ∷ xs) ys a = inr (Any-right P xs ys a)

-- The same of an entry, whose number stands in the result.
abbrev pub EntryTold : (String → Option Number) → Dict ℕ × List Problem → String × Value → Type 0
EntryTold float_of x (key, raw) =
    (raw ≡ null)
    ⊎ ((n : ℕ) × (get x.0 key ≡ some n) × IsNumber float_of raw (count n))
    ⊎ Any (λ p. p.key ≡ in_limits key) x.1

always :
    {P : Dict ℕ × List Problem → Type 0} (r : Limited)
    → ((x : Dict ℕ × List Problem) → P x)
    → Returns P r
always (ok x) f = f x
always (err e) f = tt

put_limit-keeps :
    (limits : Dict ℕ) (key k : String) (a : Option ℕ) (n : ℕ)
    → key ≢ k
    → get limits k ≡ some n
    → get (put_limit limits key a) k ≡ some n
put_limit-keeps limits key k none n other h = h
put_limit-keeps limits key k (some m) n other h =
    ground (arith, get-put limits key k m, eq_iff key k)

module _ (float_of : String → Option Number) where
  EntryTold-more :
      (problems : List Problem) (x : Dict ℕ × List Problem) (e : String × Value)
      → EntryTold float_of x e
      → EntryTold float_of (x.0, problems ++ x.1) e
  EntryTold-more problems x (key, raw) (inl n) = inl n
  EntryTold-more problems x (key, raw) (inr (inl l)) = inr (inl l)
  EntryTold-more problems x (key, raw) (inr (inr a)) =
      inr (inr (Any-right (λ p. p.key ≡ in_limits key) problems x.1 a))

  integer-Told :
      (key : Key) (v : Value) (beyond : Bool) (x : Number)
      → IsNumber float_of v x
      → Returns
          (Told (IsNumber float_of v) key v)
          (number_of_integer key (if beyond then err overflow else ok x))
  integer-Told key v true x d = tt
  integer-Told key v false x d = not_negative-Told (IsNumber float_of v) key v x d

  IsNumber-Told :
      (key : Key) (v : Value)
      → Returns (Told (IsNumber float_of v) key v) (number_at float_of key v)
  unfolding number_at
  IsNumber-Told key Value.null = inl refl
  IsNumber-Told key Value.other = inr (inl refl)
  IsNumber-Told key (Value.boolean b) = inr (inl refl)
  IsNumber-Told key (Value.integer (pos n)) = integer-Told key (Value.integer (pos n)) _ _ refl
  IsNumber-Told key (Value.integer (negsuc n)) =
      integer-Told key (Value.integer (negsuc n)) _ _ refl
  IsNumber-Told key (Value.number x) = not_negative-Told _ key (Value.number x) x refl
  IsNumber-Told key (Value.text t) = text (float_of t) refl
    where
      text :
          (o : Option Number)
          → float_of t ≡ o
          → Returns
              (Told (IsNumber float_of (Value.text t)) key (Value.text t))
              (number_of_text key o)
      text none e = inr (inl refl)
      text (some x) e = not_negative-Told _ key (Value.text t) x e

  pub count_at-Told :
      (key : Key) (v : Value)
      → Returns (Told (λ n. IsNumber float_of v (count n)) key v) (count_at float_of key v)
  unfolding count_at
  count_at-Told key v =
      count_of-Told (IsNumber float_of v) key v (number_at float_of key v) (IsNumber-Told key v)

  -- A limit that was read stays, when no further entry is for its key.
  keeps :
      (entries : Dict Value) (limits : Dict ℕ) (k : String) (n : ℕ)
      → (In k (keys entries) → ⊥)
      → get limits k ≡ some n
      → Returns (λ r. get r.0 k ≡ some n) (read_limits float_of entries limits)
  unfolding read_limits
  keeps [] limits k n other h = h
  keeps ((key, raw) ∷ entries) limits k n other h =
      add_limit-Returns (λ m. IsNumber float_of raw (count m)) (λ a x. get x.0 k ≡ some n)
        (λ x. get x.0 k ≡ some n) (read_limits float_of entries) key raw limits
        (count_at float_of (in_limits key) raw) (count_at-Told (in_limits key) raw)
        (λ a.
          keeps entries (put_limit limits key a) k n (λ m. other (inr m))
            (put_limit-keeps limits key k a n (λ e. other (inl e)) h))
        (λ a problems x t p. p)

  -- What the entry itself read stays.
  abbrev Own : String → Option ℕ → Dict ℕ × List Problem → Type 0
  Own key none x = Unit
  Own key (some n) x = get x.0 key ≡ some n

  keeps_Own :
      (entries : Dict Value) (limits : Dict ℕ) (key : String) (a : Option ℕ)
      → (In key (keys entries) → ⊥)
      → Returns (Own key a) (read_limits float_of entries (put_limit limits key a))
  keeps_Own entries limits key none other = always (read_limits float_of entries limits) (λ x. tt)
  keeps_Own entries limits key (some n) other =
      keeps entries (put limits key n) key n other
        (ground (arith, get-put limits key key n, eq_iff key key))

  Own-EntryTold :
      (key : String) (raw : Value) (a : Option ℕ) (problems : List Problem)
      (x : Dict ℕ × List Problem)
      → Told (λ n. IsNumber float_of raw (count n)) (in_limits key) raw (a, problems)
      → Own key a x
      → EntryTold float_of (x.0, problems ++ x.1) (key, raw)
  Own-EntryTold key raw none problems x (inl n) own = inl n
  Own-EntryTold key raw none problems x (inr n) own =
      inr (inr (Any-left (λ p. p.key ≡ in_limits key) problems x.1 n))
  Own-EntryTold key raw (some n) problems x d own = inr (inl (n, own, d))

  -- Each entry that is not null has its number in the result or is named, by its key.
  read_limits-EntryTold :
      (entries : Dict Value) (limits : Dict ℕ)
      → Distinct entries
      → Returns (λ x. All (EntryTold float_of x) entries) (read_limits float_of entries limits)
  unfolding read_limits
  read_limits-EntryTold [] limits d = tt
  read_limits-EntryTold ((key, raw) ∷ entries) limits d =
      add_limit-Returns (λ m. IsNumber float_of raw (count m))
        (λ a x. Own key a x × All (EntryTold float_of x) entries)
        (λ x. All (EntryTold float_of x) ((key, raw) ∷ entries)) (read_limits float_of entries) key
        raw limits (count_at float_of (in_limits key) raw) (count_at-Told (in_limits key) raw)
        (λ a.
          both _ _ _ (keeps_Own entries limits key a d.0)
            (read_limits-EntryTold entries (put_limit limits key a) d.1))
        (λ a problems x t h. (
          Own-EntryTold key raw a problems x t h.0,
          All-map (EntryTold-more problems x) entries h.1,
        ))

  -- When the keys under `max_concurrent_runs` are distinct and no value there is an infinity or an
  -- integer beyond the floats, the limits are read, and each entry that is not null has the whole
  -- number that its value stands for as the limit of its key, or its key is named among the
  -- problems.
  pub concurrency_limits-EntryTold :
      (entries : Dict Value)
      → Distinct entries
      → All (λ e. Fits float_of e.1) entries
      → (x : Dict ℕ × List Problem) × (concurrency_limits float_of (mapping entries) ≡ ok x)
        × All (EntryTold float_of x) entries
  unfolding concurrency_limits
  concurrency_limits-EntryTold entries d f =
      let (x, e) = read_limits-ok float_of entries [] f in
      (
        x,
        e,
        subst (Returns (λ y. All (EntryTold float_of y) entries)) e
            (read_limits-EntryTold entries [] d),
      )
