-- ===== src/Limits/Policy.antt =====
-- limits/policy.py: `policy_view` and `limits_for`. A value is what YAML gives; `float_of` is
-- `float` of a text, `none` for its ValueError. Amounts are numbers of 10^-10 USD.
pub mod Fits
pub mod Told
use Prim.Native.Nat.{◌/◌, ◌%◌}
use rayspec_py.Prelude.{
  ℕ, zero, suc, ◌-◌, ◌*◌, ◌^◌, String, Bool, true, false, not, ◌||◌, Option, none, some, List, [],
  ◌∷◌, ◌++◌, leb, ◌==◌, if◌then◌else◌, or_else,
}
use rayspec_py.Prelude.Dict.{Dict, get, put}
use rayspec_py.Prelude.Int.{ℤ, pos, negsuc, pos_part, neg_part}
use rayspec_py.Prelude.Result.{Result, ok, err, ◌>>=◌, ◌>>◌}
use rayspec_py.Limits.Ledger.{float_limit}

-- A float.
pub data Number : Type 0 where
  nan infinite negative_infinite : Number
  finite : ℤ → Number

pub data Value : Type 0 where
  null other : Value
  boolean : Bool → Value
  integer : ℤ → Value
  number : Number → Value
  text : String → Value

-- What stands under `max_concurrent_runs`.
pub data Limits : Type 0 where
  single : Value → Limits
  mapping : Dict Value → Limits

-- The policy as `policy_view` reads it; a missing key is null.
pub record Policy : Type 0 where
  pub budget : Dict Value
  pub max_consecutive_failures : Value
  pub max_concurrent_runs : Limits

pub data Why : Type 0 where
  not_a_number negative not_whole : Why

-- `_note`: the key, within `budget` or `max_concurrent_runs` or at the top, and why
pub data Key : Type 0 where
  top in_budget in_limits : String → Key

pub record Problem : Type 0 where
  pub key : Key
  pub why : Why

-- `int` of an infinity, and `float` of an integer that has none, raise it.
pub data Overflow : Type 0 where
  overflow : Overflow

-- A ceiling, with the problems that reading it added.
abbrev pub Reading : Type 0 → Type 0
Reading A = Result Overflow (Option A × List Problem)

abbrev pub read : {A : Type 0} → A → Reading A
read a = ok (some a, [])

abbrev pub absent : {A : Type 0} → Reading A
absent = ok (none, [])

abbrev pub dropped : {A : Type 0} → Key → Why → Reading A
dropped key why = ok (none, record { key = key; why = why } ∷ [])

-- The tests on the float: NaN and what is negative are refused.
abbrev pub not_negative : Key → Number → Reading Number
not_negative key nan = dropped key negative
not_negative key negative_infinite = dropped key negative
not_negative key (finite (negsuc n)) = dropped key negative
not_negative key x = read x

-- float(value) of an integer
abbrev pub float_of_integer : ℤ → Result Overflow Number
float_of_integer n =
    if leb float_limit (pos_part n) || leb float_limit (neg_part n)
    then err overflow
    else ok (elim n [
      | pos m ↦ finite (pos (m * 10 ^ 10))
      | negsuc m ↦ finite (negsuc (suc m * 10 ^ 10 - 1))
    ])

abbrev pub number_of_text : Key → Option Number → Reading Number
number_of_text key none = dropped key not_a_number
number_of_text key (some x) = not_negative key x

abbrev pub number_of_integer : Key → Result Overflow Number → Reading Number
number_of_integer key (err e) = err e
number_of_integer key (ok x) = not_negative key x

-- number != int(number)
abbrev pub whole : Key → Number → Reading ℕ
whole key (finite (pos n)) = if n % 10 ^ 10 == 0 then read (n / 10 ^ 10) else dropped key not_whole
whole key _ = err overflow

abbrev pub count_of : Key → Reading Number → Reading ℕ
count_of key (err e) = err e
count_of key (ok (none, problems)) = ok (none, problems)
count_of key (ok (some x, problems)) = whole key x

abbrev pub or_null : Option Value → Value
or_null none = null
or_null (some v) = v

-- Reading one thing after another, with the problems of both.
abbrev pub then_read : {A B : Type 0} → Reading A → (Option A → Reading B) → Reading B
then_read (err e) next = err e
then_read (ok (a, problems)) next = next a >>= λ r. ok (r.0, problems ++ r.1)

-- One entry of `max_concurrent_runs`.
abbrev pub put_limit : Dict ℕ → String → Option ℕ → Dict ℕ
put_limit limits key none = limits
put_limit limits key (some n) = put limits key n

abbrev pub Limited : Type 0
Limited = Result Overflow (Dict ℕ × List Problem)

abbrev pub add_limit : (Dict ℕ → Limited) → String → Dict ℕ → Reading ℕ → Limited
add_limit rest key limits (err e) = err e
add_limit rest key limits (ok (parsed, problems)) =
    rest (put_limit limits key parsed) >>= λ r. ok (r.0, problems ++ r.1)

module _ (float_of : String → Option Number) where
  -- `_number`, and `_amount`
  unfoldable pub number_at : Key → Value → Reading Number
  number_at key null = absent
  number_at key other = dropped key not_a_number
  number_at key (boolean b) = dropped key not_a_number
  number_at key (integer n) = number_of_integer key (float_of_integer n)
  number_at key (number x) = not_negative key x
  number_at key (text t) = number_of_text key (float_of t)

  -- `_count`
  unfoldable pub count_at : Key → Value → Reading ℕ
  count_at key value = count_of key (number_at key value)

  -- failures = _count(top level), or of the budget where the first gives none
  abbrev pub nested_failures : Policy → Option ℕ → Reading ℕ
  nested_failures p (some n) = read n
  nested_failures p none =
      count_at (in_budget "max_consecutive_failures")
        (or_null (get p.budget "max_consecutive_failures"))

  unfoldable pub failures_of : Policy → Reading ℕ
  failures_of p =
      then_read (count_at (top "max_consecutive_failures") p.max_consecutive_failures)
        (nested_failures p)

  unfoldable pub read_limits : Dict Value → Dict ℕ → Limited
  read_limits [] limits = ok (limits, [])
  read_limits ((key, raw) ∷ entries) limits =
      add_limit (read_limits entries) key limits (count_at (in_limits key) raw)

  -- `concurrency_limits`
  unfoldable pub concurrency_limits : Limits → Limited
  concurrency_limits (mapping entries) = read_limits entries []
  concurrency_limits (single value) =
      add_limit (λ limits. ok (limits, [])) "*" [] (count_at (top "max_concurrent_runs") value)

-- `limits_for`, of a run's providers
unfoldable pub limits_for : Dict ℕ → List String → Dict ℕ → Dict ℕ
limits_for limits [] out = out
limits_for limits (provider ∷ providers) out =
    limits_for limits providers
      (put_limit out provider (or_else (get limits provider) (get limits "*")))
