-- ===== src/Limits/Ledger.antt =====
-- limits/ledger.py: the spend ledger. Amounts are in units of 10^-10 USD, the digits to which the
-- program rounds its totals. A day, a month and the cutoff of a moment are the texts that the
-- program compares.
pub mod Books
pub mod File
pub mod Repaired
pub mod Commits
use Prim.Native.String.{compare}
use Prim.Native.Nat.{Ordering}
use mathlib.Core.Option
use rayspec_py.Prelude.{
  ℕ, zero, suc, ◌+◌, ◌-◌, ◌*◌, ◌^◌, String, Bool, true, false, not, ◌&&◌, ◌||◌, Option, none, some,
  List, [], ◌∷◌, ◌++◌, length, is_some, ltb, leb, if◌then◌else◌,
}
use rayspec_py.Prelude.Dict.{Dict, get, put, keys}
use rayspec_py.Prelude.Int.{ℤ, pos, negsuc, pos_part, neg_part, ◌+ℤ◌, ◌-ℤ◌, is_zero, ltb_ℤ}

-- A JSON value as far as the ledger looks into it: `real` is a finite float, `not_finite` a NaN or
-- an infinity, `composite` a list or an object.
pub data Json : Type 0 where
  null : Json
  bool : Bool → Json
  int real : ℤ → Json
  not_finite composite : Json
  str : String → Json

-- A field that should hold an object with such values, and one that should hold an object of those.
pub data Field {ℓ} (A : Type ℓ) : Type ℓ where
  value : Json → Field A
  object : Dict A → Field A

abbrev pub Entry : Type 0
Entry = Field Json

-- spend.json: the fields that the ledger reads; none for a missing key
pub record Doc : Type 0 where
  pub version : Option Json
  pub days : Option (Field Json)
  pub months : Option (Field Json)
  pub runs : Option (Field Entry)
  pub failures : Option Json

abbrev pub fresh : Doc
fresh = record {
  version = some (int (pos 1));
  days = none;
  months = none;
  runs = none;
  failures = none;
}

pub record SpendState : Type 0 where
  pub day_usd : ℤ
  pub month_usd : ℤ
  pub consecutive_failures : ℕ

-- The moment of an operation: its day and month, and the day RETAIN_DAYS before it.
pub record Moment : Type 0 where
  pub day : String
  pub month : String
  pub cutoff : String

-- The least integer that has no float.
unfoldable pub float_limit : ℕ
float_limit = 2 ^ 1024 - 2 ^ 970

unfoldable pub unit : ℕ
unit = 10 ^ 10

abbrev pub scale : ℤ → ℤ
scale (pos n) = pos (n * unit)
scale (negsuc n) = negsuc (suc n * unit - 1)

-- _amount
unfoldable pub amount : Option Json → Option ℤ
amount (some (int n)) = if ltb (pos_part n + neg_part n) float_limit then some (scale n) else none
amount (some (real x)) = some x
amount _ = none

-- _amount(…) or 0.0
abbrev pub or_zero : Option ℤ → ℤ
or_zero none = pos 0
or_zero (some x) = x

-- What `_repair` names.
pub data Broken : Type 0 where
  days_field months_field failures_field runs_field : Broken
  day month run run_cost : String → Broken

-- for stamp in bucket: … (the names come in the document's order)
unfoldable pub repair_bucket : (String → Broken) → Dict Json → Dict Json × List Broken
repair_bucket name [] = ([], [])
repair_bucket name ((stamp, v) ∷ rest) =
    let (kept, broken) = repair_bucket name rest in
    if is_some (amount (some v)) then ((stamp, v) ∷ kept, broken) else (kept, name stamp ∷ broken)

unfoldable pub repair_field :
    Broken → (String → Broken) → Option (Field Json) → Option (Field Json) × List Broken
repair_field whole name none = (none, [])
repair_field whole name (some (value null)) = (some (value null), [])
repair_field whole name (some (value v)) = (some (object []), whole ∷ [])
repair_field whole name (some (object d)) =
    let (kept, broken) = repair_bucket name d in (some (object kept), broken)

abbrev pub is_negative : ℤ → Bool
is_negative (pos n) = false
is_negative (negsuc n) = true

unfoldable pub repair_failures : Option Json → Option Json × List Broken
repair_failures none = (none, [])
repair_failures (some null) = (some null, [])
repair_failures (some (int n)) =
    if is_negative n then (some (int (pos 0)), failures_field ∷ []) else (some (int n), [])
repair_failures (some _) = (some (int (pos 0)), failures_field ∷ [])

-- entry.get("cost_usd") is not None and _amount(…) is None
abbrev pub bad_cost : Option Json → Bool
bad_cost none = false
bad_cost (some null) = false
bad_cost (some v) = not (is_some (amount (some v)))

unfoldable pub repair_runs : Dict Entry → Dict Entry × List Broken
repair_runs [] = ([], [])
repair_runs ((id, value v) ∷ rest) =
    let (kept, broken) = repair_runs rest in (kept, run id ∷ broken)
repair_runs ((id, object e) ∷ rest) =
    let (kept, broken) = repair_runs rest in
    if bad_cost (get e "cost_usd")
    then ((id, object (put e "cost_usd" (real (pos 0)))) ∷ kept, run_cost id ∷ broken)
    else ((id, object e) ∷ kept, broken)

unfoldable pub repair_runs_field : Option (Field Entry) → Option (Field Entry) × List Broken
repair_runs_field none = (none, [])
repair_runs_field (some (value null)) = (some (value null), [])
repair_runs_field (some (value v)) = (some (object []), runs_field ∷ [])
repair_runs_field (some (object d)) =
    let (kept, broken) = repair_runs d in (some (object kept), broken)

-- _repair
unfoldable pub repair : Doc → Doc × List Broken
repair d =
    let (days, b1) = repair_field days_field day d.days in
    let (months, b2) = repair_field months_field month d.months in
    let (failures, b3) = repair_failures d.failures in
    let (runs, b4) = repair_runs_field d.runs in
    (
      record d { days = days; months = months; failures = failures; runs = runs },
      b1 ++ (b2 ++ (b3 ++ b4)),
    )

-- The object of a field, where there is one.
abbrev pub entries {ℓ} : {A : Type ℓ} → Option (Field A) → Dict A
entries (some (object d)) = d
entries _ = []

abbrev pub counter : Option Json → ℕ
counter (some (int (pos n))) = n
counter _ = 0

-- _state_of
unfoldable pub state_of : Doc → Moment → SpendState
state_of d when = record {
  day_usd = or_zero (amount (get (entries d.days) when.day));
  month_usd = or_zero (amount (get (entries d.months) when.month));
  consecutive_failures = counter d.failures;
}
