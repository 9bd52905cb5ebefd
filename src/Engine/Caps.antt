-- ===== src/Engine/Caps.antt =====
-- engine/context.py: the caps of a run, `check_budget` with the totals that it compares. Amounts
-- are numbers of 10^-10 USD; a duration is a number of some unit that the clock and the cap share.
pub mod Trips
use rayspec_py.Prelude.{
  ℕ, ◌+◌, String, Bool, true, false, not, ◌&&◌, ◌||◌, Option, none, some, List, [], ◌∷◌, ◌++◌, any,
  elem, select, ltb, is_some, if◌then◌else◌,
}
use rayspec_py.Prelude.Int.{ℤ, pos, ltb_ℤ}
use rayspec_py.Engine.Leaf.{Usage, add_usage, CostSource, add_cost}

-- The caps of `Defaults`.
pub record Defaults : Type 0 where
  pub budget_usd : Option ℤ
  pub max_tokens : Option ℕ
  pub timeout_total : Option ℕ

-- What the totals read of a StepRecord.
pub record Spent : Type 0 where
  pub path : String
  pub usage : Usage
  pub cost_usd : Option ℤ
  pub cost_source : CostSource

-- CAP_KNOBS
pub data Knob : Type 0 where
  budget_usd max_tokens timeout_total : Knob

pub data RunSource : Type 0 where
  no_cost partial table provider : RunSource

-- Usage.total
abbrev pub total_tokens : Usage → ℕ
total_tokens u = u.input + u.output

abbrev no_usage : Usage
no_usage = record { input = 0; cached_input = 0; cache_write = 0; output = 0; reasoning = 0 }

abbrev is_table : CostSource → Bool
is_table CostSource.table = true
is_table _ = false

abbrev is_priced : Spent → Bool
is_priced r = is_some r.cost_usd

-- `cost_source_of`, with `combine_cost_sources`
unfoldable pub cost_source_of : List Spent → RunSource
cost_source_of records =
    if not (any is_priced records)
    then no_cost
    else if any (λ r. not (is_priced r) && ltb 0 (total_tokens r.usage)) records
    then partial
    else if any (λ r. is_priced r && is_table r.cost_source) records
    then table
    else provider

abbrev pub sum_usage : List Spent → Usage → Usage
sum_usage [] total = total
sum_usage (r ∷ rs) total = sum_usage rs (add_usage total r.usage)

abbrev pub sum_costs : List Spent → Option ℤ → Option ℤ
sum_costs [] total = total
sum_costs (r ∷ rs) total = sum_costs rs (add_cost total r.cost_usd)

pub record Totals : Type 0 where
  pub usage : Usage
  pub cost_usd : Option ℤ
  pub cost_source : RunSource

-- `totals_of`
unfoldable pub totals_of : List Spent → Totals
totals_of records = record {
  usage = sum_usage records no_usage;
  cost_usd = sum_costs records none;
  cost_source = cost_source_of records;
}

-- `budget_totals`: the accounted records of the run, and an attempt that is not among them
abbrev pub with_pending : List String → List Spent → Option Spent → List Spent
with_pending accounted records none = records
with_pending accounted records (some r) =
    if elem r.path accounted then records else records ++ r ∷ []

unfoldable pub budget_totals : List String → List Spent → Option Spent → Totals
budget_totals accounted steps pending =
    totals_of (with_pending accounted (select (λ r. elem r.path accounted) steps) pending)

abbrev pub over_cost : Option ℤ → Option ℤ → Bool
over_cost (some cap) (some cost) = ltb_ℤ cap cost
over_cost _ _ = false

abbrev pub over_tokens : Option ℕ → ℕ → Bool
over_tokens (some cap) tokens = ltb cap tokens
over_tokens none tokens = false

abbrev pub over_time : Option ℕ → Option ℕ → Bool
over_time (some cap) (some elapsed) = ltb cap elapsed
over_time _ _ = false

-- `budget_parts`, by their knobs
unfoldable pub budget_parts : Totals → Defaults → List Knob
budget_parts t d =
    let cost = if over_cost d.budget_usd t.cost_usd then budget_usd ∷ [] else [] in
    let tokens = if over_tokens d.max_tokens (total_tokens t.usage) then max_tokens ∷ [] else [] in
    cost ++ tokens

-- CapBreach: one sentence for the money, one for the clock
pub record CapBreach : Type 0 where
  pub knobs : List Knob

abbrev pub breach_of : List Knob → List CapBreach
breach_of [] = []
breach_of (k ∷ ks) = record { knobs = k ∷ ks } ∷ []

-- `cap_reasons`, with `time_reason`
unfoldable pub cap_reasons : Totals → Option ℕ → Defaults → List CapBreach
cap_reasons t elapsed d =
    breach_of (budget_parts t d)
    ++ breach_of (if over_time d.timeout_total elapsed then timeout_total ∷ [] else [])

-- `caps_set`
abbrev pub caps_set : Defaults → Bool
caps_set d = is_some d.budget_usd || (is_some d.max_tokens || is_some d.timeout_total)

-- Why a run is over a cap: the ceiling of the operator, or its own breaches.
pub data Reason : Type 0 where
  envelope : String → Reason
  caps : List CapBreach → Reason

-- The part of the run context that the breaker keeps.
pub record Breaker : Type 0 where
  pub budget_exceeded : Option Reason
  pub envelope_pause : Option String
  pub warnings : List Reason

abbrev pub trip : Breaker → List CapBreach → Option Reason × Breaker
trip b [] = (none, b)
trip b (c ∷ cs) = (
  some (caps (c ∷ cs)),
  record b { budget_exceeded = some (caps (c ∷ cs)); warnings = b.warnings ++ caps (c ∷ cs) ∷ [] },
)

-- `check_envelope`, from the answer of the envelope on
abbrev pub envelope_trip : Breaker → String → Option Reason × Breaker
envelope_trip b reason = (
  some (envelope reason),
  record {
    budget_exceeded = some (envelope reason);
    envelope_pause = some reason;
    warnings = b.warnings ++ envelope reason ∷ [];
  },
)

abbrev pub own_caps : Totals → Option ℕ → Defaults → Breaker → Option Reason × Breaker
own_caps t elapsed d b = if caps_set d then trip b (cap_reasons t elapsed d) else (none, b)

-- `check_budget`; `ceiling` is what the envelope answers
unfoldable pub check_budget :
    Option String → Totals → Option ℕ → Defaults → Breaker → Option Reason × Breaker
check_budget ceiling t elapsed d b = elim b.budget_exceeded [
  | some reason ↦ (some reason, b)
  | none ↦ elim ceiling [ some reason ↦ envelope_trip b reason | none ↦ own_caps t elapsed d b ]
]
