-- ===== src/Engine/Each.antt =====
-- engine/executors/each.py: `run_each`. The world gives what the expression evaluates to, how the
-- body of each item ends, and the order in which the items end, which is any.
mod Slots
pub mod Ends
pub mod Signals
use rayspec_py.Prelude.{
  ℕ, zero, suc, ◌-◌, String, Bool, true, false, ◌&&◌, not, Option, none, some, List, [], ◌∷◌,
  length, select, ltb, is_some, if◌then◌else◌,
}
use rayspec_py.Prelude.Dict.{Dict}
use rayspec_py.Prelude.Result.{Result, ok, err}
use rayspec_py.Schema.{StepStatus}
use rayspec_py.Engine.Settle.{RunControl, StepOutcome, merge_control}
use rayspec_py.Engine.Body.{failed_body_step, body_outputs}

pub data OnFailure : Type 0 where
  fail continue : OnFailure

pub record EachSpec : Type 0 where
  pub step_ids : List String
  pub on_failure : OnFailure

abbrev pub Outputs : Type 0
Outputs = List (String × Option StepOutcome)

-- What the expression and `_as_sequence` give: the number of the items, or no sequence.
pub data Items : Type 0 where
  render_error not_a_sequence : Items
  sequence : ℕ → Items

pub record World : Type 0 where
  pub eval_items : Items
  pub run_body : ℕ → Result RunControl (Dict StepOutcome)
  pub order : List ℕ

-- An entry of `details`.
pub data ItemStatus : Type 0 where
  pending succeeded failed : ItemStatus

pub record Detail : Type 0 where
  pub status : ItemStatus
  pub output : Option Outputs
  pub error : Option StepOutcome

abbrev pub pending_detail : Detail
pending_detail = record { status = pending; output = none; error = none }

pub record EachState : Type 0 where
  pub results : List (Option Outputs)
  pub details : List Detail
  pub control : Option RunControl

-- [make(i) for i in range(start, start + n)]
abbrev pub tabulate {ℓ} : {A : Type ℓ} → ℕ → ℕ → (ℕ → A) → List A
tabulate start zero make = []
tabulate start (suc n) make = make start ∷ tabulate (suc start) n make

abbrev pub begin : ℕ → EachState
begin total = record {
  results = tabulate 0 total (λ i. none);
  details = tabulate 0 total (λ i. pending_detail);
  control = none;
}

-- xs[i] = x
unfoldable pub set_at {ℓ} : {A : Type ℓ} → ℕ → A → List A → List A
set_at i x [] = []
set_at zero x (y ∷ ys) = x ∷ ys
set_at (suc i) x (y ∷ ys) = y ∷ set_at i x ys

-- What an item leaves in its entry of `details`, and in its slot of `results`.
abbrev pub detail_of : List String → Dict StepOutcome → Detail
detail_of ids outcomes = elim (failed_body_step outcomes) [
  | some o ↦ record { status = failed; output = none; error = some o }
  | none ↦ record { status = succeeded; output = some (body_outputs outcomes ids); error = none }
]

abbrev pub result_of : List String → Dict StepOutcome → Option Outputs
result_of ids outcomes = elim (failed_body_step outcomes) [
  | some o ↦ none
  | none ↦ some (body_outputs outcomes ids)
]

-- `run_item`, from where the body has ended; `signal` is the rule of a sibling list
unfoldable pub end_item :
    List String → ℕ → Result RunControl (Dict StepOutcome) → EachState → EachState
end_item ids i (err control) s = record s { control = merge_control s.control (some control) }
end_item ids i (ok outcomes) s = record s {
  results = set_at i (result_of ids outcomes) s.results;
  details = set_at i (detail_of ids outcomes) s.details;
}

unfoldable pub end_items : List String → World → List ℕ → EachState → EachState
end_items ids w [] s = s
end_items ids w (i ∷ order) s = end_items ids w order (end_item ids i (w.run_body i) s)

-- EachInfo
pub record EachInfo : Type 0 where
  pub total : ℕ
  pub succeeded : ℕ
  pub failed : ℕ

pub data EachError : Type 0 where
  template no_sequence items : EachError

pub record EachEnd : Type 0 where
  pub status : StepStatus
  pub error : Option EachError
  pub each : Option EachInfo
  pub output : Option (List (Option Outputs))
  pub details : List Detail

abbrev pub is_failed : Detail → Bool
is_failed d = elim d.status [ failed ↦ true | _ ↦ false ]

abbrev pub fails_on : OnFailure → Bool
fails_on fail = true
fails_on continue = false

-- `_fail`
abbrev pub refused : EachError → EachEnd
refused e = record {
  status = StepStatus.failed;
  error = some e;
  each = none;
  output = none;
  details = [];
}

abbrev pub no_items : EachEnd
no_items = record {
  status = StepStatus.succeeded;
  error = none;
  each = some (record { total = 0; succeeded = 0; failed = 0 });
  output = some [];
  details = [];
}

-- From the count of the failed items on; the test of `failed_count` is that it is not 0.
unfoldable pub conclude : EachSpec → ℕ → EachState → EachEnd
conclude spec total s =
    let failed_count = length (select is_failed s.details) in
    let fails = ltb 0 failed_count && fails_on spec.on_failure in
    record {
      status = if fails then StepStatus.failed else StepStatus.succeeded;
      error = if fails then some items else none;
      each =
          some (record { total = total; succeeded = total - failed_count; failed = failed_count });
      output = some s.results;
      details = s.details;
    }

abbrev pub raise_or : EachSpec → ℕ → EachState → Result RunControl EachEnd
raise_or spec total s = elim s.control [
  | some control ↦ err control
  | none ↦ ok (conclude spec total s)
]

unfoldable pub run_each : EachSpec → World → Result RunControl EachEnd
run_each spec w = elim w.eval_items [
  | render_error ↦ ok (refused template)
  | not_a_sequence ↦ ok (refused no_sequence)
  | sequence zero ↦ ok no_items
  | sequence (suc n) ↦ raise_or spec (suc n) (end_items spec.step_ids w w.order (begin (suc n)))
]
