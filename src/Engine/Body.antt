-- ===== src/Engine/Body.antt =====
-- engine/executors/loop.py: what a composite makes of the outcomes of its body.
use rayspec_py.Prelude.{
  String, Bool, true, false, not, ◌&&◌, ◌||◌, Option, none, some, List, [], ◌∷◌, map, if◌then◌else◌,
}
use rayspec_py.Prelude.Dict.{Dict, get, values}
use rayspec_py.Schema.{StepStatus, SkipReason}
use rayspec_py.Engine.Graph.Join.{failed_like}
use rayspec_py.Engine.Settle.{StepRecord, StepOutcome, is_paused}

abbrev is_skipped : StepStatus → Bool
is_skipped StepStatus.skipped = true
is_skipped _ = false

abbrev is_budget : Option SkipReason → Bool
is_budget (some SkipReason.budget_exceeded) = true
is_budget _ = false

-- The tests of `failed_body_step` on one record.
unfoldable pub fails_composite : StepRecord → Bool
fails_composite r =
    failed_like r.status && not r.tolerated
    || (is_paused r.status || is_skipped r.status && is_budget r.skip_reason)

abbrev pub first_failing : List StepOutcome → Option StepOutcome
first_failing [] = none
first_failing (o ∷ os) =
    let rest = first_failing os in if fails_composite o.step_record then some o else rest

-- `failed_body_step`
abbrev pub failed_body_step : Dict StepOutcome → Option StepOutcome
failed_body_step outcomes = first_failing (values outcomes)

-- `body_outputs`, with the outcome for its output
unfoldable pub body_outputs : Dict StepOutcome → List String → List (String × Option StepOutcome)
body_outputs outcomes ids = map (λ sid. (sid, get outcomes sid)) ids
