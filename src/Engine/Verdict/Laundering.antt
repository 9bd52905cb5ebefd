-- ===== src/Engine/Verdict/Laundering.antt =====
-- No signal hides a failed step (engine/runner.py, `run_failures`).
use rayspec_py.Prelude.{◌≡◌, ◌⊎◌, Bool, true, false, List, [], ◌∷◌, select, Any, arith}
use rayspec_py.Schema.{RunStatus}
use rayspec_py.Engine.Graph.Join.{failed_like}
use rayspec_py.Engine.Verdict.{
  Signals, StepRecord, counted_failures, ladder, failed_steps, run_failures, stop_collateral,
  cancel_collateral, answered_by_a_composite, not_raised_by,
}

-- The record is one of the list.
abbrev pub OneOf : StepRecord → List StepRecord → Type 0
OneOf r rs = Any (λ x. x ≡ r) rs

OneOf-select :
    (p : StepRecord → Bool) (r : StepRecord) (rs : List StepRecord)
    → OneOf r rs
    → p r ≡ true
    → OneOf r (select p rs)
OneOf-select p r [] h e = h
OneOf-select p r (x ∷ rs) h e = ground (arith, OneOf-select p r rs)

-- A failure of its own: untolerated, no collateral of a stop or a cancel, and with no enclosing
-- composite that has settled it.
pub record Genuine (steps : List StepRecord) (r : StepRecord) : Type 0 where
  pub recorded : OneOf r steps
  pub fails : failed_like r.status ≡ true
  pub untolerated : r.tolerated ≡ false
  pub no_stop : stop_collateral r ≡ false
  pub no_cancel : cancel_collateral r ≡ false
  pub unanswered : answered_by_a_composite steps r ≡ false

counted :
    (s : Signals) (steps : List StepRecord) (r : StepRecord)
    → Genuine steps r
    → not_raised_by s.stopped r ≡ true
    → OneOf r (counted_failures s steps)
unfolding counted_failures run_failures failed_steps
counted s steps r g own =
    OneOf-select _ r _
      (OneOf-select _ r _ (OneOf-select _ r steps g.recorded (ground arith)) (ground arith)) own

-- A run that holds such a failure in a step other than the one that raised the stop, if one did, is
-- reported as failed, paused or interrupted: the stop of another step and a cancel do not turn it
-- into success or a cancel.
pub ladder-Genuine :
    (s : Signals) (steps : List StepRecord) (r : StepRecord)
    → Genuine steps r
    → not_raised_by s.stopped r ≡ true
    → ((ladder s steps).0 ≡ RunStatus.failed)
      ⊎ ((ladder s steps).0 ≡ RunStatus.paused)
      ⊎ ((ladder s steps).0 ≡ RunStatus.interrupted)
unfolding ladder
ladder-Genuine s steps r g own = ground (arith, counted s steps r g own)
