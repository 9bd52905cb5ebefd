-- ===== src/Engine/Verdict/Ladder.antt =====
-- When a run is reported as succeeded (engine/runner.py).
use rayspec_py.Prelude.{◌≡◌, ◌↔◌, false, Option, none, some, List, [], arith}
use rayspec_py.Schema.{RunStatus}
use rayspec_py.Engine.Verdict.{Signals, Stop, StepRecord, counted_failures, ladder}

-- There is no stop, or the stop declares success.
abbrev pub StopsWell : Option Stop → Type 0
StopsWell none = Unit
StopsWell (some stop) = stop.status ≡ RunStatus.succeeded

pub record Clean (s : Signals) (steps : List StepRecord) : Type 0 where
  pub no_engine_error : s.engine_error ≡ none
  pub no_pause : s.paused ≡ none
  pub not_interrupted : s.interrupted ≡ false
  pub no_ceiling : s.envelope_pause ≡ none
  pub no_cap : s.budget_exceeded ≡ none
  pub no_cancel : s.cancel_requested ≡ none
  pub no_failure : counted_failures s steps ≡ []
  pub stops_well : StopsWell s.stopped

-- A run is reported as succeeded exactly when there is no engine error, no pause at a gate, no
-- interruption, no ceiling, no cap and no cancel, no failure counts against it, and a `stop:`, if
-- there is one, declares success.
pub ladder-Clean :
    (s : Signals) (steps : List StepRecord)
    → ((ladder s steps).0 ≡ RunStatus.succeeded) ↔ Clean s steps
unfolding ladder
ladder-Clean s steps = (
  λ h. record {
    no_engine_error = ground arith;
    no_pause = ground arith;
    not_interrupted = ground arith;
    no_ceiling = ground arith;
    no_cap = ground arith;
    no_cancel = ground arith;
    no_failure = ground arith;
    stops_well = ground arith;
  },
  λ c. ground arith,
)
