-- ===== src/Engine/Verdict/Finish.antt =====
-- engine/runner.py: `_finalize`, with the spending envelope around it. `none` is an exception that
-- the envelope's ledger raises; the writes to its file succeed.
pub mod Published
use rayspec_py.Prelude.{
  ℕ, ◌≡◌, ◌↔◌, refl, String, Bool, true, false, ◌||◌, not, Option, none, some, List, [], ◌∷◌,
  is_some, arith, if◌then◌else◌, or_else,
}
use rayspec_py.Prelude.Result.{Result, ok, err}
use rayspec_py.Prelude.Int.{ℤ}
use rayspec_py.Schema.{RunStatus}
use rayspec_py.Limits.Ledger.{Moment}
use rayspec_py.Limits.Envelope.{
  RunEnvelope, PauseKind, Reason, Verdict, verdict, raised, settle, commit_final,
  record_run_outcome,
}
use rayspec_py.Engine.Verdict.{Signals, StepPath, StepRecord, RunReason, ladder}

-- `run.outputs`
pub data Outputs (O : Type 0) : Type 0 where
  unset : Outputs O
  empty : Outputs O
  rendered : O → Outputs O

-- PauseInfo, of a gate or of a ceiling
pub data Pause : Type 0 where
  at_gate : StepPath → Pause
  at_ceiling : PauseKind → ℕ → Option StepPath → Reason → Pause

-- What `_finalize` reads beside the signals.
pub record Closing (O : Type 0) : Type 0 where
  pub envelope : Option RunEnvelope
  pub dry_run : Bool
  pub cost : Option ℤ
  pub moment : Moment
  pub has_outputs : Bool
  pub render_outputs : Result String O
  pub run_pause : Option Pause
  pub resume_count : ℕ
  pub last_finished_path : Option StepPath

-- What it leaves: the record's fields, whether the pid and the cancel flag stay, the pause event.
pub record RunEnd (O : Type 0) : Type 0 where
  pub status : RunStatus
  pub reason : Option RunReason
  pub outputs : Outputs O
  pub pause : Option Pause
  pub paused_event : Option Pause
  pub keeps_pid : Bool
  pub keeps_cancel_flag : Bool
  pub envelope : Option RunEnvelope

abbrev pub is_paused : RunStatus → Bool
is_paused RunStatus.paused = true
is_paused _ = false

abbrev pub refreshed : Signals → Verdict × RunEnvelope → Option (Signals × RunEnvelope)
refreshed s (verdict none, r) = some (s, r)
refreshed s (verdict (some reason), r) =
    some (record s { envelope_pause = some reason; envelope_pause_kind = r.pause_kind }, r)
refreshed s (raised, r) = none

abbrev pub with_envelope : Option (Signals × RunEnvelope) → Option (Signals × Option RunEnvelope)
with_envelope none = none
with_envelope (some (s, r)) = some (s, some r)

-- `_refresh_envelope_pause`
unfoldable pub refresh_envelope_pause :
    Signals → Option RunEnvelope → Bool → Option ℤ → Moment → Option (Signals × Option RunEnvelope)
refresh_envelope_pause s none dry_run cost when = some (s, none)
refresh_envelope_pause s (some r) dry_run cost when =
    if not (is_some s.envelope_pause) || dry_run
    then some (s, some r)
    else with_envelope (refreshed s (settle r cost when))

abbrev pub counted : RunStatus → RunEnvelope → RunEnvelope
counted RunStatus.succeeded r = record_run_outcome r false
counted RunStatus.failed r = record_run_outcome r true
counted _ r = r

abbrev pub committed : RunStatus → Bool × RunEnvelope → Option (Option RunEnvelope)
committed status (true, r) = some (some (counted status r))
committed status (false, r) = none

-- `_settle_envelope`
unfoldable pub settle_envelope :
    RunStatus → Option RunEnvelope → Bool → Option ℤ → Moment → Option (Option RunEnvelope)
settle_envelope status none dry_run cost when = some none
settle_envelope status (some r) dry_run cost when =
    if dry_run then some (some r) else committed status (commit_final r cost when)

module _ {O : Type 0} where
  -- The outputs of a run, which turn a success into a failure when they do not render.
  abbrev pub publish :
      Bool
      → Result String O
      → RunStatus × Option RunReason
      → RunStatus × Option RunReason × Outputs O
  publish has_outputs r (RunStatus.succeeded, reason) =
      if has_outputs
      then elim r [
        | ok o ↦ (RunStatus.succeeded, reason, rendered o)
        | err e ↦ (RunStatus.failed, some (RunReason.outputs e), unset)
      ]
      else (RunStatus.succeeded, reason, empty)
  publish has_outputs r (status, reason) = (status, reason, unset)

  -- The pause that a ceiling leaves on a run that has none.
  abbrev pub ceiling_pause : Signals → Closing O → Option Pause
  ceiling_pause s c = elim s.envelope_pause [
    | none ↦ none
    | some reason ↦ elim c.run_pause [
      | none ↦ some (at_ceiling s.envelope_pause_kind c.resume_count c.last_finished_path reason)
      | some p ↦ none
    ]
  ]

  abbrev pub run_end :
      Signals → Closing O → RunStatus × Option RunReason × Outputs O → Option RunEnvelope → RunEnd O
  run_end s c (status, reason, outputs) envelope = record {
    status = status;
    reason = reason;
    outputs = outputs;
    pause = or_else (ceiling_pause s c) c.run_pause;
    paused_event = ceiling_pause s c;
    keeps_pid = is_paused status;
    keeps_cancel_flag = is_paused status;
    envelope = envelope;
  }

  abbrev pub settled_end :
      Signals
      → Closing O
      → RunStatus × Option RunReason × Outputs O
      → Option (Option RunEnvelope)
      → Option (RunEnd O)
  settled_end s c published none = none
  settled_end s c published (some envelope) = some (run_end s c published envelope)

  abbrev pub finish_with :
      List StepRecord → Closing O → Option (Signals × Option RunEnvelope) → Option (RunEnd O)
  finish_with steps c none = none
  finish_with steps c (some (s, envelope)) =
      let published = publish c.has_outputs c.render_outputs (ladder s steps) in
      settled_end s c published (settle_envelope published.0 envelope c.dry_run c.cost c.moment)

  unfoldable pub finalize : Signals → List StepRecord → Closing O → Option (RunEnd O)
  finalize s steps c =
      finish_with steps c (refresh_envelope_pause s c.envelope c.dry_run c.cost c.moment)
