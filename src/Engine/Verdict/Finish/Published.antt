-- ===== src/Engine/Verdict/Finish/Published.antt =====
-- A run that publishes outputs is clean (engine/runner.py, `_finalize`).
use rayspec_py.Prelude.{◌≡◌, ◌≢◌, ◌↔◌, refl, Bool, Option, none, some, List, subst, arith}
use rayspec_py.Prelude.Int.{ℤ}
use rayspec_py.Limits.Ledger.{Moment}
use rayspec_py.Schema.{RunStatus}
use rayspec_py.Limits.Envelope.{RunEnvelope, Verdict, settle}
use rayspec_py.Engine.Verdict.{Signals, StepRecord, RunReason, ladder}
use rayspec_py.Engine.Verdict.Ladder.{Clean, ladder-Clean}
use rayspec_py.Engine.Verdict.Finish.{
  unset, Closing, RunEnd, refreshed, with_envelope, refresh_envelope_pause, publish, settled_end,
  finish_with, finalize,
}

with_envelope-same :
    (s s' : Signals) (v : Verdict × RunEnvelope) (envelope : Option RunEnvelope)
    → with_envelope (refreshed s v) ≡ some (s', envelope)
    → s'.envelope_pause ≡ none
    → s' ≡ s
with_envelope-same s s' v envelope h n = ground arith

refresh-same :
    (s s' : Signals) (r envelope : Option RunEnvelope) (dry_run : Bool) (cost : Option ℤ)
    (when : Moment)
    → refresh_envelope_pause s r dry_run cost when ≡ some (s', envelope)
    → s'.envelope_pause ≡ none
    → s' ≡ s
unfolding refresh_envelope_pause
refresh-same s s' none envelope dry_run cost when h n = ground arith
refresh-same s s' (some r) envelope dry_run cost when h n =
    ground (arith, with_envelope-same s s' (settle r cost when) envelope)

module _ {O : Type 0} where
  settled_end-succeeded :
      (s : Signals) (c : Closing O) (l : RunStatus × Option RunReason)
      (m : Option (Option RunEnvelope)) (e : RunEnd O)
      → settled_end s c (publish c.has_outputs c.render_outputs l) m ≡ some e
      → ((e.status ≡ RunStatus.succeeded) ↔ (e.outputs ≢ unset))
        × (e.status ≡ RunStatus.succeeded → l.0 ≡ RunStatus.succeeded)
  settled_end-succeeded s c l m e h = ((λ x. ground arith, λ x. ground arith), λ x. ground arith)

  finish_with-succeeded :
      (steps : List StepRecord) (c : Closing O) (m : Option (Signals × Option RunEnvelope))
      (e : RunEnd O)
      → finish_with steps c m ≡ some e
      → e.status ≡ RunStatus.succeeded
      → (s : Signals) × (envelope : Option RunEnvelope) × (m ≡ some (s, envelope))
        × ((ladder s steps).0 ≡ RunStatus.succeeded)
  finish_with-succeeded steps c none e h good = cc
  finish_with-succeeded steps c (some (s, envelope)) e h good =
      (s, envelope, refl, (settled_end-succeeded s c (ladder s steps) _ e h).1 good)

  finish_with-outputs :
      (steps : List StepRecord) (c : Closing O) (m : Option (Signals × Option RunEnvelope))
      (e : RunEnd O)
      → finish_with steps c m ≡ some e
      → (e.status ≡ RunStatus.succeeded) ↔ (e.outputs ≢ unset)
  finish_with-outputs steps c none e h = (cc, cc)
  finish_with-outputs steps c (some (s, envelope)) e h =
      (settled_end-succeeded s c (ladder s steps) _ e h).0

  -- When `_finalize` reports a success, the run has outputs, and no signal stands and no failure
  -- counts against it, with the signals that `_finalize` was called with: the fresh wording of a
  -- ceiling changes neither.
  pub finalize-Clean :
      (s : Signals) (steps : List StepRecord) (c : Closing O) (e : RunEnd O)
      → finalize s steps c ≡ some e
      → e.status ≡ RunStatus.succeeded
      → (e.outputs ≢ unset) × Clean s steps
  unfolding finalize
  finalize-Clean s steps c e h good =
      let m = refresh_envelope_pause s c.envelope c.dry_run c.cost c.moment in
      let (s', envelope, refresh, well) = finish_with-succeeded steps c m e h good in
      let clean = (ladder-Clean s' steps).0 well in
      let same =
        refresh-same s s' c.envelope envelope c.dry_run c.cost c.moment refresh clean.no_ceiling in
      ((finish_with-outputs steps c m e h).0 good, subst (λ t. Clean t steps) same clean)
