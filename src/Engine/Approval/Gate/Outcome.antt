-- ===== src/Engine/Approval/Gate/Outcome.antt =====
-- What a gate leaves behind on each of its ways out.
use rayspec_py.Prelude.{
  String, ◌≡◌, ◌⊎◌, refl, Bool, true, false, Option, none, some, ◌∙◌, arith, is_some, if◌then◌else◌,
}
use rayspec_py.Schema.{StepStatus}
use rayspec_py.Engine.Approval.Classes.{By, by_tty, unheld}
use rayspec_py.Engine.Approval.Gate.{
  OnReject, ApproveSpec, Decision, Answer, Token, PauseInfo, GateState, Prompted, GateEnv, GateEnd,
  outcome, unwound, run_stopped, run_paused_at, answered, declined, interrupted, stored_decision,
  pause, settle, ask, try_auto_if, undecided, usable, rendered, run_approve, Event, emit_if,
  note_claim, claimed, dropped, decide, render_failure, asked, prompted, auto_if_branch,
  automatic_branch, gate_token, decision_of, clear_pause, class_not_held, out_of_band_refused,
}

-- The record fits the way out: an outcome with no signal is a success or a failure, a stop leaves
-- the gate rejected under `on_reject: cancel`, and a pause, also by Ctrl-C, leaves it paused with
-- the token of the pause that the run is at.
abbrev pub FitsAt : ApproveSpec → GateEnd × GateState → Type 0
FitsAt spec (outcome none, g) =
    (g.status ≡ StepStatus.succeeded) × (g.ok_flag ≡ some true)
    ⊎ (g.status ≡ StepStatus.failed) × (g.ok_flag ≡ some false) × (is_some g.error ≡ true)
FitsAt spec (outcome (some run_stopped), g) =
    (g.status ≡ StepStatus.rejected)
    × (g.approved ≡ some false)
    × (spec.on_reject ≡ OnReject.cancel)
FitsAt spec (outcome (some (run_paused_at t)), g) =
    (g.status ≡ StepStatus.paused) × (g.paused ≡ some t)
FitsAt spec (unwound, g) = (g.status ≡ StepStatus.paused) × (is_some g.paused ≡ true)

pub record Fits (spec : ApproveSpec) (r : GateEnd × GateState) : Type 0 where
  pub fits : FitsAt spec r

module _ (env : GateEnv) (spec : ApproveSpec) where
  settle-Fits : (a : Answer) (by : By) (g : GateState) → Fits spec (settle env spec a by g)
  unfolding settle
  settle-Fits a by g = record { fits = ground arith }

  pause-Fits : (g : GateState) → Fits spec (pause g)
  unfolding pause
  pause-Fits g = record { fits = ground arith }

  pause-unwinds : (g : GateState) → Fits spec (unwound, (pause g).1)
  unfolding pause
  pause-unwinds g = record { fits = ground arith }

  Fits-if :
      (b : Bool) (x y : GateEnd × GateState)
      → Fits spec x
      → Fits spec y
      → Fits spec (if b then x else y)
  Fits-if true x y h k = h
  Fits-if false x y h k = k

  prompted-Fits : (p : Prompted) (g : GateState) → Fits spec (prompted env spec p g)
  prompted-Fits (answered a) g = settle-Fits a by_tty g
  prompted-Fits declined g = pause-Fits g
  prompted-Fits interrupted g = pause-unwinds g

  asked-Fits : (o : Option Prompted) (g : GateState) → Fits spec (asked env spec o g)
  asked-Fits none g = pause-Fits g
  asked-Fits (some p) g = search (Fits-if, pause-Fits, prompted-Fits)

  ask-Fits : (g : GateState) → Fits spec (ask env spec g)
  unfolding ask
  ask-Fits g = asked-Fits env.prompt g

  auto_if_branch-Fits :
      (e : Option String) (v : Option Bool) (g : GateState)
      → Fits spec (auto_if_branch env spec e v g)
  auto_if_branch-Fits none v g = ask-Fits g
  auto_if_branch-Fits (some e) none g = record { fits = ground arith }
  auto_if_branch-Fits (some e) (some true) g = settle-Fits _ _ g
  auto_if_branch-Fits (some e) (some false) g = ask-Fits g

  automatic_branch-Fits :
      (o : Option By) (g : GateState) → Fits spec (automatic_branch env spec o g)
  automatic_branch-Fits (some by) g = settle-Fits _ by g
  automatic_branch-Fits none g =
      unfold try_auto_if in auto_if_branch-Fits spec.auto_if env.auto_if_value g

  undecided-Fits : (g : GateState) → Fits spec (undecided env spec g)
  unfolding undecided
  undecided-Fits g = search (Fits-if, automatic_branch-Fits, ask-Fits)

  decide-Fits : (o : Option Decision) (g : GateState) → Fits spec (decide env spec o g)
  decide-Fits none g = undecided-Fits g
  decide-Fits (some d) g = settle-Fits _ _ g

  rendered-Fits : (g : GateState) → Fits spec (rendered env spec g)
  unfolding rendered
  rendered-Fits g = search decide-Fits

  render_failure-Fits : (g : GateState) → Fits spec (render_failure g)
  render_failure-Fits g = record { fits = ground arith }

  -- On every way through a gate, the record that it leaves fits the outcome that it returns.
  pub run_approve-Fits : (g : GateState) → Fits spec (run_approve env spec g)
  unfolding run_approve
  run_approve-Fits g = search (Fits-if, render_failure-Fits, rendered-Fits)

  -- Warnings leave the rest of the record alone.
  record Same (g g' : GateState) : Type 0 where
    path : g'.path ≡ g.path
    attempts : g'.attempts ≡ g.attempts
    run_pause : g'.run_pause ≡ g.run_pause

  emit_if-Same : (b : Bool) (e : Event) (g : GateState) → Same g (emit_if b e g)
  emit_if-Same true e g = record { path = refl; attempts = refl; run_pause = refl }
  emit_if-Same false e g = record { path = refl; attempts = refl; run_pause = refl }

  note_claim-Same : (o : Option String) (g : GateState) → Same g (note_claim env spec o g)
  note_claim-Same none g = record { path = refl; attempts = refl; run_pause = refl }
  note_claim-Same (some name) g = emit_if-Same _ _ g

  Same-trans : {f g h : GateState} → Same f g → Same g h → Same f h
  Same-trans a b = record {
    path = b.path ∙ a.path;
    attempts = b.attempts ∙ a.attempts;
    run_pause = b.run_pause ∙ a.run_pause;
  }

  Same-stored : (g g' : GateState) → Same g g' → stored_decision g' ≡ stored_decision g
  unfolding stored_decision gate_token
  Same-stored g g' s = rw (s.path, s.attempts, s.run_pause)

  abbrev pub rejected_end : OnReject → GateEnd
  rejected_end OnReject.cancel = outcome (some run_stopped)
  rejected_end _ = outcome none

  abbrev pub IsRejected : GateState → GateEnd × GateState → Type 0
  IsRejected g r =
      (r.0 ≡ rejected_end spec.on_reject)
      × (r.1.approved ≡ some false)
      × (r.1.run_pause ≡ none)
      × (r.1.attempts ≡ g.attempts)

  -- A stored decision belongs to the gate whose path it names.
  clear_stored :
      (path : String) (t : Token) (o : Option PauseInfo) (d : Decision)
      → decision_of path t o ≡ some d
      → clear_pause path o ≡ none
  clear_stored path t none d h = refl
  clear_stored path t (some p) d h = ground arith

  usable-rejection : (d : Decision) → d.approved ≡ false → usable env spec (some d) ≡ some d
  unfolding usable
  usable-rejection d n = ground arith

  settle-IsRejected :
      (g0 g : GateState) (a : Answer) (by : By)
      → Same g0 g
      → a.approved ≡ false
      → clear_pause g.path g.run_pause ≡ none
      → IsRejected g0 (settle env spec a by g)
  unfolding settle
  settle-IsRejected g0 g a by s n c = ground arith

  rendered_rejection :
      (g : GateState) (d : Decision)
      → stored_decision g ≡ some d
      → d.approved ≡ false
      → IsRejected g (rendered env spec g)
  unfolding rendered
  rendered_rejection g d h n =
      let g1 = emit_if (unheld env.classes spec.class) class_not_held g in
      let g2 = emit_if (dropped env spec (stored_decision g1)) out_of_band_refused g1 in
      let s2 : Same g g2 =
        Same-trans (emit_if-Same _ class_not_held g) (emit_if-Same _ out_of_band_refused g1) in
      let g3 = note_claim env spec (claimed env spec (some d)) g2 in
      let s3 : Same g g3 = Same-trans s2 (note_claim-Same (claimed env spec (some d)) g2) in
      let e : stored_decision g2 ≡ some d = Same-stored g g2 s2 ∙ h in
      rw (e, usable-rejection d n)
        (settle-IsRejected g g3 _ _ s3 n (clears g3 (Same-stored g g3 s3 ∙ h)))
    where
      clears :
          (g3 : GateState) → stored_decision g3 ≡ some d → clear_pause g3.path g3.run_pause ≡ none
      clears g3 e = unfold stored_decision in clear_stored g3.path (gate_token g3) g3.run_pause d e

  -- A stored rejection of a gate whose message renders is honoured: whatever the class, the flags
  -- and the terminal, it settles the gate by `on_reject`, frees the pause slot and spends no
  -- attempt.
  pub run_approve_rejection :
      (g : GateState) (d : Decision)
      → env.message_renders ≡ true
      → stored_decision g ≡ some d
      → d.approved ≡ false
      → IsRejected g (run_approve env spec g)
  unfolding run_approve
  run_approve_rejection g d r h n = ground (arith, rendered_rejection g d h n)
