-- ===== src/Engine/Approval/Gate/Authority.antt =====
-- Who may open a gate, and what a gate leaves behind.
use rayspec_py.Prelude.{
  String, ◌≡◌, ◌⊎◌, inl, inr, refl, Bool, true, false, Option, none, some, [], ◌∷◌, ◌++◌, ◌+◌, ◌∙◌,
  arith, is_some, Option-cases,
}
use rayspec_py.Engine.Approval.Classes.{
  By, by_tty, by_stored, unheld, may_approve_automatically, may_decide_out_of_band, may_prompt,
  automatic_by, pre_approves,
}
use rayspec_py.Engine.Approval.Gate.{
  ApproveSpec, Decision, Answer, GateState, GateEnv, answered, stored_decision, pause, settle, ask,
  try_auto_if, undecided, usable, rendered, run_approve, gate_token, Event, prompt_not_a_terminal,
  no_terminal, class_not_held, out_of_band_refused, emit_if, note_claim, claimed, dropped, decide,
  warn_refused,
}

module _ (env : GateEnv) (spec : ApproveSpec) where
  -- A person answered the prompt of this process, which the class lets it ask.
  abbrev pub ByPrompt : Type 0
  ByPrompt =
      (env.interactive ≡ true)
      × (may_prompt env.classes spec.class env.at_a_terminal ≡ true)
      × ((a : Answer) × (env.prompt ≡ some (answered a)) × (a.approved ≡ true))

  -- The class lets the gate be approved automatically, and this invocation asked for it.
  abbrev pub Automatically : Type 0
  Automatically =
      (may_approve_automatically env.classes spec.class ≡ true)
      × ((env.flag_yes ≡ true)
          ⊎ (env.dry_run ≡ true)
          ⊎ (pre_approves env.classes spec.class ≡ true)
          ⊎ (is_some spec.auto_if ≡ true) × (env.auto_if_value ≡ some true))

  -- A decision recorded for this very pause approves, and the class accepts one from outside.
  abbrev pub OutOfBand : GateState → Type 0
  OutOfBand g =
      (may_decide_out_of_band env.classes spec.class ≡ true)
      × ((d : Decision) × (stored_decision g ≡ some d) × (d.approved ≡ true))

  settle-approved :
      (a : Answer) (by : By) (g : GateState) → (settle env spec a by g).1.approved ≡ some a.approved
  unfolding settle
  settle-approved a by g = ground arith

  pause-approved : (g : GateState) → (pause g).1.approved ≡ g.approved
  unfolding pause
  pause-approved g = ground arith

  ask-ByPrompt :
      (g : GateState) → g.approved ≡ none → (ask env spec g).1.approved ≡ some true → ByPrompt
  unfolding ask
  ask-ByPrompt g n h = elim (Option-cases env.prompt) [
    | inl e ↦ ground (arith, pause-approved g)
    | inr (answered a, e) ↦ ground (
      arith,
      pause-approved g,
      settle-approved a by_tty g,
      pause-approved (record g { events = g.events ++ prompt_not_a_terminal ∷ [] }),
      pause-approved (record g { events = g.events ++ no_terminal ∷ [] }),
    )
    | inr (p, e) ↦ ground (
      arith,
      pause-approved g,
      pause-approved (record g { events = g.events ++ prompt_not_a_terminal ∷ [] }),
      pause-approved (record g { events = g.events ++ no_terminal ∷ [] }),
    )
  ]

  try_auto_if-cases :
      (g : GateState)
      → g.approved ≡ none
      → (try_auto_if env spec g).1.approved ≡ some true
      → ByPrompt ⊎ (is_some spec.auto_if ≡ true) × (env.auto_if_value ≡ some true)
  unfolding try_auto_if
  try_auto_if-cases g n h = ground (arith, ask-ByPrompt g)

  automatic_by-cases :
      (by : By)
      → automatic_by env.classes spec.class env.flag_yes env.dry_run ≡ some by
      → (env.flag_yes ≡ true) ⊎ (env.dry_run ≡ true) ⊎ (pre_approves env.classes spec.class ≡ true)
  unfolding automatic_by
  automatic_by-cases by h = ground arith

  warn_refused-approved : (g : GateState) → (warn_refused env spec g).approved ≡ g.approved
  unfolding warn_refused
  warn_refused-approved g = refl

  undecided-cases :
      (g : GateState)
      → g.approved ≡ none
      → (undecided env spec g).1.approved ≡ some true
      → ByPrompt ⊎ Automatically
  unfolding undecided
  undecided-cases g n h =
      let g' = record g { attempts = g.attempts + 1 } in
      elim (Option-cases (automatic_by env.classes spec.class env.flag_yes env.dry_run)) [
        | inl e ↦ ground (
          arith,
          e,
          try_auto_if-cases g',
          ask-ByPrompt (warn_refused env spec g'),
          warn_refused-approved g',
        )
        | inr (by, e) ↦ ground (
          arith,
          e,
          automatic_by-cases by,
          ask-ByPrompt (warn_refused env spec g'),
          warn_refused-approved g',
        )
      ]

  usable-cases :
      (o : Option Decision) (d : Decision)
      → usable env spec o ≡ some d
      → (o ≡ some d) × ((d.approved ≡ true) → may_decide_out_of_band env.classes spec.class ≡ true)
  unfolding usable
  usable-cases none d h = cc
  usable-cases (some e) d h = ground arith

  stored-emit_if :
      (b : Bool) (e : Event) (g : GateState) → stored_decision (emit_if b e g) ≡ stored_decision g
  unfolding stored_decision gate_token
  stored-emit_if true e g = refl
  stored-emit_if false e g = refl

  approved-emit_if : (b : Bool) (e : Event) (g : GateState) → (emit_if b e g).approved ≡ g.approved
  approved-emit_if true e g = refl
  approved-emit_if false e g = refl

  approved-note_claim :
      (o : Option String) (g : GateState) → (note_claim env spec o g).approved ≡ g.approved
  approved-note_claim none g = refl
  approved-note_claim (some name) g = approved-emit_if _ _ g

  decide-authorised :
      (o : Option Decision) (g : GateState)
      → g.approved ≡ none
      → (decide env spec (usable env spec o) g).1.approved ≡ some true
      → ByPrompt
        ⊎ Automatically
        ⊎ (may_decide_out_of_band env.classes spec.class ≡ true)
          × ((d : Decision) × (o ≡ some d) × (d.approved ≡ true))
  decide-authorised o g n h = elim (Option-cases (usable env spec o)) [
    | inl e ↦ elim (undecided-cases g n (rw e at h)) [ inl p ↦ inl p | inr a ↦ inr (inl a) ]
    | inr (d, e) ↦
        let (stored, accepted) = usable-cases o d e in
        let approved : d.approved ≡ true = ground (
          arith,
          rw e at h,
          settle-approved (record { approved = d.approved; comment = d.comment }) (by_stored d.by)
              g,
        ) in
        inr (inr (accepted approved, (d, stored, approved)))
  ]

  rendered-authorised :
      (g : GateState)
      → g.approved ≡ none
      → (rendered env spec g).1.approved ≡ some true
      → ByPrompt ⊎ Automatically ⊎ OutOfBand g
  unfolding rendered
  rendered-authorised g n h =
      let g1 = emit_if (unheld env.classes spec.class) class_not_held g in
      let g2 = emit_if (dropped env spec (stored_decision g1)) out_of_band_refused g1 in
      let g3 = note_claim env spec (claimed env spec (usable env spec (stored_decision g2))) g2 in
      let same : stored_decision g2 ≡ stored_decision g =
        stored-emit_if _ out_of_band_refused g1 ∙ stored-emit_if _ class_not_held g in
      let none_yet : g3.approved ≡ none =
        approved-note_claim _ g2
        ∙ (approved-emit_if _ out_of_band_refused g1 ∙ (approved-emit_if _ class_not_held g ∙ n)) in
      rw same at (decide-authorised (stored_decision g2) g3 none_yet h)

  -- A gate is approved only by one of three authorities: the prompt of this process where the
  -- class lets it ask, an automatic way that was asked for where the class permits any, or an
  -- approval recorded for this very pause where the class accepts one from outside.
  pub run_approve-authorised :
      (g : GateState)
      → g.approved ≡ none
      → (run_approve env spec g).1.approved ≡ some true
      → ByPrompt ⊎ Automatically ⊎ OutOfBand g
  unfolding run_approve
  run_approve-authorised g n h = ground (arith, rendered-authorised g)
