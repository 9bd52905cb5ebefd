-- ===== src/Engine/Graph/Join/Table.antt =====
-- The join table: which steps run, and what the others are told (engine/graph.py).
use rayspec_py.Prelude.{
  ◌≡◌, ◌≢◌, ◌↔◌, ◌⊎◌, refl, Bool, true, false, Option, none, some, List, [], ◌∷◌, arith, any, all,
  All, Any, is_some,
}
use mathlib.Core.Option
use rayspec_py.Schema.{StepStatus, JoinPolicy, SkipReason, is_terminal}
use rayspec_py.Engine.Graph.Join.{
  Outcome, Class, classify, push_class, classify_all, JoinDecision, is_failed, is_skipped, is_empty,
  decide, join_decision,
}

-- What the join table calls a success, a skip and a failure.
abbrev pub Succeeded : Outcome → Type 0
Succeeded o =
    (o.status ≡ StepStatus.succeeded) ⊎ (o.status ≡ StepStatus.failed) × (o.tolerated ≡ true)

abbrev pub Skipped : Outcome → Type 0
Skipped o = o.status ≡ StepStatus.skipped

abbrev pub IsTerminal : Outcome → Type 0
IsTerminal o = is_terminal o.status ≡ true

-- Every outcome succeeded or was skipped.
abbrev pub NoFailure : List Outcome → Type 0
NoFailure = All (λ o. Succeeded o ⊎ Skipped o)

-- The rows of the join table under which a step runs.
abbrev pub MayRun : JoinPolicy → List Outcome → Bool → Type 0
MayRun JoinPolicy.always os draining = Unit
MayRun JoinPolicy.all os draining = All Succeeded os × (draining ≡ false)
MayRun JoinPolicy.any os draining =
    NoFailure os × ((os ≡ []) ⊎ Any Succeeded os) × (draining ≡ false)

-- The classes of the outcomes, when all are terminal.
classify_all-IsTerminal : (os : List Outcome) → All IsTerminal os → is_some (classify_all os) ≡ true
unfolding classify_all
classify_all-IsTerminal [] h = refl
classify_all-IsTerminal (o ∷ os) h = ground (arith, classify_all-IsTerminal os)

IsTerminal-classify_all : (os : List Outcome) → is_some (classify_all os) ≡ true → All IsTerminal os
unfolding classify_all
IsTerminal-classify_all [] h = tt
IsTerminal-classify_all (o ∷ os) h = ground (arith, IsTerminal-classify_all os)

is_some-map :
    (join : JoinPolicy) (draining : Bool) (r : Option (List Class))
    → is_some (Option.map (decide join draining) r) ≡ is_some r
is_some-map join draining none = refl
is_some-map join draining (some cs) = refl

-- The join decides exactly when every outcome that it is given is terminal.
pub join_decision_iff_IsTerminal :
    (join : JoinPolicy) (os : List Outcome) (draining : Bool)
    → (is_some (join_decision join os draining) ≡ true) ↔ All IsTerminal os
unfolding join_decision
join_decision_iff_IsTerminal join os draining =
    rw is_some-map (IsTerminal-classify_all os, classify_all-IsTerminal os)

-- What the tests of `decide` say of the outcomes.
split_push :
    (a : Option Class) (b : Option (List Class)) {cs : List Class}
    → push_class a b ≡ some cs
    → (c : Class) × (ds : List Class) × (a ≡ some c) × (b ≡ some ds) × (cs ≡ c ∷ ds)
split_push (some c) (some ds) h = (c, ds, refl, refl, ground arith)
split_push (some c) none h = ground arith
split_push none b h = ground arith

classify_all-cons :
    (o : Outcome) (os : List Outcome) (cs : List Class)
    → classify_all (o ∷ os) ≡ some cs
    → (c : Class) × (ds : List Class) × (classify o ≡ some c)
      × (classify_all os ≡ some ds)
      × (cs ≡ c ∷ ds)
unfolding classify_all
classify_all-cons o os cs h = split_push (classify o) (classify_all os) h

not_failed_iff :
    (o : Outcome) (c : Class)
    → classify o ≡ some c
    → (is_failed c ≡ false) ↔ (Succeeded o ⊎ Skipped o)
unfolding classify
not_failed_iff o Class.succeeded h = (ground arith, ground arith)
not_failed_iff o Class.skipped h = (ground arith, ground arith)
not_failed_iff o Class.failed h = (ground arith, ground arith)

no_failed :
    (os : List Outcome) (cs : List Class)
    → classify_all os ≡ some cs
    → (any is_failed cs ≡ false) ↔ NoFailure os
no_failed [] cs h = unfold classify_all in (ground arith, ground arith)
no_failed (o ∷ os) cs h =
    let (c, ds, ho, hos, e) = classify_all-cons o os cs h in
    rw e (
      ground (arith, no_failed os ds, not_failed_iff o c),
      ground (arith, no_failed os ds, not_failed_iff o c),
    )

not_skipped_iff :
    (o : Outcome) (c : Class)
    → classify o ≡ some c
    → (is_failed c ≡ false) × (is_skipped c ≡ false) ↔ Succeeded o
unfolding classify
not_skipped_iff o Class.succeeded h = (ground arith, ground arith)
not_skipped_iff o Class.skipped h = (ground arith, ground arith)
not_skipped_iff o Class.failed h = (ground arith, ground arith)

All-Succeeded :
    (os : List Outcome) (cs : List Class)
    → classify_all os ≡ some cs
    → (any is_failed cs ≡ false) × (any is_skipped cs ≡ false) ↔ All Succeeded os
All-Succeeded [] cs h = unfold classify_all in (ground arith, ground arith)
All-Succeeded (o ∷ os) cs h =
    let (c, ds, ho, hos, e) = classify_all-cons o os cs h in
    rw e (
      ground (arith, All-Succeeded os ds, not_skipped_iff o c),
      ground (arith, All-Succeeded os ds, not_skipped_iff o c),
    )

skipped_or_Succeeded :
    (o : Outcome) (c : Class)
    → classify o ≡ some c
    → is_failed c ≡ false
    → (is_skipped c ≡ false) ↔ Succeeded o
unfolding classify
skipped_or_Succeeded o Class.succeeded h f = (ground arith, ground arith)
skipped_or_Succeeded o Class.skipped h f = (ground arith, ground arith)
skipped_or_Succeeded o Class.failed h f = (ground arith, ground arith)

some-Succeeded :
    (os : List Outcome) (cs : List Class)
    → classify_all os ≡ some cs
    → any is_failed cs ≡ false
    → (all is_skipped cs ≡ false) ↔ Any Succeeded os
some-Succeeded [] cs h f = unfold classify_all in (ground arith, ground arith)
some-Succeeded (o ∷ os) cs h f =
    let (c, ds, ho, hos, e) = classify_all-cons o os cs h in
    let f' = rw e at f in
    rw e (
      ground (arith, f', some-Succeeded os ds, skipped_or_Succeeded o c),
      ground (arith, f', some-Succeeded os ds, skipped_or_Succeeded o c),
    )

empty_iff :
    (os : List Outcome) (cs : List Class)
    → classify_all os ≡ some cs
    → (is_empty cs ≡ true) ↔ (os ≡ [])
unfolding classify_all
empty_iff [] cs h = (ground arith, ground arith)
empty_iff (o ∷ os) cs h =
    let (c, ds, ho, hos, e) = classify_all-cons o os cs h in rw e (ground arith, ground arith)

split_map :
    (join : JoinPolicy) (draining : Bool) (r : Option (List Class)) {d : JoinDecision}
    → Option.map (decide join draining) r ≡ some d
    → (cs : List Class) × (r ≡ some cs) × (d ≡ decide join draining cs)
split_map join draining none h = ground arith
split_map join draining (some cs) h = (cs, refl, ground arith)

decided :
    (join : JoinPolicy) (os : List Outcome) (draining : Bool) {d : JoinDecision}
    → join_decision join os draining ≡ some d
    → (cs : List Class) × (classify_all os ≡ some cs) × (d ≡ decide join draining cs)
unfolding join_decision
decided join os draining h = split_map join draining (classify_all os) h

-- On terminal outcomes the join runs the step exactly under the rows of the join table: `always`
-- in every case; `all` when every need succeeded (a tolerated failure is a success) and the run
-- is not draining; `any` when no need failed, at least one succeeded or there is none, and the
-- run is not draining.
pub join_decision_table :
    (join : JoinPolicy) (os : List Outcome) (draining : Bool) {d : JoinDecision}
    → join_decision join os draining ≡ some d
    → (d.run ≡ true) ↔ MayRun join os draining
unfolding decide
join_decision_table JoinPolicy.always os draining h =
    let (cs, hc, e) = decided _ os draining h in rw e (ground arith, ground arith)
join_decision_table JoinPolicy.all os draining h =
    let (cs, hc, e) = decided _ os draining h in
    rw e (ground (arith, All-Succeeded os cs), ground (arith, All-Succeeded os cs))
join_decision_table JoinPolicy.any os draining h =
    let (cs, hc, e) = decided _ os draining h in
    rw e (
      ground (arith, no_failed os cs, some-Succeeded os cs, empty_iff os cs),
      ground (arith, no_failed os cs, some-Succeeded os cs, empty_iff os cs),
    )

-- A step that is not `always` and is skipped carries `upstream_failed` exactly when a need
-- failed, and `run_failed` exactly when the drain alone keeps it from running.
pub join_decision_reasons :
    (join : JoinPolicy) (os : List Outcome) (draining : Bool) {d : JoinDecision}
    → join ≢ JoinPolicy.always
    → join_decision join os draining ≡ some d
    → ((d.skip_reason ≡ some SkipReason.upstream_failed) ↔ (¬ NoFailure os))
      × ((d.skip_reason ≡ some SkipReason.run_failed) ↔ ((draining ≡ true) × MayRun join os false))
      × ((d.skip_reason ≡ none) ↔ (d.run ≡ true))
unfolding decide
join_decision_reasons JoinPolicy.always os draining n h = ground arith
join_decision_reasons JoinPolicy.all os draining n h =
    let (cs, hc, e) = decided _ os draining h in
    rw e (
      (ground (arith, no_failed os cs), ground (arith, no_failed os cs)),
      (ground (arith, All-Succeeded os cs), ground (arith, All-Succeeded os cs)),
      (ground arith, ground arith),
    )
join_decision_reasons JoinPolicy.any os draining n h =
    let (cs, hc, e) = decided _ os draining h in
    rw e (
      (ground (arith, no_failed os cs), ground (arith, no_failed os cs)),
      (
        ground (arith, no_failed os cs, some-Succeeded os cs, empty_iff os cs),
        ground (arith, no_failed os cs, some-Succeeded os cs, empty_iff os cs),
      ),
      (ground arith, ground arith),
    )
