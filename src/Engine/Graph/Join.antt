-- ===== src/Engine/Graph/Join.antt =====
-- engine/graph.py: `classify` and `join_decision`
pub mod Table
use rayspec_py.Prelude.{
  ◌≡◌, ◌≢◌, ◌↔◌, ◌⊎◌, refl, Bool, true, false, ◌&&◌, not, Option, none, some, List, [], ◌∷◌, arith,
  any, all, All, Any, if◌then◌else◌, is_some,
}
use mathlib.Core.Option
use rayspec_py.Schema.{StepStatus, JoinPolicy, SkipReason, is_terminal}

-- HasOutcome: what the join reads of a record
pub record Outcome : Type 0 where
  pub status : StepStatus
  pub tolerated : Bool

-- FAILED_LIKE
abbrev pub failed_like : StepStatus → Bool
failed_like StepStatus.failed = true
failed_like StepStatus.interrupted = true
failed_like StepStatus.rejected = true
failed_like _ = false

pub data Class : Type 0 where
  succeeded skipped failed : Class

abbrev status_class : StepStatus → Bool → Option Class
status_class StepStatus.succeeded t = some Class.succeeded
status_class StepStatus.failed true = some Class.succeeded
status_class StepStatus.skipped t = some Class.skipped
status_class s t = if failed_like s then some Class.failed else none

-- `none` is the ValueError for an outcome that is not terminal
unfoldable pub classify : Outcome → Option Class
classify o = status_class o.status o.tolerated

abbrev push_class : Option Class → Option (List Class) → Option (List Class)
push_class (some c) (some cs) = some (c ∷ cs)
push_class (some c) none = none
push_class none cs = none

-- [classify(o) for o in outcomes]
unfoldable pub classify_all : List Outcome → Option (List Class)
unfolding classify
classify_all [] = some []
classify_all (o ∷ os) = push_class (classify o) (classify_all os)

pub record JoinDecision : Type 0 where
  pub run : Bool
  pub skip_reason : Option SkipReason

abbrev pub go : JoinDecision
go = record { run = true; skip_reason = none }

abbrev pub skip : SkipReason → JoinDecision
skip r = record { run = false; skip_reason = some r }

abbrev is_failed : Class → Bool
is_failed Class.failed = true
is_failed _ = false

abbrev is_skipped : Class → Bool
is_skipped Class.skipped = true
is_skipped _ = false

abbrev is_empty : List Class → Bool
is_empty [] = true
is_empty (c ∷ cs) = false

abbrev is_always : JoinPolicy → Bool
is_always JoinPolicy.always = true
is_always _ = false

abbrev is_all : JoinPolicy → Bool
is_all JoinPolicy.all = true
is_all _ = false

-- the body of `join_decision`, over the classes
unfoldable pub decide : JoinPolicy → Bool → List Class → JoinDecision
decide join draining classes =
    if is_always join
    then go
    else if any is_failed classes
    then skip SkipReason.upstream_failed
    else if not (is_empty classes) && all is_skipped classes
    then skip SkipReason.upstream_skipped
    else if is_all join && any is_skipped classes
    then skip SkipReason.upstream_skipped
    else if draining
    then skip SkipReason.run_failed
    else go

unfoldable pub join_decision : JoinPolicy → List Outcome → Bool → Option JoinDecision
unfolding classify_all decide
join_decision join outcomes draining = Option.map (decide join draining) (classify_all outcomes)
