-- ===== src/Engine/FailurePolicy.antt =====
-- engine/context.py: `on_step_failure`, from the workflow's defaults to what a sibling list does
-- after a failure. A scope is given by what it and the scopes around it wrote.
pub mod Strictest
use rayspec_py.Prelude.{
  ℕ, Bool, true, false, ◌||◌, Option, none, some, List, [], ◌∷◌, leb, if◌then◌else◌,
}

-- ON_STEP_FAILURE_ORDER, from the most permissive on
pub data OnStepFailure : Type 0 where
  continue drain fail_fast : OnStepFailure

-- ON_STEP_FAILURE_ORDER.index
abbrev pub rank : OnStepFailure → ℕ
rank continue = 0
rank drain = 1
rank fail_fast = 2

-- `strictest_on_step_failure`, of two: max(..., key=...), which keeps the first of equals
unfoldable pub strictest : OnStepFailure → OnStepFailure → OnStepFailure
strictest a b = if leb (rank b) (rank a) then a else b

-- What the engine reads of `Defaults`; `is_set`: the workflow wrote the key.
pub record Defaults : Type 0 where
  pub on_step_failure : OnStepFailure
  pub is_set : Bool

-- The two attributes of an ExecScope.
pub record ExecScope : Type 0 where
  pub on_step_failure_floor : OnStepFailure
  pub on_step_failure : OnStepFailure

-- `stated_on_step_failure`
abbrev pub stated : Defaults → Option OnStepFailure
stated d = if d.is_set then some d.on_step_failure else none

abbrev pub stated_or_continue : Defaults → OnStepFailure
stated_or_continue d = if d.is_set then d.on_step_failure else continue

-- `on_step_failure_floor`
unfoldable pub floor_of : Defaults → Option ExecScope → OnStepFailure
floor_of d none = strictest (stated_or_continue d) continue
floor_of d (some parent) = strictest (stated_or_continue d) parent.on_step_failure_floor

-- `effective_on_step_failure`
unfoldable pub effective : Defaults → Option ExecScope → OnStepFailure
effective d none = d.on_step_failure
effective d (some parent) =
    if d.is_set
    then strictest parent.on_step_failure_floor d.on_step_failure
    else parent.on_step_failure

-- ExecScope.__init__
abbrev pub scope : Defaults → Option ExecScope → ExecScope
scope d parent = record {
  on_step_failure_floor = floor_of d parent;
  on_step_failure = effective d parent;
}

-- ExecScope.child, once for each scope from the outside in
unfoldable pub nest : ExecScope → List Defaults → ExecScope
nest s [] = s
nest s (d ∷ inner) = nest (scope d (some s)) inner

abbrev is_continue : OnStepFailure → Bool
is_continue continue = true
is_continue _ = false

abbrev is_fail_fast : OnStepFailure → Bool
is_fail_fast fail_fast = true
is_fail_fast _ = false

-- RunContext.fail_fast: the flag of this entry, or the one that the run records
abbrev pub flag : Bool → Bool → Bool
flag option recorded = option || recorded

-- RunContext.keep_going_for and fail_fast_for
unfoldable pub keep_going_for : Bool → ExecScope → Bool
keep_going_for flagged s = if flagged then false else is_continue s.on_step_failure

unfoldable pub fail_fast_for : Bool → ExecScope → Bool
fail_fast_for flagged s = if flagged then true else is_fail_fast s.on_step_failure
