-- ===== src/Limits/Envelope.antt =====
-- limits/envelope.py: spending envelopes and the consecutive-failure breaker
pub mod Waivers
use rayspec_py.Prelude.{
  ℕ, zero, suc, String, Bool, true, false, not, ◌&&◌, ◌||◌, Option, none, some, List, [], ◌∷◌,
  is_some, ltb, leb, if◌then◌else◌, or_else,
}
use rayspec_py.Prelude.Int.{ℤ, leb_ℤ, is_zero}
use rayspec_py.Limits.Ledger.{SpendState, Moment, Doc}
use rayspec_py.Limits.Ledger.File.{Ledger, File, read, commit, record_outcome, reset_failures}

-- The ceilings; none is "no ceiling".
pub record BudgetEnvelope : Type 0 where
  pub per_run : Option ℤ
  pub per_day : Option ℤ
  pub per_month : Option ℤ
  pub max_consecutive_failures : Option ℕ

unfoldable pub spends : BudgetEnvelope → Bool
spends e = is_some e.per_run || (is_some e.per_day || is_some e.per_month)

-- BudgetEnvelope.active
unfoldable pub caps_anything : BudgetEnvelope → Bool
caps_anything e = spends e || is_some e.max_consecutive_failures

pub data Knob : Type 0 where
  per_run per_day per_month : Knob

-- The reasons, by what their text says.
pub data Reason : Type 0 where
  frozen : Knob → Reason
  reached : Knob → ℤ → ℤ → Reason
  breaker_open : ℕ → ℕ → Reason

-- one round of the loop over `checks`
unfoldable pub check_ceiling : Knob → Option ℤ → Option ℤ → Option Reason
check_ceiling knob none cap = none
check_ceiling knob (some amount) none = none
check_ceiling knob (some amount) (some cap) =
    if is_zero cap
    then some (frozen knob)
    else if leb_ℤ amount cap
    then none
    else some (reached knob amount cap)

unfoldable pub envelope_reason : BudgetEnvelope → SpendState → Option ℤ → Option Reason
envelope_reason e state run_usd = or_else (check_ceiling per_run run_usd e.per_run) (
    or_else (check_ceiling per_day (some state.day_usd) e.per_day)
      (check_ceiling per_month (some state.month_usd) e.per_month))

abbrev breaker_at : Option ℕ → ℕ → Option Reason
breaker_at none n = none
breaker_at (some cap) n = if ltb n cap then none else some (breaker_open n cap)

unfoldable pub failure_breaker_reason : BudgetEnvelope → SpendState → Option Reason
failure_breaker_reason e state = breaker_at e.max_consecutive_failures state.consecutive_failures

pub data PauseKind : Type 0 where
  budget failures : PauseKind

-- RunEnvelope
pub record RunEnvelope : Type 0 where
  pub envelope : BudgetEnvelope
  pub ledger : Ledger
  pub run_id : String
  pub waived_spend : Bool
  pub waived_failures : Bool
  pub pause_kind : PauseKind

unfoldable pub checks_spend : RunEnvelope → Bool
checks_spend r = spends r.envelope && not r.waived_spend

unfoldable pub checks_failures : RunEnvelope → Bool
checks_failures r = is_some r.envelope.max_consecutive_failures && not r.waived_failures

unfoldable pub active : RunEnvelope → Bool
active r = checks_spend r || checks_failures r

-- The last lines of `_evaluate`: the breaker's reason goes first.
abbrev pub stop_for : RunEnvelope → Option Reason → Option Reason → Option Reason × RunEnvelope
stop_for r (some reason) money = (some reason, record r { pause_kind = failures })
stop_for r none (some reason) = (some reason, record r { pause_kind = budget })
stop_for r none none = (none, r)

-- `_evaluate` behind the commit
unfoldable pub judge : RunEnvelope → SpendState → Option ℤ → Option Reason × RunEnvelope
judge r state run_usd =
    stop_for r (if checks_failures r then failure_breaker_reason r.envelope state else none)
      (if checks_spend r then envelope_reason r.envelope state run_usd else none)

-- What a call of the ledger gives back: a verdict, or the exception of `commit`.
pub data Verdict : Type 0 where
  verdict : Option Reason → Verdict
  raised : Verdict

abbrev judged : Option Reason × RunEnvelope → Verdict × RunEnvelope
judged (reason, r) = (verdict reason, r)

abbrev after_commit : RunEnvelope → Option ℤ → Option SpendState × Ledger → Verdict × RunEnvelope
after_commit r run_usd (none, l) = (raised, record r { ledger = l })
after_commit r run_usd (some state, l) = judged (judge (record r { ledger = l }) state run_usd)

abbrev after_read : RunEnvelope → Option ℤ → SpendState × Ledger → Verdict × RunEnvelope
after_read r run_usd (state, l) = judged (judge (record r { ledger = l }) state run_usd)

-- `_evaluate`: commit first, also where the spending ceilings are waived
unfoldable pub evaluate : RunEnvelope → Option ℤ → Moment → Verdict × RunEnvelope
evaluate r run_usd when =
    if spends r.envelope
    then after_commit r run_usd (commit r.ledger r.run_id run_usd when)
    else after_read r run_usd (read r.ledger when)

unfoldable pub check : RunEnvelope → Option ℤ → Moment → Verdict × RunEnvelope
check r run_usd when = if not (active r) then (verdict none, r) else evaluate r run_usd when

unfoldable pub settle : RunEnvelope → Option ℤ → Moment → Verdict × RunEnvelope
settle = evaluate

-- `commit_final`; `false` is the exception of `commit`
unfoldable pub commit_final : RunEnvelope → Option ℤ → Moment → Bool × RunEnvelope
commit_final r run_usd when =
    if not (spends r.envelope)
    then (true, r)
    else let (state, l) = commit r.ledger r.run_id run_usd when in
      (is_some state, record r { ledger = l })

unfoldable pub record_run_outcome : RunEnvelope → Bool → RunEnvelope
record_run_outcome r failed =
    if is_some r.envelope.max_consecutive_failures
    then record r { ledger = record_outcome r.ledger failed }
    else r

unfoldable pub waive : RunEnvelope → Bool → RunEnvelope
waive r close_breaker =
    if close_breaker
    then record r {
      waived_failures = true;
      ledger =
          if is_some r.envelope.max_consecutive_failures then reset_failures r.ledger else r.ledger;
    }
    else record r { waived_spend = true }
