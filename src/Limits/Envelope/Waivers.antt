-- ===== src/Limits/Envelope/Waivers.antt =====
-- Which control stops a run, and what a waiver retires.
use rayspec_py.Prelude.{
  ℕ, ◌≤◌, ◌≡◌, ◌↔◌, ◌⊎◌, true, false, Option, none, some, arith, is_some, if◌then◌else◌,
}
use rayspec_py.Prelude.Int.{ℤ, leb_ℤ, is_zero}
use rayspec_py.Limits.Ledger.{SpendState}
use rayspec_py.Limits.Envelope.{
  BudgetEnvelope, Reason, Knob, PauseKind, budget, failures, check_ceiling, envelope_reason,
  failure_breaker_reason, RunEnvelope, stop_for, checks_spend, checks_failures, judge, spends,
}

-- An amount passes a ceiling that freezes spending or that it is above.
abbrev pub Over : Option ℤ → Option ℤ → Type 0
Over (some x) (some cap) = (is_zero cap ≡ true) ⊎ (leb_ℤ x cap ≡ false)
Over _ _ = ⊥

check_ceiling-Over :
    (k : Knob) (x cap : Option ℤ) → (is_some (check_ceiling k x cap) ≡ true) ↔ Over x cap
unfolding check_ceiling
check_ceiling-Over k none cap = (ground arith, ground arith)
check_ceiling-Over k (some x) none = (ground arith, ground arith)
check_ceiling-Over k (some x) (some cap) = (ground arith, ground arith)

-- A money reason is given exactly when one of the three amounts is over its ceiling; the cost of
-- the run counts only where it is known.
pub envelope_reason_iff :
    (e : BudgetEnvelope) (s : SpendState) (run_usd : Option ℤ)
    → (is_some (envelope_reason e s run_usd) ≡ true) ↔ (
        Over run_usd e.per_run
        ⊎ Over (some s.day_usd) e.per_day
        ⊎ Over (some s.month_usd) e.per_month)
unfolding envelope_reason
envelope_reason_iff e s run_usd = (
  ground (
    arith,
    check_ceiling-Over Knob.per_run run_usd e.per_run,
    check_ceiling-Over Knob.per_day (some s.day_usd) e.per_day,
    check_ceiling-Over Knob.per_month (some s.month_usd) e.per_month,
  ),
  ground (
    arith,
    check_ceiling-Over Knob.per_run run_usd e.per_run,
    check_ceiling-Over Knob.per_day (some s.day_usd) e.per_day,
    check_ceiling-Over Knob.per_month (some s.month_usd) e.per_month,
  ),
)

-- The breaker of a run is open: it is set, it is not waived, and the streak has reached it.
abbrev pub BreakerStops : RunEnvelope → SpendState → Type 0
BreakerStops r s =
    (r.waived_failures ≡ false)
    × ((cap : ℕ) × (r.envelope.max_consecutive_failures ≡ some cap)
        × (cap ≤ s.consecutive_failures))

abbrev pub MoneyStops : RunEnvelope → SpendState → Option ℤ → Type 0
MoneyStops r s run_usd =
    (r.waived_spend ≡ false)
    × (Over run_usd r.envelope.per_run
        ⊎ Over (some s.day_usd) r.envelope.per_day
        ⊎ Over (some s.month_usd) r.envelope.per_month)

breaker_iff :
    (r : RunEnvelope) (s : SpendState)
    → (is_some (if checks_failures r then failure_breaker_reason r.envelope s else none) ≡ true)
      ↔ BreakerStops r s
unfolding checks_failures failure_breaker_reason
breaker_iff r s = (ground arith, ground arith)

Over-spends :
    (e : BudgetEnvelope) (s : SpendState) (x : Option ℤ)
    → Over x e.per_run ⊎ Over (some s.day_usd) e.per_day ⊎ Over (some s.month_usd) e.per_month
    → spends e ≡ true
unfolding spends
Over-spends e s x h = ground arith

money_iff :
    (r : RunEnvelope) (s : SpendState) (run_usd : Option ℤ)
    → (is_some (if checks_spend r then envelope_reason r.envelope s run_usd else none) ≡ true)
      ↔ MoneyStops r s run_usd
unfolding checks_spend
money_iff r s run_usd =
    let (to, from) = envelope_reason_iff r.envelope s run_usd in
    (ground (arith, to), ground (arith, from, Over-spends r.envelope s run_usd))

-- The kind of pause a verdict asks for.
abbrev pub stop_kind : Option Reason × RunEnvelope → Option PauseKind
stop_kind (none, r) = none
stop_kind (some reason, r) = some r.pause_kind

stop_for_failures :
    (r : RunEnvelope) (b m : Option Reason)
    → (stop_kind (stop_for r b m) ≡ some failures) ↔ (is_some b ≡ true)
stop_for_failures r b m = (ground arith, ground arith)

stop_for_budget :
    (r : RunEnvelope) (b m : Option Reason)
    → (stop_kind (stop_for r b m) ≡ some budget) ↔ (¬ (is_some b ≡ true) × (is_some m ≡ true))
stop_for_budget r b m = (ground arith, ground arith)

-- The two controls are independent: a run is stopped with the kind `failures` exactly when its
-- breaker is set, unwaived and reached by the streak, and with the kind `budget` exactly when the
-- breaker does not stop it, spending is not waived, and one of the three amounts is over its
-- ceiling (or its ceiling is zero).
pub judge_iff :
    (r : RunEnvelope) (s : SpendState) (run_usd : Option ℤ)
    → ((stop_kind (judge r s run_usd) ≡ some failures) ↔ BreakerStops r s)
      × ((stop_kind (judge r s run_usd) ≡ some budget)
          ↔ (¬ BreakerStops r s × MoneyStops r s run_usd))
unfolding judge
judge_iff r s run_usd =
    let b = if checks_failures r then failure_breaker_reason r.envelope s else none in
    let m = if checks_spend r then envelope_reason r.envelope s run_usd else none in
    let (from_failures, to_failures) = stop_for_failures r b m in
    let (from_budget, to_budget) = stop_for_budget r b m in
    let (broken, breaks) = breaker_iff r s in
    let (costly, costs) = money_iff r s run_usd in
    (
      (λ h. broken (from_failures h), λ h. to_failures (breaks h)),
      (
        λ h. let (calm, over) = from_budget h in (λ stops. calm (breaks stops), costly over),
        λ h. let (calm, over) = h in to_budget (λ stops. calm (broken stops), costs over),
      ),
    )
