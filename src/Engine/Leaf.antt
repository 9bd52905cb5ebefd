-- ===== src/Engine/Leaf.antt =====
-- engine/retry.py and `run_leaf` of engine/scheduler.py: the attempts of a leaf step. What the
-- executor does in each attempt, and whether a cap or a cancel stands before and after it, is a
-- parameter, by the number of the attempt in this run. A delay is a number of milliseconds.
pub mod Attempts
pub mod Spending
use rayspec_py.Prelude.{
  ℕ, zero, suc, ◌+◌, ◌*◌, ◌-◌, ◌^◌, String, Bool, true, false, not, ◌&&◌, Option, none, some, List,
  [], ◌∷◌, leb, if◌then◌else◌, ◌++◌,
}
use rayspec_py.Prelude.Int.{ℤ, ◌+ℤ◌}
use rayspec_py.Schema.{StepStatus, SkipReason}

-- ErrorInfo: its type, as far as the retry reads it
pub data ErrorKind : Type 0 where
  timeout other : ErrorKind

pub record ErrorInfo : Type 0 where
  pub kind : ErrorKind
  pub transient : Bool

pub data OnError : Type 0 where
  on_transient on_all : OnError

pub record RetryPolicy : Type 0 where
  pub attempts : ℕ
  pub delay : ℕ
  pub on_error : OnError

abbrev default_prompt_retry : RetryPolicy
default_prompt_retry = record { attempts = 3; delay = 3000; on_error = on_transient }

unfoldable pub policy_for : Option RetryPolicy → Bool → Option RetryPolicy
policy_for (some retry) is_prompt = some retry
policy_for none is_prompt = if is_prompt then some default_prompt_retry else none

abbrev is_timeout : ErrorKind → Bool
is_timeout timeout = true
is_timeout other = false

abbrev retries_error : OnError → ErrorInfo → Bool
retries_error on_all e = true
retries_error on_transient e = e.transient && not (is_timeout e.kind)

unfoldable pub should_retry : Option RetryPolicy → ℕ → Option ErrorInfo → Bool
should_retry none done e = false
should_retry (some p) done none = false
should_retry (some p) done (some e) =
    if leb p.attempts done then false else retries_error p.on_error e

unfoldable pub delay_for : RetryPolicy → ℕ → ℕ
delay_for p retry_number = p.delay * 2 ^ (retry_number - 1)

pub record Usage : Type 0 where
  pub input : ℕ
  pub cached_input : ℕ
  pub cache_write : ℕ
  pub output : ℕ
  pub reasoning : ℕ

unfoldable pub add_usage : Usage → Usage → Usage
add_usage a b = record {
  input = a.input + b.input;
  cached_input = a.cached_input + b.cached_input;
  cache_write = a.cache_write + b.cache_write;
  output = a.output + b.output;
  reasoning = a.reasoning + b.reasoning;
}

-- CostSource; `unpriced` is "none"
pub data CostSource : Type 0 where
  unpriced provider table : CostSource

unfoldable pub merge_cost_source : CostSource → CostSource → CostSource
merge_cost_source unpriced new = new
merge_cost_source provider unpriced = provider
merge_cost_source provider provider = provider
merge_cost_source provider table = table
merge_cost_source table new = table

-- The usage and cost fields of a record.
pub record Spend : Type 0 where
  pub usage : Usage
  pub cost_usd : Option ℤ
  pub cost_source : CostSource

-- (cost_total or 0.0) + cost, where there is a cost
abbrev pub add_cost : Option ℤ → Option ℤ → Option ℤ
add_cost total none = total
add_cost none (some c) = some c
add_cost (some t) (some c) = some (t +ℤ c)

abbrev pub add_source : Option ℤ → CostSource → CostSource → CostSource
add_source none total new = total
add_source (some c) total new = merge_cost_source total new

-- `accumulate`
unfoldable pub accumulate : Spend → Spend → Spend
accumulate total attempt = record {
  usage = add_usage total.usage attempt.usage;
  cost_usd = add_cost total.cost_usd attempt.cost_usd;
  cost_source = add_source attempt.cost_usd total.cost_source attempt.cost_source;
}

-- How an attempt ended.
pub data Ended : Type 0 where
  finished : StepStatus → Option ErrorInfo → Ended
  timed_out : Ended
  cancelled : Ended
  controlled : Ended
  crashed : ErrorInfo → Ended

-- One turn of the loop: what stands once the permit is held, what the executor reports, and
-- whether a cap or a cancel stands afterwards.
pub record Turn : Type 0 where
  pub blocked_before : Option SkipReason
  pub ended : Ended
  pub spent : Spend
  pub blocked_after : Bool

pub record Leaf : Type 0 where
  pub always : Bool
  pub policy : Option RetryPolicy

-- The step's record while it runs.
pub record LeafRecord : Type 0 where
  pub attempts : ℕ
  pub status : StepStatus
  pub error : Option ErrorInfo
  pub spend : Spend

-- The outcomes of the loop; the last two are exceptions that leave it.
pub data LeafEnd : Type 0 where
  outcome : LeafRecord → LeafEnd
  drained : SkipReason → LeafRecord → LeafEnd
  raised_cancelled : LeafRecord → LeafEnd
  raised_control : LeafRecord → LeafEnd

abbrev pub block_of : Leaf → Turn → Option SkipReason
block_of leaf t = if leaf.always then none else t.blocked_before

-- The record behind an attempt, with the totals folded in.
abbrev pub after : LeafRecord → Spend → StepStatus → Option ErrorInfo → Spend → LeafRecord
after r total status error spent = record {
  attempts = suc r.attempts;
  status = status;
  error = error;
  spend = accumulate total spent;
}

abbrev pub attempt_record : LeafRecord → Spend → Turn → LeafRecord
attempt_record r total t = elim t.ended [
  | finished status error ↦ after r total status error t.spent
  | timed_out ↦
      after r total StepStatus.failed (some (record { kind = timeout; transient = false })) t.spent
  | cancelled ↦ after r total r.status r.error t.spent
  | controlled ↦ record r { attempts = suc r.attempts; spend = t.spent }
  | crashed e ↦ after r total StepStatus.failed (some e) t.spent
]

abbrev is_failed : StepStatus → Bool
is_failed StepStatus.failed = true
is_failed _ = false

-- Whether the loop goes round again.
abbrev pub goes_on : Leaf → Turn → ℕ → LeafRecord → Bool
goes_on leaf t done r =
    is_failed r.status && (not t.blocked_after && should_retry leaf.policy done r.error)

-- A first attempt is skipped; a retry keeps the failure it already has.
abbrev pub drain : ℕ → SkipReason → LeafRecord → LeafEnd
drain zero reason r = drained reason r
drain (suc done) reason r = outcome r

abbrev pub delay_of : Option RetryPolicy → ℕ → List ℕ
delay_of none n = []
delay_of (some p) n = delay_for p n ∷ []

abbrev pub slept : List ℕ → Option (LeafEnd × List ℕ) → Option (LeafEnd × List ℕ)
slept ds none = none
slept ds (some (e, rest)) = some (e, ds ++ rest)

-- What follows an attempt: `done` attempts of this run are over.
abbrev pub conclude :
    Leaf → Turn → ℕ → LeafRecord → Option (LeafEnd × List ℕ) → Option (LeafEnd × List ℕ)
conclude leaf t done r rest = elim t.ended [
  | cancelled ↦ some (raised_cancelled r, [])
  | controlled ↦ some (raised_control r, [])
  | _ ↦
      if goes_on leaf t done r then slept (delay_of leaf.policy done) rest else some (outcome r, [])
]

abbrev pub unless_blocked :
    Option SkipReason → ℕ → LeafRecord → Option (LeafEnd × List ℕ) → Option (LeafEnd × List ℕ)
unless_blocked none done r attempted = attempted
unless_blocked (some reason) done r attempted = some (drain done reason r, [])

-- The `while True` loop, with the delays slept between the attempts.
unfoldable pub attempt_loop :
    (ℕ → Turn) → Leaf → ℕ → ℕ → LeafRecord → Spend → Option (LeafEnd × List ℕ)
attempt_loop world leaf zero done r total = none
attempt_loop world leaf (suc fuel) done r total =
    let t = world done in
    let tried = attempt_record r total t in
    let rest = attempt_loop world leaf fuel (suc done) tried tried.spend in
    unless_blocked (block_of leaf t) done r (conclude leaf t (suc done) tried rest)

-- The totals that the loop starts from.
abbrev pub opening : Spend → Spend
opening s = elim s.cost_usd [ none ↦ record s { cost_source = unpriced } | some c ↦ s ]

abbrev pub attempts_allowed : Option RetryPolicy → ℕ
attempts_allowed none = 1
attempts_allowed (some p) = if leb p.attempts 1 then 1 else p.attempts

unfoldable pub run_leaf : (ℕ → Turn) → Leaf → LeafRecord → Option (LeafEnd × List ℕ)
run_leaf world leaf r = attempt_loop world leaf (attempts_allowed leaf.policy) 0 r (opening r.spend)
