-- ===== src/Tests/Leaves.antt =====
-- A prompt step that fails twice with a transient error and then succeeds.
use rayspec_py.Prelude.{ℕ, zero, suc, ◌≡◌, refl, true, false, Option, none, some, [], ◌∷◌}
use rayspec_py.Prelude.Int.{pos, ◌+ℤ◌}
use rayspec_py.Schema.{StepStatus}
use rayspec_py.Engine.Leaf.{
  Turn, Leaf, LeafRecord, outcome, Spend, Usage, ErrorInfo, other, finished, provider, unpriced,
  policy_for, run_leaf, attempt_loop, opening, should_retry, delay_for, accumulate, add_usage,
  merge_cost_source, attempts_allowed,
}
use rayspec_py.Engine.Leaf.Attempts.{EndsWithin, run_leaf-EndsWithin}
use rayspec_py.Engine.Leaf.Spending.{Accounted, run_leaf-Accounted}

abbrev tokens : ℕ → Usage
tokens n = record { input = n; cached_input = 0; cache_write = 0; output = 1; reasoning = 0 }

abbrev turn : StepStatus → Option ErrorInfo → ℕ → Turn
turn status error n = record {
  blocked_before = none;
  ended = finished status error;
  spent = record { usage = tokens n; cost_usd = some (pos n); cost_source = provider };
  blocked_after = false;
}

abbrev flaky : ErrorInfo
flaky = record { kind = other; transient = true }

abbrev world : ℕ → Turn
world zero = turn StepStatus.failed (some flaky) 10
world (suc zero) = turn StepStatus.failed (some flaky) 20
world (suc (suc n)) = turn StepStatus.succeeded none 30

abbrev leaf : Leaf
leaf = record { always = false; policy = policy_for none true }

abbrev before : LeafRecord
before = record {
  attempts = 1;
  status = StepStatus.pending;
  error = none;
  spend = record { usage = tokens 5; cost_usd = none; cost_source = unpriced };
}

run_leaf-EndsWithin_example :
    EndsWithin (attempts_allowed leaf.policy) before (run_leaf world leaf before)
run_leaf-EndsWithin_example = run_leaf-EndsWithin world leaf before

run_leaf-Accounted_example :
    Accounted world (opening before.spend) 0 before (run_leaf world leaf before)
run_leaf-Accounted_example = run_leaf-Accounted world leaf before

abbrev total : Spend
total = record {
  usage = record { input = 65; cached_input = 0; cache_write = 0; output = 4; reasoning = 0 };
  cost_usd = some (pos 60);
  cost_source = provider;
}

-- Three attempts on top of the one of an earlier run, with the delays doubling.
three_attempts :
    run_leaf world leaf before
    ≡ some (
      outcome (record { attempts = 4; status = StepStatus.succeeded; error = none; spend = total }),
      3000 ∷ 6000 ∷ [],
    )
unfolding run_leaf attempt_loop should_retry delay_for accumulate add_usage merge_cost_source
    policy_for ◌+ℤ◌
three_attempts = refl
