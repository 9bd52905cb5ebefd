-- ===== src/Tests/Breakers.antt =====
-- A vendored block under a strict root, and a run that is over two of its caps.
use rayspec_py.Prelude.{◌≡◌, ◌↔◌, ◌⊎◌, refl, Bool, true, false, none, some, List, [], ◌∷◌, select}
use rayspec_py.Prelude.Int.{pos}
use rayspec_py.Engine.Leaf.{provider}
use rayspec_py.Engine.FailurePolicy
use rayspec_py.Engine.FailurePolicy.{
  continue, drain, fail_fast, scope, nest, fail_fast_for, keep_going_for,
}
use rayspec_py.Engine.FailurePolicy.Strictest.{in_force, nest-in_force}
use rayspec_py.Engine.Caps
use rayspec_py.Engine.Caps.{
  Totals, Breaker, Spent, check_budget, budget_usd, timeout_total, totals_of, cost_source_of,
  partial,
}
use rayspec_py.Engine.Caps.Trips.{over, cap_knobs, named, check_budget_names}

abbrev strict_root : FailurePolicy.Defaults
strict_root = record { on_step_failure = fail_fast; is_set = true }

abbrev silent : FailurePolicy.Defaults
silent = record { on_step_failure = drain; is_set = false }

abbrev lax_block : FailurePolicy.Defaults
lax_block = record { on_step_failure = continue; is_set = true }

abbrev inner : List FailurePolicy.Defaults
inner = silent ∷ lax_block ∷ []

nest-in_force_example :
    ((nest (scope strict_root none) inner).on_step_failure ≡ in_force strict_root inner)
    × ((fail_fast_for false (nest (scope strict_root none) inner) ≡ true)
        ↔ ((◌≡◌ {A = Bool} false true) ⊎ (in_force strict_root inner ≡ fail_fast)))
    × ((keep_going_for false (nest (scope strict_root none) inner) ≡ true)
        ↔ ((◌≡◌ {A = Bool} false false) × (in_force strict_root inner ≡ continue)))
nest-in_force_example = nest-in_force strict_root inner false

abbrev capped : Caps.Defaults
capped = record { budget_usd = some (pos 30); max_tokens = some 1000; timeout_total = some 60 }

abbrev priced : Spent
priced = record {
  path = "plan";
  usage = record { input = 300; cached_input = 0; cache_write = 0; output = 100; reasoning = 0 };
  cost_usd = some (pos 40);
  cost_source = provider;
}

abbrev unpriced_step : Spent
unpriced_step = record priced { path = "build"; cost_usd = none }

abbrev spent : Totals
spent = record {
  usage = record { input = 600; cached_input = 0; cache_write = 0; output = 200; reasoning = 0 };
  cost_usd = some (pos 40);
  cost_source = partial;
}

summed : cost_source_of (priced ∷ unpriced_step ∷ []) ≡ partial
unfolding cost_source_of
summed = refl

abbrev quiet : Breaker
quiet = record { budget_exceeded = none; envelope_pause = none; warnings = [] }

two_caps : select (over spent (some 61) capped) cap_knobs ≡ budget_usd ∷ timeout_total ∷ []
two_caps = refl

check_budget_names_example :
    (named (check_budget none spent (some 61) capped quiet).0
      ≡ select (over spent (some 61) capped) cap_knobs)
    × ((check_budget none spent (some 61) capped quiet).1.budget_exceeded
        ≡ (check_budget none spent (some 61) capped quiet).0)
check_budget_names_example = check_budget_names spent (some 61) capped quiet refl
