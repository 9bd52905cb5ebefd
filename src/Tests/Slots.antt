-- ===== src/Tests/Slots.antt =====
-- Two runs of one provider on a host, and a third that is refused.
use rayspec_py.Prelude.{
  ℕ, ◌≤◌, String, ◌≡◌, refl, Option, none, some, List, [], ◌∷◌, All, In→elem, true, false, arith,
}
use rayspec_py.Prelude.Dict.{Distinct, Dict, get, put}
use rayspec_py.Prelude.Result.{ok, err}
use rayspec_py.Prelude.Int.{pos}
use rayspec_py.Limits.Ledger.{float_limit}
use rayspec_py.Limits.Policy.{
  Number, infinite, Value, null, integer, number, text, mapping, Problem, in_limits, not_a_number,
  overflow, number_at, count_at, read_limits, concurrency_limits,
}
use rayspec_py.Limits.Policy.Fits.{Fits}
use rayspec_py.Limits.Policy.Told.{EntryTold, concurrency_limits-EntryTold}
use rayspec_py.Limits.Slots.{
  Host, RunSlot, got, refused, busy, try_all, try_from, acquire_slots, acquire_each, acquire, poll,
  release_all, release,
}
use rayspec_py.Limits.Slots.Bound.{Reach, empty, changes, takes, holders, holders-bound}
use rayspec_py.Limits.Slots.Restored.{after_block, acquire_slots_restored}

abbrev two : RunSlot
two = record { provider = "claude"; limit = 2; index = none }

abbrev first : RunSlot
first = record two { index = some 1 }

abbrev second : RunSlot
second = record two { index = some 2 }

abbrev one_held : Host
one_held = record { provider = "claude"; index = 1 } ∷ []

abbrev both_held : Host
both_held =
    record { provider = "claude"; index = 2 } ∷ record { provider = "claude"; index = 1 } ∷ []

takes_first : try_all two [] ≡ got first one_held
unfolding try_all try_from
takes_first = refl

takes_second : try_all two one_held ≡ got second both_held
unfolding try_all try_from
takes_second = refl

both_reached : Reach (λ p. 2) both_held
both_reached =
    changes (changes empty (takes two first (omega arith) takes_first))
      (takes two second (omega arith) takes_second)

holders-bound_example : holders "claude" both_held ≤ 2
holders-bound_example = holders-bound (λ p. 2) both_held "claude" both_reached

abbrev limits : Dict ℕ
limits = ("claude", 2) ∷ ("codex", 1) ∷ []

-- A run that finds every slot taken is refused.
refused_second :
    acquire_slots limits ("codex" ∷ "claude" ∷ []) [] both_held ≡ refused (busy "claude") both_held
unfolding acquire_slots acquire_each acquire poll try_all try_from release_all release get
refused_second = refl

-- A run that waits gets the slot that another run gives back.
waited_second :
    acquire_slots limits ("claude" ∷ []) ((both_held ∷ one_held ∷ []) ∷ []) both_held
    ≡ got (second ∷ []) both_held
unfolding acquire_slots acquire_each acquire poll try_all try_from get
waited_second = refl

acquire_slots_restored_example :
    after_block (acquire_slots limits ("codex" ∷ "claude" ∷ []) [] one_held) ≡ one_held
acquire_slots_restored_example = acquire_slots_restored limits ("codex" ∷ "claude" ∷ []) one_held

-- A limit that is no number is named, and one that is an infinity raises.
abbrev no_floats : String → Option Number
no_floats t = none

abbrev written : Dict Value
written = ("claude", integer (pos 2)) ∷ ("codex", text "two") ∷ ("*", null) ∷ []

abbrev read_back : Dict ℕ × List Problem
read_back = (("claude", 2) ∷ [], record { key = in_limits "codex"; why = not_a_number } ∷ [])

written_read : concurrency_limits no_floats (mapping written) ≡ ok read_back
unfolding concurrency_limits read_limits count_at number_at float_limit put
written_read = refl

endless_limit :
    concurrency_limits no_floats (mapping (("claude", number infinite) ∷ [])) ≡ err overflow
unfolding concurrency_limits read_limits count_at number_at
endless_limit = refl

written-Distinct : Distinct written
written-Distinct = (
  (λ m. let e : false ≡ true = In→elem "claude" ("codex" ∷ "*" ∷ []) m in ground arith),
  ((λ m. let e : false ≡ true = In→elem "codex" ("*" ∷ []) m in ground arith), ((λ m. m), tt)),
)

written-Fits : All (λ e. Fits no_floats e.1) written
unfolding float_limit
written-Fits = (refl, ((λ e. ground arith), (tt, tt)))

concurrency_limits-EntryTold_example :
    (x : Dict ℕ × List Problem) × (concurrency_limits no_floats (mapping written) ≡ ok x)
    × All (EntryTold no_floats x) written
concurrency_limits-EntryTold_example =
    concurrency_limits-EntryTold no_floats written written-Distinct written-Fits
