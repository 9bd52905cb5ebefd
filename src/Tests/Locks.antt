-- ===== src/Tests/Locks.antt =====
-- limits/lockfile.py: a workflow of two agents, before and after it is locked.
use rayspec_py.Prelude.{◌≡◌, ◌↔◌, refl, none, some, [], ◌∷◌, In→elem, eq_iff, true, false, arith}
use rayspec_py.Prelude.Dict.{Distinct, Dict, get, put}
use rayspec_py.Limits.Lockfile.{
  LockEntry, Lockfile, ResolvedWorkflow, check_locked, lock_entries_for, pin_all, pin_drifts,
}
use rayspec_py.Limits.Lockfile.Sync.{InSync, check_locked_iff}
use rayspec_py.Limits.Lockfile.Relocked.{relock, relock_in_sync}

abbrev review : ResolvedWorkflow
review = record {
  name = "review";
  agents =
      ("b", record { provider = "codex"; model = some "new"; effort = none })
      ∷ ("a", record { provider = "claude"; model = none; effort = none })
      ∷ [];
  step_agents = ("fix", "b") ∷ ("plan", "a") ∷ ("check", "b") ∷ [];
}

abbrev old_pins : Dict LockEntry
old_pins =
    ("gone", record { provider = "claude"; model = some "old"; effort = none })
    ∷ ("b", record { provider = "codex"; model = some "old"; effort = none })
    ∷ []

abbrev locked : Lockfile
locked = record { version = 1; workflows = ("review", old_pins) ∷ ("nightly", []) ∷ [] }

drifts :
    check_locked review (some locked)
    ≡ record { agent = "a"; field = "agent"; pinned = none; resolved = some "claude" }
      ∷ record { agent = "b"; field = "model"; pinned = some "old"; resolved = some "new" }
      ∷ record { agent = "gone"; field = "stale"; pinned = some "old"; resolved = none }
      ∷ []
unfolding check_locked get lock_entries_for pin_all pin_drifts put
drifts = refl

locked-Distinct : Distinct locked.workflows
locked-Distinct = (
  (λ m. let e : false ≡ true = In→elem "review" ("nightly" ∷ []) m in ground arith),
  ((λ m. m), tt),
)

check_locked_iff_example : check_locked review (some locked) ≡ [] ↔ InSync review locked
check_locked_iff_example = check_locked_iff review locked

abbrev nightly : ResolvedWorkflow
nightly = record review { name = "nightly" }

relock_in_sync_example :
    (check_locked review (some (relock review locked)) ≡ [])
    × (check_locked nightly (some (relock review locked)) ≡ check_locked nightly (some locked))
relock_in_sync_example =
    relock_in_sync review nightly locked locked-Distinct
      (λ e. let e' : false ≡ true = (eq_iff "nightly" "review").1 e in ground arith)
