-- ===== src/Limits/Lockfile.antt =====
-- limits/lockfile.py: what the agents of a workflow are pinned to, the comparison of the pins with
-- what the workflow resolves to, and the pins that `rayspec lock` writes. The reading and the
-- writing of the file are not modelled.
pub mod Wanted
pub mod Drifts
pub mod Sync
pub mod Relocked
use rayspec_py.Prelude.{
  ℕ, String, Bool, true, false, not, ◌&&◌, Option, none, some, List, [], ◌∷◌, ◌++◌, map, select,
  elem, str_eq, if◌then◌else◌,
}
use rayspec_py.Prelude.Dict.{Dict, get, put, keys, values}
use rayspec_py.Limits.Slots.{insert_sorted}

pub record LockEntry : Type 0 where
  pub provider : String
  pub model : Option String
  pub effort : Option String

pub record LockDrift : Type 0 where
  pub agent : String
  pub field : String
  pub pinned : Option String
  pub resolved : Option String

-- Lockfile, without its path
pub record Lockfile : Type 0 where
  pub version : ℕ
  pub workflows : Dict (Dict LockEntry)

-- What the lockfile reads of an agent of the loader, and of a workflow.
pub record ResolvedAgent : Type 0 where
  pub provider : String
  pub model : Option String
  pub effort : Option String

pub record ResolvedWorkflow : Type 0 where
  pub name : String
  pub agents : Dict ResolvedAgent
  pub step_agents : Dict String

abbrev pub sorted_names : List String → List String
sorted_names [] = []
sorted_names (k ∷ ks) = insert_sorted k (sorted_names ks)

abbrev pub lock_entry : ResolvedAgent → LockEntry
lock_entry a = record { provider = a.provider; model = a.model; effort = a.effort }

-- The body of the loop of `lock_entries_for`.
abbrev pub pin : String → Option ResolvedAgent → Dict LockEntry → Dict LockEntry
pin key none entries = entries
pin key (some agent) entries = put entries key (lock_entry agent)

unfoldable pub pin_all : Dict ResolvedAgent → List String → Dict LockEntry → Dict LockEntry
pin_all agents [] entries = entries
pin_all agents (key ∷ rest) entries = pin_all agents rest (pin key (get agents key) entries)

unfoldable pub lock_entries_for : ResolvedWorkflow → Dict LockEntry
lock_entries_for resolved = pin_all resolved.agents (sorted_names (values resolved.step_agents)) []

abbrev pub option_eq : Option String → Option String → Bool
option_eq none none = true
option_eq (some a) (some b) = str_eq a b
option_eq _ _ = false

-- if have != expected: drifts.append(...)
abbrev pub field_drift : String → String → Option String → Option String → List LockDrift
field_drift key name have expected =
    if option_eq have expected
    then []
    else record { agent = key; field = name; pinned = expected; resolved = have } ∷ []

-- The body of the loop of `check_locked`.
abbrev pub entry_drifts : String → LockEntry → Option LockEntry → List LockDrift
entry_drifts key entry none =
    record { agent = key; field = "agent"; pinned = none; resolved = some entry.provider } ∷ []
entry_drifts key entry (some want) =
    field_drift key "provider" (some entry.provider) (some want.provider)
    ++ field_drift key "model" entry.model want.model
    ++ field_drift key "effort" entry.effort want.effort

unfoldable pub pin_drifts : Dict LockEntry → Dict LockEntry → List LockDrift
pin_drifts pinned [] = []
pin_drifts pinned ((key, entry) ∷ rest) =
    entry_drifts key entry (get pinned key) ++ pin_drifts pinned rest

abbrev model_of : Option LockEntry → Option String
model_of none = none
model_of (some entry) = entry.model

abbrev pub stale_drift : Dict LockEntry → String → LockDrift
stale_drift pinned key = record {
  agent = key;
  field = "stale";
  pinned = model_of (get pinned key);
  resolved = none;
}

-- sorted(set(pinned) - resolved_keys)
abbrev pub stale_keys : Dict LockEntry → Dict LockEntry → List String
stale_keys entries pinned =
    sorted_names (select (λ key. not (elem key (keys entries))) (keys pinned))

abbrev pub check_pinned : ResolvedWorkflow → Option (Dict LockEntry) → List LockDrift
check_pinned resolved none =
    record { agent = resolved.name; field = "workflow"; pinned = none; resolved = none } ∷ []
check_pinned resolved (some pinned) =
    pin_drifts pinned (lock_entries_for resolved)
    ++ map (stale_drift pinned) (stale_keys (lock_entries_for resolved) pinned)

unfoldable pub check_locked : ResolvedWorkflow → Option Lockfile → List LockDrift
check_locked resolved none = []
check_locked resolved (some lockfile) = check_pinned resolved (get lockfile.workflows resolved.name)

-- for name, entries in ...: merged[name] = dict(entries)
abbrev pub merge : Dict (Dict LockEntry) → Dict (Dict LockEntry) → Dict (Dict LockEntry)
merge merged [] = merged
merge merged ((name, entries) ∷ rest) = merge (put merged name entries) rest

unfoldable pub merged_workflows : Option Lockfile → Dict (Dict LockEntry) → Dict (Dict LockEntry)
merged_workflows none updates = merge [] updates
merged_workflows (some lockfile) updates = merge (merge [] lockfile.workflows) updates
