-- ===== src/Policy/Merged.antt =====
-- policy/layers.py: the accessors that merge the layers by name, the change guard, the budget and
-- the concurrency limits.
pub mod Answers
use rayspec_py.Prelude.{
  ℕ, zero, suc, String, Bool, true, false, not, ◌&&◌, ◌||◌, Option, none, some, List, [], ◌∷◌, ◌++◌,
  ltb, ◌==◌, if◌then◌else◌, is_some, or_else,
}
use rayspec_py.Prelude.Dict.{Dict, get, put}
use rayspec_py.Policy.Model.{
  Policy, RunLimits, every_provider, by_provider, WorkspacePolicy, BudgetPolicy,
  ApprovalClassPolicy,
}
use rayspec_py.Policy.Layers.{
  Key, key, at, Shown, text, listed, number, class_rule, run_limits, PolicySource, PolicyLayer,
  source, gather, numbered, min_of,
}
use rayspec_py.Policy.Layers.Rows.{absorb}

-- out.setdefault(name, []).append(source)
abbrev pub append_to : Option (List PolicySource) → PolicySource → List PolicySource
append_to none s = s ∷ []
append_to (some ss) s = ss ++ s ∷ []

abbrev pub tool_rows : PolicyLayer → List (String × PolicySource)
tool_rows l =
    numbered (λ i entry. (entry, source l (text entry) (key "tools" ∷ key "deny" ∷ at i ∷ []))) 0
      l.policy.tools_deny

unfoldable pub denied_tools : List PolicyLayer → Dict (List PolicySource)
denied_tools ls = absorb append_to [] (gather tool_rows ls)

abbrev pub or_empty : Option (List PolicySource) → List PolicySource
or_empty none = []
or_empty (some ss) = ss

unfoldable pub tool_denied : List PolicyLayer → String → List PolicySource
tool_denied ls entry = or_empty (get (denied_tools ls) entry)

abbrev pub class_lines : PolicyLayer → Dict ApprovalClassPolicy → List PolicySource
class_lines l [] = []
class_lines l ((name, entry) ∷ classes) =
    let rest = class_lines l classes in
    let here : String → List Key = λ k. key "approvals" ∷ key "classes" ∷ key name ∷ key k ∷ [] in
    (if entry.allow_yes
      then []
      else source l (class_rule name "allow_yes: false") (here "allow_yes") ∷ [])
    ++ (if entry.require_tty
        then source l (class_rule name "require_tty: true") (here "require_tty") ∷ []
        else [])
    ++ rest

unfoldable pub held_classes : PolicyLayer → List PolicySource
held_classes l = class_lines l l.policy.approvals_classes

abbrev pub under : String → List PolicySource → List (String × PolicySource)
under k [] = []
under k (s ∷ ss) = (k, s) ∷ under k ss

abbrev pub if_set {ℓ} : {A : Type ℓ} → Option A → (A → List PolicySource) → List PolicySource
if_set none f = []
if_set (some a) f = f a

abbrev pub counted : PolicyLayer → List Key → Option ℕ → List PolicySource
counted l keys v = if_set v (λ n. source l (number n) keys ∷ [])

abbrev pub run_limits_source : PolicyLayer → List PolicySource
run_limits_source l =
    if_set l.policy.max_concurrent_runs
      (λ limits. source l (run_limits limits) (key "max_concurrent_runs" ∷ []) ∷ [])

-- The body of the loop of `control_sources`, in its order.
abbrev pub control_rows : PolicyLayer → List (String × PolicySource)
control_rows l =
    let p = l.policy in
    under "tools.deny"
      (numbered (λ i e. source l (text e) (key "tools" ∷ key "deny" ∷ at i ∷ [])) 0 p.tools_deny)
    ++ under "models.deny" (
        numbered (λ i e. source l (text e) (key "models" ∷ key "deny" ∷ at i ∷ [])) 0 p.models_deny)
    ++ under "access.max"
        (if_set p.access_max (λ a. source l (text a) (key "access" ∷ key "max" ∷ []) ∷ []))
    ++ under "mcp.allow_servers" (
        if_set p.mcp_allow_servers
          (λ a. source l (listed a) (key "mcp" ∷ key "allow_servers" ∷ []) ∷ []))
    ++ under "providers.allow" (
        if_set p.providers_allow
          (λ a. source l (listed a) (key "providers" ∷ key "allow" ∷ []) ∷ []))
    ++ under "trust.require" (
        if p.trust_require
        then source l (text "true") (key "trust" ∷ key "require" ∷ []) ∷ []
        else [])
    ++ under "approvals.classes" (held_classes l)
    ++ under "workspace.protected_paths" (
        numbered (λ i e. source l (text e) (key "workspace" ∷ key "protected_paths" ∷ at i ∷ [])) 0
          p.workspace.protected_paths)
    ++ under "workspace.max_changed_files"
        (counted l (key "workspace" ∷ key "max_changed_files" ∷ []) p.workspace.max_changed_files)
    ++ under "workspace.max_changed_lines"
        (counted l (key "workspace" ∷ key "max_changed_lines" ∷ []) p.workspace.max_changed_lines)
    ++ under "budget.per_run" (counted l (key "budget" ∷ key "per_run" ∷ []) p.budget.per_run)
    ++ under "budget.per_day" (counted l (key "budget" ∷ key "per_day" ∷ []) p.budget.per_day)
    ++ under "budget.per_month" (counted l (key "budget" ∷ key "per_month" ∷ []) p.budget.per_month)
    ++ under "budget.max_consecutive_failures" (
        counted l (key "budget" ∷ key "max_consecutive_failures" ∷ [])
          p.budget.max_consecutive_failures)
    ++ under "max_consecutive_failures"
        (counted l (key "max_consecutive_failures" ∷ []) p.max_consecutive_failures)
    ++ under "max_concurrent_runs" (run_limits_source l)

unfoldable pub control_sources : List PolicyLayer → Dict (List PolicySource)
control_sources ls = absorb append_to [] (gather control_rows ls)

abbrev cap_sources : String → ℕ → PolicyLayer → Option ℕ → List PolicySource
cap_sources field smallest l none = []
cap_sources field smallest l (some v) =
    if v == smallest then source l (number v) (key "workspace" ∷ key field ∷ []) ∷ [] else []

abbrev pub with_sources :
    String → (PolicyLayer → Option ℕ) → List PolicyLayer → Option ℕ → Option (ℕ × List PolicySource)
with_sources field pick ls none = none
with_sources field pick ls (some smallest) =
    some (smallest, gather (λ l. cap_sources field smallest l (pick l)) ls)

-- `_min_cap`
unfoldable pub min_cap :
    String → (PolicyLayer → Option ℕ) → List PolicyLayer → Option (ℕ × List PolicySource)
min_cap field pick ls = with_sources field pick ls (min_of pick ls)

pub record ChangeGuard : Type 0 where
  pub protected_paths : List (String × PolicySource)
  pub max_changed_files : Option (ℕ × List PolicySource)
  pub max_changed_lines : Option (ℕ × List PolicySource)

abbrev pub protected_rows : PolicyLayer → List (String × PolicySource)
protected_rows l =
    numbered
      (λ i pattern.
        (pattern, source l (text pattern) (key "workspace" ∷ key "protected_paths" ∷ at i ∷ [])))
      0 l.policy.workspace.protected_paths

unfoldable pub change_guard : List PolicyLayer → ChangeGuard
change_guard ls = record {
  protected_paths = gather protected_rows ls;
  max_changed_files = min_cap "max_changed_files" (λ l. l.policy.workspace.max_changed_files) ls;
  max_changed_lines = min_cap "max_changed_lines" (λ l. l.policy.workspace.max_changed_lines) ls;
}

abbrev pub kept_allow_yes : Option ApprovalClassPolicy → Bool
kept_allow_yes none = true
kept_allow_yes (some current) = current.allow_yes

abbrev pub kept_require_tty : Option ApprovalClassPolicy → Bool
kept_require_tty none = false
kept_require_tty (some current) = current.require_tty

abbrev pub join_class : Option ApprovalClassPolicy → ApprovalClassPolicy → ApprovalClassPolicy
join_class current entry = record {
  allow_yes = entry.allow_yes && kept_allow_yes current;
  require_tty = entry.require_tty || kept_require_tty current;
}

abbrev pub class_rows : PolicyLayer → List (String × ApprovalClassPolicy)
class_rows l = l.policy.approvals_classes

unfoldable pub approvals : List PolicyLayer → Dict ApprovalClassPolicy
approvals ls = absorb join_class [] (gather class_rows ls)

unfoldable pub budget : List PolicyLayer → BudgetPolicy
budget ls = record {
  per_run = min_of (λ l. l.policy.budget.per_run) ls;
  per_day = min_of (λ l. l.policy.budget.per_day) ls;
  per_month = min_of (λ l. l.policy.budget.per_month) ls;
  max_consecutive_failures = min_of (λ l. l.policy.budget.max_consecutive_failures) ls;
}

-- the property `max_consecutive_failures`
unfoldable pub failure_limit : List PolicyLayer → Option ℕ
failure_limit ls = min_of (λ l. l.policy.max_consecutive_failures) ls

-- `limit if current is None else min(current, limit)`
abbrev pub lower : Option ℕ → ℕ → ℕ
lower none limit = limit
lower (some current) limit = if ltb limit current then limit else current

abbrev pub limits_of : Option RunLimits → List (String × ℕ)
limits_of none = []
limits_of (some (every_provider n)) = ("*", n) ∷ []
limits_of (some (by_provider d)) = d

abbrev pub run_rows : PolicyLayer → List (String × ℕ)
run_rows l = limits_of l.policy.max_concurrent_runs

abbrev pub limits_runs : PolicyLayer → Bool
limits_runs l = is_some l.policy.max_concurrent_runs

-- `found`
abbrev pub any_layer : (PolicyLayer → Bool) → List PolicyLayer → Bool
any_layer p [] = false
any_layer p (l ∷ ls) = p l || any_layer p ls

unfoldable pub max_concurrent_runs : List PolicyLayer → Option (Dict ℕ)
max_concurrent_runs ls =
    if any_layer limits_runs ls then some (absorb lower [] (gather run_rows ls)) else none

unfoldable pub trust_required : List PolicyLayer → List PolicySource
trust_required ls =
    gather
      (λ l.
        if l.policy.trust_require
        then source l (text "true") (key "trust" ∷ key "require" ∷ []) ∷ []
        else [])
      ls
