-- ===== src/Policy/Tightens.antt =====
-- A layer of a policy can only take away: policy/layers.py combines most-restrictive-wins.
use rayspec_py.Prelude.{ℕ, ◌≡◌, none, some, Bool, String, true, false, Option, List, []}
use rayspec_py.Prelude.Dict.{get}
use rayspec_py.Policy.Layers.Rows.{named}
use rayspec_py.Policy.Layers.{
  PolicyLayer, PolicySource, model_denied, provider_denied, mcp_denied, access_exceeded,
}
use rayspec_py.Policy.Layers.Smallest.{AtMost}
use rayspec_py.Policy.Merged.{
  change_guard, trust_required, failure_limit, tool_denied, approvals, budget, kept_allow_yes,
  kept_require_tty,
}
use rayspec_py.Policy.Merged.Answers.{limit_for}

-- The value of a cap of the change guard.
abbrev pub cap : Option (ℕ × List PolicySource) → Option ℕ
cap none = none
cap (some (value, sources)) = some value

-- Whatever the first layers permit, the second ones permit.
pub record Permitted (strict loose : List PolicyLayer) : Type 0 where
  pub providers : (x : String) → provider_denied strict x ≡ [] → provider_denied loose x ≡ []
  pub servers : (x : String) → mcp_denied strict x ≡ [] → mcp_denied loose x ≡ []
  pub access :
      (level : String) → access_exceeded strict level ≡ [] → access_exceeded loose level ≡ []
  pub models :
      (fnmatchcase : String → String → Bool) (x : String)
      → model_denied fnmatchcase strict x ≡ []
      → model_denied fnmatchcase loose x ≡ []
  pub tools : (entry : String) → tool_denied strict entry ≡ [] → tool_denied loose entry ≡ []
  pub trust : trust_required strict ≡ [] → trust_required loose ≡ []
  pub paths :
      (pattern : String)
      → named pattern (change_guard strict).protected_paths ≡ []
      → named pattern (change_guard loose).protected_paths ≡ []
  pub files :
      (n : ℕ)
      → AtMost n (cap (change_guard strict).max_changed_files)
      → AtMost n (cap (change_guard loose).max_changed_files)
  pub lines :
      (n : ℕ)
      → AtMost n (cap (change_guard strict).max_changed_lines)
      → AtMost n (cap (change_guard loose).max_changed_lines)
  pub yes :
      (name : String)
      → kept_allow_yes (get (approvals strict) name) ≡ true
      → kept_allow_yes (get (approvals loose) name) ≡ true
  pub tty :
      (name : String)
      → kept_require_tty (get (approvals strict) name) ≡ false
      → kept_require_tty (get (approvals loose) name) ≡ false
  pub day : (n : ℕ) → AtMost n (budget strict).per_day → AtMost n (budget loose).per_day
  pub month : (n : ℕ) → AtMost n (budget strict).per_month → AtMost n (budget loose).per_month
  pub run : (n : ℕ) → AtMost n (budget strict).per_run → AtMost n (budget loose).per_run
  pub budget_failures :
      (n : ℕ)
      → AtMost n (budget strict).max_consecutive_failures
      → AtMost n (budget loose).max_consecutive_failures
  pub failures : (n : ℕ) → AtMost n (failure_limit strict) → AtMost n (failure_limit loose)
  pub runs :
      (name : String) (n : ℕ) → AtMost n (limit_for strict name) → AtMost n (limit_for loose name)
