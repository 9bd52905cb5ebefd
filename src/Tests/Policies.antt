-- ===== src/Tests/Policies.antt =====
-- A project policy and a user policy, and the files that they are read from.
use rayspec_py.Prelude.{
  ◌≤◌, ◌≡◌, ◌↔◌, ◌⊎◌, refl, String, true, false, none, some, List, [], ◌∷◌, All, str_eq,
  if◌then◌else◌,
}
use rayspec_py.Prelude.Result.{ok, err}
use rayspec_py.Prelude.Dict.{get, put}
use rayspec_py.Limits.Policy.{limits_for}
use rayspec_py.Policy.Model.{Policy, every_provider, by_provider}
use rayspec_py.Policy.Layers.{PolicyLayer, provider_denied, allowed_providers}
use rayspec_py.Policy.Layers.Rows.{named, absorb}
use rayspec_py.Policy.Layers.Smallest.{AtMost}
use rayspec_py.Policy.Layers.Permits.{Allows, provider_denied-Allows}
use rayspec_py.Policy.Merged.{run_rows, max_concurrent_runs}
use rayspec_py.Policy.Merged.Answers.{max_concurrent_runs-AtMost, effective, Unlimited}
use rayspec_py.Policy.Load.{
  Files, regular, no_entry, mapping, load_policy, load_each, policy_paths, unusable, short_path,
}
use rayspec_py.Policy.Load.Found.{Accounted, load_policy-Accounted}

abbrev open_policy : Policy
open_policy = record {
  providers_allow = none;
  models_deny = [];
  access_max = none;
  tools_deny = [];
  mcp_allow_servers = none;
  workspace = record { protected_paths = []; max_changed_files = none; max_changed_lines = none };
  approvals_classes = [];
  trust_require = false;
  budget = record {
    per_run = none;
    per_day = none;
    per_month = none;
    max_consecutive_failures = none;
  };
  max_consecutive_failures = none;
  max_concurrent_runs = none;
}

abbrev strict_policy : Policy
strict_policy = record open_policy {
  providers_allow = some ("claude" ∷ []);
  access_max = some "workspace-write";
  tools_deny = "web" ∷ [];
  approvals_classes = ("release", record { allow_yes = false; require_tty = true }) ∷ [];
  budget = record {
    per_run = some 50;
    per_day = some 200;
    per_month = none;
    max_consecutive_failures = none;
  };
  max_concurrent_runs = some (every_provider 1);
}

abbrev layer : String → Policy → PolicyLayer
layer path policy = record {
  name = path;
  label = path;
  path = path;
  policy = policy;
  line_of = λ keys. none;
}

abbrev project : PolicyLayer
project = layer "project" strict_policy

abbrev user : PolicyLayer
user = layer "user" (record open_policy {
  max_concurrent_runs = some (by_provider (("*", 4) ∷ ("claude", 2) ∷ []));
})

abbrev layers : List PolicyLayer
layers = project ∷ user ∷ []

provider_denied-Allows_example :
    ((provider_denied layers "codex" ≡ [])
      ↔ All (λ l. Allows l.policy.providers_allow "codex") layers)
    × ((provider_denied layers "codex" ≡ []) ↔ Allows (allowed_providers layers) "codex")
provider_denied-Allows_example = provider_denied-Allows layers "codex"

-- The bare 1 of the project does not hold for the provider that the user's policy names.
named_over_bare : effective layers "claude" ≡ some 2
unfolding max_concurrent_runs limits_for get put absorb
named_over_bare = refl

max_concurrent_runs-AtMost_example : AtMost 2 (effective layers "claude") ↔ (
    (Unlimited layers "claude"
      × All (λ l. All (λ limit. 2 ≤ limit) (named "*" (run_rows l))) layers)
    ⊎ ((¬ Unlimited layers "claude")
        × All (λ l. All (λ limit. 2 ≤ limit) (named "claude" (run_rows l))) layers))
max_concurrent_runs-AtMost_example = max_concurrent_runs-AtMost layers "claude" 2

-- A file system with the user's policy alone.
abbrev files : Files Policy
files = record {
  lstat = λ path. if str_eq path "home/policy.yaml" then ok regular else err no_entry;
  stat = λ path. err no_entry;
  resolve = λ path. some path;
  read_text = λ path. some "";
  load_yaml_with_lines = λ t. some (mapping open_policy, λ keys. none);
  parse = λ t. some t;
  no_keys = open_policy;
  join = λ a b. if str_eq a "home" then "home/policy.yaml" else "root/policy.yaml";
  relative_to = λ path root. none;
  expanduser = λ path. path;
}

abbrev loaded : PolicyLayer
loaded = record {
  name = "user";
  label = "home/policy.yaml";
  path = "home/policy.yaml";
  policy = open_policy;
  line_of = λ keys. none;
}

user_loaded : load_policy files (some "root") "home" [] ≡ ok (loaded ∷ [])
unfolding load_policy load_each policy_paths unusable short_path get
user_loaded = refl

load_policy-Accounted_example :
    All (Accounted files [] (loaded ∷ [])) (policy_paths files (some "root") "home" [])
load_policy-Accounted_example =
    load_policy-Accounted files (some "root") "home" [] (loaded ∷ []) user_loaded
