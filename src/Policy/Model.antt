-- ===== src/Policy/Model.antt =====
-- policy/model.py: one `policy.yaml` document. A block of the document that has one key is a
-- field of `Policy`, named by the block and the key. An amount is a number of 10^-10 USD, and is
-- not negative (`Field(ge=0)`).
use rayspec_py.Prelude.{ℕ, suc, String, Bool, Option, List, [], ◌∷◌, str_eq, if◌then◌else◌}
use rayspec_py.Prelude.Dict.{Dict}

pub record WorkspacePolicy : Type 0 where
  pub protected_paths : List String
  pub max_changed_files : Option ℕ
  pub max_changed_lines : Option ℕ

pub record BudgetPolicy : Type 0 where
  pub per_run : Option ℕ
  pub per_day : Option ℕ
  pub per_month : Option ℕ
  pub max_consecutive_failures : Option ℕ

pub record ApprovalClassPolicy : Type 0 where
  pub allow_yes : Bool
  pub require_tty : Bool

-- `max_concurrent_runs`: a bare number, or a number for each provider.
pub data RunLimits : Type 0 where
  every_provider : ℕ → RunLimits
  by_provider : Dict ℕ → RunLimits

pub record Policy : Type 0 where
  pub providers_allow : Option (List String)
  pub models_deny : List String
  pub access_max : Option String
  pub tools_deny : List String
  pub mcp_allow_servers : Option (List String)
  pub workspace : WorkspacePolicy
  pub approvals_classes : Dict ApprovalClassPolicy
  pub trust_require : Bool
  pub budget : BudgetPolicy
  pub max_consecutive_failures : Option ℕ
  pub max_concurrent_runs : Option RunLimits

-- `ACCESS_ORDER`
abbrev access_order : List String
access_order = "read-only" ∷ "workspace-write" ∷ "full" ∷ []

-- The index of an entry, or the length of the list.
abbrev index_or_length : String → List String → ℕ
index_or_length x [] = 0
index_or_length x (y ∷ ys) = let rest = index_or_length x ys in if str_eq y x then 0 else suc rest

unfoldable pub access_rank : String → ℕ
access_rank level = index_or_length level access_order
