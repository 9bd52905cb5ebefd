-- ===== src/Policy/Layers.antt =====
-- policy/layers.py: the layers of a policy, combined most-restrictive-wins. A layer's line map is
-- a function; the value that a source quotes is kept before it is printed.
pub mod Rows
pub mod Smallest
pub mod Permits
use rayspec_py.Prelude.{
  ℕ, zero, suc, String, Bool, true, false, not, ◌&&◌, ◌||◌, Option, none, some, List, [], ◌∷◌, ◌++◌,
  elem, select, ltb, leb, ◌==◌, if◌then◌else◌, str_eq, is_some,
}
use rayspec_py.Prelude.Dict.{Dict, get, put}
use rayspec_py.Policy.Model.{
  Policy, RunLimits, every_provider, by_provider, WorkspacePolicy, BudgetPolicy,
  ApprovalClassPolicy, access_rank,
}

-- A part of the place of a line: a key or an index.
pub data Key : Type 0 where
  key : String → Key
  at : ℕ → Key

-- The value a restriction has, as it is quoted.
pub data Shown : Type 0 where
  text : String → Shown
  listed : List String → Shown
  number : ℕ → Shown
  class_rule : String → String → Shown
  run_limits : RunLimits → Shown

pub record PolicySource : Type 0 where
  pub layer : String
  pub label : String
  pub line : Option ℕ
  pub value : Shown

pub record PolicyLayer : Type 0 where
  pub name : String
  pub label : String
  pub path : String
  pub policy : Policy
  pub line_of : List Key → Option ℕ

unfoldable pub source : PolicyLayer → Shown → List Key → PolicySource
source l v keys = record { layer = l.name; label = l.label; line = l.line_of keys; value = v }

-- A loop over the layers that appends what each gives.
abbrev pub gather {ℓ} : {A : Type ℓ} → (PolicyLayer → List A) → List PolicyLayer → List A
gather f [] = []
gather f (l ∷ ls) = f l ++ gather f ls

-- A loop over `enumerate(xs)` that appends one entry for each.
abbrev pub numbered {ℓ} : {A : Type ℓ} → (ℕ → String → A) → ℕ → List String → List A
numbered f i [] = []
numbered f i (x ∷ xs) = f i x ∷ numbered f (suc i) xs

-- The entry of an allow-list that leaves `x` out.
abbrev pub left_out : PolicyLayer → String → List Key → Option (List String) → List PolicySource
left_out l x keys none = []
left_out l x keys (some allow) = if elem x allow then [] else source l (listed allow) keys ∷ []

unfoldable pub provider_denied : List PolicyLayer → String → List PolicySource
provider_denied ls x =
    gather (λ l. left_out l x (key "providers" ∷ key "allow" ∷ []) l.policy.providers_allow) ls

unfoldable pub mcp_denied : List PolicyLayer → String → List PolicySource
mcp_denied ls x =
    gather (λ l. left_out l x (key "mcp" ∷ key "allow_servers" ∷ []) l.policy.mcp_allow_servers) ls

-- The patterns of one layer's `models.deny` that match, by `fnmatch.fnmatchcase`.
abbrev pub matching :
    (String → String → Bool) → PolicyLayer → String → ℕ → List String → List PolicySource
matching fnmatchcase l model i [] = []
matching fnmatchcase l model i (pattern ∷ patterns) =
    let rest = matching fnmatchcase l model (suc i) patterns in
    if str_eq model pattern || fnmatchcase model pattern
    then source l (text pattern) (key "models" ∷ key "deny" ∷ at i ∷ []) ∷ rest
    else rest

unfoldable pub model_denied :
    (String → String → Bool) → List PolicyLayer → String → List PolicySource
model_denied fnmatchcase ls model =
    gather (λ l. matching fnmatchcase l model 0 l.policy.models_deny) ls

-- `_intersect`
abbrev pub narrow : Option (List String) → Option (List String) → Option (List String)
narrow allowed none = allowed
narrow none (some current) = some current
narrow (some allowed) (some current) = some (select (λ x. elem x current) allowed)

abbrev pub intersect_from :
    (PolicyLayer → Option (List String))
    → Option (List String)
    → List PolicyLayer
    → Option (List String)
intersect_from pick allowed [] = allowed
intersect_from pick allowed (l ∷ ls) = intersect_from pick (narrow allowed (pick l)) ls

unfoldable pub allowed_providers : List PolicyLayer → Option (List String)
allowed_providers = intersect_from (λ l. l.policy.providers_allow) none

unfoldable pub allowed_mcp_servers : List PolicyLayer → Option (List String)
allowed_mcp_servers = intersect_from (λ l. l.policy.mcp_allow_servers) none

-- Python's `min`, and `None` for no values.
abbrev pub least : ℕ → List ℕ → ℕ
least m [] = m
least m (x ∷ xs) = least (if ltb x m then x else m) xs

abbrev pub min_present : List ℕ → Option ℕ
min_present [] = none
min_present (x ∷ xs) = some (least x xs)

abbrev pub one {ℓ} : {A : Type ℓ} → Option A → List A
one none = []
one (some x) = x ∷ []

-- The values that the layers set.
abbrev pub present : (PolicyLayer → Option ℕ) → List PolicyLayer → List ℕ
present pick ls = gather (λ l. one (pick l)) ls

-- `_min_of`, `_min_int`
abbrev pub min_of : (PolicyLayer → Option ℕ) → List PolicyLayer → Option ℕ
min_of pick ls = min_present (present pick ls)

abbrev pub ranked : Option String → Option ℕ
ranked none = none
ranked (some level) = some (access_rank level)

abbrev pub level_at : ℕ → PolicyLayer → Option String → List (String × PolicySource)
level_at lowest l none = []
level_at lowest l (some level) =
    if access_rank level == lowest
    then (level, source l (text level) (key "access" ∷ key "max" ∷ [])) ∷ []
    else []

abbrev pub sources_of : List (String × PolicySource) → List PolicySource
sources_of [] = []
sources_of ((level, s) ∷ rows) = s ∷ sources_of rows

-- `sources[0].value, sources`
abbrev pub first_level : List (String × PolicySource) → Option (String × List PolicySource)
first_level [] = none
first_level ((level, s) ∷ rows) = some (level, s ∷ sources_of rows)

abbrev pub max_rank : PolicyLayer → Option ℕ
max_rank l = ranked l.policy.access_max

unfoldable pub max_access : List PolicyLayer → Option (String × List PolicySource)
max_access ls = elim (min_of max_rank ls) [
  | none ↦ none
  | some lowest ↦ first_level (gather (λ l. level_at lowest l l.policy.access_max) ls)
]

abbrev pub above : String → Option (String × List PolicySource) → List PolicySource
above access none = []
above access (some (level, sources)) =
    if leb (access_rank access) (access_rank level) then [] else sources

unfoldable pub access_exceeded : List PolicyLayer → String → List PolicySource
access_exceeded ls access = above access (max_access ls)
