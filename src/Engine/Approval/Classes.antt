-- ===== src/Engine/Approval/Classes.antt =====
-- engine/approval_classes.py: what may approve a gate of a class
use rayspec_py.Prelude.{
  String, Bool, true, false, not, ◌&&◌, ◌||◌, Option, none, some, List, [], ◌∷◌, elem, is_some,
  if◌then◌else◌,
}
use rayspec_py.Prelude.Dict.{Dict, get}

pub record ClassRules : Type 0 where
  pub allow_yes : Bool
  pub require_tty : Bool

abbrev pub default_rules : ClassRules
default_rules = record { allow_yes = true; require_tty = false }

-- `pre_approved` is the set of --approve-class names.
pub record ApprovalClasses : Type 0 where
  pub rules : Dict ClassRules
  pub pre_approved : List String
  pub terminal_prompt : Bool
  pub policy_loaded : Bool

abbrev is_empty : Dict ClassRules → Bool
is_empty [] = true
is_empty (r ∷ rs) = false

unfoldable pub policy_in_force : ApprovalClasses → Bool
policy_in_force c = c.policy_loaded || not (is_empty c.rules)

abbrev or_default : Option ClassRules → ClassRules
or_default none = default_rules
or_default (some r) = r

unfoldable pub rules_for : ApprovalClasses → Option String → ClassRules
rules_for c none = default_rules
rules_for c (some name) = or_default (get c.rules name)

unfoldable pub unheld : ApprovalClasses → Option String → Bool
unheld c none = false
unheld c (some name) = not (is_some (get c.rules name))

unfoldable pub may_approve_automatically : ApprovalClasses → Option String → Bool
may_approve_automatically c name =
    (rules_for c name).allow_yes && not (rules_for c name).require_tty

unfoldable pub may_decide_out_of_band : ApprovalClasses → Option String → Bool
may_decide_out_of_band c name = not (rules_for c name).require_tty

unfoldable pub may_prompt : ApprovalClasses → Option String → Bool → Bool
may_prompt c name at_a_terminal =
    if not (rules_for c name).require_tty then true else c.terminal_prompt && at_a_terminal

-- `decision.by`: the automatic ways, the terminal, and what a stored decision names
pub data By : Type 0 where
  by_yes by_dry_run by_approve_class by_auto_if by_tty : By
  by_stored : String → By

abbrev pub pre_approves : ApprovalClasses → Option String → Bool
pre_approves c none = false
pre_approves c (some name) = elem name c.pre_approved

unfoldable pub automatic_by : ApprovalClasses → Option String → Bool → Bool → Option By
automatic_by c name flag_yes dry_run =
    if flag_yes
    then some by_yes
    else if dry_run
    then some by_dry_run
    else if pre_approves c name
    then some by_approve_class
    else none
