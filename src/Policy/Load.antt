-- ===== src/Policy/Load.antt =====
-- policy/layers.py: finding the policy files and reading them. The file system, the YAML reader and
-- the document model are parameters; a path is a text.
pub mod Found
use rayspec_py.Prelude.{
  ℕ, String, Bool, true, false, Option, none, some, List, [], ◌∷◌, ◌++◌, map, elem, if◌then◌else◌,
  str_eq, or_else,
}
use rayspec_py.Prelude.Result.{Result, ok, err, ◌>>=◌}
use rayspec_py.Prelude.Dict.{Dict, get}
use rayspec_py.Policy.Model.{Policy}
use rayspec_py.Policy.Layers.{Key, PolicyLayer}

pub record PolicyPath : Type 0 where
  pub name : String
  pub path : String

-- `OSError`, by the cases that the code tells apart.
pub data OsError : Type 0 where
  no_entry not_dir symlink_loop other_error : OsError

-- `st_mode`
pub data Mode : Type 0 where
  symlink directory regular special : Mode

-- What is wrong with a path.
pub data Trouble : Type 0 where
  missing unreadable link_loop dangling unresolved is_directory not_regular : Trouble

-- What a YAML text holds.
pub data Document (Tree : Type 0) : Type 0 where
  empty : Document Tree
  mapping : Tree → Document Tree
  other : Document Tree

pub data PolicyError : Type 0 where
  named_missing : String → PolicyError
  unusable_file : String → Trouble → PolicyError
  unreadable_file invalid_yaml not_mapping invalid_policy : String → PolicyError

pub record Files (Tree : Type 0) : Type 0 where
  pub lstat : String → Result OsError Mode
  pub stat : String → Result OsError Mode
  pub resolve : String → Option String
  pub read_text : String → Option String
  pub load_yaml_with_lines : String → Option (Document Tree × (List Key → Option ℕ))
  pub parse : Tree → Option Policy
  pub no_keys : Tree
  pub join : String → String → String
  pub relative_to : String → String → Option String
  pub expanduser : String → String

abbrev pub policy_env : String
policy_env = "RAYSPEC_POLICY"

module _ {Tree : Type 0} (fs : Files Tree) where
  abbrev named_layer : Option String → List PolicyPath
  named_layer none = []
  named_layer (some named) =
      if str_eq named "" then [] else record { name = policy_env; path = fs.expanduser named } ∷ []

  abbrev project_layer : Option String → List PolicyPath
  project_layer none = []
  project_layer (some root) =
      record { name = "project"; path = fs.join (fs.join root ".rayspec") "policy.yaml" } ∷ []

  unfoldable pub policy_paths : Option String → String → Dict String → List PolicyPath
  policy_paths root home env =
      named_layer (get env policy_env)
      ++ project_layer root
      ++ record { name = "user"; path = fs.join home "policy.yaml" } ∷ []

  abbrev under_root : String → Option String → Option String
  under_root path none = none
  under_root path (some root) = fs.relative_to path root

  abbrev under_home : String → Option String → String
  under_home path none = path
  under_home path (some p) = fs.join "~/.rayspec" p

  abbrev or_text : Option String → String → String
  or_text none t = t
  or_text (some s) t = s

  unfoldable pub short_path : String → Option String → String → String
  short_path path root home =
      or_text (under_root path root) (under_home path (fs.relative_to path home))

  abbrev of_mode : Mode → Option Trouble
  of_mode directory = some is_directory
  of_mode regular = none
  of_mode symlink = some not_regular
  of_mode special = some not_regular

  abbrev behind_link : Result OsError Mode → Option Trouble
  behind_link (ok m) = of_mode m
  behind_link (err symlink_loop) = some link_loop
  behind_link (err no_entry) = some dangling
  behind_link (err not_dir) = some dangling
  behind_link (err other_error) = some unresolved

  abbrev of_lstat : String → Result OsError Mode → Option Trouble
  of_lstat path (err no_entry) = some missing
  of_lstat path (err not_dir) = some unreadable
  of_lstat path (err symlink_loop) = some unreadable
  of_lstat path (err other_error) = some unreadable
  of_lstat path (ok symlink) = behind_link (fs.stat path)
  of_lstat path (ok directory) = of_mode directory
  of_lstat path (ok regular) = of_mode regular
  of_lstat path (ok special) = of_mode special

  -- `_unusable`
  unfoldable pub unusable : String → Option Trouble
  unusable path = of_lstat path (fs.lstat path)

  abbrev else_raise : {A : Type 0} → Option A → PolicyError → Result PolicyError A
  else_raise none e = err e
  else_raise (some a) e = ok a

  abbrev mapping_of : String → Document Tree → Result PolicyError Tree
  mapping_of label empty = ok fs.no_keys
  mapping_of label (mapping t) = ok t
  mapping_of label other = err (not_mapping label)

  abbrev layer_of : PolicyPath → String → (List Key → Option ℕ) → Policy → PolicyLayer
  layer_of c label lines policy = record {
    name = c.name;
    label = label;
    path = c.path;
    policy = policy;
    line_of = lines;
  }

  -- `_read_layer`
  abbrev pub read_layer : PolicyPath → String → Result PolicyError PolicyLayer
  read_layer c label = else_raise (fs.read_text c.path) (unreadable_file label) >>= λ text.
      else_raise (fs.load_yaml_with_lines text) (invalid_yaml label) >>= λ loaded.
      mapping_of label loaded.0 >>= λ tree.
      else_raise (fs.parse tree) (invalid_policy label) >>= λ policy.
      ok (layer_of c label loaded.1 policy)

  -- The key under which a file is loaded once.
  abbrev pub file_key : String → String
  file_key path = or_text (fs.resolve path) path

  abbrev pub add_layer :
      PolicyLayer → Result PolicyError (List PolicyLayer) → Result PolicyError (List PolicyLayer)
  add_layer l (ok ls) = ok (l ∷ ls)
  add_layer l (err e) = err e

  -- One candidate, and the loads of the ones behind it, with and without this file seen.
  abbrev pub load_one :
      PolicyPath
      → String
      → Option Trouble
      → List String
      → Result PolicyError (List PolicyLayer)
      → Result PolicyError (List PolicyLayer)
      → Result PolicyError (List PolicyLayer)
  load_one c label (some missing) seen skipped loaded =
      if str_eq c.name policy_env then err (named_missing label) else skipped
  load_one c label none seen skipped loaded =
      if elem (file_key c.path) seen
      then skipped
      else read_layer c label >>= λ l. add_layer l loaded
  load_one c label (some trouble) seen skipped loaded = err (unusable_file label trouble)

  -- The loop of `load_policy`.
  unfoldable pub load_each :
      (String → String) → List String → List PolicyPath → Result PolicyError (List PolicyLayer)
  load_each label_of seen [] = ok []
  load_each label_of seen (c ∷ cs) =
      let skipped = load_each label_of seen cs in
      let loaded = load_each label_of (file_key c.path ∷ seen) cs in
      load_one c (label_of c.path) (unusable c.path) seen skipped loaded

  unfoldable pub load_policy :
      Option String → String → Dict String → Result PolicyError (List PolicyLayer)
  load_policy root home env =
      load_each (λ path. short_path path root home) [] (policy_paths root home env)
