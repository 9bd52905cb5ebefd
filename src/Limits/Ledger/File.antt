-- ===== src/Limits/Ledger/File.antt =====
-- limits/ledger.py: the operations of `SpendLedger` on its file, with what they warn of.
use rayspec_py.Prelude.{
  zero, suc, String, Bool, false, Option, none, some, List, [], ◌∷◌, ◌++◌, ltb, if◌then◌else◌,
}
use rayspec_py.Prelude.Int.{ℤ, pos, negsuc}
use rayspec_py.Limits.Ledger.{Json, Doc, fresh, SpendState, Moment, Broken, repair, state_of, int}
use rayspec_py.Limits.Ledger.Books.{commit_doc, outcome_doc}

-- What stands at the ledger's path.
pub data File : Type 0 where
  missing unreadable blank not_json not_object : File
  holds : Doc → File

-- Why a ledger was replaced, or what was unreadable in it.
pub data Warning : Type 0 where
  cannot_be_read is_empty is_not_json is_not_a_document has_no_version is_newer : Warning
  unreadable_values : List Broken → Warning

pub record Ledger : Type 0 where
  pub file : File
  pub warnings : List Warning

abbrev pub say : Ledger → Warning → Ledger
say l w = record l { warnings = l.warnings ++ w ∷ [] }

-- the checks of the version: none where the document is read as it is
unfoldable pub version_problem : Option Json → Option Warning
version_problem none = none
version_problem (some (int (negsuc n))) = some has_no_version
version_problem (some (int (pos zero))) = some has_no_version
version_problem (some (int (pos (suc n)))) = if ltb 0 n then some is_newer else none
version_problem (some _) = some has_no_version

abbrev pub note_broken : Ledger → List Broken → Ledger
note_broken l [] = l
note_broken l (b ∷ bs) = say l (unreadable_values (b ∷ bs))

abbrev pub read_document : Ledger → Doc → Option Warning → Doc × Ledger
read_document l d (some w) = (fresh, say l w)
read_document l d none = let (d', broken) = repair d in (d', note_broken l broken)

-- _read
unfoldable pub read_file : Ledger → File → Doc × Ledger
read_file l missing = (fresh, l)
read_file l unreadable = (fresh, say l cannot_be_read)
read_file l blank = (fresh, say l is_empty)
read_file l not_json = (fresh, say l is_not_json)
read_file l not_object = (fresh, say l is_not_a_document)
read_file l (holds d) = read_document l d (version_problem d.version)

-- _write stamps the version
abbrev pub write : Ledger → Doc → Ledger
write l d = record l { file = holds (record d { version = some (int (pos 1)) }) }

unfoldable pub read : Ledger → Moment → SpendState × Ledger
read l when = let (d, l') = read_file l l.file in (state_of d when, l')

abbrev pub commit_end : Moment → Ledger → Option Doc → Option SpendState × Ledger
commit_end when l none = (none, l)
commit_end when l (some d) = (some (state_of d when), write l d)

-- none: the exception of `commit_doc`, after which the file is as it was
unfoldable pub commit : Ledger → String → Option ℤ → Moment → Option SpendState × Ledger
commit l run_id cost when =
    let (d, l') = read_file l l.file in commit_end when l' (commit_doc d run_id cost when)

unfoldable pub record_outcome : Ledger → Bool → Ledger
record_outcome l failed = let (d, l') = read_file l l.file in write l' (outcome_doc d failed)

unfoldable pub reset_failures : Ledger → Ledger
reset_failures l = let (d, l') = read_file l l.file in write l' (outcome_doc d false)
