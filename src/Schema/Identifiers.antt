-- ===== src/Schema/Identifiers.antt =====
-- schema/common.py: `validate_identifier` and `validate_name`, on the code points of a text.
use rayspec_py.Prelude.{ℕ, Bool, false, ◌&&◌, ◌||◌, not, List, [], ◌∷◌, all, any, length, leb, ◌==◌}
use rayspec_py.Prelude.Result.{Result, ok, require, ◌>>◌}
use rayspec_py.Prelude.Texts.{codes, codes_eq, is_between}

-- The classes of IDENT_RE.
abbrev pub is_lower : ℕ → Bool
is_lower c = is_between b'a' b'z' c

abbrev pub is_word : ℕ → Bool
is_word c = is_lower c || (is_between b'0' b'9' c || c == b'_')

-- IDENT_RE.fullmatch
unfoldable pub is_identifier : List ℕ → Bool
is_identifier [] = false
is_identifier (c ∷ cs) = is_lower c && all is_word cs

-- MAX_IDENT_LEN
abbrev pub max_ident_len : ℕ
max_ident_len = 128

-- RESERVED_ROOTS
abbrev pub reserved_roots : List (List ℕ)
reserved_roots =
    codes "inputs"
    ∷ codes "steps"
    ∷ codes "run"
    ∷ codes "project"
    ∷ codes "env"
    ∷ codes "iteration"
    ∷ codes "each"
    ∷ codes "loop"
    ∷ codes "self"
    ∷ codes "true"
    ∷ codes "false"
    ∷ codes "none"
    ∷ codes "null"
    ∷ []

-- The ValueErrors, by their message.
pub data IdentifierError : Type 0 where
  must_match too_long reserved : IdentifierError

unfoldable pub validate_name : List ℕ → Result IdentifierError (List ℕ)
validate_name value = do
  require (is_identifier value) must_match
  require (leb (length value) max_ident_len) too_long
  ok value

unfoldable pub validate_identifier : List ℕ → Result IdentifierError (List ℕ)
validate_identifier value = do
  require (is_identifier value) must_match
  require (leb (length value) max_ident_len) too_long
  require (not (any (codes_eq value) reserved_roots)) reserved
  ok value
