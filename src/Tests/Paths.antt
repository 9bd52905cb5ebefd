-- ===== src/Tests/Paths.antt =====
-- A path with an iteration and an item, printed and read back.
use rayspec_py.Prelude.{ℕ, ◌-◌, ◌≡◌, refl, Option, none, some, List, [], ◌∷◌, arith, if◌then◌else◌}
use rayspec_py.Prelude.Result.{ok, err}
use rayspec_py.Prelude.Texts.{codes, is_between}
use rayspec_py.Schema.Identifiers.{is_identifier, validate_identifier, reserved}
use rayspec_py.Engine.Paths.{
  Segment, parse, print, identifier, bad_segment, parse_segments, split_slash, match_segment,
  match_index, span_word, span_digits, print_segment, decimal, indexed,
}
use rayspec_py.Engine.Paths.Decimal.{IsDecimal}
use rayspec_py.Engine.Paths.RoundTrip.{Valid, parse-print}

abbrev ascii_digit : ℕ → Option ℕ
ascii_digit c = if is_between b'0' b'9' c then some (c - b'0') else none

ascii-IsDecimal : IsDecimal ascii_digit
ascii-IsDecimal = record { ascii = λ d h. ground arith; bracket = refl }

abbrev nested : List Segment
nested = (codes "build", some 12) ∷ (codes "fix_all", some 0) ∷ (codes "patch", none) ∷ []

nested-Valid : Valid nested
unfolding validate_identifier is_identifier
nested-Valid = (refl, (refl, (refl, tt)))

nested_text : print nested ≡ codes "build[12]/fix_all[0]/patch"
unfolding print print_segment decimal
nested_text = refl

parse-print_example : parse ascii_digit (print nested) ≡ ok nested
parse-print_example = parse-print ascii_digit ascii-IsDecimal nested nested-Valid

-- A reserved root names no step, and an index needs digits.
reserved_root : parse ascii_digit (codes "build/env") ≡ err (identifier reserved)
unfolding parse parse_segments split_slash match_segment match_index span_word span_digits
    validate_identifier is_identifier
reserved_root = refl

empty_index : parse ascii_digit (codes "build[]") ≡ err (bad_segment (codes "build[]"))
unfolding parse parse_segments split_slash match_segment match_index span_word span_digits
    validate_identifier is_identifier
empty_index = refl

-- The `$` of the pattern lets a newline end a segment.
newline_ends : parse ascii_digit (codes "build\n") ≡ ok ((codes "build", none) ∷ [])
unfolding parse parse_segments split_slash match_segment match_index span_word span_digits
    validate_identifier is_identifier
newline_ends = refl

indexed_leaf : indexed ((codes "build", none) ∷ []) 2 ≡ ok ((codes "build", some 2) ∷ [])
unfolding indexed
indexed_leaf = refl
