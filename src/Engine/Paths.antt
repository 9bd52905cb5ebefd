-- ===== src/Engine/Paths.antt =====
-- engine/paths.py: `StepPath`, its parser and its print, on the code points of a text. `digit` is the
-- value of a decimal digit, which for Python's `\d` and `int` is any of Unicode's.
pub mod Decimal
mod Split
pub mod RoundTrip
use rayspec_py.Prelude.{
  ℕ, zero, suc, ◌+◌, ◌*◌, Bool, true, false, ◌&&◌, Option, none, some, List, [], ◌∷◌, ◌++◌, map,
  ltb, ◌==◌, if◌then◌else◌,
}
use Prim.Native.Nat.{◌/◌, ◌%◌}
use rayspec_py.Prelude.Result.{Result, ok, err, ◌>>=◌, ◌>>◌}
use rayspec_py.Schema.Identifiers.{is_lower, is_word, IdentifierError, validate_identifier}

abbrev pub Segment : Type 0
Segment = List ℕ × Option ℕ

pub data PathError : Type 0 where
  bad_segment : List ℕ → PathError
  identifier : IdentifierError → PathError
  root_is_not_indexed : PathError
  already_indexed : ℕ → PathError

-- The name at the head of a segment: [a-z0-9_]*
unfoldable pub span_word : List ℕ → List ℕ × List ℕ
span_word [] = ([], [])
span_word (c ∷ cs) =
    let rest = span_word cs in if is_word c then (c ∷ rest.0, rest.1) else ([], c ∷ cs)

-- `$`: the end of the text, or a newline that ends it
abbrev pub at_end : List ℕ → Bool
at_end [] = true
at_end (c ∷ []) = c == 10
at_end _ = false

module _ (digit : ℕ → Option ℕ) where
  -- \d* with the value of `int`, on from `n`
  unfoldable pub span_digits : ℕ → List ℕ → ℕ × List ℕ
  span_digits n [] = (n, [])
  span_digits n (c ∷ cs) = elim (digit c) [
    | none ↦ (n, c ∷ cs)
    | some d ↦ span_digits (n * 10 + d) cs
  ]

  -- \]$
  abbrev pub close_index : List ℕ → ℕ × List ℕ → Option Segment
  close_index name (n, []) = none
  close_index name (n, c ∷ cs) = if c == b']' && at_end cs then some (name, some n) else none

  -- (?:\[(\d+)\])?$
  unfoldable pub match_index : List ℕ → List ℕ → Option Segment
  match_index name (bracket ∷ c ∷ cs) =
      let indexed : Option Segment = elim (digit c) [
        | none ↦ none
        | some d ↦ close_index name (span_digits d cs)
      ] in
      if bracket == b'[' then indexed else none
  match_index name _ = none

  -- _SEGMENT_RE.match, with `int` of the index
  unfoldable pub match_segment : List ℕ → Option Segment
  match_segment [] = none
  match_segment (c ∷ cs) =
      let (name, rest) = span_word cs in
      if is_lower c
      then (if at_end rest then some (c ∷ name, none) else match_index (c ∷ name) rest)
      else none

  -- One turn of the loop of `parse`.
  abbrev pub segment_of : List ℕ → Option Segment → Result PathError Segment
  segment_of raw none = err (bad_segment raw)
  segment_of raw (some s) = elim (validate_identifier s.0) [
    | err e ↦ err (identifier e)
    | ok name ↦ ok s
  ]

  unfoldable pub parse_segments : List (List ℕ) → Result PathError (List Segment)
  parse_segments [] = ok []
  parse_segments (raw ∷ raws) = do
    s ← segment_of raw (match_segment raw)
    rest ← parse_segments raws
    ok (s ∷ rest)

-- text.split("/")
abbrev pub push_head : ℕ → List (List ℕ) → List (List ℕ)
push_head c [] = (c ∷ []) ∷ []
push_head c (part ∷ parts) = (c ∷ part) ∷ parts

unfoldable pub split_slash : List ℕ → List (List ℕ)
split_slash [] = [] ∷ []
split_slash (c ∷ cs) =
    let rest = split_slash cs in if c == b'/' then [] ∷ rest else push_head c rest

-- StepPath.parse
unfoldable pub parse : (ℕ → Option ℕ) → List ℕ → Result PathError (List Segment)
parse digit [] = ok []
parse digit (c ∷ cs) = parse_segments digit (split_slash (c ∷ cs))

-- str(n), by the digits before those of `rest`: on fuel, of which more than `n` is enough
unfoldable pub decimal : ℕ → ℕ → List ℕ → List ℕ
decimal zero n rest = rest
decimal (suc fuel) n rest =
    let more = decimal fuel (n / 10) ((b'0' + n % 10) ∷ rest) in
    if ltb n 10 then (b'0' + n) ∷ rest else more

unfoldable pub print_segment : Segment → List ℕ
print_segment (name, none) = name
print_segment (name, some n) = name ++ b'[' ∷ decimal (suc n) n (b']' ∷ [])

-- StepPath.__str__
unfoldable pub print : List Segment → List ℕ
print [] = []
print (s ∷ []) = print_segment s
print (s ∷ t ∷ path) = print_segment s ++ b'/' ∷ print (t ∷ path)

-- StepPath.child
unfoldable pub child : List Segment → List ℕ → Result PathError (List Segment)
child path step_id = elim (validate_identifier step_id) [
  | err e ↦ err (identifier e)
  | ok name ↦ ok (path ++ (step_id, none) ∷ [])
]

-- StepPath.indexed, of an index that is not negative
unfoldable pub indexed : List Segment → ℕ → Result PathError (List Segment)
indexed [] index = err root_is_not_indexed
indexed ((name, none) ∷ []) index = ok ((name, some index) ∷ [])
indexed ((name, some current) ∷ []) index = err (already_indexed current)
indexed (s ∷ t ∷ path) index = do rest ← indexed (t ∷ path) index; ok (s ∷ rest)

-- StepPath.parent
unfoldable pub parent : List Segment → List Segment
parent [] = []
parent (s ∷ []) = []
parent (s ∷ t ∷ path) = s ∷ parent (t ∷ path)
