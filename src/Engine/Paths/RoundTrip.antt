-- ===== src/Engine/Paths/RoundTrip.antt =====
-- A step path is read back from its print (engine/paths.py).
use Prim.Native.Nat.{◌/◌, ◌%◌}
use rayspec_py.Prelude.{
  ℕ, zero, suc, ◌+◌, ◌<◌, ◌≡◌, refl, sym, ◌∙◌, ap, inl, inr, true, false, Option, none, some, List,
  [], ◌∷◌, ◌++◌, all, All, All-map, arith, ltb, Bool-cases,
}
use rayspec_py.Prelude.Result.{ok}
use rayspec_py.Schema.Identifiers.{is_lower, is_word, is_identifier, validate_identifier}
use rayspec_py.Engine.Paths.{
  Segment, at_end, span_word, match_segment, parse_segments, parse, split_slash, decimal,
  print_segment, print,
}
use rayspec_py.Engine.Paths.Decimal.{IsDecimal, match_index-decimal}
use rayspec_py.Engine.Paths.Split.{no_slash, split_slash-one, split_slash-append, no_slash-append}

-- Every name of the path is an identifier that may name a step.
abbrev pub Valid : List Segment → Type 0
Valid path = All (λ s. validate_identifier s.0 ≡ ok s.0) path

valid-is_identifier :
    (name : List ℕ) → validate_identifier name ≡ ok name → is_identifier name ≡ true
unfolding validate_identifier
valid-is_identifier name h = ground arith

-- What may stand behind a name: nothing, or a bracket.
span_word-name : (name : List ℕ) → all is_word name ≡ true → span_word name ≡ (name, [])
unfolding span_word
span_word-name [] h = refl
span_word-name (c ∷ cs) h = ground (arith, span_word-name cs)

span_word-bracket :
    (name rest : List ℕ)
    → all is_word name ≡ true
    → span_word (name ++ b'[' ∷ rest) ≡ (name, b'[' ∷ rest)
unfolding span_word
span_word-bracket [] rest h = refl
span_word-bracket (c ∷ cs) rest h = ground (arith, span_word-bracket cs rest)

word-no_slash : (name : List ℕ) → all is_word name ≡ true → no_slash name ≡ true
word-no_slash [] h = refl
word-no_slash (c ∷ cs) h = ground (arith, word-no_slash cs)

decimal-no_slash :
    (fuel n : ℕ) (rest : List ℕ)
    → n < fuel
    → no_slash rest ≡ true
    → no_slash (decimal fuel n rest) ≡ true
unfolding decimal
decimal-no_slash zero n rest l h = h
decimal-no_slash (suc fuel) n rest l h = elim (Bool-cases (ltb n 10)) [
  | inl small ↦ ground arith
  | inr large ↦
      let big : 9 < n = ground arith in
      let digit : n % 10 < 10 = omega arith in
      let more : no_slash ((b'0' + n % 10) ∷ rest) ≡ true = ground arith in
      rw large (decimal-no_slash fuel (n / 10) ((b'0' + n % 10) ∷ rest) (omega arith) more)
]

print_segment-no_slash :
    (s : Segment) → is_identifier s.0 ≡ true → no_slash (print_segment s) ≡ true
unfolding print_segment is_identifier
print_segment-no_slash ([], i) h = ground arith
print_segment-no_slash (c ∷ cs, none) h = ground (arith, word-no_slash cs)
print_segment-no_slash (c ∷ cs, some n) h =
    no_slash-append (c ∷ cs) (b'[' ∷ decimal (suc n) n (b']' ∷ []))
      (ground (arith, word-no_slash cs)) (ground (arith, decimal-no_slash (suc n) n (b']' ∷ [])))

at_end-bracket : (rest : List ℕ) → at_end (b'[' ∷ rest) ≡ false
at_end-bracket [] = refl
at_end-bracket (c ∷ cs) = refl

is_identifier-cons :
    (c : ℕ) (cs : List ℕ)
    → is_identifier (c ∷ cs) ≡ true
    → (is_lower c ≡ true) × (all is_word cs ≡ true)
unfolding is_identifier
is_identifier-cons c cs h = (ground arith, ground arith)

print-cons :
    (s : Segment) → is_identifier s.0 ≡ true → (c : ℕ) × (cs : List ℕ) × (print_segment s ≡ c ∷ cs)
unfolding print_segment is_identifier
print-cons ([], i) v = ground arith
print-cons (c ∷ cs, none) v = (c, cs, refl)
print-cons (c ∷ cs, some n) v = (c, cs ++ b'[' ∷ decimal (suc n) n (b']' ∷ []), refl)

-- A printed path splits into the prints of its segments.
abbrev print_all : List Segment → List (List ℕ)
print_all [] = []
print_all (s ∷ path) = print_segment s ∷ print_all path

split_slash-print :
    (s : Segment) (path : List Segment)
    → All (λ t. is_identifier t.0 ≡ true) (s ∷ path)
    → split_slash (print (s ∷ path)) ≡ print_all (s ∷ path)
unfolding print
split_slash-print s [] v = split_slash-one (print_segment s) (print_segment-no_slash s v.0)
split_slash-print s (t ∷ path) v =
    split_slash-append (print_segment s) (print (t ∷ path)) (print_segment-no_slash s v.0)
    ∙ ap (λ parts. print_segment s ∷ parts) (split_slash-print t path v.1)

print-not_empty :
    (s : Segment) (path : List Segment)
    → is_identifier s.0 ≡ true
    → (c : ℕ) × (cs : List ℕ) × (print (s ∷ path) ≡ c ∷ cs)
unfolding print
print-not_empty s [] v = print-cons s v
print-not_empty s (t ∷ path) v =
    let (c, cs, e) = print-cons s v in
    (c, cs ++ b'/' ∷ print (t ∷ path), ap (λ p. p ++ b'/' ∷ print (t ∷ path)) e)

module _ (digit : ℕ → Option ℕ) (h : IsDecimal digit) where
  match_segment-print :
      (s : Segment) → is_identifier s.0 ≡ true → match_segment digit (print_segment s) ≡ some s
  unfolding match_segment print_segment is_identifier
  match_segment-print ([], i) v = ground arith
  match_segment-print (c ∷ cs, none) v =
      let (lower, words) = is_identifier-cons c cs v in
      let span = span_word-name cs words in rw (lower, span) refl
  match_segment-print (c ∷ cs, some n) v =
      let (lower, words) = is_identifier-cons c cs v in
      let span = span_word-bracket cs (decimal (suc n) n (b']' ∷ [])) words in
      let behind = at_end-bracket (decimal (suc n) n (b']' ∷ [])) in
      rw (lower, span, behind) (match_index-decimal digit h (c ∷ cs) n)

  parse_segments-print :
      (path : List Segment) → Valid path → parse_segments digit (print_all path) ≡ ok path
  unfolding parse_segments
  parse_segments-print [] v = refl
  parse_segments-print (s ∷ path) v =
      let m = match_segment-print s (valid-is_identifier s.0 v.0) in
      let one = v.0 in let rest = parse_segments-print path v.1 in ground arith

  parsed :
      (c : ℕ) (cs : List ℕ) → parse digit (c ∷ cs) ≡ parse_segments digit (split_slash (c ∷ cs))
  unfolding parse
  parsed c cs = refl

  -- For digits that extend those of ASCII, a path whose names may all name a step, the root
  -- included, is what the parser reads from the print of the path.
  pub parse-print : (path : List Segment) → Valid path → parse digit (print path) ≡ ok path
  parse-print [] v = unfold parse print in refl
  parse-print (s ∷ path) v =
      let i = All-map (λ t. valid-is_identifier t.0) (s ∷ path) v in
      let (c, cs, e) = print-not_empty s path i.0 in
      ap (parse digit) e
      ∙ parsed c cs
      ∙ ap (λ t. parse_segments digit (split_slash t)) (sym e)
      ∙ ap (parse_segments digit) (split_slash-print s path i)
      ∙ parse_segments-print (s ∷ path) v
