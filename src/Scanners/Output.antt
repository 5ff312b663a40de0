-- ===== src/Scanners/Output.antt =====
-- The output of a scanner: `parse_json_report`, `tail` and `first_error_line` of base.py. The decoder of
-- JSON with the parser of the scanner, `str.lower` and `str.splitlines` are parameters.
use rotsy.Base.{
  ℕ, ◌-◌, Bool, true, false, Option, none, some, List, [], ◌∷◌, ◌++◌, Text, text, strip, contains,
  any, leb, length, take, drop, keep_if, map, ◌==◌, if◌then◌else◌,
}
use rotsy.Scanners.Outcome.{Finding}

-- What the decoder and the parser make of a document: a text that is no JSON, the findings, or an
-- exception for a document of another shape.
pub data Parsed : Type 0 where
  undecodable : Text → Parsed
  parsed : List Finding → Parsed
  unexpected : Text → Parsed

abbrev pub is_blank : Text → Bool
is_blank [] = true
is_blank (c ∷ s) = false

-- The text from its first brace on, or the whole of one that has none.
unfoldable pub from_brace : Text → Option Text
from_brace [] = none
from_brace (c ∷ s) = if c == 123 then some (c ∷ s) else from_brace s

abbrev pub or_whole : Text → Option Text → Text
or_whole whole none = whole
or_whole whole (some part) = part

-- `parse_json_report`; an output that is blank is an empty document, which has no findings.
unfoldable pub parse_json_report : (Text → Parsed) → Text → Parsed
unfolding from_brace
parse_json_report loads output =
    if is_blank (strip output) then parsed [] else loads (or_whole output (from_brace output))

-- `tail`, with its limit
unfoldable pub tail : ℕ → Text → Text
tail limit output =
    let cleaned = strip output in
    if leb (length cleaned) limit
    then cleaned
    else text "…" ++ drop (length cleaned - limit) cleaned

abbrev pub error_words : List Text
error_words =
    text "error"
    ∷ text "fatal"
    ∷ text "failed"
    ∷ text "denied"
    ∷ text "refused"
    ∷ text "unauthorized"
    ∷ text "not found"
    ∷ text "no such host"
    ∷ []

-- The last line that passes the test, and the last line.
abbrev pub last_line : (Text → Bool) → List Text → Option Text
last_line test [] = none
last_line test (line ∷ lines) = elim (last_line test lines) [
  | some later ↦ some later
  | none ↦ if test line then some line else none
]

-- The loop from the last line on: the last line that names an error, or else the last line.
unfoldable pub first_error_line : (Text → Text) → (Text → List Text) → Text → Text
first_error_line lower splitlines stderr =
    let lines =
      keep_if (λ line. elim line [ [] ↦ false | _ ∷ _ ↦ true ]) (map strip (splitlines stderr)) in
    let names_error = λ (line : Text). any (λ word. contains word (lower line)) error_words in
    elim (last_line names_error lines) [
      | some line ↦ take 500 line
      | none ↦ elim (last_line (λ line. true) lines) [ none ↦ [] | some line ↦ take 500 line ]
    ]
