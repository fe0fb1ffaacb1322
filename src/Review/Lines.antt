-- ===== src/Review/Lines.antt =====
-- internal/review/parse.go: the lines of a reviewer's output block, one at a time.
use machinist.Base.{
  ℕ, Text, codes, text_eq, Bool, true, false, ◌&&◌, ◌||◌, not, Option, none, some, List, [], ◌∷◌,
  ◌++◌, is_empty, leb, ◌==◌, if◌then◌else◌, cut, trim_prefix, trim_space,
}
use machinist.Base.Result.{Result, ok, err, ◌>>=◌}
use machinist.Review.Types.{severity_of, severity_valid, Finding, normalize}

-- The errors of Parse, with the line number or the finding line that their messages name.
pub data ParseError : Type 0 where
  unknown_key duplicate_key unknown_verdict bad_high_risk : ℕ → Text → ParseError
  verdict_missing : ParseError
  malformed_finding finding_no_path finding_no_issue : Text → ParseError
  unknown_severity : Text → Text → ParseError

-- `\s` of a regular expression: no vertical tab.
abbrev is_regexp_space : ℕ → Bool
is_regexp_space c = c == 9 || c == 10 || c == 12 || c == 13 || c == 32

skip_space : Text → Text
skip_space [] = []
skip_space (c ∷ s) = if is_regexp_space c then skip_space s else c ∷ s

abbrev is_capital : ℕ → Bool
is_capital c = leb b'A' c && leb c b'Z'

abbrev prepend : ℕ → Option (Text × Text) → Option (Text × Text)
prepend c none = none
prepend c (some (k, v)) = some (c ∷ k, v)

-- `[A-Z_]*:\s*(.*)$`
header_tail : Text → Option (Text × Text)
unfolding skip_space
header_tail [] = none
header_tail (c ∷ s) =
    let rest = header_tail s in
    if c == b':'
    then some ([], skip_space s)
    else if is_capital c || c == b'_'
    then prepend c rest
    else none

-- headerPattern: `^([A-Z][A-Z_]*):\s*(.*)$`
unfoldable pub header : Text → Option (Text × Text)
unfolding header_tail
header [] = none
header (c ∷ s) = if is_capital c then prepend c (header_tail s) else none

-- `[^\]]+\]` and what stands behind it, from behind the `[`
abbrev nonempty_rest : Option (Text × Text) → Option (Text × Text)
nonempty_rest none = none
nonempty_rest (some (a, [])) = none
nonempty_rest (some (a, c ∷ r)) = if is_empty a then none else some (a, c ∷ r)

bracket_tail : Text → Option (Text × Text)
unfolding skip_space
bracket_tail [] = none
bracket_tail (c ∷ s) =
    let rest = bracket_tail s in if c == b']' then some ([], skip_space s) else prepend c rest

open_bracket : Text → Option (Text × Text)
unfolding bracket_tail
open_bracket [] = none
open_bracket (c ∷ s) = if c == b'[' then nonempty_rest (bracket_tail s) else none

-- findingPattern: `^-\s*\[([^\]]+)\]\s*(.+)$`. A finding line is trimmed, so that `\s*` never gives
-- a character back to `.+`.
unfoldable pub finding_match : Text → Option (Text × Text)
unfolding open_bracket skip_space
finding_match [] = none
finding_match (c ∷ s) = if c == b'-' then open_bracket (skip_space s) else none

-- The em dash (three bytes of UTF-8), and its two forms in ASCII.
abbrev em_dash : Text
em_dash = 0xe2 ∷ 0x80 ∷ 0x94 ∷ []

abbrev finding_separators : List Text
finding_separators = em_dash ∷ codes " -- " ∷ codes " - " ∷ []

split_at : Text → List Text → Text × Text
split_at rest [] = (trim_space rest, [])
split_at rest (sep ∷ seps) = elim (cut sep rest) [
  | none ↦ split_at rest seps
  | some (issue, recommendation) ↦ (trim_space issue, trim_space recommendation)
]

unfoldable pub split_recommendation : Text → Text × Text
unfolding split_at
split_recommendation rest = split_at rest finding_separators

unfoldable pub is_none : Text → Bool
is_none value = let trimmed = normalize value in is_empty trimmed || text_eq trimmed (codes "none")

-- strings.FieldsFunc at commas and spaces; the items are trimmed, and the empty ones left out.
abbrev is_list_separator : ℕ → Bool
is_list_separator c = c == b',' || c == b' '

add_item : Text → List Text → List Text
add_item field items = let item = trim_space field in if is_empty item then items else item ∷ items

list_fields : Text → Text → List Text
unfolding add_item
list_fields word [] = add_item word []
list_fields word (c ∷ s) =
    let next = add_item word (list_fields [] s) in
    let more = list_fields (word ++ c ∷ []) s in if is_list_separator c then next else more

unfoldable pub parse_list : Text → List Text
unfolding list_fields
parse_list value = if is_none value then [] else list_fields [] value

-- parseBool; `none` is its error.
unfoldable pub parse_bool : Text → Option Bool
parse_bool value =
    let v = normalize value in
    if text_eq v (codes "yes") || text_eq v (codes "true")
    then some true
    else if text_eq v (codes "no") || text_eq v (codes "false")
    then some false
    else none

abbrev issue_found : Text → Finding → Result ParseError Finding
issue_found line f = if is_empty f.issue then err (finding_no_issue line) else ok f

finding_at : Text → Text → Text × Text → Result ParseError Finding
finding_at line severity (path, rest) =
    if is_empty (trim_space path)
    then err (finding_no_path line)
    else issue_found line (record {
      severity = severity_of (normalize severity);
      path = trim_space path;
      issue = (split_recommendation rest).0;
      recommendation = (split_recommendation rest).1;
    })

finding_body : Text → Text × Text → Result ParseError Finding
unfolding finding_at
finding_body line (severity, body) =
    if not (severity_valid (severity_of (normalize severity)))
    then err (unknown_severity line severity)
    else elim (cut (codes ":") body) [
      | none ↦ err (finding_no_path line)
      | some parts ↦ finding_at line severity parts
    ]

unfoldable pub parse_finding : Text → Result ParseError Finding
unfolding finding_body
parse_finding line = elim (finding_match line) [
  | none ↦ err (malformed_finding line)
  | some parts ↦ finding_body line parts
]

unfoldable pub parse_findings : List Text → Result ParseError (List Finding)
parse_findings [] = ok []
parse_findings (line ∷ lines) =
    let rest = parse_findings lines in
    if is_none (trim_prefix (codes "-") line)
    then rest
    else do f ← parse_finding line; fs ← rest; ok (f ∷ fs)
