-- ===== src/Review/Parse.antt =====
-- internal/review/parse.go: the reviewer's output block.
use machinist.Base.{
  ℕ, ◌+◌, Text, codes, text_eq, Bool, false, ◌&&◌, not, none, some, List, [], ◌∷◌, ◌++◌, is_empty,
  if◌then◌else◌, split, contains, has_prefix, trim_space,
}
use machinist.Base.Result.{Result, ok, err, ◌>>=◌}
use machinist.Review.Types.{Verdict, verdict_of, verdict_valid, Report, empty_report, normalize}
use machinist.Review.Lines.{
  ParseError, bad_high_risk, duplicate_key, header, parse_bool, parse_findings, parse_list,
  unknown_key, unknown_verdict, verdict_missing,
}

abbrev pub key_verdict : Text
key_verdict = codes "VERDICT"

abbrev pub key_findings : Text
key_findings = codes "FINDINGS"

abbrev pub key_protected_paths : Text
key_protected_paths = codes "PROTECTED_PATHS"

abbrev pub key_high_risk : Text
key_high_risk = codes "HIGH_RISK"

abbrev pub key_note : Text
key_note = codes "NOTE"

abbrev pub known_keys : List Text
known_keys = key_verdict ∷ key_findings ∷ key_protected_paths ∷ key_high_risk ∷ key_note ∷ []

-- The variables of the loop over the lines.
pub record Scan : Type 0 where
  pub report : Report
  pub seen : List Text
  pub in_findings : Bool
  pub finding_lines : List Text

abbrev pub scan_start : Scan
scan_start = record { report = empty_report; seen = []; in_findings = false; finding_lines = [] }

unfoldable pub with_verdict : ℕ → Text → Verdict → Scan → Result ParseError Scan
with_verdict n value v s =
    if verdict_valid v
    then ok (record s { report = record (s.report) { verdict = v } })
    else err (unknown_verdict n value)

-- The switch over the key.
unfoldable pub parse_key : ℕ → Text → Text → Scan → Result ParseError Scan
parse_key n key value s =
    if text_eq key key_verdict
    then with_verdict n value (verdict_of (normalize value)) s
    else if text_eq key key_findings
    then (if is_empty value
        then ok s
        else ok (record s { finding_lines = s.finding_lines ++ (codes "- " ++ value) ∷ [] }))
    else if text_eq key key_protected_paths
    then ok (record s { report = record (s.report) { protected_paths = parse_list value } })
    else if text_eq key key_high_risk
    then elim (parse_bool value) [
      | none ↦ err (bad_high_risk n value)
      | some b ↦ ok (record s { report = record (s.report) { high_risk = b } })
    ]
    else ok (record s { report = record (s.report) { note = value } })

unfoldable pub parse_header : ℕ → Text → Text → Scan → Result ParseError Scan
parse_header n key value s =
    if not (contains key known_keys)
    then err (unknown_key n key)
    else if contains key s.seen
    then err (duplicate_key n key)
    else parse_key n key value
        (record s { seen = key ∷ s.seen; in_findings = text_eq key key_findings })

-- A line that is no header: a finding inside the findings block, or prose, which closes it.
unfoldable pub parse_prose : Text → Scan → Scan
parse_prose line s =
    if s.in_findings && has_prefix (codes "-") line
    then record s { finding_lines = s.finding_lines ++ line ∷ [] }
    else record s { in_findings = false }

unfoldable pub parse_line : ℕ → Text → Scan → Result ParseError Scan
parse_line n raw s =
    let line = trim_space raw in
    if is_empty line then ok s else elim (header line) [
      | none ↦ ok (parse_prose line s)
      | some (key, value) ↦ parse_header n key (trim_space value) s
    ]

unfoldable pub parse_lines : ℕ → List Text → Scan → Result ParseError Scan
parse_lines n [] s = ok s
parse_lines n (raw ∷ rest) s = parse_line n raw s >>= parse_lines (n + 1) rest

unfoldable pub finish : Scan → Result ParseError Report
finish s = if not (contains key_verdict s.seen) then err verdict_missing else do
  findings ← parse_findings s.finding_lines
  ok (record (s.report) { findings = findings })

unfoldable pub parse : Text → Result ParseError Report
parse output = parse_lines 1 (split b'\n' output) scan_start >>= finish
