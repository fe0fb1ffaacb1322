-- ===== src/Review/Types.antt =====
-- internal/review/review.go: verdicts, severities, findings and reports. A Go string type with
-- listed values is a data type with a constructor for each, and `other` for any other string.
use machinist.Base.{
  ℕ, Text, codes, text_eq, Bool, true, false, not, List, [], ◌∷◌, Option, none, some, ltb, any,
  filter, if◌then◌else◌, is_empty, trim_space, to_lower,
}

pub data Verdict : Type 0 where
  ready changes_requested escalate : Verdict
  other : Text → Verdict

pub data Severity : Type 0 where
  blocker high medium low info : Severity
  other : Text → Severity

abbrev pub verdict_text : Verdict → Text
verdict_text ready = codes "ready-for-human-review"
verdict_text changes_requested = codes "changes-requested"
verdict_text escalate = codes "escalate"
verdict_text (other t) = t

-- The conversion Verdict(t).
unfoldable pub verdict_of : Text → Verdict
verdict_of t =
    if text_eq t (codes "ready-for-human-review")
    then ready
    else if text_eq t (codes "changes-requested")
    then changes_requested
    else if text_eq t (codes "escalate")
    then escalate
    else other t

abbrev pub severity_text : Severity → Text
severity_text blocker = codes "blocker"
severity_text high = codes "high"
severity_text medium = codes "medium"
severity_text low = codes "low"
severity_text info = codes "info"
severity_text (other t) = t

-- The conversion Severity(t).
unfoldable pub severity_of : Text → Severity
severity_of t =
    if text_eq t (codes "blocker")
    then blocker
    else if text_eq t (codes "high")
    then high
    else if text_eq t (codes "medium")
    then medium
    else if text_eq t (codes "low")
    then low
    else if text_eq t (codes "info")
    then info
    else other t

-- The zero Verdict.
abbrev pub no_verdict : Verdict
no_verdict = other []

abbrev pub is_no_verdict : Verdict → Bool
is_no_verdict (other t) = is_empty t
is_no_verdict ready = false
is_no_verdict changes_requested = false
is_no_verdict escalate = false

-- verdictStrictness, with Go's zero for a missing key.
abbrev pub strictness : Verdict → ℕ
strictness ready = 0
strictness changes_requested = 1
strictness escalate = 2
strictness (other t) = 0

abbrev pub verdict_valid : Verdict → Bool
verdict_valid ready = true
verdict_valid changes_requested = true
verdict_valid escalate = true
verdict_valid (other t) = false

abbrev pub is_ready : Verdict → Bool
is_ready ready = true
is_ready changes_requested = false
is_ready escalate = false
is_ready (other t) = false

abbrev pub is_escalate : Verdict → Bool
is_escalate escalate = true
is_escalate ready = false
is_escalate changes_requested = false
is_escalate (other t) = false

unfoldable pub stricter : Verdict → Verdict → Verdict
stricter a b = if ltb (strictness a) (strictness b) then b else a

abbrev pub severity_valid : Severity → Bool
severity_valid (other t) = false
severity_valid blocker = true
severity_valid high = true
severity_valid medium = true
severity_valid low = true
severity_valid info = true

-- `==` on severities is that of their strings.
unfoldable pub severity_eq : Severity → Severity → Bool
severity_eq a b = text_eq (severity_text a) (severity_text b)

pub record Finding : Type 0 where
  pub severity : Severity
  pub path : Text
  pub issue : Text
  pub recommendation : Text

pub record Report : Type 0 where
  pub verdict : Verdict
  pub findings : List Finding
  pub protected_paths : List Text
  pub high_risk : Bool
  pub note : Text

abbrev pub empty_report : Report
empty_report = record {
  verdict = no_verdict;
  findings = [];
  protected_paths = [];
  high_risk = false;
  note = [];
}

unfoldable pub blocking : List Severity → Report → List Finding
blocking wanted r = filter (λ f. any (severity_eq f.severity) wanted) r.findings

unfoldable pub normalize : Text → Text
unfolding trim_space to_lower
normalize value = to_lower (trim_space value)

-- The loop of Strictest; `none` is its error.
unfoldable pub strictest_from : Verdict → List Verdict → Option Verdict
strictest_from s [] = some s
strictest_from s (v ∷ vs) =
    let rest = strictest_from (if is_no_verdict s then v else stricter s v) vs in
    if not (verdict_valid v) then none else rest

unfoldable pub strictest : List Verdict → Option Verdict
strictest vs = strictest_from no_verdict vs
