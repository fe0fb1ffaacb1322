-- ===== src/Review/Engine.antt =====
-- internal/review/engine.go: from a submission to an outcome.
use machinist.Base.{
  ℕ, Text, Bool, true, Option, none, some, List, [], ◌∷◌, ◌++◌, is_empty, length, if◌then◌else◌,
  add_key, sort_strings,
}
use machinist.Base.Result.{Result, ok, err, ◌>>=◌}
use machinist.Review.Types.{
  Verdict, changes_requested, escalate, Severity, Finding, Report, blocking, stricter,
}
use machinist.Review.Independence.{Party, NotIndependent, check_independence}
use machinist.Review.Policy.{
  default_protected_paths, default_blocking_severities, protected_matches,
}
use machinist.Review.Parse.{parse}
use machinist.Review.Lines.{ParseError}

pub record Submission : Type 0 where
  pub author : Party
  pub reviewer : Party
  pub changed_paths : List Text
  pub output : Text

-- What the engine put on top of the reviewer's verdict.
pub data Reason : Type 0 where
  blocking_findings : ℕ → Reason
  protected_changed : List Text → Reason
  marked_high_risk : Reason

pub record Outcome : Type 0 where
  pub verdict : Verdict
  pub findings : List Finding
  pub protected_paths : List Text
  pub high_risk : Bool
  pub note : Text
  pub reasons : List Reason

pub record Engine : Type 0 where
  pub protected_paths : List Text
  pub blocking_severities : List Severity

pub data EvaluateError : Type 0 where
  not_independent : NotIndependent → EvaluateError
  not_parsed : ParseError → EvaluateError

unfoldable pub engine_protected_paths : Engine → List Text
engine_protected_paths e =
    if is_empty e.protected_paths then default_protected_paths else e.protected_paths

unfoldable pub engine_blocking_severities : Engine → List Severity
engine_blocking_severities e =
    if is_empty e.blocking_severities then default_blocking_severities else e.blocking_severities

-- The loop over one list.
unfoldable pub add_paths : List Text → List Text → List Text
add_paths seen [] = seen
add_paths seen (item ∷ items) = add_paths (if is_empty item then seen else add_key item seen) items

unfoldable pub merge_paths : List Text → List Text → List Text
merge_paths first second = sort_strings (add_paths (add_paths [] first) second)

unfoldable pub outcome_of : Report → Outcome
outcome_of r = record {
  verdict = r.verdict;
  findings = r.findings;
  protected_paths = [];
  high_risk = r.high_risk;
  note = r.note;
  reasons = [];
}

apply_blocking : List Finding → Outcome → Outcome
apply_blocking found o = if is_empty found then o else record o {
  verdict = stricter o.verdict changes_requested;
  reasons = o.reasons ++ blocking_findings (length found) ∷ [];
}

apply_protected : List Text → Outcome → Outcome
apply_protected paths o =
    if is_empty paths then record o { protected_paths = paths } else record o {
      protected_paths = paths;
      verdict = stricter o.verdict escalate;
      high_risk = true;
      reasons = o.reasons ++ protected_changed paths ∷ [];
    }

apply_high_risk : Bool → Outcome → Outcome
apply_high_risk marked o =
    if marked
    then record o {
      verdict = stricter o.verdict escalate;
      reasons = o.reasons ++ marked_high_risk ∷ [];
    }
    else o

-- The policy that follows a parsed report.
unfoldable pub decide : Engine → List Text → Report → Outcome
unfolding outcome_of apply_blocking apply_protected apply_high_risk
decide e changed r =
    let found = blocking (engine_blocking_severities e) r in
    let paths =
      merge_paths r.protected_paths (protected_matches (engine_protected_paths e) changed) in
    apply_high_risk r.high_risk (apply_protected paths (apply_blocking found (outcome_of r)))

abbrev pub or_error :
    Option NotIndependent → Result EvaluateError Report → Result EvaluateError Report
or_error none r = r
or_error (some e) r = err (not_independent e)

abbrev pub parse_error : Result ParseError Report → Result EvaluateError Report
parse_error (ok r) = ok r
parse_error (err e) = err (not_parsed e)

unfoldable pub evaluate : Engine → Submission → Result EvaluateError Outcome
evaluate e s = do
  report ← or_error (check_independence s.author s.reviewer) (parse_error (parse s.output))
  ok (decide e s.changed_paths report)
