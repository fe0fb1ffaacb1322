-- ===== src/Reviewing/Record.antt =====
-- internal/controlplane/store.go: one row for each reviewer of a run.
use machinist.Base.{
  ℕ, Text, text_eq, Bool, ◌&&◌, ◌||◌, not, some, List, [], ◌∷◌, if◌then◌else◌, is_empty, trim_space,
  all, length, leb, ◌==◌,
}
use machinist.Base.Int.{ℤ, is_positive}
use machinist.Base.Result.{Result, ok, err}
use machinist.Review.Types.{Verdict, Finding, verdict_valid}
use machinist.Review.Engine.{Reason}
use machinist.Reviewing.Judgements.{ReviewRow}

pub record RecordedReview : Type 0 where
  pub run_id : Text
  pub reviewer_run_id : Text
  pub pull_request : ℤ
  pub verdict : Verdict
  pub high_risk : Bool
  pub note : Text
  pub findings : List Finding
  pub protected_paths : List Text
  pub reasons : List Reason
  pub reviewed_head : Text

pub data RecordError : Type 0 where
  runs_missing pull_request_missing : RecordError
  verdict_unlisted : Verdict → RecordError
  head_malformed : Text → RecordError

-- [0-9a-f]
abbrev pub is_hex_digit : ℕ → Bool
is_hex_digit c = (leb 48 c && leb c 57) || (leb 97 c && leb c 102)

-- gitHubCommitPattern
unfoldable pub is_commit : Text → Bool
is_commit t = (length t == 40) && all is_hex_digit t

-- The primary key of run_reviews
abbrev pub review_of : Text → Text → ReviewRow → Bool
review_of run reviewer v = text_eq v.run_id run && text_eq v.reviewer_run_id reviewer

-- INSERT … ON CONFLICT(run_id,reviewer_run_id) DO UPDATE
unfoldable pub put_review : ReviewRow → List ReviewRow → List ReviewRow
put_review v [] = v ∷ []
put_review v (w ∷ rows) =
    if review_of v.run_id v.reviewer_run_id w then v ∷ rows else w ∷ put_review v rows

abbrev pub review_row : Text → RecordedReview → ReviewRow
review_row now r = record {
  run_id = r.run_id;
  reviewer_run_id = r.reviewer_run_id;
  pull_request = r.pull_request;
  verdict = r.verdict;
  high_risk = r.high_risk;
  note = r.note;
  findings = some r.findings;
  protected_paths = r.protected_paths;
  reasons = r.reasons;
  reviewed_head = trim_space r.reviewed_head;
  recorded_at = now;
}

-- RecordReview
unfoldable pub record_review :
    Text → RecordedReview → List ReviewRow → Result RecordError (List ReviewRow)
record_review now r rows =
    if is_empty (trim_space r.run_id) || is_empty (trim_space r.reviewer_run_id)
    then err runs_missing
    else if not (is_positive r.pull_request)
    then err pull_request_missing
    else if not (verdict_valid r.verdict)
    then err (verdict_unlisted r.verdict)
    else if not (is_commit (trim_space r.reviewed_head))
    then err (head_malformed r.reviewed_head)
    else ok (put_review (review_row now r) rows)
