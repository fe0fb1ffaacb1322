-- ===== src/Reviewing/Submit.antt =====
-- internal/controlplane/review.go: the route that takes one review of a run. What the forge answers is
-- a parameter, and so are the two directions between an instant and its text.
use machinist.Base.{
  ℕ, Text, text_eq, Bool, true, ◌||◌, not, Option, none, some, List, [], ◌∷◌, if◌then◌else◌,
  is_empty,
}
use machinist.Base.Int.{ℤ, is_positive}
use machinist.Base.Result.{Result, ok, err, ◌>>=◌}
use machinist.Review.Types.{Verdict}
use machinist.Review.Engine.{
  Engine, Submission, Outcome, Reason, EvaluateError, not_independent, not_parsed, evaluate,
}
use machinist.Jobs.Tables.{Store}
use machinist.Reviewing.Subject.{
  ReviewSubmission, ReviewSubject, SubjectError, no_rows, review_subject,
}
use machinist.Reviewing.Judgements.{ReviewRow, recorded_judgements, promote_on_approval}
use machinist.Reviewing.Record.{RecordedReview, RecordError, record_review}

-- gitHubPullRequests, as far as the route asks it; `none` where the call fails.
pub record PullRequests : Type 0 where
  pub list_files : Text → ℤ → Option (List Text)
  pub head : Text → ℤ → Option Text
  pub promote : Text → ℤ → Bool

pub record ReviewOutcome : Type 0 where
  pub verdict : Verdict
  pub high_risk : Bool
  pub protected_paths : List Text
  pub reasons : List Reason
  pub promoted : Bool

pub data ReviewRefusal : Type 0 where
  identity_missing pull_request_missing output_missing not_found no_client files_unread
        head_unread :
      ReviewRefusal
  subject_conflict : SubjectError → ReviewRefusal
  repository_unmapped : Text → ReviewRefusal
  not_evaluated : EvaluateError → ReviewRefusal
  not_recorded : RecordError → ReviewRefusal

-- The status that is written for a refusal.
unfoldable pub http_status : ReviewRefusal → ℕ
http_status identity_missing = 400
http_status pull_request_missing = 400
http_status output_missing = 400
http_status not_found = 404
http_status no_client = 503
http_status files_unread = 502
http_status head_unread = 502
http_status (subject_conflict e) = 409
http_status (repository_unmapped repository) = 503
http_status (not_evaluated (not_independent e)) = 409
http_status (not_evaluated (not_parsed e)) = 400
http_status (not_recorded e) = 500

-- The tests of the input in front of the first read
unfoldable pub submission_checked : ReviewSubmission → Result ReviewRefusal ReviewSubmission
submission_checked q =
    if is_empty q.instance_id || is_empty q.lease_token || is_empty q.reviewer_run
    then err identity_missing
    else if not (is_positive q.pull_request)
    then err pull_request_missing
    else if is_empty q.output
    then err output_missing
    else ok q

abbrev pub subject_refusal : Result SubjectError ReviewSubject → Result ReviewRefusal ReviewSubject
subject_refusal (ok subject) = ok subject
subject_refusal (err no_rows) = err not_found
subject_refusal (err e) = err (subject_conflict e)

abbrev pub or_refuse : {A : Type 0} → ReviewRefusal → Option A → Result ReviewRefusal A
or_refuse refusal none = err refusal
or_refuse refusal (some a) = ok a

abbrev pub evaluation_refusal : Result EvaluateError Outcome → Result ReviewRefusal Outcome
evaluation_refusal (ok o) = ok o
evaluation_refusal (err e) = err (not_evaluated e)

abbrev pub record_refusal :
    Result RecordError (List ReviewRow) → Result ReviewRefusal (List ReviewRow)
record_refusal (ok rows) = ok rows
record_refusal (err e) = err (not_recorded e)

-- gitHubRepositoryFor
unfoldable pub github_repository_for : List (Text × Text) → Text → Option Text
github_repository_for [] repository = none
github_repository_for ((name, slug) ∷ rest) repository =
    if text_eq name repository then some slug else github_repository_for rest repository

-- What the engine is given: the parties of the runs, and the paths that the forge names.
abbrev pub judged_by : ReviewSubmission → ReviewSubject → List Text → Submission
judged_by q subject paths = record {
  author = subject.author;
  reviewer = subject.reviewer;
  changed_paths = paths;
  output = q.output;
}

-- What is recorded of an outcome.
abbrev pub recorded_of : Text → ReviewSubmission → Outcome → Text → RecordedReview
recorded_of reviewed q o head = record {
  run_id = reviewed;
  reviewer_run_id = q.reviewer_run;
  pull_request = q.pull_request;
  verdict = o.verdict;
  high_risk = o.high_risk;
  note = o.note;
  findings = o.findings;
  protected_paths = o.protected_paths;
  reasons = o.reasons;
  reviewed_head = head;
}

module _ (engine : Engine) (repositories : List (Text × Text)) (client : Option PullRequests)
    (format_time : ℕ → Text) (parse_time : Text → Option ℕ) where
  abbrev pub answer :
      PullRequests
      → Text
      → ReviewSubject
      → ReviewSubmission
      → Outcome
      → Store
      → List ReviewRow
      → ReviewOutcome
  answer forge slug subject q o s rows = record {
    verdict = o.verdict;
    high_risk = o.high_risk;
    protected_paths = o.protected_paths;
    reasons = o.reasons;
    promoted =
        promote_on_approval true (recorded_judgements parse_time subject.repository s.runs rows)
          q.pull_request (forge.promote slug q.pull_request);
  }

  -- submitReview: the rows that are left, and the answer.
  unfoldable pub submit_review :
      ℕ
      → Text
      → ReviewSubmission
      → Store
      → List ReviewRow
      → Result ReviewRefusal (List ReviewRow × ReviewOutcome)
  submit_review now reviewed q s rows = do
    checked ← submission_checked q
    subject ← subject_refusal (review_subject now reviewed q s)
    forge ← or_refuse no_client client
    slug ←
        or_refuse (repository_unmapped subject.repository)
          (github_repository_for repositories subject.repository)
    paths ← or_refuse files_unread (forge.list_files slug q.pull_request)
    head ← or_refuse head_unread (forge.head slug q.pull_request)
    o ← evaluation_refusal (evaluate engine (judged_by q subject paths))
    written ← record_refusal (record_review (format_time now) (recorded_of reviewed q o head) rows)
    ok (written, answer forge slug subject q o s written)
