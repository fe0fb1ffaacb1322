-- ===== src/Reviewing/Recorded.antt =====
-- What the route leaves behind (internal/controlplane/review.go and store.go).
use machinist.Base.{
  ℕ, ◌≡◌, refl, sym, ap, ◌∙◌, Text, text_eq, Bool, true, false, ◌&&◌, Option, none, some, List,
  arith, any, filter, if◌then◌else◌, trim_space, inl, inr,
}
use machinist.Base.Int.{ℤ}
use machinist.Base.Result.{Result, ok, err, ◌>>=◌, >>=-eq-ok, Result-cases}
use machinist.Review.Types.{verdict_valid}
use machinist.Review.Engine.{Engine, Outcome, EvaluateError, evaluate}
use machinist.Gatekeeper.Change.{Judgement}
use machinist.Jobs.Tables.{Store, select}
use machinist.Reviewing.Subject.{
  ReviewSubmission, ReviewSubject, SubjectError, lease_conflict, run_state, no_rows, review_scope,
  review_subject,
}
use machinist.Reviewing.Judgements.{
  ReviewRow, JudgementError, in_repository, recorded_judgements, wants_promotion,
  promote_on_approval,
}
use machinist.Reviewing.Promotion.{about, objects, wants_promotion_iff}
use machinist.Reviewing.Record.{
  RecordedReview, RecordError, review_of, put_review, review_row, record_review,
}
use machinist.Reviewing.Submit.{
  PullRequests, ReviewOutcome, ReviewRefusal, no_client, repository_unmapped, files_unread,
  head_unread, submission_checked, subject_refusal, or_refuse, evaluation_refusal, record_refusal,
  github_repository_for, judged_by, recorded_of, answer, submit_review,
}
use machinist.Reviewing.Keys.{select-put_review}

kept-subject :
    (r : Result SubjectError ReviewSubject) (subject : ReviewSubject)
    → subject_refusal r ≡ ok subject
    → r ≡ ok subject
kept-subject (ok subject') subject e = ap ok (ground (arith, e))
kept-subject (err lease_conflict) subject e = cc
kept-subject (err run_state) subject e = cc
kept-subject (err no_rows) subject e = cc
kept-subject (err (review_scope a b)) subject e = cc

kept-option :
    {A : Type 0} (refusal : ReviewRefusal) (o : Option A) (a : A)
    → or_refuse refusal o ≡ ok a
    → o ≡ some a
kept-option refusal none a e = cc
kept-option refusal (some b) a e = cc

kept-outcome :
    (r : Result EvaluateError Outcome) (o : Outcome) → evaluation_refusal r ≡ ok o → r ≡ ok o
kept-outcome (ok o') o e = ap ok (ground (arith, e))
kept-outcome (err problem) o e = cc

record_review-ok :
    (now : Text) (r : RecordedReview) (rows written : List ReviewRow)
    → record_review now r rows ≡ ok written
    → (verdict_valid r.verdict ≡ true) × (written ≡ put_review (review_row now r) rows)
unfolding record_review
record_review-ok now r rows written e = (ground (arith, e), ground (arith, e))

last_step :
    (r : Result RecordError (List ReviewRow)) (f : List ReviewRow → ReviewOutcome)
    (written : List ReviewRow) (out : ReviewOutcome)
    → ◌>>=◌ {B = List ReviewRow × ReviewOutcome} (record_refusal r) (λ w. ok (w, f w))
      ≡ ok (written, out)
    → (r ≡ ok written) × (out ≡ f written)
last_step (err problem) f written out e = cc
last_step (ok w) f written out e =
    let same : w ≡ written = ground (arith, e) in
    let given : f w ≡ out = ground (arith, e) in (ap ok same, sym given ∙ ap f same)

module _ (engine : Engine) (repositories : List (Text × Text)) (client : Option PullRequests)
    (format_time : ℕ → Text) (parse_time : Text → Option ℕ) (now : ℕ) (reviewed : Text)
    (q : ReviewSubmission) (s : Store) (rows written : List ReviewRow) (out : ReviewOutcome) where
  -- What every step of an answered review gave.
  record Answered : Type 0 where
    subject : ReviewSubject
    forge : PullRequests
    slug : Text
    paths : List Text
    head : Text
    outcome : Outcome
    heard : review_subject now reviewed q s ≡ ok subject
    asked : client ≡ some forge
    mapped : github_repository_for repositories subject.repository ≡ some slug
    listed : forge.list_files slug q.pull_request ≡ some paths
    evaluated : evaluate engine (judged_by q subject paths) ≡ ok outcome
    recorded :
        record_review (format_time now) (recorded_of reviewed q outcome head) rows ≡ ok written
    answered :
        out
        ≡ answer engine repositories client format_time parse_time forge slug subject q outcome s
            written

  submit_review-Answered :
      submit_review engine repositories client format_time parse_time now reviewed q s rows
        ≡ ok (written, out)
      → Answered
  unfolding submit_review
  submit_review-Answered e =
      let (checked, e0, e) = >>=-eq-ok (submission_checked q) _ e in
      let (subject, heard, e) = >>=-eq-ok (subject_refusal (review_subject now reviewed q s)) _ e in
      let (forge, asked, e) = >>=-eq-ok (or_refuse no_client client) _ e in
      let (slug, mapped, e) =
        >>=-eq-ok
          (or_refuse (repository_unmapped subject.repository)
            (github_repository_for repositories subject.repository))
          _ e in
      let (paths, listed, e) =
        >>=-eq-ok (or_refuse files_unread (forge.list_files slug q.pull_request)) _ e in
      let (head, found, e) =
        >>=-eq-ok (or_refuse head_unread (forge.head slug q.pull_request)) _ e in
      let (outcome, evaluated, e) =
        >>=-eq-ok (evaluation_refusal (evaluate engine (judged_by q subject paths))) _ e in
      let (recorded, answered) =
        last_step (record_review (format_time now) (recorded_of reviewed q outcome head) rows)
          (answer engine repositories client format_time parse_time forge slug subject q outcome s)
          written out e in
      record {
        subject = subject;
        forge = forge;
        slug = slug;
        paths = paths;
        head = head;
        outcome = outcome;
        heard = kept-subject (review_subject now reviewed q s) subject heard;
        asked = kept-option no_client client forge asked;
        mapped =
            kept-option (repository_unmapped subject.repository)
              (github_repository_for repositories subject.repository) slug mapped;
        listed = kept-option files_unread (forge.list_files slug q.pull_request) paths listed;
        evaluated = kept-outcome (evaluate engine (judged_by q subject paths)) outcome evaluated;
        recorded = recorded;
        answered = answered;
      }

-- Where a review is answered, both runs' parties were evaluated on the paths that the forge names, the
-- answered verdict is the engine's, the reviewer's row carries it in place of any earlier one of its
-- own, and every other row is as it was.
pub submit_review-records :
    (engine : Engine) (repositories : List (Text × Text)) (client : Option PullRequests)
    (format_time : ℕ → Text) (parse_time : Text → Option ℕ) (now : ℕ) (reviewed : Text)
    (q : ReviewSubmission) (s : Store) (rows written : List ReviewRow) (out : ReviewOutcome)
    (run reviewer : Text)
    → submit_review engine repositories client format_time parse_time now reviewed q s rows
      ≡ ok (written, out)
    → (subject : ReviewSubject) × (forge : PullRequests) × (slug : Text) × (paths : List Text)
      × (row : ReviewRow) × (o : Outcome) × (review_subject now reviewed q s ≡ ok subject)
      × (client ≡ some forge)
      × (github_repository_for repositories subject.repository ≡ some slug)
      × (forge.list_files slug q.pull_request ≡ some paths)
      × (evaluate engine (judged_by q subject paths) ≡ ok o)
      × (out.verdict ≡ o.verdict)
      × (row.verdict ≡ o.verdict)
      × (row.pull_request ≡ q.pull_request)
      × (select (review_of run reviewer) written ≡ (
          if text_eq reviewed run && text_eq q.reviewer_run reviewer
          then some row
          else select (review_of run reviewer) rows))
submit_review-records engine repositories client format_time parse_time now reviewed q s rows
      written out run reviewer e =
    let a =
      submit_review-Answered engine repositories client format_time parse_time now reviewed q s rows
        written out e in
    let row = review_row (format_time now) (recorded_of reviewed q a.outcome a.head) in
    let put =
      (record_review-ok (format_time now) (recorded_of reviewed q a.outcome a.head) rows written
        a.recorded).1 in
    (
      a.subject,
      a.forge,
      a.slug,
      a.paths,
      row,
      a.outcome,
      a.heard,
      a.asked,
      a.mapped,
      a.listed,
      a.evaluated,
      ap (λ r. r.verdict) a.answered,
      refl,
      refl,
      ap (select (review_of run reviewer)) put ∙ select-put_review run reviewer row rows,
    )

-- A review that is answered as promoted leaves at least one row of its change, and no row of it that
-- withholds approval, among those of the repository.
pub submit_review-promoted :
    (engine : Engine) (repositories : List (Text × Text)) (client : Option PullRequests)
    (format_time : ℕ → Text) (parse_time : Text → Option ℕ) (now : ℕ) (reviewed : Text)
    (q : ReviewSubmission) (s : Store) (rows written : List ReviewRow) (out : ReviewOutcome)
    (subject : ReviewSubject)
    → review_subject now reviewed q s ≡ ok subject
    → submit_review engine repositories client format_time parse_time now reviewed q s rows
      ≡ ok (written, out)
    → out.promoted ≡ true
    → (any
          (about q.pull_request)
          (filter (in_repository (trim_space subject.repository) s.runs) written)
        ≡ true)
      × (any
            (objects q.pull_request)
            (filter (in_repository (trim_space subject.repository) s.runs) written)
          ≡ false)
unfolding promote_on_approval wants_promotion
submit_review-promoted engine repositories client format_time parse_time now reviewed q s rows
      written out subject heard e promoted =
    let a =
      submit_review-Answered engine repositories client format_time parse_time now reviewed q s rows
        written out e in
    let same : a.subject ≡ subject = ground (arith, a.heard, heard) in
    let judgements = recorded_judgements parse_time subject.repository s.runs written in
    let works = a.forge.promote a.slug q.pull_request in
    let asked : wants_promotion true judgements q.pull_request && works ≡ true =
      rw (← same) (sym (ap (λ r. r.promoted) a.answered) ∙ promoted) in
    let yes : wants_promotion true judgements q.pull_request ≡ true = ground (arith, asked) in
    let read_as : Result JudgementError (List (ℤ × Judgement)) → Bool =
      λ js. wants_promotion true js q.pull_request in
    elim (Result-cases judgements) [
      | inl (problem, lost) ↦
          let no : wants_promotion true judgements q.pull_request ≡ false = ap read_as lost in
          absurd (ground (arith, no, yes))
      | inr (js, read) ↦
          (wants_promotion_iff parse_time subject.repository s.runs written js q.pull_request
              read).0
            (sym (ap read_as read) ∙ yes)
    ]
