-- ===== src/Reviewing/RouteExamples.antt =====
-- A review that approves and is answered: fixtures, and the theorems about the route applied to it.
use machinist.Review.Lines.{
  header, parse_findings, parse_finding, finding_match, split_recommendation, is_none, parse_list,
  parse_bool,
}
use machinist.Review.Parse.{
  parse, parse_lines, parse_line, parse_prose, parse_header, parse_key, with_verdict, finish,
}
use machinist.Review.Policy.{
  match_path, match_segments, segment_matches, clean_path, protected_matches, collect_matches,
}
use machinist.Review.Independence.{is_reviewer, check_independence}
use machinist.Base.Glob.{path_match}
use machinist.Base.{
  ◌≡◌, refl, ℕ, Text, codes, text_eq, true, false, ◌&&◌, some, List, [], ◌∷◌, any, filter,
  if◌then◌else◌, trim_space, split, trim_prefix, to_lower, cut, sort_strings, sort_stable,
  insert_stable,
}
use machinist.Base.Int.{pos}
use machinist.Base.Result.{ok}
use machinist.Review.Types.{
  ready, info, verdict_of, severity_of, severity_eq, blocking, normalize, stricter, strictest,
  strictest_from,
}
use machinist.Review.Engine.{
  Outcome, evaluate, decide, engine_protected_paths, engine_blocking_severities, merge_paths,
  outcome_of, add_paths,
}
use machinist.Review.Examples.{approval, stock}
use machinist.Jobs.Tables.{select}
use machinist.Reviewing.Subject.{
  ReviewSubmission, ReviewSubject, review_subject, last_attempt, run_agent,
}
use machinist.Reviewing.Judgements.{
  ReviewRow, in_repository, recorded_judgements, fold_rows, fold_row, upsert, rank, wants_promotion,
  find_judgement, promote_on_approval,
}
use machinist.Reviewing.Promotion.{about, objects}
use machinist.Reviewing.Record.{review_of, record_review, is_commit, put_review}
use machinist.Reviewing.Submit.{
  PullRequests, ReviewOutcome, github_repository_for, judged_by, submit_review, submission_checked,
}
use machinist.Reviewing.Recorded.{submit_review-records, submit_review-promoted}
use machinist.Reviewing.Examples.{store, submission, subject, clock}

abbrev approving : ReviewSubmission
approving = record submission { output = approval }

abbrev head : Text
head = codes "0123456789abcdef0123456789abcdef01234567"

abbrev forge : PullRequests
forge = record {
  list_files = λ slug n. some (codes "a.go" ∷ []);
  head = λ slug n. some head;
  promote = λ slug n. true;
}

abbrev stamp : ℕ → Text
stamp n = codes "t"

abbrev slugs : List (Text × Text)
slugs = (codes "owner/repo", codes "Owner/Repo") ∷ []

abbrev written : List ReviewRow
written =
    record {
      run_id = codes "r1";
      reviewer_run_id = codes "r2";
      pull_request = pos 8;
      verdict = ready;
      high_risk = false;
      note = [];
      findings = some (
          record {
            severity = info;
            path = codes "a.go";
            issue = codes "odd name";
            recommendation = codes "rename";
          }
          ∷ []);
      protected_paths = [];
      reasons = [];
      reviewed_head = head;
      recorded_at = codes "t";
    }
    ∷ []

abbrev answered : ReviewOutcome
answered = record {
  verdict = ready;
  high_risk = false;
  protected_paths = [];
  reasons = [];
  promoted = true;
}

heard : review_subject 3 (codes "r1") approving store ≡ ok subject
unfolding review_subject select text_eq
heard = refl

approved :
    submit_review stock slugs (some forge) stamp clock 3 (codes "r1") approving store []
    ≡ ok (written, answered)
unfolding text_eq split trim_space trim_prefix to_lower cut sort_strings sort_stable path_match
    verdict_of severity_of severity_eq blocking normalize stricter is_reviewer check_independence
    match_path match_segments segment_matches clean_path protected_matches collect_matches parse
    parse_lines parse_line parse_prose parse_header parse_key with_verdict finish header
    parse_findings parse_finding finding_match split_recommendation is_none parse_list parse_bool
    decide evaluate engine_protected_paths engine_blocking_severities merge_paths outcome_of
    add_paths submit_review submission_checked github_repository_for review_subject last_attempt
    run_agent recorded_judgements fold_rows fold_row upsert rank wants_promotion find_judgement
    promote_on_approval record_review is_commit put_review strictest strictest_from select
    insert_stable
approved = refl

submit_review-records_example :
    (subject : ReviewSubject) × (forge' : PullRequests) × (slug : Text) × (paths : List Text)
    × (row : ReviewRow) × (o : Outcome) × (review_subject 3 (codes "r1") approving store
        ≡ ok subject)
    × (some forge ≡ some forge')
    × (github_repository_for slugs subject.repository ≡ some slug)
    × (forge'.list_files slug (pos 8) ≡ some paths)
    × (evaluate stock (judged_by approving subject paths) ≡ ok o)
    × (ready ≡ o.verdict)
    × (row.verdict ≡ o.verdict)
    × (row.pull_request ≡ pos 8)
    × (select (review_of (codes "r1") (codes "r2")) written ≡ (
        if text_eq (codes "r1") (codes "r1") && text_eq (codes "r2") (codes "r2")
        then some row
        else select (review_of (codes "r1") (codes "r2")) []))
submit_review-records_example =
    submit_review-records stock slugs (some forge) stamp clock 3 (codes "r1") approving store []
      written answered (codes "r1") (codes "r2") approved

submit_review-promoted_example :
    (any
        (about (pos 8))
        (filter (in_repository (trim_space (codes "owner/repo")) store.runs) written)
      ≡ true)
    × (any
          (objects (pos 8))
          (filter (in_repository (trim_space (codes "owner/repo")) store.runs) written)
        ≡ false)
submit_review-promoted_example =
    submit_review-promoted stock slugs (some forge) stamp clock 3 (codes "r1") approving store []
      written answered subject heard approved refl
