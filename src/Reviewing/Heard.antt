-- ===== src/Reviewing/Heard.antt =====
-- Whose review is heard (internal/controlplane/store.go).
use machinist.Base.{ℕ, ◌≡◌, Text, text_eq, true, false, some, arith}
use machinist.Base.Result.{ok}
use machinist.Jobs.Tables.{is_running, Run, Store, select, run_of, coalesce, lapsed}
use machinist.Reviewing.Subject.{ReviewSubmission, ReviewSubject, review_subject, party_of}

-- Where a review is heard, the run that submits it is running under a lease that has not lapsed and
-- is the submission's, both runs are of one repository, and the two parties are read from the runs.
pub review_subject-authorized :
    (now : ℕ) (reviewed : Text) (q : ReviewSubmission) (s : Store) (subject : ReviewSubject)
    (r a : Run)
    → select (run_of q.reviewer_run) s.runs ≡ some r
    → select (run_of reviewed) s.runs ≡ some a
    → review_subject now reviewed q s ≡ ok subject
    → (is_running r.state ≡ true)
      × (lapsed now r.lease_expires_at ≡ false)
      × (text_eq (coalesce r.worker_instance) q.instance_id ≡ true)
      × (text_eq (coalesce r.lease_token) q.lease_token ≡ true)
      × (text_eq a.info.repository r.info.repository ≡ true)
      × (subject.author ≡ party_of a s.attempts)
      × (subject.reviewer ≡ party_of r s.attempts)
unfolding review_subject
review_subject-authorized now reviewed q s subject r a found there e = (
  ground (arith, found, there, e),
  ground (arith, found, there, e),
  ground (arith, found, there, e),
  ground (arith, found, there, e),
  ground (arith, found, there, e),
  ground (arith, found, there, e),
  ground (arith, found, there, e),
)
