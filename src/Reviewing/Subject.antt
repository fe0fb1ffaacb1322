-- ===== src/Reviewing/Subject.antt =====
-- internal/controlplane/store.go: the parties of a review that is submitted.
use machinist.Base.{
  ℕ, Text, text_eq, ltb, ◌||◌, not, Option, none, some, List, [], ◌∷◌, if◌then◌else◌, is_empty,
}
use machinist.Base.Int.{ℤ}
use machinist.Base.Result.{Result, ok, err}
use machinist.Review.Independence.{Party}
use machinist.Jobs.Tables.{is_running, Run, Attempt, Store, select, run_of, coalesce, lapsed}

pub record ReviewSubmission : Type 0 where
  pub instance_id : Text
  pub lease_token : Text
  pub reviewer_run : Text
  pub pull_request : ℤ
  pub output : Text

pub record ReviewSubject : Type 0 where
  pub repository : Text
  pub author : Party
  pub reviewer : Party

pub data SubjectError : Type 0 where
  no_rows lease_conflict run_state : SubjectError
  review_scope : Text → Text → SubjectError

-- The attempt of a run that has the largest ordinal.
unfoldable pub last_attempt : Text → List Attempt → Option Attempt
last_attempt id [] = none
last_attempt id (a ∷ rows) =
    let rest = last_attempt id rows in
    if not (text_eq a.run_id id)
    then rest
    else elim rest [ none ↦ some a | some b ↦ if ltb a.ordinal b.ordinal then some b else some a ]

-- runAgentSQL
unfoldable pub run_agent : Run → List Attempt → Text
run_agent r attempts = elim (last_attempt r.id attempts) [
  | none ↦ r.place.profile
  | some a ↦ if is_empty a.profile then r.place.profile else a.profile
]

abbrev pub party_of : Run → List Attempt → Party
party_of r attempts = record { role = r.info.role; agent = run_agent r attempts; run_id = r.id }

-- ReviewSubject
unfoldable pub review_subject :
    ℕ → Text → ReviewSubmission → Store → Result SubjectError ReviewSubject
review_subject now reviewed q s = elim (select (run_of q.reviewer_run) s.runs) [
  | none ↦ err no_rows
  | some r ↦
      if not (text_eq (coalesce r.worker_instance) q.instance_id)
        || not (text_eq (coalesce r.lease_token) q.lease_token)
      then err lease_conflict
      else if not (is_running r.state)
      then err run_state
      else if lapsed now r.lease_expires_at
      then err lease_conflict
      else elim (select (run_of reviewed) s.runs) [
        | none ↦ err no_rows
        | some a ↦
            if not (text_eq a.info.repository r.info.repository)
            then err (review_scope a.info.repository r.info.repository)
            else ok (record {
              repository = r.info.repository;
              author = party_of a s.attempts;
              reviewer = party_of r s.attempts;
            })
      ]
]
