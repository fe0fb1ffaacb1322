-- ===== src/Reviewing/Examples.antt =====
-- A run that was written by one agent and is reviewed by another: fixtures, tests, and the theorems
-- about reviewers applied to them.
use machinist.Base.{
  Option, ℕ, ◌↔◌, any, filter, trim_space, ◌≡◌, refl, Text, codes, text_eq, true, false, none, some,
  List, [], ◌∷◌, All, is_empty, equal_fold, to_lower, sort_stable, insert_stable,
}
use machinist.Base.Int.{ℤ, pos}
use machinist.Base.Result.{ok}
use machinist.Review.Types.{normalize, ready, strictest, strictest_from}
use machinist.Gatekeeper.Change.{Judgement}
use machinist.Reviewing.Judgements.{
  ReviewRow, in_repository, recorded_judgements, wants_promotion, fold_rows, fold_row, upsert, rank,
  find_judgement,
}
use machinist.Reviewing.Promotion.{about, objects, wants_promotion_iff}
use machinist.Review.Independence.{Party, is_reviewer, check_independence}
use machinist.Jobs.Tables.{is_running, lapsed, coalesce, select, run_of, Run, Store}
use machinist.Jobs.Greet.{PollRequest}
use machinist.Jobs.Poll.{lease_row}
use machinist.Jobs.Create.{ResolvedCommand, JobRequest, new_run}
use machinist.Reviewing.Assigner.{
  sole_open_pull_request, reviewer_commands, command_profiles, independent_reviewer,
  first_independent, independent_of,
}
use machinist.Reviewing.Subject.{ReviewSubmission, ReviewSubject, review_subject, party_of}
use machinist.Reviewing.Chosen.{independent_reviewer-passes}
use machinist.Reviewing.Heard.{review_subject-authorized}

abbrev command : Text → Text → ResolvedCommand
command role profile = record {
  name = role;
  hash = codes "h1";
  executor = profile;
  model = [];
  prompt = codes "do it";
  timeout_ms = 60000;
  route = [];
  profile = profile;
  harness = codes "cli";
  provider = codes "p";
  auth_mode = codes "key";
  role = role;
  candidates = [];
  max_attempts = pos 2;
  max_total_tokens = pos 0;
  fallback_on = [];
}

abbrev commands : List ResolvedCommand
commands =
    command (codes "implementer") (codes "codex")
    ∷ command (codes "Reviewer") (codes "Codex")
    ∷ command (codes "reviewer") (codes "claude")
    ∷ []

-- The second command is a reviewer, but the author's agent.
chosen :
    independent_reviewer (reviewer_commands commands) (codes "codex")
    ≡ some (command (codes "reviewer") (codes "claude"))
unfolding independent_reviewer normalize first_independent reviewer_commands is_reviewer text_eq
    command_profiles independent_of
chosen = refl

abbrev author : Party
author = record { role = codes "implementer"; agent = codes "codex"; run_id = codes "r1" }

no_reviewer : is_reviewer author.role ≡ false
unfolding is_reviewer text_eq normalize
no_reviewer = refl

other_run : text_eq (normalize author.run_id) (normalize (codes "r2")) ≡ false
unfolding normalize text_eq
other_run = refl

named :
    All
      (λ p. is_empty (normalize p) ≡ false)
      (command_profiles (command (codes "reviewer") (codes "claude")))
unfolding normalize command_profiles
named = (refl, tt)

independent_reviewer-passes_example :
    (is_reviewer (codes "reviewer") ≡ true)
    × (is_empty (command_profiles (command (codes "reviewer") (codes "claude"))) ≡ false)
    × All
        (λ p.
          check_independence author
            (record { role = codes "reviewer"; agent = p; run_id = codes "r2" })
          ≡ none)
        (command_profiles (command (codes "reviewer") (codes "claude")))
independent_reviewer-passes_example =
    independent_reviewer-passes commands (command (codes "reviewer") (codes "claude")) author
      (codes "r2") no_reviewer other_run chosen named

sole_open_test :
    sole_open_pull_request (
      record { state = codes "CLOSED"; number = pos 7 }
      ∷ record { state = codes "OPEN"; number = pos 8 }
      ∷ [])
    ≡ some (pos 8)
unfolding sole_open_pull_request equal_fold text_eq to_lower
sole_open_test = refl

abbrev request : JobRequest
request = record {
  prompt = codes "do it";
  repository = codes "owner/repo";
  name = codes "implement";
  execution_mode = [];
  origin = [];
}

abbrev worker_poll : PollRequest
worker_poll = record {
  instance_id = codes "w1";
  name = codes "worker";
  executors = codes "claude" ∷ [];
  repositories = codes "owner/repo" ∷ [];
  models = [];
  profiles = [];
  profiles_size = 2;
  environment_valid = true;
  transports = [];
  fleet = [];
}

abbrev author_run : Run
author_run =
    new_run (codes "j1") (codes "r1") request (command (codes "implementer") (codes "codex"))

abbrev waiting_review : Run
waiting_review =
    new_run (codes "j2") (codes "r2") request (command (codes "reviewer") (codes "claude"))

abbrev review_run : Run
review_run = lease_row 2 (codes "t2") (codes "a2") worker_poll waiting_review.place waiting_review

abbrev pub store : Store
store = record {
  jobs = [];
  runs = author_run ∷ review_run ∷ [];
  attempts = [];
  workers = [];
  worker_repositories = [];
  known_repositories = [];
  triggers = [];
  requests = [];
  leases = [];
}

abbrev pub submission : ReviewSubmission
submission = record {
  instance_id = codes "w1";
  lease_token = codes "t2";
  reviewer_run = codes "r2";
  pull_request = pos 8;
  output = codes "verdict: ready-for-human-review";
}

abbrev pub subject : ReviewSubject
subject = record {
  repository = codes "owner/repo";
  author = party_of author_run [];
  reviewer = party_of review_run [];
}

heard : review_subject 3 (codes "r1") submission store ≡ ok subject
unfolding review_subject select text_eq
heard = refl

found_review : select (run_of (codes "r2")) store.runs ≡ some review_run
unfolding select text_eq
found_review = refl

found_author : select (run_of (codes "r1")) store.runs ≡ some author_run
unfolding select text_eq
found_author = refl

review_subject-authorized_example :
    (is_running review_run.state ≡ true)
    × (lapsed 3 review_run.lease_expires_at ≡ false)
    × (text_eq (coalesce review_run.worker_instance) (codes "w1") ≡ true)
    × (text_eq (coalesce review_run.lease_token) (codes "t2") ≡ true)
    × (text_eq author_run.info.repository review_run.info.repository ≡ true)
    × (subject.author ≡ party_of author_run store.attempts)
    × (subject.reviewer ≡ party_of review_run store.attempts)
review_subject-authorized_example =
    review_subject-authorized 3 (codes "r1") submission store subject review_run author_run
      found_review found_author heard

-- One review, of pull request 8, by a reader of times that reads every text as 5.
abbrev pub clock : Text → Option ℕ
clock t = some 5

abbrev approval : ReviewRow
approval = record {
  run_id = codes "r1";
  reviewer_run_id = codes "r2";
  pull_request = pos 8;
  verdict = ready;
  high_risk = false;
  note = [];
  protected_paths = [];
  reasons = [];
  reviewed_head = codes "c0ffee";
  findings = some [];
  recorded_at = codes "2026";
}

abbrev judgements : List (ℤ × Judgement)
judgements =
    (
      pos 8,
      record { verdict = ready; reviewed_head = codes "c0ffee"; findings = []; recorded_at = 5 },
    )
    ∷ []

judged :
    recorded_judgements clock (codes "owner/repo") (author_run ∷ []) (approval ∷ []) ≡ ok judgements
unfolding recorded_judgements fold_rows fold_row upsert rank strictest strictest_from sort_stable
    trim_space select text_eq insert_stable
judged = refl

wants_promotion_iff_example : (wants_promotion true (ok judgements) (pos 8) ≡ true) ↔ (
    (any
        (about (pos 8))
        (filter (in_repository (trim_space (codes "owner/repo")) (author_run ∷ [])) (approval ∷ []))
      ≡ true)
    × (any (objects (pos 8)) (
          filter
            (in_repository (trim_space (codes "owner/repo")) (author_run ∷ []))
            (approval ∷ []))
        ≡ false))
wants_promotion_iff_example =
    wants_promotion_iff clock (codes "owner/repo") (author_run ∷ []) (approval ∷ []) judgements
      (pos 8) judged

promoted : wants_promotion true (ok judgements) (pos 8) ≡ true
unfolding wants_promotion find_judgement
promoted = refl
