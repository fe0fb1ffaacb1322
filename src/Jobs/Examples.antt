-- ===== src/Jobs/Examples.antt =====
-- A job with one run in a small store: fixtures, tests, and the theorems about
-- internal/controlplane/store.go applied to them.
use machinist.Jobs.Route.{supports_model, next_route_candidate}
use machinist.Base.Dict.{lookup}
use machinist.Jobs.ErrorClass.{class_valid}
use machinist.Base.{
  subst, sym, ℕ, ◌≡◌, ◌≤◌, arith, refl, Text, codes, true, false, Option, none, some, List, [], ◌∷◌,
  All, map, text_eq, is_empty, contains, not, ◌||◌, ◌&&◌, ◌⊎◌, trim_space, to_lower, is_space,
}
use machinist.Base.Int.{ℤ, pos}
use machinist.Base.Result.{ok}
use machinist.Jobs.Tables.{
  failed, Job, Run, Executor, Store, State, queued, running, is_queued, is_running,
  terminal_run_state, expired, lapsed, coalesce, select, run_of, job_of, update, update_key,
}
use machinist.Jobs.Poll.{
  lease_row, new_attempt, choose_run, place_for, poll, poll_greeted, at_capacity, dispatch,
  lease_run, poll_gate,
}
use machinist.Jobs.Greet.{PollRequest, transports_of, greet, reconcile_known_repositories}
use machinist.Jobs.Complete.{
  complete, complete_found, complete_running, finish_run, retry_or_conclude, retry_run,
  result_metrics,
}
use machinist.Jobs.Report.{
  Completion, check_completion, override, outcome_valid, retry_allowed, token_retry_stopped,
  aggregate_metrics,
}
use machinist.Jobs.Create.{
  JobRequest, ResolvedCommand, new_run, run_max_attempts, create_job, valid_portable_identifier,
}
use machinist.Jobs.Calls.{
  Call, creates, polls, cancels, deletes, completes, reclaims, run, committed, step,
}
use machinist.Jobs.Recover.{
  recover_expired_runs, reclaim_runs, fail_runs, abandon_expired_attempts,
  finalize_expired_cancellations, record_expired_run_failures,
}
use machinist.Jobs.Recovery.{recovered, runs-recover_expired_runs, recover_expired_runs_clears}
use machinist.Jobs.Budget.{Sound}
use machinist.Jobs.Life.{Life, life, over}
use machinist.Jobs.Following.{Follows, Has, first}
use machinist.Jobs.Answering.{Serves, complete-authorized, choose_run-Serves}
use machinist.Jobs.Concurrency.{running_jobs, poll_limit}
use machinist.Jobs.Moving.{run-Sound, run-Follows, run_over}

abbrev command : ResolvedCommand
command = record {
  name = codes "implement";
  hash = codes "h1";
  executor = codes "codex";
  model = [];
  prompt = codes "do it";
  timeout_ms = 60000;
  route = [];
  profile = codes "codex";
  harness = codes "cli";
  provider = codes "openai";
  auth_mode = codes "key";
  role = codes "author";
  candidates = codes "codex" ∷ [];
  max_attempts = pos 2;
  max_total_tokens = pos 0;
  fallback_on = codes "timeout" ∷ [];
}

abbrev request : JobRequest
request = record {
  prompt = codes "do it";
  repository = codes "owner/repo";
  name = codes "implement";
  execution_mode = [];
  origin = [];
}

abbrev worker_poll : PollRequest
worker_poll = record {
  instance_id = codes "w1";
  name = codes "worker";
  executors = codes "codex" ∷ [];
  repositories = codes "owner/repo" ∷ [];
  models = [];
  profiles = [];
  profiles_size = 2;
  environment_valid = true;
  transports = [];
  fleet = [];
}

abbrev timed_out_report : Completion
timed_out_report = record {
  instance_id = codes "w1";
  lease_token = codes "t1";
  attempt_id = codes "a1";
  state = State.timed_out;
  exit_code = pos 124;
  error_class = codes "timeout";
  error = codes "too slow";
  result = [];
  events = [];
}

abbrev no_store : Store
no_store = record {
  jobs = [];
  runs = [];
  attempts = [];
  workers = [];
  worker_repositories = [];
  known_repositories = [];
  triggers = [];
  requests = [];
  leases = [];
}

abbrev no_field : Text → Text → Option ℤ
no_field result field = none

-- A run is created, attempted, timed out and retried; its second lease lapses.
abbrev calls : List (ℕ × Call)
calls =
    (1, creates (codes "j1") (codes "r1") request command)
    ∷ (2, polls (pos 1) false (codes "t1") (codes "a1") worker_poll)
    ∷ (3, completes (codes "r1") timed_out_report)
    ∷ (4, polls (pos 1) false (codes "t2") (codes "a2") worker_poll)
    ∷ (40000000000, reclaims)
    ∷ []

run-Sound_example : Sound (run no_field no_store calls)
run-Sound_example = run-Sound no_field no_store calls tt

run-Follows_example : Follows calls [] (map life (run no_field no_store calls).runs)
run-Follows_example = run-Follows no_field no_store calls tt

abbrev standing : Run → State × ℕ
standing r = (r.state, r.attempt_count)

-- The run ends failed with both attempts spent.
calls_test : map standing (run no_field no_store calls).runs ≡ (failed, 2) ∷ []
unfolding run step recover_expired_runs reclaim_runs update fail_runs abandon_expired_attempts
    finalize_expired_cancellations record_expired_run_failures poll text_eq poll_greeted select
    greet reconcile_known_repositories complete create_job to_lower trim_space is_space lookup
    aggregate_metrics check_completion complete_found complete_running finish_run outcome_valid
    override result_metrics retry_allowed retry_or_conclude retry_run token_retry_stopped
    class_valid run_max_attempts valid_portable_identifier at_capacity choose_run dispatch lease_run
    place_for poll_gate next_route_candidate supports_model update_key
calls_test = refl

abbrev failed_life : Life
failed_life = record {
  id = codes "r1";
  job_id = codes "j1";
  phase = over failed;
  attempts = 2;
  limit = 2;
}

lives_test : map life (run no_field no_store calls).runs ≡ failed_life ∷ []
unfolding run step recover_expired_runs reclaim_runs update fail_runs abandon_expired_attempts
    finalize_expired_cancellations record_expired_run_failures poll text_eq poll_greeted select
    greet reconcile_known_repositories complete create_job to_lower trim_space is_space lookup
    aggregate_metrics check_completion complete_found complete_running finish_run outcome_valid
    override result_metrics retry_allowed retry_or_conclude retry_run token_retry_stopped
    class_valid run_max_attempts valid_portable_identifier at_capacity choose_run dispatch lease_run
    place_for poll_gate next_route_candidate supports_model update_key
lives_test = refl

-- The job is cancelled too late, another is deleted, and the run is polled for in vain.
abbrev later_calls : List (ℕ × Call)
later_calls =
    (40000000001, cancels (codes "j1"))
    ∷ (40000000002, deletes (codes "j2"))
    ∷ (40000000003, polls (pos 1) false (codes "t3") (codes "a3") worker_poll)
    ∷ []

run_over_example :
    Has failed_life (map life (run no_field (run no_field no_store calls) later_calls).runs)
unfolding text_eq
run_over_example =
    run_over no_field (run no_field no_store calls) later_calls failed_life failed
      (run-Sound no_field no_store calls tt) refl
      (subst (λ ls. Has failed_life ls) (sym lives_test) (first refl)) (refl, (refl, (refl, tt)))

abbrev place : Executor
place = record {
  executor = codes "codex";
  profile = codes "codex";
  harness = codes "cli";
  provider = codes "openai";
  auth_mode = codes "key";
}

abbrev waiting_run : Run
waiting_run = new_run (codes "j1") (codes "r1") request command

abbrev leased_run : Run
leased_run = lease_row 2 (codes "t1") (codes "a1") worker_poll place waiting_run

abbrev job : State → Job
job state = record {
  id = codes "j1";
  prompt = codes "do it";
  repository = codes "owner/repo";
  command = codes "implement";
  trigger_identity = [];
  trigger_generation_id = [];
  execution_mode = codes "process";
  origin = codes "machinist";
  state = state;
  created_at = 1;
  updated_at = 1;
}

abbrev leased_store : Store
leased_store = record no_store {
  jobs = job running ∷ [];
  runs = leased_run ∷ [];
  attempts = new_attempt 2 (codes "t1") (codes "a1") worker_poll place waiting_run ∷ [];
}

runs-recover_expired_runs_example :
    (recover_expired_runs 40000000000 leased_store).runs
    ≡ map (recovered 40000000000) (leased_run ∷ [])
runs-recover_expired_runs_example = runs-recover_expired_runs 40000000000 leased_store

recover_expired_runs_clears_example :
    All
      (λ (r : Run). expired 40000000000 r ≡ false)
      (recover_expired_runs 40000000000 leased_store).runs
recover_expired_runs_clears_example = recover_expired_runs_clears 40000000000 leased_store

found_test : select (run_of (codes "r1")) leased_store.runs ≡ some leased_run
unfolding select text_eq
found_test = refl

abbrev retried_store : Store
retried_store =
    committed leased_store (complete no_field 3 (codes "r1") timed_out_report leased_store)

retried_test : complete no_field 3 (codes "r1") timed_out_report leased_store ≡ ok retried_store
unfolding complete select text_eq complete_found complete_running check_completion override
    outcome_valid trim_space class_valid lookup finish_run retry_or_conclude retry_allowed
    run_max_attempts token_retry_stopped retry_run
retried_test = refl

complete-authorized_example :
    (text_eq (coalesce leased_run.worker_instance) (codes "w1") ≡ true)
    × (text_eq (coalesce leased_run.lease_token) (codes "t1") ≡ true)
    × ((is_empty (codes "a1") || text_eq leased_run.current_attempt_id (codes "a1")) ≡ true)
    × (((terminal_run_state leased_run.state ≡ true) × (retried_store ≡ leased_store))
        ⊎ ((is_running leased_run.state ≡ true) × (lapsed 3 leased_run.lease_expires_at ≡ false)))
complete-authorized_example =
    complete-authorized no_field 3 (codes "r1") timed_out_report leased_store retried_store
      leased_run found_test retried_test

abbrev waiting_store : Store
waiting_store = record no_store { jobs = job queued ∷ []; runs = waiting_run ∷ [] }

abbrev kept_place : Executor
kept_place = waiting_run.place

chosen_test :
    choose_run 2 false worker_poll waiting_store waiting_store.runs
    ≡ ok (some (waiting_run, kept_place))
unfolding choose_run select text_eq place_for supports_model lookup
chosen_test = refl

choose_run-Serves_example :
    (is_queued waiting_run.state ≡ true)
    × Serves worker_poll waiting_run kept_place
    × ((j : Job) × (select (job_of waiting_run.job_id) waiting_store.jobs ≡ some j)
        × (contains j.execution_mode (transports_of worker_poll) ≡ true)
        × ((false && not (is_running j.state)) ≡ false))
choose_run-Serves_example =
    choose_run-Serves 2 false worker_poll waiting_store waiting_store.runs waiting_run kept_place
      chosen_test

poll_limit_example :
    running_jobs (poll 2 (pos 1) false (codes "t1") (codes "a1") worker_poll waiting_store).1 ≤ 1
poll_limit_example =
    poll_limit 2 1 false (codes "t1") (codes "a1") worker_poll waiting_store (omega arith)
      (omega arith)
