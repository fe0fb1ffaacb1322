-- ===== src/Jobs/Complete.antt =====
-- internal/controlplane/store.go: a worker reports how a run came out.
use machinist.Base.{
  ℕ, Text, codes, text_eq, ltb, Bool, ◌&&◌, ◌||◌, not, Option, none, some, [], ◌++◌, any,
  if◌then◌else◌, is_empty, length, take,
}
use machinist.Base.Int.{ℤ}
use machinist.Base.Result.{Result, ok, err, ◌>>=◌}
use machinist.Jobs.Tables.{
  State, queued, running, succeeded, failed, timed_out, cancelled, abandoned, other, is_running,
  is_cancelled, terminal_run_state, Job, Run, Attempt, TriggerState, Store, update, update_key,
  select, run_of, job_of, coalesce, lapsed,
}
use machinist.Jobs.Route.{next_route_candidate}
use machinist.Jobs.Report.{
  Completion, Metrics, RunError, aggregate_metrics, candidates_unreadable, check_completion,
  elapsed_millis, is_succeeded, lease_conflict, no_rows, non_negative, or_metric, override,
  retry_allowed, run_state, token_retry_stopped, with_reason,
}

-- boundedTriggerError, of a message whose characters are its bytes
abbrev bounded_trigger_error : Text → Text
bounded_trigger_error message = if ltb 2000 (length message) then take 2000 message else message

abbrev state_text : State → Text
state_text succeeded = codes "succeeded"
state_text failed = codes "failed"
state_text timed_out = codes "timed_out"
state_text cancelled = codes "cancelled"
state_text queued = codes "queued"
state_text running = codes "running"
state_text abandoned = codes "abandoned"
state_text (other t) = t

-- The state of a job whose run came out so.
abbrev pub job_state : State → State
job_state succeeded = succeeded
job_state cancelled = cancelled
job_state failed = failed
job_state timed_out = failed
job_state queued = failed
job_state running = failed
job_state abandoned = failed
job_state (other t) = failed

abbrev healthy_or_failed : State → Text
healthy_or_failed s = if is_cancelled s then codes "healthy" else codes "failed"

abbrev trigger_error : Completion → Text
trigger_error c =
    bounded_trigger_error
      (if is_empty c.error then codes "triggered job " ++ state_text c.state else c.error)

-- What the end of a triggered job writes to the state of its trigger.
unfoldable pub settle_trigger : ℕ → Completion → TriggerState → TriggerState
settle_trigger now c t =
    if is_succeeded c.state
    then record t {
      last_success_at = some now;
      last_job_state = codes "succeeded";
      last_job_error = [];
      health = codes "healthy";
      latest_error = [];
      updated_at = now;
    }
    else record t {
      last_job_state = state_text (job_state c.state);
      last_job_error = trigger_error c;
      health = healthy_or_failed c.state;
      latest_error = trigger_error c;
      updated_at = now;
    }

abbrev pub trigger_of : Job → TriggerState → Bool
trigger_of j t =
    text_eq t.identity j.trigger_identity && text_eq t.generation_id j.trigger_generation_id

-- The row of an attempt that is finished.
abbrev pub finish_attempt : ℕ → Completion → Metrics → Attempt → Attempt
finish_attempt now c m a = record a {
  state = c.state;
  error_class = c.error_class;
  outcome = record {
    exit_code = some c.exit_code;
    error = some c.error;
    result = some c.result;
    events = some c.events;
    completed_at = some now;
    duration_millis = m.duration;
    token_usage = m.tokens;
  };
}

abbrev pub running_attempt : Text → Text → Attempt → Bool
running_attempt id token a = text_eq a.id id && (is_running a.state && text_eq a.lease_token token)

-- The row of a run that goes back to the queue.
abbrev pub requeue : Completion → Metrics → ℕ → Run → Run
requeue c m next r = record r {
  state = queued;
  worker_instance = none;
  worker_name = [];
  lease_token = none;
  lease_expires_at = none;
  started_at = none;
  current_attempt_id = [];
  outcome = record {
    exit_code = none;
    error = some c.error;
    result = none;
    events = none;
    completed_at = none;
    duration_millis = m.duration;
    token_usage = m.tokens;
  };
  last_error_class = c.error_class;
  next_candidate = next;
}

-- The row of a run that is over; the lease's token stays.
abbrev pub conclude : ℕ → Completion → Metrics → Run → Run
conclude now c m r = record r {
  state = c.state;
  lease_expires_at = none;
  current_attempt_id = [];
  outcome = record {
    exit_code = some c.exit_code;
    error = some c.error;
    result = some c.result;
    events = some c.events;
    completed_at = some now;
    duration_millis = m.duration;
    token_usage = m.tokens;
  };
  last_error_class = c.error_class;
}

-- The end of Complete where the run is retried.
unfoldable pub retry_run : ℕ → Completion → Metrics → Run → Store → Result RunError Store
retry_run now c m r s = elim r.info.candidate_profiles [
  | none ↦ err candidates_unreadable
  | some candidates ↦ ok (record s {
    runs =
        update_key (run_of r.id) (requeue c m (next_route_candidate candidates r.place.profile))
          s.runs;
    jobs =
        update_key (job_of r.job_id) (λ (j : Job). record j { state = running; updated_at = now })
          s.jobs;
  })
]

-- The end of Complete where the run is over.
unfoldable pub conclude_run : ℕ → Completion → Metrics → Run → Job → Store → Store
conclude_run now c m r j s = record s {
  runs = update_key (run_of r.id) (conclude now c m) s.runs;
  jobs =
      update_key (job_of r.job_id)
        (λ (j : Job). record j { state = job_state c.state; updated_at = now }) s.jobs;
  triggers =
      if is_empty j.trigger_identity
      then s.triggers
      else update (trigger_of j) (settle_trigger now c) s.triggers;
}

-- The choice between the two. A retry that the budget of tokens stops tells so in the message.
unfoldable pub retry_or_conclude :
    ℕ → Completion → Metrics → Run → Job → Store → Result RunError Store
retry_or_conclude now c m r j s =
    if retry_allowed c.state c.error_class r.info.fallback_on r.attempt_count r.info.max_attempts
    then elim (token_retry_stopped r.info.max_total_tokens m.tokens) [
      | none ↦ retry_run now c m r s
      | some why ↦
          ok (conclude_run now (record c { error = with_reason (some why) c.error }) m r j s)
    ]
    else ok (conclude_run now c m r j s)

-- The attempt is finished first, if the run has one; then the metrics are summed.
unfoldable pub finish_run : ℕ → Completion → Metrics → Run → Job → Store → Result RunError Store
finish_run now c m r j s =
    let mine = running_attempt r.current_attempt_id c.lease_token in
    let finished = update_key mine (finish_attempt now c m) s.attempts in
    if is_empty r.current_attempt_id
    then retry_or_conclude now c (aggregate_metrics r.id s.attempts m) r j s
    else if not (any mine s.attempts)
    then err lease_conflict
    else retry_or_conclude now c (aggregate_metrics r.id finished m) r j
        (record s { attempts = finished })

-- A field of a JSON object that is an integer.
module _ (integer_field : Text → Text → Option ℤ) where
  -- resultMetrics, with the time since the start where the result tells no duration
  unfoldable pub result_metrics : ℕ → Option ℕ → Text → Metrics
  result_metrics now started result =
      if is_empty result
      then record { duration = elapsed_millis started now; tokens = none }
      else record {
        duration =
            or_metric (non_negative (integer_field result (codes "duration_millis")))
              (elapsed_millis started now);
        tokens = non_negative (integer_field result (codes "token_usage"));
      }

  -- The lease that a completion names is the run's.
  abbrev pub holds_lease : Completion → Run → Bool
  holds_lease c r =
      text_eq (coalesce r.worker_instance) c.instance_id
      && text_eq (coalesce r.lease_token) c.lease_token
      && (is_empty c.attempt_id || text_eq r.current_attempt_id c.attempt_id)

  -- The part that changes the store: the run runs, under a lease that has not lapsed.
  unfoldable pub complete_running : ℕ → Completion → Run → Job → Store → Result RunError Store
  complete_running now given r j s = do
    c ← check_completion (override r.cancel_requested given)
    finish_run now c (result_metrics now r.started_at c.result) r j s

  unfoldable pub complete_found : ℕ → Completion → Run → Job → Store → Result RunError Store
  complete_found now c r j s =
      if not (holds_lease c r)
      then err lease_conflict
      else if terminal_run_state r.state
      then ok s
      else if not (is_running r.state)
      then err run_state
      else if lapsed now r.lease_expires_at
      then err lease_conflict
      else complete_running now c r j s

  -- Complete: `ok` has the store that is committed.
  unfoldable pub complete : ℕ → Text → Completion → Store → Result RunError Store
  complete now id c s = elim (select (run_of id) s.runs) [
    | none ↦ err no_rows
    | some r ↦ elim (select (job_of r.job_id) s.jobs) [
      | none ↦ err no_rows
      | some j ↦ complete_found now c r j s
    ]
  ]
