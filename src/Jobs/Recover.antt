-- ===== src/Jobs/Recover.antt =====
-- internal/controlplane/store.go: what becomes of a run whose worker's lease has lapsed.
use machinist.Base.{
  ℕ, ◌+◌, Text, codes, text_eq, ltb, leb, ◌==◌, Bool, false, ◌&&◌, not, Option, none, some, List,
  [], any, if◌then◌else◌, filter, length,
}
use machinist.Base.Int.{pos, is_positive}
use machinist.Jobs.Tables.{
  queued, failed, cancelled, abandoned, is_running, is_failed, is_cancelled, Job, Run, Attempt,
  TriggerState, Store, update, expired,
}

abbrev pub expired_cancellation : ℕ → Run → Bool
expired_cancellation now r = expired now r && r.cancel_requested

abbrev pub cancellation_reason : Text
cancellation_reason = codes "cancelled by operator after worker lease expired"

abbrev pub cancel_attempt : ℕ → Attempt → Attempt
cancel_attempt now a = record a {
  state = cancelled;
  error_class = codes "cancelled";
  outcome = record (a.outcome) {
    exit_code = some (pos 130);
    error = some cancellation_reason;
    completed_at = some now;
  };
}

abbrev pub cancel_expired : ℕ → Run → Run
cancel_expired now r = record r {
  state = cancelled;
  outcome = record (r.outcome) {
    exit_code = some (pos 130);
    error = some cancellation_reason;
    completed_at = some now;
  };
  last_error_class = codes "cancelled";
  lease_token = none;
  lease_expires_at = none;
  current_attempt_id = [];
}

-- An attempt that runs for one of the runs.
abbrev pub attempt_for : (Run → Bool) → List Run → Attempt → Bool
attempt_for p rs a = is_running a.state && any (λ (r : Run). p r && text_eq r.id a.run_id) rs

unfoldable pub finalize_expired_cancellations : ℕ → Store → Store
finalize_expired_cancellations now s =
    let due = expired_cancellation now in
    let runs = update due (cancel_expired now) s.runs in
    record s {
      attempts = update (attempt_for due s.runs) (cancel_attempt now) s.attempts;
      runs = runs;
      jobs =
          if any due s.runs
          then update
              (λ (j : Job).
                is_running j.state
                && any
                    (λ (r : Run).
                      is_cancelled r.state && r.cancel_requested && text_eq r.job_id j.id)
                    runs)
              (λ (j : Job). record j { state = cancelled; updated_at = now }) s.jobs
          else s.jobs;
    }

abbrev pub uncancelled : ℕ → Run → Bool
uncancelled now r = expired now r && not r.cancel_requested

abbrev pub abandon_attempt : ℕ → Attempt → Attempt
abandon_attempt now a = record a {
  state = abandoned;
  error_class = codes "transient";
  outcome = record (a.outcome) {
    error = some (codes "worker lease expired");
    completed_at = some now;
  };
}

-- abandonExpiredAttemptsSQL
unfoldable pub abandon_expired_attempts : ℕ → Store → Store
abandon_expired_attempts now s = record s {
  attempts = update (attempt_for (uncancelled now) s.runs) (abandon_attempt now) s.attempts;
}

abbrev pub fail_expired : ℕ → Text → Run → Run
fail_expired now reason r = record r {
  state = failed;
  outcome = record (r.outcome) {
    exit_code = some (pos 1);
    error = some reason;
    completed_at = some now;
    duration_millis = none;
    token_usage = none;
  };
  last_error_class = codes "transient";
  lease_token = none;
  lease_expires_at = none;
  current_attempt_id = [];
}

abbrev pub unknown_budget : ℕ → Run → Bool
unknown_budget now r =
    uncancelled now r
    && is_positive r.info.max_total_tokens
    && ltb r.attempt_count r.info.max_attempts

abbrev pub exhausted : ℕ → Run → Bool
exhausted now r = uncancelled now r && leb r.info.max_attempts r.attempt_count

abbrev pub unknown_budget_reason : Text
unknown_budget_reason =
    codes
      "worker lease expired; retry stopped because max_total_tokens is configured but token usage coverage is incomplete"

abbrev pub exhausted_reason : Text
exhausted_reason = codes "worker lease expired and attempt budget was exhausted"

abbrev pub is_some_text : Option Text → Text → Bool
is_some_text none t = false
is_some_text (some s) t = text_eq s t

abbrev pub is_some_instant : Option ℕ → ℕ → Bool
is_some_instant none t = false
is_some_instant (some s) t = s == t

-- `state='failed' AND completed_at=? AND error=?`
abbrev pub failed_now : ℕ → Text → Run → Bool
failed_now now reason r =
    is_failed r.state
    && is_some_instant r.outcome.completed_at now
    && is_some_text r.outcome.error reason

unfoldable pub record_expired_run_failures : ℕ → Text → Store → Store
record_expired_run_failures now reason s =
    let jobs =
      update
        (λ (j : Job).
          is_running j.state
          && any (λ (r : Run). failed_now now reason r && text_eq r.job_id j.id) s.runs)
        (λ (j : Job). record j { state = failed; updated_at = now }) s.jobs in
    record s {
      jobs = jobs;
      triggers =
          update
            (λ (t : TriggerState).
              any
                (λ (j : Job).
                  text_eq j.trigger_identity t.identity
                  && text_eq j.trigger_generation_id t.generation_id
                  && any (λ (r : Run). failed_now now reason r && text_eq r.job_id j.id) s.runs)
                jobs)
            (λ (t : TriggerState). record t {
              last_job_state = codes "failed";
              last_job_error = reason;
              health = codes "failed";
              latest_error = reason;
              updated_at = now;
            })
            s.triggers;
    }

-- One of the two updates that fail runs, with the record of it if it changed a row.
unfoldable pub fail_runs : ℕ → Text → (Run → Bool) → Store → Store
fail_runs now reason p s =
    let s' = record s { runs = update p (fail_expired now reason) s.runs } in
    if any p s.runs then record_expired_run_failures now reason s' else s'

abbrev pub reclaimable : ℕ → Run → Bool
reclaimable now r = uncancelled now r && ltb r.attempt_count r.info.max_attempts

abbrev pub reclaim : Run → Run
reclaim r = record r {
  state = queued;
  worker_instance = none;
  worker_name = [];
  lease_token = none;
  lease_expires_at = none;
  started_at = none;
  current_attempt_id = [];
  outcome = record (r.outcome) {
    error = some (codes "worker lease expired; redispatching within attempt budget");
    duration_millis = none;
    token_usage = none;
  };
  last_error_class = codes "transient";
}

-- reclaimExpiredLeasesSQL
unfoldable pub reclaim_runs : ℕ → Store → Store
reclaim_runs now s = record s { runs = update (reclaimable now) reclaim s.runs }

unfoldable pub recover_expired_runs : ℕ → Store → Store
recover_expired_runs now s = reclaim_runs now (
    fail_runs now exhausted_reason (exhausted now) (
      fail_runs now unknown_budget_reason (unknown_budget now)
        (abandon_expired_attempts now (finalize_expired_cancellations now s))))

-- RowsAffected
abbrev pub affected : (Run → Bool) → List Run → ℕ
affected p rs = length (filter p rs)

-- ReclaimExpiredLeases: the number of runs recovered, and the store.
unfoldable pub reclaim_expired_leases : ℕ → Store → ℕ × Store
reclaim_expired_leases now s =
    let s1 = abandon_expired_attempts now (finalize_expired_cancellations now s) in
    let s2 = fail_runs now unknown_budget_reason (unknown_budget now) s1 in
    let s3 = fail_runs now exhausted_reason (exhausted now) s2 in
    (
      affected (expired_cancellation now) s.runs
          + affected (unknown_budget now) s1.runs
          + affected (exhausted now) s2.runs
          + affected (reclaimable now) s3.runs,
      recover_expired_runs now s,
    )
