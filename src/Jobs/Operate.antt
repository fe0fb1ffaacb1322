-- ===== src/Jobs/Operate.antt =====
-- internal/controlplane/store.go: the other calls that change a run.
use machinist.Base.{
  ℕ, ◌+◌, Text, codes, text_eq, leb, ◌==◌, Bool, true, false, ◌&&◌, ◌||◌, not, Option, none, some,
  List, [], ◌∷◌, any, all, filter, if◌then◌else◌, is_empty, length, trim_space,
}
use machinist.Base.Int.{pos}
use machinist.Base.Result.{Result, ok, err}
use machinist.Jobs.Tables.{
  State, cancelled, is_queued, is_running, terminal_job_state, Job, Run, Attempt, Terminal,
  TriggerState, TriggerRequest, Worker, Store, update, update_key, select, run_of, job_of, coalesce,
  lapsed,
}
use machinist.Jobs.Greet.{lease_duration}
use machinist.Jobs.Complete.{running_attempt, trigger_of}
use machinist.Jobs.Report.{RunError, no_rows, lease_conflict, run_state}

pub record Heartbeat : Type 0 where
  pub instance_id : Text
  pub lease_token : Text

-- `column=?`, which a NULL does not meet
abbrev column_is : Option Text → Text → Bool
column_is none t = false
column_is (some u) t = text_eq u t

-- The row that the update of a heartbeat names.
abbrev pub held_run : Text → Heartbeat → Run → Bool
held_run id h r =
    run_of id r
    && (is_running r.state
        && (column_is r.worker_instance h.instance_id && column_is r.lease_token h.lease_token))

abbrev pub extend_lease : ℕ → Run → Run
extend_lease now r = record r { lease_expires_at = some (now + lease_duration) }

-- Heartbeat: whether the operator asked to cancel, and the store that is committed.
unfoldable pub heartbeat : ℕ → Text → Heartbeat → Store → Result RunError (Bool × Store)
heartbeat now id h s = elim (select (run_of id) s.runs) [
  | none ↦ err no_rows
  | some r ↦
      if not (is_running r.state)
      then err run_state
      else if not (text_eq (coalesce r.worker_instance) h.instance_id)
          || not (text_eq (coalesce r.lease_token) h.lease_token)
      then err lease_conflict
      else if lapsed now r.lease_expires_at
      then err lease_conflict
      else if not (any (held_run id h) s.runs)
      then err lease_conflict
      else ok (
        r.cancel_requested,
        record s {
          runs = update_key (held_run id h) (extend_lease now) s.runs;
          workers =
              update_key (λ (w : Worker). text_eq w.instance_id h.instance_id)
                (λ (w : Worker). record w { last_seen_at = now }) s.workers;
        },
      )
]

pub record BindRequest : Type 0 where
  pub instance_id : Text
  pub lease_token : Text
  pub attempt_id : Text
  pub terminal : Terminal

pub data BindError : Type 0 where
  invalid_terminal : BindError
  refused : RunError → BindError

abbrev breaks_line : Text → Bool
breaks_line t = any (λ c. c == 0 || c == 13 || c == 10) t

abbrev bounded_label : Text → Bool
bounded_label t = leb (length t) 128 && not (breaks_line t)

unfoldable pub terminal_valid : Terminal → Bool
terminal_valid t =
    all (λ label. not (is_empty (trim_space label)) && bounded_label label)
      (t.workspace_id ∷ t.pane_id ∷ t.agent_name ∷ [])
    && all bounded_label (t.session ∷ t.tab_id ∷ [])

-- BindTerminal
unfoldable pub bind_terminal : ℕ → Text → BindRequest → Store → Result BindError Store
bind_terminal now id q s =
    if not (terminal_valid q.terminal)
    then err invalid_terminal
    else elim (select (run_of id) s.runs) [
      | none ↦ err (refused no_rows)
      | some r ↦
          if not (is_running r.state)
          then err (refused run_state)
          else if not (text_eq (coalesce r.worker_instance) q.instance_id)
              || not (text_eq (coalesce r.lease_token) q.lease_token)
              || not (text_eq r.current_attempt_id q.attempt_id)
          then err (refused lease_conflict)
          else if lapsed now r.lease_expires_at
          then err (refused lease_conflict)
          else if not (any (running_attempt q.attempt_id q.lease_token) s.attempts)
          then err (refused lease_conflict)
          else ok (record s {
            attempts =
                update_key (running_attempt q.attempt_id q.lease_token)
                  (λ (a : Attempt). record a { terminal = q.terminal }) s.attempts;
          })
    ]

abbrev pub cancel_queued : ℕ → Run → Run
cancel_queued now r = record r {
  state = cancelled;
  cancel_requested = true;
  outcome = record (r.outcome) {
    exit_code = some (pos 130);
    error = some (codes "cancelled by operator");
    completed_at = some now;
  };
  last_error_class = codes "cancelled";
}

abbrev pub ask_cancel : Run → Run
ask_cancel r = record r { cancel_requested = true }

abbrev pub of_job : Text → (State → Bool) → Run → Bool
of_job id p r = text_eq r.job_id id && p r.state

-- The writes of CancelJob to the runs.
unfoldable pub cancel_runs : ℕ → Text → List Run → List Run
cancel_runs now id runs =
    update (of_job id is_running) ask_cancel (update (of_job id is_queued) (cancel_queued now) runs)

unfoldable pub cancel_found : ℕ → Job → Store → Store
cancel_found now j s =
    let runs = cancel_runs now j.id s.runs in
    if any (of_job j.id is_running) runs
    then record s {
      runs = runs;
      jobs = update_key (job_of j.id) (λ (j : Job). record j { updated_at = now }) s.jobs;
    }
    else record s {
      runs = runs;
      jobs =
          update_key (job_of j.id) (λ (j : Job). record j { state = cancelled; updated_at = now })
            s.jobs;
      triggers =
          if is_empty j.trigger_identity
          then s.triggers
          else update (trigger_of j)
              (λ (t : TriggerState). record t {
                last_job_state = codes "cancelled";
                last_job_error = codes "cancelled by operator";
                health = codes "healthy";
                latest_error = codes "cancelled by operator";
                updated_at = now;
              })
              s.triggers;
    }

-- CancelJob
unfoldable pub cancel_job : ℕ → Text → Store → Result RunError Store
cancel_job now id s = elim (select (job_of id) s.jobs) [
  | none ↦ err no_rows
  | some j ↦ if terminal_job_state j.state then ok s else ok (cancel_found now j s)
]

pub data DeleteError : Type 0 where
  no_job job_active : DeleteError

abbrev is_job : Text → Option Text → Bool
is_job id none = false
is_job id (some j) = text_eq j id

-- The deletes of DeleteJob; the attempts of a run go with it.
unfoldable pub delete_found : ℕ → Text → Store → Store
delete_found now id s = record s {
  requests =
      update (λ (t : TriggerRequest). is_job id t.job_id)
        (λ (t : TriggerRequest). record t { job_id = none; updated_at = now }) s.requests;
  attempts =
      filter
        (λ (a : Attempt).
          not (any (λ (r : Run). text_eq r.job_id id && text_eq r.id a.run_id) s.runs))
        s.attempts;
  runs = filter (λ (r : Run). not (text_eq r.job_id id)) s.runs;
  jobs = filter (λ (j : Job). not (job_of id j)) s.jobs;
}

-- DeleteJob
unfoldable pub delete_job : ℕ → Text → Store → Result DeleteError Store
delete_job now id s = elim (select (job_of id) s.jobs) [
  | none ↦ err no_job
  | some j ↦ if terminal_job_state j.state then ok (delete_found now id s) else err job_active
]
