-- ===== src/Jobs/Budget.antt =====
-- No run is attempted more often than its budget (internal/controlplane/store.go).
use machinist.Base.{ℕ, ◌≤◌, ◌<◌, ◌≡◌, true, Option, none, List, [], All, arith, is_some, Text}
use machinist.Base.Result.{ok}
use machinist.Jobs.Tables.{State, is_queued, is_running, terminal_run_state, Run, Store}
use machinist.Jobs.Recover.{recover_expired_runs}
use machinist.Jobs.Recovery.{recovered, runs-recover_expired_runs, All-recovered}
use machinist.Jobs.Tables.{Executor}
use machinist.Jobs.Poll.{lease_row}
use machinist.Jobs.Greet.{PollRequest}
use machinist.Jobs.Complete.{requeue, conclude}
use machinist.Jobs.Report.{Completion, Metrics, retry_allowed, check_completion}
use machinist.Jobs.Operate.{extend_lease, cancel_queued, ask_cancel}
use machinist.Jobs.Create.{JobRequest, ResolvedCommand, new_run, run_max_attempts}

-- A row of runs as the store keeps it.
pub record IsSound (r : Run) : Type 0 where
  pub within : r.attempt_count ≤ r.info.max_attempts
  pub spare : is_queued r.state ≡ true → r.attempt_count < r.info.max_attempts
  pub free :
      is_queued r.state ≡ true
      → (r.worker_instance ≡ none)
        × (r.lease_token ≡ none)
        × (r.lease_expires_at ≡ none)
        × (r.current_attempt_id ≡ [])
  pub held :
      is_running r.state ≡ true
      → (is_some r.worker_instance ≡ true)
        × (is_some r.lease_token ≡ true)
        × (is_some r.lease_expires_at ≡ true)
  pub ended :
      terminal_run_state r.state ≡ true → (r.lease_expires_at ≡ none) × (r.current_attempt_id ≡ [])

abbrev pub Sound : Store → Type 0
Sound s = All IsSound s.runs

pub recovered-IsSound : (now : ℕ) (r : Run) → IsSound r → IsSound (recovered now r)
recovered-IsSound now r h = ground arith

pub recover_expired_runs-Sound :
    (now : ℕ) (s : Store) → Sound s → Sound (recover_expired_runs now s)
recover_expired_runs-Sound now s h =
    rw (runs-recover_expired_runs now s)
      (All-recovered IsSound IsSound now s.runs (recovered-IsSound now) h)

pub lease_row-IsSound :
    (now : ℕ) (token attempt : Text) (q : PollRequest) (place : Executor) (r : Run)
    → is_queued r.state ≡ true
    → IsSound r
    → IsSound (lease_row now token attempt q place r)
lease_row-IsSound now token attempt q place r e h = let room = h.spare e in ground (arith, room)

pub requeue-IsSound :
    (c : Completion) (m : Metrics) (next : ℕ) (r : Run)
    → r.attempt_count < r.info.max_attempts
    → IsSound (requeue c m next r)
requeue-IsSound c m next r l = ground (arith, l)

pub conclude-IsSound :
    (now : ℕ) (c : Completion) (m : Metrics) (r : Run)
    → terminal_run_state c.state ≡ true
    → IsSound r
    → IsSound (conclude now c m r)
conclude-IsSound now c m r e h = let fits = h.within in ground (arith, e, fits)

pub extend_lease-IsSound :
    (now : ℕ) (r : Run) → is_running r.state ≡ true → IsSound r → IsSound (extend_lease now r)
extend_lease-IsSound now r e h = let (w, t, l) = h.held e in ground (arith, e, h.within)

pub cancel_queued-IsSound :
    (now : ℕ) (r : Run) → is_queued r.state ≡ true → IsSound r → IsSound (cancel_queued now r)
cancel_queued-IsSound now r e h = let (w, t, l, a) = h.free e in ground (arith, h.within, l, a)

pub ask_cancel-IsSound : (r : Run) → IsSound r → IsSound (ask_cancel r)
ask_cancel-IsSound r h = ground arith

pub new_run-IsSound :
    (job_id id : Text) (q : JobRequest) (c : ResolvedCommand) → IsSound (new_run job_id id q c)
unfolding run_max_attempts
new_run-IsSound job_id id q c = ground arith

pub retry_allowed_spare :
    (s : State) (class : Text) (allowed : Option (List Text)) (n max : ℕ)
    → retry_allowed s class allowed n max ≡ true
    → n < max
unfolding retry_allowed
retry_allowed_spare s class allowed n max h = ground arith

pub check_completion_terminal :
    (c d : Completion) → check_completion c ≡ ok d → terminal_run_state d.state ≡ true
unfolding check_completion
check_completion_terminal c d h = ground (arith, h)
