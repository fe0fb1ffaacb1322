-- ===== src/Jobs/Going.antt =====
-- Which calls of internal/controlplane/store.go leave every run in its place.
use machinist.Base.{
  ℕ, ◌≡◌, refl, subst, Bool, List, arith, Bool-cases, Option-cases, inl, inr, Text,
}
use machinist.Base.Int.{ℤ}
use machinist.Base.Result.{Result, ok, err}
use machinist.Jobs.Tables.{
  is_queued, is_running, terminal_job_state, Executor, Job, Run, Store, update, update_key, select,
  job_of,
}
use machinist.Jobs.Recover.{recover_expired_runs}
use machinist.Jobs.Recovery.{recovered, runs-recover_expired_runs}
use machinist.Jobs.Poll.{lease_row, lease_run, queued_run, poll}
use machinist.Jobs.Greet.{PollRequest, greet, reconcile_known_repositories}
use machinist.Jobs.Operate.{
  Heartbeat, held_run, heartbeat, BindRequest, bind_terminal, extend_lease, cancel_queued,
  ask_cancel, cancel_runs, cancel_found, cancel_job, of_job,
}
use machinist.Jobs.Calls.{committed, beaten}
use machinist.Jobs.Life.{Goes, Goes-refl, Goes-trans, Goes-map, Goes-update, Goes-update_key}
use machinist.Jobs.Turns.{
  lease_row-Row, extend_lease-Row, cancel_queued-Row, ask_cancel-Row, recovered-Row,
}
use machinist.Jobs.Leaving.{poll_leaves}

pub recover_expired_runs-Goes :
    (now : ℕ) (s : Store) → Goes s.runs (recover_expired_runs now s).runs
recover_expired_runs-Goes now s =
    rw (runs-recover_expired_runs now s) (Goes-map (recovered now) s.runs (recovered-Row now))

lease_run-Goes :
    (now : ℕ) (token attempt : Text) (q : PollRequest) (place : Executor) (r : Run) (s : Store)
    → Goes s.runs (lease_run now token attempt q place r s).runs
unfolding lease_run
lease_run-Goes now token attempt q place r s =
    Goes-update_key (queued_run r.id) (lease_row now token attempt q place) s.runs
      (λ a _ e h. lease_row-Row now token attempt q place a (ground (arith, e)) h)

pub committed-Goes :
    {E : Type 0} (s : Store) (answer : Result E Store)
    → ((s' : Store) → answer ≡ ok s' → Goes s.runs s'.runs)
    → Goes s.runs (committed s answer).runs
committed-Goes s (ok s') go = go s' refl
committed-Goes s (err e) go = Goes-refl s.runs

beaten-Goes :
    {E : Type 0} (s : Store) (answer : Result E (Bool × Store))
    → ((cancel : Bool) (s' : Store) → answer ≡ ok (cancel, s') → Goes s.runs s'.runs)
    → Goes s.runs (beaten s answer).runs
beaten-Goes s (ok (cancel, s')) go = go cancel s' refl
beaten-Goes s (err e) go = Goes-refl s.runs

heartbeat-ok :
    (now : ℕ) (id : Text) (h : Heartbeat) (s s' : Store) (cancel : Bool)
    → heartbeat now id h s ≡ ok (cancel, s')
    → update_key (held_run id h) (extend_lease now) s.runs ≡ s'.runs
unfolding heartbeat
heartbeat-ok now id h s s' cancel e = ground (arith, e)

pub heartbeat-Goes :
    (now : ℕ) (id : Text) (h : Heartbeat) (s : Store)
    → Goes s.runs (beaten s (heartbeat now id h s)).runs
heartbeat-Goes now id h s = beaten-Goes s (heartbeat now id h s) λ cancel s' e.
    subst (λ rows. Goes s.runs rows) (heartbeat-ok now id h s s' cancel e)
      (Goes-update_key (held_run id h) (extend_lease now) s.runs
        (λ a _ held k. extend_lease-Row now a (ground (arith, held)) k))

bind_terminal-ok :
    (now : ℕ) (id : Text) (q : BindRequest) (s s' : Store)
    → bind_terminal now id q s ≡ ok s'
    → s.runs ≡ s'.runs
unfolding bind_terminal
bind_terminal-ok now id q s s' e = ground (arith, e)

pub bind_terminal-Goes :
    (now : ℕ) (id : Text) (q : BindRequest) (s : Store)
    → Goes s.runs (committed s (bind_terminal now id q s)).runs
bind_terminal-Goes now id q s =
    committed-Goes s (bind_terminal now id q s)
      λ s' e. subst (λ rows. Goes s.runs rows) (bind_terminal-ok now id q s s' e) (Goes-refl s.runs)

cancel_runs-Goes : (now : ℕ) (id : Text) (rows : List Run) → Goes rows (cancel_runs now id rows)
unfolding cancel_runs
cancel_runs-Goes now id rows =
    Goes-trans rows (update (of_job id is_queued) (cancel_queued now) rows) _
      (Goes-update (of_job id is_queued) (cancel_queued now) rows
        (λ a e k. cancel_queued-Row now a (ground (arith, e)) k))
      (Goes-update (of_job id is_running) ask_cancel _ (λ a e k. ask_cancel-Row a k))

runs-cancel_found :
    (now : ℕ) (j : Job) (s : Store) → (cancel_found now j s).runs ≡ cancel_runs now j.id s.runs
unfolding cancel_found
runs-cancel_found now j s = ground arith

pub cancel_job-Goes :
    (now : ℕ) (id : Text) (s : Store) → Goes s.runs (committed s (cancel_job now id s)).runs
unfolding cancel_job
cancel_job-Goes now id s = committed-Goes s (cancel_job now id s) λ s' e.
    elim (Option-cases (select (job_of id) s.jobs)) [
      | inl missing ↦ absurd (ground (arith, missing, e))
      | inr (j, found) ↦ elim (Bool-cases (terminal_job_state j.state)) [
        | inl ended ↦
            let same : s.runs ≡ s'.runs = ground (arith, found, ended, e) in
            subst (λ rows. Goes s.runs rows) same (Goes-refl s.runs)
        | inr more ↦
            let same : cancel_found now j s ≡ s' = ground (arith, found, more, e) in
            subst (λ (t : Store). Goes s.runs t.runs) same
              (rw (runs-cancel_found now j s) (cancel_runs-Goes now j.id s.runs))
      ]
    ]

greet-Goes : (now : ℕ) (q : PollRequest) (s : Store) → Goes s.runs (greet now q s).runs
unfolding greet reconcile_known_repositories
greet-Goes now q s = recover_expired_runs-Goes now _

pub poll-Goes :
    (now : ℕ) (max : ℤ) (require : Bool) (token attempt : Text) (q : PollRequest) (s : Store)
    → Goes s.runs (poll now max require token attempt q s).1.runs
poll-Goes now max require token attempt q s =
    let g = greet now q s in
    let greeted = greet-Goes now q s in
    poll_leaves (λ t. Goes s.runs t.runs) now max require token attempt q s (Goes-refl s.runs)
      greeted
      (λ r place chose.
        Goes-trans s.runs g.runs (lease_run now token attempt q place r g).runs greeted
          (lease_run-Goes now token attempt q place r g))
