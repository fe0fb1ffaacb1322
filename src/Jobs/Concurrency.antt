-- ===== src/Jobs/Concurrency.antt =====
-- No poll lets more jobs run than the limit (internal/controlplane/store.go).
use machinist.Base.{
  ℕ, ◌+◌, ◌≤◌, ◌<◌, ◌≡◌, refl, sym, subst, Text, Bool, true, false, some, List, [], ◌∷◌, arith, any,
  length, filter, Bool-cases, inl, inr,
}
use machinist.Base.Int.{pos}
use machinist.Base.Result.{ok}
use machinist.Jobs.Tables.{
  State, failed, cancelled, is_queued, is_running, Job, Run, Executor, Store, update, update_key,
  select, job_of,
}
use machinist.Jobs.Recover.{
  recover_expired_runs, reclaim_runs, fail_runs, record_expired_run_failures,
  abandon_expired_attempts, finalize_expired_cancellations, expired_cancellation, unknown_budget,
  unknown_budget_reason, exhausted, exhausted_reason,
}
use machinist.Jobs.Greet.{PollRequest, greet, reconcile_known_repositories}
use machinist.Jobs.Poll.{at_capacity, start_job, lease_run, choose_run, poll}
use machinist.Jobs.Leaving.{poll_leaves}
use machinist.Jobs.Answering.{choose_run-Serves}

-- How many jobs run.
abbrev pub running_jobs : Store → ℕ
running_jobs s = length (filter (λ (j : Job). is_running j.state) s.jobs)

abbrev count : List Job → ℕ
count jobs = length (filter (λ (j : Job). is_running j.state) jobs)

-- An update that makes no row a running one does not raise the count.
count-update :
    (p : Job → Bool) (f : Job → Job) (jobs : List Job)
    → ((j : Job) → is_running (f j).state ≡ false)
    → count (update p f jobs) ≤ count jobs
unfolding update
count-update p f [] stops = omega arith
count-update p f (j ∷ jobs) stops = ground (arith, stops j, count-update p f jobs stops)

count-fail_runs :
    (now : ℕ) (t : Text) (p : Run → Bool) (s : Store)
    → running_jobs (fail_runs now t p s) ≤ running_jobs s
unfolding fail_runs record_expired_run_failures
count-fail_runs now t p s = elim (Bool-cases (any p s.runs)) [
  | inl e ↦ rw e (
      count-update _ (λ (j : Job). record j { state = failed; updated_at = now }) s.jobs
        (λ j. refl))
  | inr e ↦ rw e (omega arith)
]

count-finalize :
    (now : ℕ) (s : Store) → running_jobs (finalize_expired_cancellations now s) ≤ running_jobs s
unfolding finalize_expired_cancellations
count-finalize now s = elim (Bool-cases (any (expired_cancellation now) s.runs)) [
  | inl e ↦ rw e (
      count-update _ (λ (j : Job). record j { state = cancelled; updated_at = now }) s.jobs
        (λ j. refl))
  | inr e ↦ rw e (omega arith)
]

count-recover_expired_runs :
    (now : ℕ) (s : Store) → running_jobs (recover_expired_runs now s) ≤ running_jobs s
unfolding recover_expired_runs reclaim_runs abandon_expired_attempts
count-recover_expired_runs now s =
    let s1 = abandon_expired_attempts now (finalize_expired_cancellations now s) in
    let s2 = fail_runs now unknown_budget_reason (unknown_budget now) s1 in
    let first = count-finalize now s in
    let second = count-fail_runs now unknown_budget_reason (unknown_budget now) s1 in
    let third = count-fail_runs now exhausted_reason (exhausted now) s2 in
    omega (arith, first, second, third)

-- A job that starts raises the count by one at most, and not if it ran.
count-start_job :
    (now : ℕ) (id : Text) (jobs : List Job)
    → count (update_key (job_of id) (start_job now) jobs) ≤ count jobs + 1
unfolding update_key
count-start_job now id [] = omega arith
count-start_job now id (j ∷ jobs) = ground (arith, count-start_job now id jobs)

not-is_queued : (s : State) → is_running s ≡ true → is_queued s ≡ false
not-is_queued s h = ground (arith, h)

count-start_running :
    (now : ℕ) (id : Text) (jobs : List Job) (j : Job)
    → select (job_of id) jobs ≡ some j
    → is_running j.state ≡ true
    → count (update_key (job_of id) (start_job now) jobs) ≤ count jobs
unfolding update_key select
count-start_running now id [] j e r = cc
count-start_running now id (k ∷ jobs) j e r = elim (Bool-cases (job_of id k)) [
  | inl same ↦
      let one : k ≡ j = ground (arith, e, same) in
      let runs = subst (λ (x : Job). is_running x.state ≡ true) (sym one) r in
      let started = not-is_queued k.state runs in ground (arith, same, runs, started)
  | inr other ↦ rw other (ground (arith, count-start_running now id jobs j (rw other at e) r))
]

leased_within :
    (now limit : ℕ) (token attempt : Text) (q : PollRequest) (g : Store) (r : Run)
    (place : Executor)
    → 0 < limit
    → running_jobs g ≤ limit
    → choose_run now (at_capacity (pos limit) g) q g g.runs ≡ ok (some (r, place))
    → running_jobs (lease_run now token attempt q place r g) ≤ limit
unfolding lease_run at_capacity
leased_within now limit token attempt q g r place positive within chose =
    let full = at_capacity (pos limit) g in
    let (waits, serves, (j, found, transport, room)) =
      choose_run-Serves now full q g g.runs r place chose in
    elim (Bool-cases full) [
      | inr free ↦
          let more = count-start_job now r.job_id g.jobs in
          let fewer : running_jobs g < limit = ground (arith, free, positive) in
          omega (arith, more, fewer)
      | inl at_limit ↦
          let runs : is_running j.state ≡ true = ground (arith, at_limit, room) in
          let same = count-start_running now r.job_id g.jobs j found runs in
          omega (arith, same, within)
    ]

greet_within :
    (now : ℕ) (q : PollRequest) (s : Store) → running_jobs (greet now q s) ≤ running_jobs s
unfolding greet reconcile_known_repositories
greet_within now q s = count-recover_expired_runs now _

-- Where a poll has a limit and no more jobs run than that, no more run after it, whether it leases a
-- run, gives one back, or fails.
pub poll_limit :
    (now : ℕ) (limit : ℕ) (require : Bool) (token attempt : Text) (q : PollRequest) (s : Store)
    → 0 < limit
    → running_jobs s ≤ limit
    → running_jobs (poll now (pos limit) require token attempt q s).1 ≤ limit
poll_limit now limit require token attempt q s positive before =
    let fewer = greet_within now q s in
    let greeted : running_jobs (greet now q s) ≤ limit = omega (arith, fewer, before) in
    poll_leaves (λ t. running_jobs t ≤ limit) now (pos limit) require token attempt q s before
      greeted
      (λ r place chose.
        leased_within now limit token attempt q (greet now q s) r place positive greeted chose)
