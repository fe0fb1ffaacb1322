-- ===== src/Jobs/Completing.antt =====
-- A completion moves the table of runs along their lives (internal/controlplane/store.go).
use machinist.Base.{
  ℕ, ◌<◌, ◌≡◌, true, Option, some, List, arith, Bool-cases, Option-cases, inl, inr, Text, any,
  is_empty, sym, subst, text_eq_iff,
}
use machinist.Base.Int.{ℤ}
use machinist.Base.Result.{ok, >>=-eq-ok}
use machinist.Jobs.Tables.{
  is_running, terminal_run_state, Job, Run, Store, update_key, select, run_of, job_of,
}
use machinist.Jobs.Route.{next_route_candidate}
use machinist.Jobs.Complete.{
  requeue, conclude, conclude_run, retry_run, retry_or_conclude, finish_run, complete,
  complete_found, complete_running, result_metrics, running_attempt, finish_attempt,
}
use machinist.Jobs.Report.{
  Completion, Metrics, retry_allowed, check_completion, token_retry_stopped, with_reason, override,
  aggregate_metrics,
}
use machinist.Jobs.Rows.{select-holds}
use machinist.Jobs.Budget.{retry_allowed_spare, check_completion_terminal}
use machinist.Jobs.Life.{Goes, Goes-refl, Goes-update_key}
use machinist.Jobs.Turns.{requeue-Row, conclude-Row}

module _ (now : ℕ) (m : Metrics) (r : Run) (j : Job) (s : Store) (works : is_running r.state ≡ true)
    (found : select (run_of r.id) s.runs ≡ some r) where
  -- The run that is written is the one that was read.
  conclude_run-Goes :
      (c : Completion)
      → terminal_run_state c.state ≡ true
      → Goes s.runs (conclude_run now c m r j s).runs
  unfolding conclude_run
  conclude_run-Goes c over = Goes-update_key (run_of r.id) (conclude now c m) s.runs (λ a f _ h.
      let one : r ≡ a = cc (f, found) in conclude-Row now c m a (rw one at works) over h)

  retry_run-Goes :
      (c : Completion) (s' : Store)
      → r.attempt_count < r.info.max_attempts
      → retry_run now c m r s ≡ ok s'
      → Goes s.runs s'.runs
  unfolding retry_run
  retry_run-Goes c s' l e = elim (Option-cases r.info.candidate_profiles) [
    | inl missing ↦ absurd (ground (arith, missing, e))
    | inr (candidates, there) ↦
        let next = next_route_candidate candidates r.place.profile in
        let rows : Run → Run = requeue c m next in
        let same : update_key (run_of r.id) rows s.runs ≡ s'.runs = ground (arith, there, e) in
        rw (← same) (
          Goes-update_key (run_of r.id) rows s.runs (λ a f _ _.
            let one : r ≡ a = cc (f, found) in
            requeue-Row c m next a (rw one at works) (rw one at l)))
  ]

  retry_or_conclude-Goes :
      (c : Completion) (s' : Store)
      → terminal_run_state c.state ≡ true
      → retry_or_conclude now c m r j s ≡ ok s'
      → Goes s.runs s'.runs
  unfolding retry_or_conclude
  retry_or_conclude-Goes c s' over e =
      let again =
        retry_allowed c.state c.error_class r.info.fallback_on r.attempt_count
          r.info.max_attempts in
      elim (Bool-cases again) [
        | inr no_more ↦
            let left : conclude_run now c m r j s ≡ s' = ground (arith, no_more, e) in
            rw (← left) (conclude_run-Goes c over)
        | inl more ↦ elim (Option-cases (token_retry_stopped r.info.max_total_tokens m.tokens)) [
          | inl allows ↦
              retry_run-Goes c s'
                (retry_allowed_spare c.state c.error_class r.info.fallback_on _ _ more)
                (rw (more, allows) at e)
          | inr (why, stops) ↦
              let last : Completion = record c { error = with_reason (some why) c.error } in
              let left : conclude_run now last m r j s ≡ s' = ground (arith, more, stops, e) in
              rw (← left) (conclude_run-Goes last over)
        ]
      ]

finish_run-Goes :
    (now : ℕ) (m : Metrics) (r : Run) (j : Job) (s : Store)
    → is_running r.state ≡ true
    → select (run_of r.id) s.runs ≡ some r
    → (c : Completion) (s' : Store) → terminal_run_state c.state ≡ true
    → finish_run now c m r j s ≡ ok s'
    → Goes s.runs s'.runs
unfolding finish_run
finish_run-Goes now m r j s works found c s' over e =
    let mine = running_attempt r.current_attempt_id c.lease_token in
    let finished = update_key mine (finish_attempt now c m) s.attempts in
    elim (Bool-cases (is_empty r.current_attempt_id)) [
      | inl none_kept ↦
          retry_or_conclude-Goes now (aggregate_metrics r.id s.attempts m) r j s works found c s'
            over (rw none_kept at e)
      | inr kept ↦ elim (Bool-cases (any mine s.attempts)) [
        | inr missing ↦ absurd (ground (arith, kept, missing, e))
        | inl there ↦
            retry_or_conclude-Goes now (aggregate_metrics r.id finished m) r j
              (record s { attempts = finished }) works found c s' over (rw (kept, there) at e)
      ]
    ]

-- The row that a name finds is the row that its own name finds.
select-same :
    (id : Text) (rows : List Run) (r : Run)
    → select (run_of id) rows ≡ some r
    → select (run_of r.id) rows ≡ some r
select-same id rows r found =
    let same = (text_eq_iff r.id id).0 (select-holds (run_of id) rows r found) in
    subst (λ k. select (run_of k) rows ≡ some r) (sym same) found

module _ (integer_field : Text → Text → Option ℤ) (now : ℕ) (given : Completion) where
  complete_running-Goes :
      (r : Run) (j : Job) (s s' : Store)
      → is_running r.state ≡ true
      → select (run_of r.id) s.runs ≡ some r
      → complete_running integer_field now given r j s ≡ ok s'
      → Goes s.runs s'.runs
  unfolding complete_running
  complete_running-Goes r j s s' works found e =
      let (c, checked, finished) =
        >>=-eq-ok (check_completion (override r.cancel_requested given)) _ e in
      finish_run-Goes now (result_metrics integer_field now r.started_at c.result) r j s works found
        c s' (check_completion_terminal _ c checked) finished

  complete_found-Goes :
      (r : Run) (j : Job) (s s' : Store)
      → select (run_of r.id) s.runs ≡ some r
      → complete_found integer_field now given r j s ≡ ok s'
      → Goes s.runs s'.runs
  unfolding complete_found
  complete_found-Goes r j s s' found e = elim (Bool-cases (terminal_run_state r.state)) [
    | inl over ↦ let same : s ≡ s' = ground (arith, over, e) in rw same (Goes-refl s'.runs)
    | inr more ↦
        let works : is_running r.state ≡ true = ground (arith, more, e) in
        complete_running-Goes r j s s' works found (ground (arith, more, e))
  ]

  pub complete-Goes :
      (id : Text) (s s' : Store)
      → complete integer_field now id given s ≡ ok s'
      → Goes s.runs s'.runs
  unfolding complete
  complete-Goes id s s' e = elim (Option-cases (select (run_of id) s.runs)) [
    | inl missing ↦ absurd (ground (arith, missing, e))
    | inr (r, found) ↦ elim (Option-cases (select (job_of r.job_id) s.jobs)) [
      | inl missing ↦ absurd (ground (arith, found, missing, e))
      | inr (j, there) ↦
          complete_found-Goes r j s s' (select-same id s.runs r found)
            (ground (arith, found, there, e))
    ]
  ]
