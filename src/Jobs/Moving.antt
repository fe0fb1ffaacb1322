-- ===== src/Jobs/Moving.antt =====
-- Each call of internal/controlplane/store.go moves the table of runs along their lives.
use machinist.Base.{
  ℕ, ◌≡◌, refl, not, Option, List, [], ◌∷◌, ◌++◌, map, arith, inl, inr, Text, text_eq, All, false,
}
use machinist.Base.Int.{ℤ}
use machinist.Base.Result.{ok, Result-cases}
use machinist.Jobs.Tables.{State, Run, Store}
use machinist.Jobs.Complete.{complete}
use machinist.Jobs.Operate.{delete_found, delete_job}
use machinist.Jobs.Create.{JobRequest, ResolvedCommand, new_run, create_job}
use machinist.Jobs.Calls.{
  Call, creates, polls, completes, beats, binds, cancels, deletes, reclaims, committed, step, run,
}
use machinist.Jobs.Budget.{IsSound, Sound, new_run-IsSound}
use machinist.Jobs.Going.{
  recover_expired_runs-Goes, committed-Goes, heartbeat-Goes, bind_terminal-Goes, cancel_job-Goes,
  poll-Goes,
}
use machinist.Jobs.Following.{Moves, Follows, Has, deletes_job, Has-Follows}
use machinist.Jobs.Life.{
  Life, over, filter-Sound, append-Sound, map-life-append, map-life-filter, life,
}
use machinist.Jobs.Completing.{complete-Goes}

delete_job-ok :
    (now : ℕ) (id : Text) (s s' : Store) → delete_job now id s ≡ ok s' → delete_found now id s ≡ s'
unfolding delete_job
delete_job-ok now id s s' e = ground (arith, e)

-- The lives that a call leaves, and the soundness of its rows.
abbrev GoesBy : Call → Store → Store → Type 0
GoesBy call s s' =
    All IsSound s.runs → All IsSound s'.runs × Moves call (map life s.runs) (map life s'.runs)

delete_job-GoesBy :
    (now : ℕ) (id : Text) (s : Store) → GoesBy (deletes id) s (committed s (delete_job now id s))
unfolding delete_found
delete_job-GoesBy now id s h = elim (Result-cases (delete_job now id s)) [
  | inl (problem, e) ↦ rw e (h, inl refl)
  | inr (s', e) ↦
      rw (e, ← delete_job-ok now id s s' e)
        (
          filter-Sound (λ (r : Run). not (text_eq r.job_id id)) s.runs h,
          inr (map-life-filter id s.runs),
        )
]

create_job-ok :
    (now : ℕ) (job_id run_id : Text) (q : JobRequest) (c : ResolvedCommand) (s s' : Store)
    → create_job now job_id run_id q c s ≡ ok s'
    → s.runs ++ new_run job_id run_id q c ∷ [] ≡ s'.runs
unfolding create_job
create_job-ok now job_id run_id q c s s' e = ground (arith, e)

create_job-GoesBy :
    (now : ℕ) (job_id run_id : Text) (q : JobRequest) (c : ResolvedCommand) (s : Store)
    → GoesBy (creates job_id run_id q c) s (committed s (create_job now job_id run_id q c s))
create_job-GoesBy now job_id run_id q c s h =
    let r = new_run job_id run_id q c in
    elim (Result-cases (create_job now job_id run_id q c s)) [
      | inl (problem, e) ↦ rw e (h, inl refl)
      | inr (s', e) ↦
          rw (e, ← create_job-ok now job_id run_id q c s s' e)
            (
              append-Sound s.runs r (new_run-IsSound job_id run_id q c) h,
              inr (life r, refl, refl, refl, refl, map-life-append s.runs r),
            )
    ]

module _ (integer_field : Text → Text → Option ℤ) where
  step-GoesBy :
      (s : Store) (now : ℕ) (call : Call) → GoesBy call s (step integer_field s (now, call))
  unfolding step
  step-GoesBy s now (creates job_id run_id q c) = create_job-GoesBy now job_id run_id q c s
  step-GoesBy s now (polls max require token attempt q) =
      poll-Goes now max require token attempt q s
  step-GoesBy s now (completes id c) =
      committed-Goes s (complete integer_field now id c s)
        λ s' e. complete-Goes integer_field now c id s s' e
  step-GoesBy s now (beats id h) = heartbeat-Goes now id h s
  step-GoesBy s now (binds id q) = bind_terminal-Goes now id q s
  step-GoesBy s now (cancels id) = cancel_job-Goes now id s
  step-GoesBy s now (deletes id) = delete_job-GoesBy now id s
  step-GoesBy s now reclaims = recover_expired_runs-Goes now s

  run-both :
      (s : Store) (calls : List (ℕ × Call))
      → Sound s
      → Sound (run integer_field s calls)
        × Follows calls (map life s.runs) (map life (run integer_field s calls).runs)
  unfolding run
  run-both s [] h = (h, refl)
  run-both s ((now, call) ∷ calls) h =
      let t = step integer_field s (now, call) in
      let (sound, moved) = step-GoesBy s now call h in
      let (last, followed) = run-both t calls sound in (last, (map life t.runs, moved, followed))

  -- Whatever calls are made, in whatever order and at whatever times, a table of sound rows stays
  -- one: no run has more attempts than its limit, a run that waits has one left and is held by
  -- nobody, one that runs has a holder, a token and the end of a lease, and one that is over has no
  -- lease and no attempt under way.
  pub run-Sound :
      (s : Store) (calls : List (ℕ × Call)) → Sound s → Sound (run integer_field s calls)
  run-Sound s calls h = (run-both s calls h).0

  -- From a table of sound rows, the calls go step by step as the lives of the runs allow: each call
  -- but a creation and a deletion leaves every life in its place, where it only starts an attempt
  -- within its limit, waits again with an attempt left, or ends; a creation adds at most one life,
  -- which waits and has no attempt, behind the others; a deletion takes away at most the lives of
  -- its job.
  pub run-Follows :
      (s : Store) (calls : List (ℕ × Call))
      → Sound s
      → Follows calls (map life s.runs) (map life (run integer_field s calls).runs)
  run-Follows s calls h = (run-both s calls h).1

  -- In a table of sound rows, a run that is over keeps its state and its attempts through any calls
  -- that do not delete its job.
  pub run_over :
      (s : Store) (calls : List (ℕ × Call)) (l : Life) (end : State)
      → Sound s
      → l.phase ≡ over end
      → Has l (map life s.runs)
      → All (λ c. deletes_job l.job_id c.1 ≡ false) calls
      → Has l (map life (run integer_field s calls).runs)
  run_over s calls l end h ended there kept =
      Has-Follows l end ended calls (map life s.runs) (map life (run integer_field s calls).runs)
        kept (run-Follows s calls h) there
