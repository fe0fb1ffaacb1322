-- ===== src/Jobs/Calls.antt =====
-- The calls of internal/controlplane/store.go that change a run, as the steps of one store.
use machinist.Base.{ℕ, Text, Bool, Option, List, [], ◌∷◌}
use machinist.Base.Int.{ℤ}
use machinist.Base.Result.{Result, ok, err}
use machinist.Jobs.Tables.{Store}
use machinist.Jobs.Recover.{recover_expired_runs}
use machinist.Jobs.Poll.{poll}
use machinist.Jobs.Greet.{PollRequest}
use machinist.Jobs.Complete.{complete}
use machinist.Jobs.Report.{Completion}
use machinist.Jobs.Operate.{
  Heartbeat, heartbeat, BindRequest, bind_terminal, cancel_job, delete_job,
}
use machinist.Jobs.Create.{ResolvedCommand, JobRequest, create_job}

-- A call, with the identifiers that are drawn for it.
pub data Call : Type 0 where
  creates : Text → Text → JobRequest → ResolvedCommand → Call
  polls : ℤ → Bool → Text → Text → PollRequest → Call
  completes : Text → Completion → Call
  beats : Text → Heartbeat → Call
  binds : Text → BindRequest → Call
  cancels : Text → Call
  deletes : Text → Call
  reclaims : Call

-- The store after a call: one that fails is rolled back.
abbrev pub committed : {E : Type 0} → Store → Result E Store → Store
committed s (ok s') = s'
committed s (err e) = s

abbrev pub beaten : {E : Type 0} → Store → Result E (Bool × Store) → Store
beaten s (ok (cancel, s')) = s'
beaten s (err e) = s

module _ (integer_field : Text → Text → Option ℤ) where
  unfoldable pub step : Store → ℕ × Call → Store
  step s (now, creates job_id run_id q c) = committed s (create_job now job_id run_id q c s)
  step s (now, polls max require token attempt q) = (poll now max require token attempt q s).1
  step s (now, completes id c) = committed s (complete integer_field now id c s)
  step s (now, beats id h) = beaten s (heartbeat now id h s)
  step s (now, binds id q) = committed s (bind_terminal now id q s)
  step s (now, cancels id) = committed s (cancel_job now id s)
  step s (now, deletes id) = committed s (delete_job now id s)
  step s (now, reclaims) = recover_expired_runs now s

  unfoldable pub run : Store → List (ℕ × Call) → Store
  run s [] = s
  run s (c ∷ cs) = run (step s c) cs
