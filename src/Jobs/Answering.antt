-- ===== src/Jobs/Answering.antt =====
-- Who may complete a run, and who is given one (internal/controlplane/store.go).
use machinist.Base.{
  ℕ, ◌-◌, ◌≡◌, ◌⊎◌, subst, Bool, true, false, ◌&&◌, ◌||◌, not, Option, none, some, List, [], ◌∷◌,
  ◌++◌, arith, Bool-cases, Option-cases, inl, inr, Text, text_eq, contains, is_empty,
}
use machinist.Base.Int.{ℤ}
use machinist.Base.Result.{ok, Result-cases}
use machinist.Jobs.Tables.{
  is_queued, is_running, terminal_run_state, Executor, Job, Run, Store, select, run_of, job_of,
  coalesce, lapsed,
}
use machinist.Jobs.Route.{
  supports_model, select_route_profile, select_preferred_route_profile, connected_route_profiles,
  Capabilities,
}
use machinist.Jobs.Poll.{offer, routed, route_error, place_for, choose_run, own_models, fill_place}
use machinist.Jobs.Greet.{PollRequest, transports_of, route_availability_window}
use machinist.Jobs.Complete.{complete, complete_found}
use machinist.Jobs.Report.{Completion}

-- A completion that is accepted came from the holder of the lease: its instance and its token are
-- the run's, and so is the attempt if it names one. Either the run was over, and nothing changes, or
-- it ran under a lease that had not lapsed.
pub complete-authorized :
    (integer_field : Text → Text → Option ℤ) (now : ℕ) (id : Text) (c : Completion) (s s' : Store)
    (r : Run)
    → select (run_of id) s.runs ≡ some r
    → complete integer_field now id c s ≡ ok s'
    → (text_eq (coalesce r.worker_instance) c.instance_id ≡ true)
      × (text_eq (coalesce r.lease_token) c.lease_token ≡ true)
      × ((is_empty c.attempt_id || text_eq r.current_attempt_id c.attempt_id) ≡ true)
      × (((terminal_run_state r.state ≡ true) × (s' ≡ s))
          ⊎ ((is_running r.state ≡ true) × (lapsed now r.lease_expires_at ≡ false)))
unfolding complete complete_found
complete-authorized integer_field now id c s s' r found e =
    elim (Bool-cases (terminal_run_state r.state)) [
      | inl over ↦ (
        ground (arith, found, e),
        ground (arith, found, e),
        ground (arith, found, e),
        inl (over, ground (arith, found, over, e)),
      )
      | inr more ↦ (
        ground (arith, found, e),
        ground (arith, found, e),
        ground (arith, found, e),
        inr (ground (arith, found, more, e), ground (arith, found, more, e)),
      )
    ]

-- What a worker said that it can do.
abbrev pub Serves : PollRequest → Run → Executor → Type 0
Serves q r place =
    (contains place.executor q.executors ≡ true)
    × (contains r.info.repository q.repositories ≡ true)
    × (supports_model q.models place.executor r.info.model ≡ true)

executor-fill_place :
    (q : PollRequest) (executor profile : Text) (place : Executor)
    → (fill_place q executor profile place).executor ≡ executor
executor-fill_place q executor profile place = ground arith

offer-Serves :
    (q : PollRequest) (r : Run) (executor profile : Text) (place : Executor)
    → offer q r executor profile ≡ some place
    → Serves q r place
offer-Serves q r executor profile place e =
    let test =
      contains executor q.executors
      && (contains r.info.repository q.repositories
          && supports_model q.models executor r.info.model) in
    elim (Bool-cases test) [
      | inr no_offer ↦ absurd (ground (arith, no_offer, e))
      | inl fits ↦
          let same : place.executor ≡ executor = ground (arith, fits, e) in
          (ground (arith, fits, same), ground (arith, fits), ground (arith, fits, same))
    ]

routed-Serves :
    (q : PollRequest) (r : Run) (candidates : List Text) (available : Capabilities)
    (place : Executor)
    → routed q r candidates available ≡ some place
    → Serves q r place
routed-Serves q r candidates available place e =
    let preferred =
      select_preferred_route_profile candidates r.next_candidate r.info.model available in
    let executor =
      select_route_profile candidates r.next_candidate q.executors q.models r.info.model in
    elim (Bool-cases (is_empty preferred || not (text_eq executor preferred))) [
      | inl other ↦ absurd (ground (arith, other, e))
      | inr same ↦ offer-Serves q r executor executor place (rw same at e)
    ]

place_for-Serves :
    (now : ℕ) (full : Bool) (q : PollRequest) (s : Store) (r : Run) (j : Job) (place : Executor)
    → place_for now full q s r j ≡ ok (some place)
    → Serves q r place
      × (contains j.execution_mode (transports_of q) ≡ true)
      × ((full && not (is_running j.state)) ≡ false)
unfolding place_for
place_for-Serves now full q s r j place e = elim (Option-cases r.info.candidate_profiles) [
  | inl missing ↦ absurd (ground (arith, missing, e))
  | inr (candidates, there) ↦ elim (Bool-cases (is_empty r.info.route)) [
    | inl plain ↦ (
      offer-Serves q r r.place.executor r.place.profile place (ground (arith, there, plain, e)),
      ground (arith, there, e),
      ground (arith, there, e),
    )
    | inr on_route ↦
        let connected = route_error (
          connected_route_profiles s r.info.repository j.execution_mode
            (now - route_availability_window)) in
        elim (Result-cases connected) [
          | inl (problem, broken) ↦ absurd (ground (arith, there, on_route, broken, e))
          | inr (available, read) ↦ (
            routed-Serves q r candidates (available ++ own_models q q.executors) place
                (ground (arith, there, on_route, read, e)),
            ground (arith, there, e),
            ground (arith, there, e),
          )
        ]
  ]
]

-- The run that a poll chooses for a worker was waiting; the worker has the executor, the repository and the
-- model for it and the transport of its job; and where the jobs that run are at their limit, the
-- job ran already.
pub choose_run-Serves :
    (now : ℕ) (full : Bool) (q : PollRequest) (s : Store) (rows : List Run) (r : Run)
    (place : Executor)
    → choose_run now full q s rows ≡ ok (some (r, place))
    → (is_queued r.state ≡ true)
      × Serves q r place
      × ((j : Job) × (select (job_of r.job_id) s.jobs ≡ some j)
          × (contains j.execution_mode (transports_of q) ≡ true)
          × ((full && not (is_running j.state)) ≡ false))
unfolding choose_run
choose_run-Serves now full q s [] r place e = cc
choose_run-Serves now full q s (a ∷ rows) r place e =
    let later = choose_run-Serves now full q s rows r place in
    elim (Bool-cases (is_queued a.state)) [
      | inr taken ↦ later (ground (arith, taken, e))
      | inl waits ↦ elim (Option-cases (select (job_of a.job_id) s.jobs)) [
        | inl missing ↦ later (ground (arith, waits, missing, e))
        | inr (j, found) ↦ elim (Result-cases (place_for now full q s a j)) [
          | inl (problem, broken) ↦ absurd (ground (arith, waits, found, broken, e))
          | inr (none, passed) ↦ later (ground (arith, waits, found, passed, e))
          | inr (some p, offered) ↦
              let same : (a, p) ≡ (r, place) = ground (arith, waits, found, offered, e) in
              let (serves, transport, room) = place_for-Serves now full q s a j p offered in
              subst
                (λ (t : Run × Executor).
                  (is_queued t.0.state ≡ true)
                  × Serves q t.0 t.1
                  × ((j : Job) × (select (job_of t.0.job_id) s.jobs ≡ some j)
                      × (contains j.execution_mode (transports_of q) ≡ true)
                      × ((full && not (is_running j.state)) ≡ false)))
                same (waits, serves, (j, found, transport, room))
        ]
      ]
    ]
