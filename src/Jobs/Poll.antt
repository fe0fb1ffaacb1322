-- ===== src/Jobs/Poll.antt =====
-- internal/controlplane/store.go: a worker asks for work.
use machinist.Base.{
  ℕ, ◌+◌, ◌-◌, Text, codes, text_eq, ltb, Bool, true, false, ◌&&◌, ◌||◌, not, Option, none, some,
  List, [], ◌∷◌, ◌++◌, any, all, filter, if◌then◌else◌, is_empty, contains, length,
}
use machinist.Base.Int.{ℤ, pos, is_positive, int_lt}
use machinist.Base.Dict.{lookup}
use machinist.Base.Result.{Result, ok, err, ◌>>=◌}
use machinist.Controlplane.Lease.{
  LeaseError, fleet_unnamed, holds_no_lease, stood_down, expired, needs_fleet, needs_expiry,
  needs_reason, no_rows, bad_state, unreadable_state, unreadable_expiry, unreadable_timestamp,
  check_fleet_lease,
}
use machinist.Jobs.Tables.{
  running, is_queued, is_running, Job, Executor, Run, Outcome, Attempt, Terminal, Store, update_key,
  select, run_of, job_of, coalesce,
}
use machinist.Jobs.Route.{
  Capabilities, RouteError, supports_model, select_route_profile, select_preferred_route_profile,
  connected_route_profiles,
}
use machinist.Jobs.Greet.{
  PollError, PollRequest, concurrent_state_change, environment_invalid, greet, lease_duration,
  negative_concurrency, not_allowed, profiles_too_long, route_availability_window, route_unreadable,
  run_unreadable, transports_of, unsupported_transport,
}

-- A row of runs joined with its job decodes.
abbrev pub readable : Run → Bool
readable r = elim r.info.candidate_profiles [
  | none ↦ false
  | some candidates ↦ elim r.info.fallback_on [ none ↦ false | some classes ↦ true ]
]

abbrev pub has_job : Store → Run → Bool
has_job s r = any (job_of r.job_id) s.jobs

-- The run that the worker has already.
abbrev pub active : PollRequest → Store → Run → Bool
active q s r =
    text_eq (coalesce r.worker_instance) q.instance_id
    && (is_leased r.worker_instance && (is_running r.state && has_job s r))
  where
    is_leased : Option Text → Bool
    is_leased none = false
    is_leased (some w) = true

unfoldable pub at_capacity : ℤ → Store → Bool
at_capacity max s =
    is_positive max
    && not (int_lt (pos (length (filter (λ (j : Job). is_running j.state) s.jobs))) max)

-- The place that a run names, filled in from the profile of its executor if the worker tells one.
abbrev pub fill_place : PollRequest → Text → Text → Executor → Executor
fill_place q executor profile place = elim (lookup executor q.profiles) [
  | none ↦ record place { executor = executor; profile = profile }
  | some p ↦ record {
    executor = executor;
    profile = executor;
    harness = p.harness;
    provider = p.provider;
    auth_mode = p.auth_mode;
  }
]

-- The last test of a candidate.
abbrev pub offer : PollRequest → Run → Text → Text → Option Executor
offer q r executor profile =
    if contains executor q.executors
      && contains r.info.repository q.repositories
      && supports_model q.models executor r.info.model
    then some (fill_place q executor profile r.place)
    else none

-- The models that a poll adds to what the connected workers offer.
pub own_models : PollRequest → List Text → Capabilities
own_models q [] = []
own_models q (executor ∷ rest) = elim (lookup executor q.models) [
  | none ↦ (executor, []) ∷ own_models q rest
  | some models ↦ (executor, models) ∷ own_models q rest
]

-- A run on a route is for the worker only if the worker has the profile that is preferred.
abbrev pub routed : PollRequest → Run → List Text → Capabilities → Option Executor
routed q r candidates available =
    let preferred =
      select_preferred_route_profile candidates r.next_candidate r.info.model available in
    let executor =
      select_route_profile candidates r.next_candidate q.executors q.models r.info.model in
    if is_empty preferred || not (text_eq executor preferred)
    then none
    else offer q r executor executor

abbrev pub route_error : Result RouteError Capabilities → Result PollError Capabilities
route_error (ok c) = ok c
route_error (err e) = err (route_unreadable e)

-- The body of the loop over the queued runs: the place at which the worker may execute the run.
unfoldable pub place_for :
    ℕ → Bool → PollRequest → Store → Run → Job → Result PollError (Option Executor)
unfolding own_models
place_for now full q s r j = elim r.info.candidate_profiles [
  | none ↦ err run_unreadable
  | some candidates ↦
      if not (readable r)
      then err run_unreadable
      else if full && not (is_running j.state)
      then ok none
      else if not (contains j.execution_mode (transports_of q))
      then ok none
      else if is_empty r.info.route
      then ok (offer q r r.place.executor r.place.profile)
      else do
        available ← route_error (
            connected_route_profiles s r.info.repository j.execution_mode
              (now - route_availability_window))
        ok (routed q r candidates (available ++ own_models q q.executors))
]

-- The loop: the first queued run that the worker may execute.
unfoldable pub choose_run :
    ℕ → Bool → PollRequest → Store → List Run → Result PollError (Option (Run × Executor))
choose_run now full q s [] = ok none
choose_run now full q s (r ∷ rs) =
    let rest = choose_run now full q s rs in
    if not (is_queued r.state) then rest else elim (select (job_of r.job_id) s.jobs) [
      | none ↦ rest
      | some j ↦ do
        place ← place_for now full q s r j
        elim place [ none ↦ rest | some p ↦ ok (some (r, p)) ]
    ]

-- The row of a run that is leased.
abbrev pub lease_row : ℕ → Text → Text → PollRequest → Executor → Run → Run
lease_row now token attempt q place r = record r {
  state = running;
  worker_instance = some q.instance_id;
  worker_name = q.name;
  lease_token = some token;
  lease_expires_at = some (now + lease_duration);
  started_at = some now;
  place = place;
  current_attempt_id = attempt;
  attempt_count = r.attempt_count + 1;
}

abbrev pub no_outcome : Outcome
no_outcome = record {
  exit_code = none;
  error = some [];
  result = none;
  events = none;
  completed_at = none;
  duration_millis = none;
  token_usage = none;
}

abbrev pub no_terminal : Terminal
no_terminal = record { session = []; workspace_id = []; tab_id = []; pane_id = []; agent_name = [] }

abbrev pub new_attempt : ℕ → Text → Text → PollRequest → Executor → Run → Attempt
new_attempt now token attempt q place r = record {
  id = attempt;
  run_id = r.id;
  ordinal = r.attempt_count + 1;
  profile = place.profile;
  harness = place.harness;
  provider = place.provider;
  model = r.info.model;
  worker_instance = q.instance_id;
  worker_name = q.name;
  state = running;
  lease_token = token;
  started_at = now;
  error_class = [];
  outcome = no_outcome;
  terminal = no_terminal;
}

abbrev pub queued_run : Text → Run → Bool
queued_run id r = run_of id r && is_queued r.state

-- The row of a job of which a run is leased: it runs now if it waited.
abbrev pub start_job : ℕ → Job → Job
start_job now j = if is_queued j.state then record j { state = running; updated_at = now } else j

-- What a lease writes.
unfoldable pub lease_run : ℕ → Text → Text → PollRequest → Executor → Run → Store → Store
lease_run now token attempt q place r s = record s {
  runs = update_key (queued_run r.id) (lease_row now token attempt q place) s.runs;
  attempts = s.attempts ++ new_attempt now token attempt q place r ∷ [];
  jobs = update_key (job_of r.job_id) (start_job now) s.jobs;
}

-- The answer of a poll, with the store that it leaves: a transaction that is not committed leaves
-- the store as it was. A RunSpec is read off the row that is leased.
abbrev pub PollAnswer : Type 0
PollAnswer = Result PollError (Option Run) × Store

-- From the count of the running jobs on. `s` is the store that a rollback leaves, `g` the one of the
-- transaction.
unfoldable pub dispatch : ℕ → ℤ → Text → Text → PollRequest → Store → Store → PollAnswer
dispatch now max token attempt q s g = elim (choose_run now (at_capacity max g) q g g.runs) [
  | err e ↦ (err e, s)
  | ok none ↦ (ok none, g)
  | ok (some (r, place)) ↦
      if any (queued_run r.id) g.runs
      then (
        ok (some (lease_row now token attempt q place r)),
        lease_run now token attempt q place r g,
      )
      else (err concurrent_state_change, s)
]

-- Whether an error of the lease check is a refusal.
abbrev pub is_refusal : LeaseError → Bool
is_refusal fleet_unnamed = true
is_refusal (holds_no_lease fleet) = true
is_refusal (stood_down fleet reason) = true
is_refusal (expired fleet at reason) = true
is_refusal needs_fleet = false
is_refusal needs_expiry = false
is_refusal needs_reason = false
is_refusal no_rows = false
is_refusal (bad_state t) = false
is_refusal (unreadable_state t) = false
is_refusal (unreadable_expiry t) = false
is_refusal (unreadable_timestamp t) = false

-- The lease gate.
unfoldable pub poll_gate : ℕ → ℤ → Bool → Text → Text → PollRequest → Store → Store → PollAnswer
poll_gate now max require token attempt q s g =
    if not require
    then dispatch now max token attempt q s g
    else elim (check_fleet_lease q.fleet now g.leases) [
      | ok done ↦ dispatch now max token attempt q s g
      | err e ↦ (err (not_allowed e), if is_refusal e then g else s)
    ]

unfoldable pub poll_greeted : ℕ → ℤ → Bool → Text → Text → PollRequest → Store → Store → PollAnswer
poll_greeted now max require token attempt q s g = elim (select (active q g) g.runs) [
  | some r ↦ if readable r then (ok (some r), g) else (err run_unreadable, s)
  | none ↦ poll_gate now max require token attempt q s g
]

abbrev pub supported_transport : Text → Bool
supported_transport t = text_eq t (codes "process") || text_eq t (codes "herdr")

unfoldable pub poll : ℕ → ℤ → Bool → Text → Text → PollRequest → Store → PollAnswer
poll now max require token attempt q s =
    if int_lt max (pos 0)
    then (err negative_concurrency, s)
    else if not q.environment_valid
    then (err environment_invalid, s)
    else if ltb 65536 q.profiles_size
    then (err profiles_too_long, s)
    else if not (all supported_transport (transports_of q))
    then (err unsupported_transport, s)
    else poll_greeted now max require token attempt q s (greet now q s)
