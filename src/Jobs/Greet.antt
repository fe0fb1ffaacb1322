-- ===== src/Jobs/Greet.antt =====
-- internal/controlplane/store.go: what a poll says, and what it records of its worker.
use machinist.Base.{
  ℕ, Text, codes, text_eq, Bool, not, some, List, [], ◌∷◌, ◌++◌, any, filter, if◌then◌else◌,
  is_empty, contains, map,
}
use machinist.Controlplane.Lease.{LeaseError}
use machinist.Jobs.Tables.{ProfileCapability, Worker, Store}
use machinist.Jobs.Recover.{recover_expired_runs}
use machinist.Jobs.Route.{RouteError}

-- 30 seconds, and 15.
abbrev pub lease_duration : ℕ
lease_duration = 30000000000

abbrev pub route_availability_window : ℕ
route_availability_window = 15000000000

-- A poll; what Environment.Validate says of the worker's environment and the length of the profiles'
-- JSON stand in it.
pub record PollRequest : Type 0 where
  pub instance_id : Text
  pub name : Text
  pub executors : List Text
  pub repositories : List Text
  pub models : List (Text × List Text)
  pub profiles : List (Text × ProfileCapability)
  pub profiles_size : ℕ
  pub environment_valid : Bool
  pub transports : List Text
  pub fleet : Text

pub data PollError : Type 0 where
  negative_concurrency environment_invalid profiles_too_long : PollError
  unsupported_transport concurrent_state_change run_unreadable : PollError
  not_allowed : LeaseError → PollError
  route_unreadable : RouteError → PollError

-- The transports of a worker that names none.
abbrev pub transports_of : PollRequest → List Text
transports_of q = if is_empty q.transports then codes "process" ∷ [] else q.transports

-- INSERT INTO workers … ON CONFLICT(instance_id) DO UPDATE
put_worker : Worker → List Worker → List Worker
put_worker w [] = w ∷ []
put_worker w (v ∷ vs) = if text_eq v.instance_id w.instance_id then w ∷ vs else v ∷ put_worker w vs

-- reconcileKnownRepositories: those that a worker names.
unfoldable pub reconcile_known_repositories : Store → Store
reconcile_known_repositories s = record s {
  known_repositories =
      filter (λ repository. any (λ (e : Text × Text). text_eq e.1 repository) s.worker_repositories)
        s.known_repositories;
}

distinct : List Text → List Text
distinct [] = []
distinct (x ∷ xs) = let rest = distinct xs in if contains x rest then rest else x ∷ rest

add_known : List Text → List Text → List Text
add_known known [] = known
add_known known (x ∷ xs) = add_known (if contains x known then known else known ++ x ∷ []) xs

-- What a poll records of its worker, runs whose lease lapsed recovered on the way.
unfoldable pub greet : ℕ → PollRequest → Store → Store
unfolding put_worker distinct add_known
greet now q s =
    let worker : Worker = record {
      instance_id = q.instance_id;
      name = q.name;
      last_seen_at = now;
      profiles = some q.profiles;
      transports = some (transports_of q);
    } in
    let recovered = recover_expired_runs now (record s { workers = put_worker worker s.workers }) in
    let repositories = distinct q.repositories in
    reconcile_known_repositories (record recovered {
      worker_repositories =
          filter (λ (e : Text × Text). not (text_eq e.0 q.instance_id))
            recovered.worker_repositories
          ++ map (λ repository. (q.instance_id, repository)) repositories;
      known_repositories = add_known recovered.known_repositories repositories;
    })
