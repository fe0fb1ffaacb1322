-- ===== src/Jobs/Route.antt =====
-- internal/controlplane/store.go: which profile of a route a worker may take a run with.
use machinist.Base.{
  ℕ, ◌+◌, ◌%◌, Text, text_eq, ltb, Bool, true, false, ◌&&◌, ◌||◌, not, Option, none, some, List, [],
  ◌∷◌, ◌++◌, any, if◌then◌else◌, is_empty, contains, length, suc, zero,
}
use machinist.Base.Dict.{lookup}
use machinist.Base.Result.{Result, ok, err, ◌>>=◌}
use machinist.Jobs.Tables.{is_running, Run, ProfileCapability, Worker, Store, coalesce}

-- A map from names to the models that each offers: a name may stand in it with several lists, and
-- offers the models of all of them.
abbrev pub Capabilities : Type 0
Capabilities = List (Text × List Text)

-- supportsModel
unfoldable pub supports_model : List (Text × List Text) → Text → Text → Bool
supports_model capabilities executor model =
    if is_empty model then true else elim (lookup executor capabilities) [
      | none ↦ false
      | some models ↦ is_empty models || contains model models
    ]

-- The profile at an index, which the callers keep below the length.
unfoldable pub candidate_at : ℕ → List Text → Text
candidate_at i [] = []
candidate_at zero (c ∷ cs) = c
candidate_at (suc i) (c ∷ cs) = candidate_at i cs

-- The loop over the candidates, from one index on for a number of rounds; `[]` if none will do.
unfoldable pub pick : (Text → Bool) → List Text → ℕ → ℕ → Text
pick good candidates offset zero = []
pick good candidates offset (suc rounds) =
    let profile = candidate_at (offset % length candidates) candidates in
    let rest = pick good candidates (offset + 1) rounds in if good profile then profile else rest

-- selectRouteProfile
unfoldable pub select_route_profile :
    List Text → ℕ → List Text → List (Text × List Text) → Text → Text
select_route_profile candidates offset executors models model =
    pick (λ p. contains p executors && supports_model models p model) candidates offset
      (length candidates)

abbrev pub offers : Text → Text → Capabilities → Bool
offers name model available =
    any (λ (c : Text × List Text). text_eq c.0 name && (is_empty model || contains model c.1))
      available

-- selectPreferredRouteProfile
unfoldable pub select_preferred_route_profile : List Text → ℕ → Text → Capabilities → Text
select_preferred_route_profile candidates offset model available =
    pick (λ p. offers p model available) candidates offset (length candidates)

-- No run is running on the worker.
abbrev pub idle : List Run → Worker → Bool
idle runs w = not (
    any (λ (r : Run). is_running r.state && text_eq (coalesce r.worker_instance) w.instance_id)
      runs)

abbrev pub speaks : Text → Option (List Text) → Bool
speaks mode none = false
speaks mode (some transports) = contains mode transports

pub data RouteError : Type 0 where
  unreadable_profiles : Text → RouteError

available_profiles : List (Text × ProfileCapability) → Capabilities
available_profiles [] = []
available_profiles ((name, p) ∷ rest) =
    if p.available then (name, p.models) ∷ available_profiles rest else available_profiles rest

-- The loop over the workers of a repository that are idle.
unfoldable pub connected_profiles :
    Store → Text → Text → ℕ → List Worker → Result RouteError Capabilities
unfolding available_profiles
connected_profiles s repository mode seen_after [] = ok []
connected_profiles s repository mode seen_after (w ∷ ws) =
    let rest = connected_profiles s repository mode seen_after ws in
    if not (
        any (λ (e : Text × Text). text_eq e.0 w.instance_id && text_eq e.1 repository)
          s.worker_repositories)
      || not (idle s.runs w)
      || ltb w.last_seen_at seen_after
      || not (speaks mode w.transports)
    then rest
    else elim w.profiles [
      | none ↦ err (unreadable_profiles w.instance_id)
      | some profiles ↦ do more ← rest; ok (available_profiles profiles ++ more)
    ]

-- connectedRouteProfiles
unfoldable pub connected_route_profiles : Store → Text → Text → ℕ → Result RouteError Capabilities
connected_route_profiles s repository mode seen_after =
    connected_profiles s repository mode seen_after s.workers

-- The index behind the first candidate of the name, from an index on.
index_behind : Text → ℕ → List Text → Option ℕ
index_behind profile i [] = none
index_behind profile i (c ∷ cs) =
    let rest = index_behind profile (i + 1) cs in if text_eq c profile then some (i + 1) else rest

-- nextRouteCandidate, on the candidates as they decode
unfoldable pub next_route_candidate : List Text → Text → ℕ
unfolding index_behind
next_route_candidate candidates profile = elim (index_behind profile 0 candidates) [
  | none ↦ 0
  | some next ↦ next % length candidates
]
