-- ===== src/Jobs/Create.antt =====
-- internal/controlplane/store.go: a job is created with its run.
use machinist.Base.{
  ℕ, Text, codes, text_eq, ltb, leb, ◌==◌, Bool, false, ◌&&◌, ◌||◌, not, none, some, List, [], ◌∷◌,
  ◌++◌, all, if◌then◌else◌, is_empty, length, trim_space, to_lower,
}
use machinist.Base.Int.{ℤ, pos}
use machinist.Base.Result.{Result, ok, err}
use machinist.Jobs.Tables.{queued, Run, Store}
use machinist.Jobs.Poll.{no_outcome}

-- A resolved command, as far as a run keeps it.
pub record ResolvedCommand : Type 0 where
  pub name : Text
  pub hash : Text
  pub executor : Text
  pub model : Text
  pub prompt : Text
  pub timeout_ms : ℕ
  pub route : Text
  pub profile : Text
  pub harness : Text
  pub provider : Text
  pub auth_mode : Text
  pub role : Text
  pub candidates : List Text
  pub max_attempts : ℤ
  pub max_total_tokens : ℤ
  pub fallback_on : List Text

-- runMaxAttempts, with defaultLegacyMaxAttempts
unfoldable pub run_max_attempts : ℤ → ℕ
run_max_attempts (pos n) = if n == 0 then 2 else n
run_max_attempts max = 2

pub record JobRequest : Type 0 where
  pub prompt : Text
  pub repository : Text
  pub name : Text
  pub execution_mode : Text
  pub origin : Text

pub data CreateError : Type 0 where
  no_command bad_execution_mode bad_origin : CreateError

abbrev portable_byte : ℕ → Bool
portable_byte c =
    (leb b'a' c && leb c b'z') || (leb b'0' c && leb c b'9') || c == b'-' || c == b'_' || c == b'.'

-- validPortableIdentifier
unfoldable pub valid_portable_identifier : Text → Bool
valid_portable_identifier value = not (is_empty value) && all portable_byte value

abbrev or_default : Text → Text → Text
or_default fallback value =
    let clean = to_lower (trim_space value) in if is_empty clean then fallback else clean

abbrev pub new_run : Text → Text → JobRequest → ResolvedCommand → Run
new_run job_id run_id q c = record {
  id = run_id;
  job_id = job_id;
  info = record {
    command = c.name;
    command_hash = c.hash;
    model = c.model;
    repository = q.repository;
    rendered_prompt = c.prompt;
    timeout_ms = c.timeout_ms;
    route = c.route;
    role = c.role;
    candidate_profiles = some c.candidates;
    max_attempts = run_max_attempts c.max_attempts;
    max_total_tokens = c.max_total_tokens;
    fallback_on = some c.fallback_on;
  };
  place = record {
    executor = c.executor;
    profile = c.profile;
    harness = c.harness;
    provider = c.provider;
    auth_mode = c.auth_mode;
  };
  state = queued;
  worker_instance = none;
  worker_name = [];
  lease_token = none;
  lease_expires_at = none;
  started_at = none;
  outcome = record (no_outcome) { error = none };
  current_attempt_id = [];
  attempt_count = 0;
  last_error_class = [];
  next_candidate = 0;
  cancel_requested = false;
}

-- CreateJobWithOptions, with the identifiers that were drawn for the job and its run.
unfoldable pub create_job :
    ℕ → Text → Text → JobRequest → ResolvedCommand → Store → Result CreateError Store
create_job now job_id run_id q c s =
    let mode = or_default (codes "process") q.execution_mode in
    let origin = or_default (codes "machinist") q.origin in
    if is_empty c.name
    then err no_command
    else if not (text_eq mode (codes "process") || text_eq mode (codes "herdr"))
    then err bad_execution_mode
    else if ltb 64 (length origin) || not (valid_portable_identifier origin)
    then err bad_origin
    else ok (record s {
      jobs =
          s.jobs
          ++ record {
            id = job_id;
            prompt = q.prompt;
            repository = q.repository;
            command = q.name;
            trigger_identity = [];
            trigger_generation_id = [];
            execution_mode = mode;
            origin = origin;
            state = queued;
            created_at = now;
            updated_at = now;
          }
            ∷ [];
      runs = s.runs ++ new_run job_id run_id q c ∷ [];
    })
