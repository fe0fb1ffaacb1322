-- ===== src/Jobs/Tables.antt =====
-- The tables of internal/controlplane/store.go that the life of a run touches, each as the list of its
-- rows. A column of JSON is `none` where it does not decode, and a column that may be NULL is an
-- Option. Instants are the numbers of nanoseconds since Go's zero time.
use machinist.Base.{
  ℕ, Text, text_eq, leb, Bool, true, false, ◌&&◌, Option, none, some, List, [], ◌∷◌, if◌then◌else◌,
}
use machinist.Base.Int.{ℤ}
use machinist.Controlplane.Lease.{LeaseRow}

-- The state of a job, a run or an attempt; `other` is any other string.
pub data State : Type 0 where
  queued running succeeded failed timed_out cancelled abandoned : State
  other : Text → State

abbrev pub is_queued : State → Bool
is_queued queued = true
is_queued running = false
is_queued succeeded = false
is_queued failed = false
is_queued timed_out = false
is_queued cancelled = false
is_queued abandoned = false
is_queued (other t) = false

abbrev pub is_running : State → Bool
is_running running = true
is_running queued = false
is_running succeeded = false
is_running failed = false
is_running timed_out = false
is_running cancelled = false
is_running abandoned = false
is_running (other t) = false

abbrev pub is_failed : State → Bool
is_failed failed = true
is_failed queued = false
is_failed running = false
is_failed succeeded = false
is_failed timed_out = false
is_failed cancelled = false
is_failed abandoned = false
is_failed (other t) = false

abbrev pub is_cancelled : State → Bool
is_cancelled cancelled = true
is_cancelled queued = false
is_cancelled running = false
is_cancelled succeeded = false
is_cancelled failed = false
is_cancelled timed_out = false
is_cancelled abandoned = false
is_cancelled (other t) = false

abbrev pub terminal_run_state : State → Bool
terminal_run_state succeeded = true
terminal_run_state failed = true
terminal_run_state timed_out = true
terminal_run_state cancelled = true
terminal_run_state queued = false
terminal_run_state running = false
terminal_run_state abandoned = false
terminal_run_state (other t) = false

abbrev pub terminal_job_state : State → Bool
terminal_job_state succeeded = true
terminal_job_state failed = true
terminal_job_state cancelled = true
terminal_job_state timed_out = false
terminal_job_state queued = false
terminal_job_state running = false
terminal_job_state abandoned = false
terminal_job_state (other t) = false

pub record Job : Type 0 where
  pub id : Text
  pub prompt : Text
  pub repository : Text
  pub command : Text
  pub trigger_identity : Text
  pub trigger_generation_id : Text
  pub execution_mode : Text
  pub origin : Text
  pub state : State
  pub created_at : ℕ
  pub updated_at : ℕ

-- The columns of a run that are written with it and never again.
pub record CommandInfo : Type 0 where
  pub command : Text
  pub command_hash : Text
  pub model : Text
  pub repository : Text
  pub rendered_prompt : Text
  pub timeout_ms : ℕ
  pub route : Text
  pub role : Text
  pub candidate_profiles : Option (List Text)
  pub max_attempts : ℕ
  pub max_total_tokens : ℤ
  pub fallback_on : Option (List Text)

-- The columns that say where a run executes.
pub record Executor : Type 0 where
  pub executor : Text
  pub profile : Text
  pub harness : Text
  pub provider : Text
  pub auth_mode : Text

-- The columns that say how a run came out.
pub record Outcome : Type 0 where
  pub exit_code : Option ℤ
  pub error : Option Text
  pub result : Option Text
  pub events : Option Text
  pub completed_at : Option ℕ
  pub duration_millis : Option ℕ
  pub token_usage : Option ℕ

pub record Run : Type 0 where
  pub id : Text
  pub job_id : Text
  pub info : CommandInfo
  pub place : Executor
  pub state : State
  pub worker_instance : Option Text
  pub worker_name : Text
  pub lease_token : Option Text
  pub lease_expires_at : Option ℕ
  pub started_at : Option ℕ
  pub outcome : Outcome
  pub current_attempt_id : Text
  pub attempt_count : ℕ
  pub last_error_class : Text
  pub next_candidate : ℕ
  pub cancel_requested : Bool

pub record Terminal : Type 0 where
  pub session : Text
  pub workspace_id : Text
  pub tab_id : Text
  pub pane_id : Text
  pub agent_name : Text

pub record Attempt : Type 0 where
  pub id : Text
  pub run_id : Text
  pub ordinal : ℕ
  pub profile : Text
  pub harness : Text
  pub provider : Text
  pub model : Text
  pub worker_instance : Text
  pub worker_name : Text
  pub state : State
  pub lease_token : Text
  pub started_at : ℕ
  pub error_class : Text
  pub outcome : Outcome
  pub terminal : Terminal

pub record ProfileCapability : Type 0 where
  pub harness : Text
  pub provider : Text
  pub auth_mode : Text
  pub models : List Text
  pub available : Bool

pub record Worker : Type 0 where
  pub instance_id : Text
  pub name : Text
  pub last_seen_at : ℕ
  pub profiles : Option (List (Text × ProfileCapability))
  pub transports : Option (List Text)

-- The columns of trigger_state that a run's end writes.
pub record TriggerState : Type 0 where
  pub identity : Text
  pub generation_id : Text
  pub last_success_at : Option ℕ
  pub last_job_state : Text
  pub last_job_error : Text
  pub health : Text
  pub latest_error : Text
  pub updated_at : ℕ

pub record TriggerRequest : Type 0 where
  pub trigger_identity : Text
  pub occurrence_key : Text
  pub job_id : Option Text
  pub updated_at : ℕ

pub record Store : Type 0 where
  pub jobs : List Job
  pub runs : List Run
  pub attempts : List Attempt
  pub workers : List Worker
  pub worker_repositories : List (Text × Text)
  pub known_repositories : List Text
  pub triggers : List TriggerState
  pub requests : List TriggerRequest
  pub leases : List LeaseRow

-- UPDATE … SET f WHERE p
unfoldable pub update : {A : Type 0} → (A → Bool) → (A → A) → List A → List A
update p f [] = []
update p f (a ∷ rows) = (if p a then f a else a) ∷ update p f rows

-- UPDATE … SET f WHERE p, where p names the one row of a primary key.
unfoldable pub update_key : {A : Type 0} → (A → Bool) → (A → A) → List A → List A
update_key p f [] = []
update_key p f (a ∷ rows) = if p a then f a ∷ rows else a ∷ update_key p f rows

-- SELECT … WHERE p LIMIT 1
unfoldable pub select : {A : Type 0} → (A → Bool) → List A → Option A
select p [] = none
select p (a ∷ rows) = if p a then some a else select p rows

abbrev pub run_of : Text → Run → Bool
run_of id r = text_eq r.id id

abbrev pub job_of : Text → Job → Bool
job_of id j = text_eq j.id id

-- COALESCE(…, '')
abbrev pub coalesce : Option Text → Text
coalesce none = []
coalesce (some t) = t

-- `lease_expires_at IS NULL OR lease_expires_at<=now`
abbrev pub lapsed : ℕ → Option ℕ → Bool
lapsed now none = true
lapsed now (some t) = leb t now

abbrev pub expired : ℕ → Run → Bool
expired now r = is_running r.state && lapsed now r.lease_expires_at
