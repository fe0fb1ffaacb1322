-- ===== src/Jobs/Report.antt =====
-- internal/controlplane/store.go: what a worker reports of a run, and whether the run is retried.
use machinist.Base.{
  ℕ, ◌+◌, ◌-◌, ◌/◌, Text, codes, text_eq, leb, Bool, true, false, ◌&&◌, ◌||◌, not, Option, none,
  some, List, [], ◌∷◌, ◌++◌, filter, if◌then◌else◌, is_empty, contains, trim_space,
}
use machinist.Base.Int.{ℤ, pos, negsuc, is_positive, int_lt, int_eq}
use machinist.Base.Numbers.{decimal}
use machinist.Base.Result.{Result, ok, err}
use machinist.Jobs.Tables.{
  State, queued, running, succeeded, failed, timed_out, cancelled, abandoned, other,
  terminal_run_state, Attempt,
}
use machinist.Jobs.ErrorClass.{class_valid}

-- What a worker reports; the state is any string.
pub record Completion : Type 0 where
  pub instance_id : Text
  pub lease_token : Text
  pub attempt_id : Text
  pub state : State
  pub exit_code : ℤ
  pub error_class : Text
  pub error : Text
  pub result : Text
  pub events : Text

pub data RunError : Type 0 where
  no_rows lease_conflict run_state : RunError
  invalid_state : State → RunError
  invalid_exit_code : State → ℤ → RunError
  class_of_success invalid_class : Text → RunError
  candidates_unreadable : RunError

abbrev pub is_succeeded : State → Bool
is_succeeded succeeded = true
is_succeeded queued = false
is_succeeded running = false
is_succeeded failed = false
is_succeeded timed_out = false
is_succeeded cancelled = false
is_succeeded abandoned = false
is_succeeded (other t) = false

-- validateOutcome: whether the exit code fits the state.
unfoldable pub outcome_valid : State → ℤ → Bool
outcome_valid succeeded code = int_eq code (pos 0)
outcome_valid failed code = not (int_eq code (pos 0))
outcome_valid timed_out code = int_eq code (pos 124)
outcome_valid cancelled code = int_eq code (pos 130)
outcome_valid queued code = true
outcome_valid running code = true
outcome_valid abandoned code = true
outcome_valid (other t) code = true

-- `state != "failed" && state != "timed_out"`
abbrev pub retryable : State → Bool
retryable failed = true
retryable timed_out = true
retryable queued = false
retryable running = false
retryable succeeded = false
retryable cancelled = false
retryable abandoned = false
retryable (other t) = false

-- retryAllowed
unfoldable pub retry_allowed : State → Text → Option (List Text) → ℕ → ℕ → Bool
retry_allowed state class fallback_on attempt_count max_attempts =
    if not (retryable state)
    then false
    else if leb max_attempts 1 || leb max_attempts attempt_count
    then false
    else elim fallback_on [ none ↦ false | some allowed ↦ contains class allowed ]

-- Why a retry stops; the message names the numbers.
pub data StopReason : Type 0 where
  usage_incomplete : StopReason
  usage_reached : ℕ → ℤ → StopReason

-- tokenRetryAllowed: `none` allows.
unfoldable pub token_retry_stopped : ℤ → Option ℕ → Option StopReason
token_retry_stopped max usage = if not (is_positive max) then none else elim usage [
  | none ↦ some usage_incomplete
  | some n ↦ if int_lt (pos n) max then none else some (usage_reached n max)
]

-- nonNegativeInteger, of a number that decodes
abbrev pub non_negative : Option ℤ → Option ℕ
non_negative none = none
non_negative (some (pos n)) = some n
non_negative (some (negsuc n)) = none

-- COUNT(x)=COUNT(*) and SUM(x)
total : (Attempt → Option ℕ) → List Attempt → Option ℕ
total metric [] = some 0
total metric (a ∷ rows) =
    let rest = total metric rows in
    elim (metric a) [ none ↦ none | some n ↦ elim rest [ none ↦ none | some m ↦ some (n + m) ] ]

-- elapsedMillis, of a start that decodes; a millisecond is 1000000 nanoseconds.
abbrev pub elapsed_millis : Option ℕ → ℕ → Option ℕ
elapsed_millis none now = none
elapsed_millis (some started) now = some ((now - started) / 1000000)

abbrev pub or_metric : Option ℕ → Option ℕ → Option ℕ
or_metric none b = b
or_metric (some n) b = some n

-- The metrics that a completion writes to the run.
pub record Metrics : Type 0 where
  pub duration : Option ℕ
  pub tokens : Option ℕ

-- attemptAggregateMetrics: the sums over the attempts of a run, if it has one.
unfoldable pub aggregate_metrics : Text → List Attempt → Metrics → Metrics
unfolding total
aggregate_metrics run_id attempts reported =
    let mine = filter (λ (a : Attempt). text_eq a.run_id run_id) attempts in
    if is_empty mine then reported else record {
      duration = total (λ (a : Attempt). a.outcome.duration_millis) mine;
      tokens = total (λ (a : Attempt). a.outcome.token_usage) mine;
    }

-- What is made of a completion where the operator asked to cancel.
unfoldable pub override : Bool → Completion → Completion
override cancel_requested c =
    if cancel_requested
    then record c {
      state = cancelled;
      exit_code = pos 130;
      error_class = codes "cancelled";
      error = codes "cancelled by operator";
    }
    else c

-- The class as it is kept.
abbrev pub class_of : Completion → Text
class_of c =
    if not (is_succeeded c.state) && is_empty (trim_space c.error_class)
    then codes "unknown"
    else trim_space c.error_class

-- The checks of a completion: `ok` has the class trimmed, or filled in.
unfoldable pub check_completion : Completion → Result RunError Completion
check_completion c =
    if not (terminal_run_state c.state)
    then err (invalid_state c.state)
    else if not (outcome_valid c.state c.exit_code)
    then err (invalid_exit_code c.state c.exit_code)
    else if is_succeeded c.state && not (is_empty (trim_space c.error_class))
    then err (class_of_success (trim_space c.error_class))
    else if not (is_empty (class_of c)) && not (class_valid (class_of c))
    then err (invalid_class (class_of c))
    else ok (record c { error_class = class_of c })

-- `%d`
signed : ℤ → Text
signed (pos n) = decimal n
signed (negsuc n) = b'-' ∷ decimal (n + 1)

-- What stands in `error` of a run: the worker's message, with the reason why a retry stopped behind.
stop_text : StopReason → Text
unfolding signed
stop_text usage_incomplete =
    codes "retry stopped: max_total_tokens is configured but token usage coverage is incomplete"
stop_text (usage_reached n max) =
    codes "retry stopped: reported token usage "
    ++ decimal n
    ++ codes " reached max_total_tokens "
    ++ signed max

-- appendRunError
unfoldable pub append_run_error : Text → Text → Text
append_run_error current detail =
    let trimmed = trim_space current in
    if is_empty trimmed then detail else trimmed ++ codes "; " ++ detail

unfoldable pub with_reason : Option StopReason → Text → Text
unfolding stop_text signed
with_reason none message = message
with_reason (some why) message = append_run_error message (stop_text why)
