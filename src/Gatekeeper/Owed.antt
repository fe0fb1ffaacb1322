-- ===== src/Gatekeeper/Owed.antt =====
-- internal/gatekeeper/mergeowed.go: what is owed on an open pull request. An instant is a number
-- that grows with time, and a duration is their difference; Go's Duration holds 292 years.
use machinist.Base.{
  ℕ, ◌-◌, Text, text_eq, text_lt, ltb, leb, ◌==◌, Bool, true, false, ◌&&◌, not, Option, none, some,
  List, [], ◌∷◌, ◌++◌, is_empty, any, length, take, map, if◌then◌else◌, trim_space, equal_fold,
  sort_stable,
}
use machinist.Base.Int.{ℤ, int_lt, int_eq}
use machinist.Base.Dict.{lookup, insert}
use machinist.Review.Types.{is_ready, Severity, info, severity_eq, Finding}
use machinist.Gatekeeper.Change.{
  Change, Check, CheckWhy, Disposition, Judgement, Mergeability, Standing, Why, attention_owed,
  can_merge, checks_failed, checks_wait, concluded, conflicts, enqueueable, finished, head_moved,
  head_unnamed, head_unsaid, is_draft, landable, merge_owed, merge_state_is, no_verdict,
  not_finished, not_mergeable, not_run, nothing_outstanding, now_conflicts, open_findings, other,
  runs_disagree, still_deciding, succeeded, unnamed_rule, verdict_stands, waiting,
}

-- advisorySeverities
abbrev pub advisory : Severity → Bool
advisory s = severity_eq info s

-- The loop of openSeverities: the severities seen are those kept so far.
unfoldable pub collect_open : List Severity → List Finding → List Severity
collect_open kept [] = kept
collect_open kept (f ∷ fs) =
    collect_open
      (if advisory f.severity
        then kept
        else if any (severity_eq f.severity) kept
        then kept
        else kept ++ f.severity ∷ [])
      fs

unfoldable pub open_severities : List Finding → List Severity
open_severities fs = collect_open [] fs

-- An outcome with the sentence that goes with it.
pub data CheckOutcome : Type 0 where
  all_passed : CheckOutcome
  pending failed : CheckWhy → CheckOutcome

-- The two maps of requiredChecks: the newest run of each name, and whether its runs disagree.
pub record Tally : Type 0 where
  pub newest : List (Text × Check)
  pub ambiguous : List (Text × Bool)

abbrev pub is_true : Option Bool → Bool
is_true none = false
is_true (some b) = b

abbrev pub differ : Bool → Bool → Bool
differ true b = not b
differ false b = b

tally_seen : Text → Check → Check → Tally → Tally
tally_seen name check previous t =
    if ltb previous.reported_at check.reported_at
    then record t { newest = insert name check t.newest; ambiguous = insert name false t.ambiguous }
    else if check.reported_at == previous.reported_at
        && differ (succeeded check) (succeeded previous)
    then record t { ambiguous = insert name true t.ambiguous }
    else t

unfoldable pub tally_check : Check → Tally → Tally
unfolding tally_seen
tally_check check t =
    let name = trim_space check.name in
    elim (lookup name t.newest) [
      | none ↦ record t { newest = insert name check t.newest }
      | some previous ↦ tally_seen name check previous t
    ]

unfoldable pub tally : List Check → Tally → Tally
tally [] t = t
tally (c ∷ cs) t = tally cs (tally_check c t)

abbrev pub no_runs : Tally
no_runs = record { newest = []; ambiguous = [] }

-- What one required name says, if it stands in the way.
judge_run : Text → Tally → Check → CheckOutcome
judge_run name t check =
    if is_true (lookup name t.ambiguous)
    then failed (runs_disagree name)
    else if not (finished check)
    then pending (not_finished name)
    else if not (succeeded check)
    then failed (concluded name (trim_space check.conclusion))
    else all_passed

unfoldable pub judge_required : Text → Tally → CheckOutcome
unfolding judge_run
judge_required required t =
    let name = trim_space required in
    if is_empty name then failed unnamed_rule else elim (lookup name t.newest) [
      | none ↦ pending (not_run name)
      | some check ↦ judge_run name t check
    ]

-- The loop over the required names: the first that stands in the way is told.
unfoldable pub judge_all : List Text → Tally → CheckOutcome
judge_all [] t = all_passed
judge_all (name ∷ names) t =
    let rest = judge_all names t in
    elim (judge_required name t) [
      | all_passed ↦ rest
      | pending why ↦ pending why
      | failed why ↦ failed why
    ]

-- requiredChecks
unfoldable pub required_checks : Change → CheckOutcome
required_checks c = judge_all c.required_checks (tally c.checks no_runs)

unfoldable pub short_commit : Text → Text
short_commit commit =
    let clean = trim_space commit in if leb (length clean) 7 then clean else take 7 clean

abbrev pub stand : Change → ℕ → Disposition → List Severity → Why → Standing
stand c owed d kept why = record {
  change = c;
  disposition = d;
  reason = why;
  open_findings = kept;
  owed = owed;
}

abbrev pub allowed_state : Change → Bool
allowed_state c = if c.queue_required then enqueueable c.merge_state else landable c.merge_state

-- The merge state comes last.
owed_state : Change → ℕ → Text → Standing
owed_state c owed head =
    if not (allowed_state c)
    then stand c owed waiting [] (merge_state_is c.merge_state)
    else stand c owed merge_owed [] (nothing_outstanding (short_commit head))

abbrev owed_checks : Change → ℕ → Text → CheckOutcome → Standing
owed_checks c owed head all_passed = owed_state c owed head
owed_checks c owed head (failed why) =
    stand c owed attention_owed [] (checks_failed (short_commit head) why)
owed_checks c owed head (pending why) = stand c owed waiting [] (checks_wait why)

abbrev owed_mergeable : Change → ℕ → Text → Mergeability → Standing
owed_mergeable c owed head conflicts =
    stand c owed attention_owed [] (now_conflicts (short_commit head))
owed_mergeable c owed head can_merge = owed_checks c owed head (required_checks c)
owed_mergeable c owed head still_deciding = stand c owed waiting [] (not_mergeable still_deciding)
owed_mergeable c owed head (other t) = stand c owed waiting [] (not_mergeable (other t))

-- An approval of the head that is there.
owed_approved : Change → ℕ → Text → List Severity → Standing
unfolding owed_state
owed_approved c owed head [] = owed_mergeable c owed head c.mergeable
owed_approved c owed head (s ∷ kept) =
    stand c owed attention_owed (s ∷ kept) (open_findings (short_commit head) (s ∷ kept))

unfoldable pub owed_judged : Change → Judgement → ℕ → Standing
unfolding owed_approved
owed_judged c j owed =
    let reviewed = trim_space j.reviewed_head in
    let head = trim_space c.head in
    if is_empty reviewed
    then stand c owed attention_owed [] head_unnamed
    else if is_empty head
    then stand c owed attention_owed [] head_unsaid
    else if not (equal_fold reviewed head)
    then stand c owed attention_owed [] (head_moved (short_commit reviewed) (short_commit head))
    else if not (is_ready j.verdict)
    then stand c owed attention_owed [] (verdict_stands j.verdict)
    else owed_approved c owed head (open_severities j.findings)

-- Owed. The difference of instants stops at 0, as the guard `owed > 0` has it.
unfoldable pub owed : Change → Option Judgement → ℕ → Standing
owed c judgement now = if c.draft then stand c 0 waiting [] is_draft else elim judgement [
  | none ↦ stand c 0 waiting [] no_verdict
  | some j ↦ owed_judged c j (now - j.recorded_at)
]

abbrev pub rank : Disposition → ℕ
rank merge_owed = 0
rank attention_owed = 1
rank waiting = 2

-- The order of the report: what is owed first, the longest standing first within that.
unfoldable pub before : Standing → Standing → Bool
before l r =
    if not (rank l.disposition == rank r.disposition)
    then ltb (rank l.disposition) (rank r.disposition)
    else if not (l.owed == r.owed)
    then ltb r.owed l.owed
    else if not (text_eq l.change.repository r.change.repository)
    then text_lt l.change.repository r.change.repository
    else int_lt l.change.number r.change.number

-- The map from numbers to judgements.
unfoldable pub judgement_of : ℤ → List (ℤ × Judgement) → Option Judgement
judgement_of n [] = none
judgement_of n ((m, j) ∷ rest) = if int_eq m n then some j else judgement_of n rest

unfoldable pub owed_each : List Change → List (ℤ × Judgement) → ℕ → List Standing
owed_each cs js now = map (λ (c : Change). owed c (judgement_of c.number js) now) cs

unfoldable pub owed_across : List Change → List (ℤ × Judgement) → ℕ → List Standing
owed_across cs js now = sort_stable before (owed_each cs js now)
