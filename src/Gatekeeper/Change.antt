-- ===== src/Gatekeeper/Change.antt =====
-- internal/gatekeeper/mergeowed.go: the facts about an open pull request, and what can be owed on it.
-- An instant is a number that grows with time.
use machinist.Base.{ℕ, Text, codes, Bool, true, false, not, List, is_empty, trim_space, equal_fold}
use machinist.Base.Int.{ℤ}
use machinist.Review.Types.{Verdict, Severity, Finding}

pub data Disposition : Type 0 where
  merge_owed attention_owed waiting : Disposition

pub data Mergeability : Type 0 where
  can_merge conflicts still_deciding : Mergeability
  other : Text → Mergeability

pub data MergeState : Type 0 where
  clean behind blocked unstable unknown : MergeState
  other : Text → MergeState

-- landableStates and enqueueableStates
abbrev pub landable : MergeState → Bool
landable clean = true
landable behind = false
landable blocked = false
landable unstable = false
landable unknown = false
landable (other t) = false

abbrev pub enqueueable : MergeState → Bool
enqueueable clean = true
enqueueable behind = true
enqueueable blocked = true
enqueueable unstable = false
enqueueable unknown = false
enqueueable (other t) = false

pub record Check : Type 0 where
  pub name : Text
  pub conclusion : Text
  pub reported_at : ℕ

unfoldable pub succeeded : Check → Bool
succeeded c = equal_fold (trim_space c.conclusion) (codes "SUCCESS")

unfoldable pub finished : Check → Bool
finished c = not (is_empty (trim_space c.conclusion))

pub record Change : Type 0 where
  pub repository : Text
  pub number : ℤ
  pub title : Text
  pub url : Text
  pub head : Text
  pub draft : Bool
  pub mergeable : Mergeability
  pub merge_state : MergeState
  pub checks : List Check
  pub required_checks : List Text
  pub queue_required : Bool

pub record Judgement : Type 0 where
  pub verdict : Verdict
  pub reviewed_head : Text
  pub findings : List Finding
  pub recorded_at : ℕ

-- What requiredChecks says of the check that stands in the way.
pub data CheckWhy : Type 0 where
  unnamed_rule : CheckWhy
  not_run runs_disagree not_finished : Text → CheckWhy
  concluded : Text → Text → CheckWhy

-- The sentences of a standing, with the values that each is built from.
pub data Why : Type 0 where
  is_draft no_verdict head_unnamed head_unsaid : Why
  head_moved : Text → Text → Why
  verdict_stands : Verdict → Why
  open_findings : Text → List Severity → Why
  now_conflicts : Text → Why
  not_mergeable : Mergeability → Why
  checks_failed : Text → CheckWhy → Why
  checks_wait : CheckWhy → Why
  merge_state_is : MergeState → Why
  nothing_outstanding : Text → Why

pub record Standing : Type 0 where
  pub change : Change
  pub disposition : Disposition
  pub reason : Why
  pub open_findings : List Severity
  pub owed : ℕ
