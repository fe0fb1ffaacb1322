-- ===== src/Gatekeeper/Decision.antt =====
-- internal/gatekeeper/gatekeeper.go and enablement.go: tiers, decisions and what an owner enabled.
use machinist.Base.{
  ℕ, Text, text_eq, Bool, true, false, Option, none, some, List, [], is_empty, any, if◌then◌else◌,
  trim_space, to_lower,
}
use machinist.Base.Int.{ℤ}
use machinist.Review.Types.{Verdict}
use machinist.Review.Independence.{NotIndependent}
use machinist.Gatekeeper.Request.{FileMode, RequestError}

pub data Tier : Type 0 where
  owner_named green reviewed : Tier
  other : Text → Tier

-- Tier.Valid
abbrev pub tier_valid : Tier → Bool
tier_valid owner_named = true
tier_valid green = true
tier_valid reviewed = true
tier_valid (other t) = false

-- One line of the record, with the values that its text is built from.
pub data Reason : Type 0 where
  owner_authorized no_checks_required floor_clear agent_configuration_clear : Reason
  checks_passing : ℕ → Text → Reason
  checks_clean : ℕ → Text → Reason
  review_returned : Verdict → Reason
  review_independent : Verdict → Text → Text → Text → Reason
  documents : ℕ → Reason
  closing_none : Reason
  closing_issues : List ℤ → Reason
  risk_labels : List Text → Reason
  paths_clear : ℕ → ℕ → Reason
  deploy_authorized : Text → Text → Reason
  artifact : Text → Reason

-- Why a path is not one that the Green tier admits.
pub data NotGreen : Type 0 where
  path_empty : NotGreen
  not_plain : Text → FileMode → NotGreen
  not_markdown : Text → NotGreen
  outside_docs : Text → NotGreen

-- The errors of checkReview.
pub data ReviewError : Type 0 where
  verdict_unknown verdict_is : Verdict → ReviewError
  not_independent : NotIndependent → ReviewError
  names_no_head : ReviewError
  other_head : Text → Text → ReviewError

-- Each refusal of the package, with the values that its text is built from; the tier is the one
-- that the text's first words name.
pub data Refusal : Type 0 where
  incomplete : RequestError → Refusal
  not_enabled : Text → ℤ → Refusal
  check_missing : Tier → Text → Text → Refusal
  verdict_undefined : Verdict → Refusal
  review_escalates : Refusal
  closing_unconfirmed : Tier → Refusal
  green_disabled : Text → Refusal
  not_green : NotGreen → Refusal
  governance_source : Text → Refusal
  review_refused : Tier → ReviewError → Refusal
  reviewed_disabled : Text → Refusal
  has_findings : ℕ → Refusal
  no_required_check : Text → Refusal
  not_strict : Refusal
  not_clean : Text → Refusal
  no_closing_issue : Refusal
  no_risk_label : ℤ → Refusal
  risk_is_high : ℤ → Refusal
  protected_unread : Refusal
  protected_path : Text → Refusal
  human_required : ℤ → Refusal
  configures_agent : Text → Refusal
  deploy_unauthorized deploy_no_target deploy_no_procedure deploy_no_tag : Refusal

pub record Decision : Type 0 where
  pub allowed : Bool
  pub tier : Tier
  pub reasons : List Reason
  pub refusal : Option Refusal

-- A decision and an error; the error wraps ErrRefused and gives the refusal.
abbrev pub Answer : Type 0
Answer = Decision × Option Refusal

unfoldable pub refuse : Refusal → Answer
refuse why =
    (record { allowed = false; tier = other []; reasons = []; refusal = some why }, some why)

unfoldable pub allow : Tier → List Reason → Answer
allow tier reasons =
    (record { allowed = true; tier = tier; reasons = reasons; refusal = none }, none)

unfoldable pub normalize : Text → Text
normalize value = to_lower (trim_space value)

pub record Enablement : Type 0 where
  pub green : Bool
  pub reviewed_repositories : List Text

unfoldable pub reviewed_allows : Enablement → Text → Bool
reviewed_allows e repository =
    let wanted = normalize repository in
    if is_empty wanted
    then false
    else any (λ listed. text_eq (normalize listed) wanted) e.reviewed_repositories

unfoldable pub enables : Enablement → Tier → Text → Bool
enables e owner_named repository = true
enables e green repository = e.green
enables e reviewed repository = reviewed_allows e repository
enables e (other t) repository = false
