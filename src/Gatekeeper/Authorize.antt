-- ===== src/Gatekeeper/Authorize.antt =====
-- internal/gatekeeper/authorize.go: who may merge, and who may deploy.
use machinist.Base.{
  Text, Bool, true, false, ◌&&◌, not, none, some, List, [], ◌∷◌, ◌++◌, is_empty, length,
  if◌then◌else◌,
}
use machinist.Review.Types.{is_no_verdict, verdict_valid, is_escalate}
use machinist.Gatekeeper.Request.{Request, request_valid}
use machinist.Gatekeeper.Decision.{
  Answer, refuse, allow, owner_named, normalize, Enablement, reviewed_allows, Reason,
  owner_authorized, checks_passing, no_checks_required, review_returned, deploy_authorized,
  artifact, incomplete, not_enabled, check_missing, verdict_undefined, review_escalates,
  closing_unconfirmed, deploy_unauthorized, deploy_no_target, deploy_no_procedure, deploy_no_tag,
}
use machinist.Gatekeeper.Paths.{short}
use machinist.Gatekeeper.Tiers.{
  missing_checks, closing_issues_reason, evaluate_green, evaluate_reviewed, refuse_first,
}

abbrev pub check_reason : Request → Reason
check_reason r =
    if is_empty r.checks.required
    then no_checks_required
    else checks_passing (length r.checks.required) (short r.head_sha)

-- The confirmation of the closing issues, which comes last.
unfoldable pub owner_closing : Request → List Reason → Answer
owner_closing r reasons =
    if not r.closing_issues_match_intent
    then refuse (closing_unconfirmed owner_named)
    else allow owner_named (reasons ++ closing_issues_reason r ∷ [])

unfoldable pub owner_review : Request → List Reason → Answer
owner_review r reasons =
    if is_no_verdict r.review.verdict
    then owner_closing r reasons
    else if not (verdict_valid r.review.verdict)
    then refuse (verdict_undefined r.review.verdict)
    else if is_escalate r.review.verdict
    then refuse review_escalates
    else owner_closing r (reasons ++ review_returned r.review.verdict ∷ [])

unfoldable pub authorize_owner_named : Request → Answer
authorize_owner_named r =
    refuse_first (λ name. check_missing owner_named name (short r.head_sha))
      (missing_checks r.checks) (owner_review r (owner_authorized ∷ check_reason r ∷ []))

-- `err == nil`
abbrev pub accepted : Answer → Bool
accepted (d, none) = true
accepted (d, some e) = false

unfoldable pub authorize_tier : Request → Enablement → Answer
authorize_tier r e =
    let by_green = evaluate_green r e in
    if e.green && accepted by_green
    then by_green
    else if reviewed_allows e r.repository
    then evaluate_reviewed r e
    else if e.green
    then evaluate_green r e
    else refuse (not_enabled r.repository r.pull_request)

unfoldable pub authorize : Request → Enablement → Answer
authorize r e = elim (request_valid r) [
  | some problem ↦ refuse (incomplete problem)
  | none ↦ if r.owner_named then authorize_owner_named r else authorize_tier r e
]

pub record DeployRequest : Type 0 where
  pub target : Text
  pub procedure : Text
  pub tag : Text
  pub owner_authorized : Bool

unfoldable pub authorize_deploy : DeployRequest → Answer
authorize_deploy r =
    if not r.owner_authorized
    then refuse deploy_unauthorized
    else if is_empty (normalize r.target)
    then refuse deploy_no_target
    else if is_empty (normalize r.procedure)
    then refuse deploy_no_procedure
    else if is_empty (normalize r.tag)
    then refuse deploy_no_tag
    else allow owner_named (deploy_authorized r.target r.procedure ∷ artifact r.tag ∷ [])
