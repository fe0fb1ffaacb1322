-- ===== src/Gatekeeper/Tiers.antt =====
-- internal/gatekeeper/tiers.go: the conditions of the Green and the Reviewed tier.
use machinist.Base.{
  Text, codes, text_eq, not, Option, none, some, List, [], ◌∷◌, is_empty, filter, length, map,
  if◌then◌else◌, trim_space, to_upper, equal_fold, contains, add_key, sort_strings,
}
use machinist.Review.Types.{verdict_valid, is_ready}
use machinist.Review.Independence.{NotIndependent, check_independence}
use machinist.Review.Policy.{default_protected_paths}
use machinist.Gatekeeper.Request.{
  ChangedFile, ClosingIssue, risk_valid, is_risk_high, risk_text, ChecksState, Request,
}
use machinist.Gatekeeper.Decision.{
  Answer, Tier, refuse, allow, green, reviewed, normalize, Enablement, reviewed_allows, Reason,
  documents, floor_clear, review_independent, closing_none, closing_issues, checks_clean,
  risk_labels, paths_clear, agent_configuration_clear, NotGreen, ReviewError, verdict_unknown,
  verdict_is, not_independent, names_no_head, other_head, Refusal, green_disabled, not_green,
  governance_source, review_refused, closing_unconfirmed, reviewed_disabled, has_findings,
  no_required_check, not_strict, check_missing, not_clean, no_closing_issue, no_risk_label,
  risk_is_high, protected_unread, protected_path, human_required, configures_agent,
}
use machinist.Gatekeeper.Paths.{
  protected_floor, agent_configuration_patterns, protected_hits, merge_patterns, green_refusal,
  short,
}

abbrev pub or_independent : Option NotIndependent → Option ReviewError → Option ReviewError
or_independent none rest = rest
or_independent (some e) rest = some (not_independent e)

-- checkReview; `none` is a nil error.
unfoldable pub check_review : Request → Option ReviewError
check_review r =
    let reviewed = trim_space r.review.head_sha in
    if not (verdict_valid r.review.verdict)
    then some (verdict_unknown r.review.verdict)
    else if not (is_ready r.review.verdict)
    then some (verdict_is r.review.verdict)
    else or_independent (check_independence r.review.author r.review.reviewer) (
        if is_empty reviewed
        then some names_no_head
        else if not (equal_fold reviewed (trim_space r.head_sha))
        then some (other_head (short reviewed) (short r.head_sha))
        else none)

unfoldable pub review_reason : Request → Reason
review_reason r =
    review_independent r.review.verdict r.review.reviewer.agent (short r.review.head_sha)
      r.review.author.agent

unfoldable pub closing_issues_reason : Request → Reason
closing_issues_reason r =
    if is_empty r.closing_issues
    then closing_none
    else closing_issues (map (λ (i : ClosingIssue). i.number) r.closing_issues)

-- The loop of risksReason: the labels so far are those seen.
distinct_risks : List Text → List ClosingIssue → List Text
distinct_risks labels [] = labels
distinct_risks labels (i ∷ is) = distinct_risks (add_key (risk_text i.risk) labels) is

unfoldable pub risks_reason : List ClosingIssue → Reason
unfolding distinct_risks
risks_reason is = risk_labels (sort_strings (distinct_risks [] is))

-- The keys of the map `passing`.
abbrev pub passing_names : List Text → List Text
passing_names = map normalize

unfoldable pub missing_checks : ChecksState → List Text
missing_checks c =
    filter (λ name. not (contains (normalize name) (passing_names c.passing))) c.required

-- The loop over the files: the first that is no document is told.
unfoldable pub first_not_green : List ChangedFile → Option NotGreen
first_not_green [] = none
first_not_green (file ∷ files) =
    let rest = first_not_green files in
    elim (green_refusal file) [ none ↦ rest | some why ↦ some why ]

-- The loop over the closing issues for their risk.
unfoldable pub risk_refusal : List ClosingIssue → Option Refusal
risk_refusal [] = none
risk_refusal (i ∷ is) =
    let rest = risk_refusal is in
    if not (risk_valid i.risk)
    then some (no_risk_label i.number)
    else if is_risk_high i.risk
    then some (risk_is_high i.number)
    else rest

-- The loop over the closing issues for the label that wants a human.
unfoldable pub human_refusal : List ClosingIssue → Option Refusal
human_refusal [] = none
human_refusal (i ∷ is) =
    let rest = human_refusal is in if i.human_required then some (human_required i.number) else rest

-- `if len(xs) > 0 { return refuse(… xs[0] …) }`, and what follows.
abbrev pub refuse_first : (Text → Refusal) → List Text → Answer → Answer
refuse_first why [] rest = rest
refuse_first why (x ∷ xs) rest = refuse (why x)

abbrev pub refuse_some : Option Refusal → Answer → Answer
refuse_some none rest = rest
refuse_some (some why) rest = refuse why

abbrev pub refuse_review : Tier → Option ReviewError → Answer → Answer
refuse_review tier none rest = rest
refuse_review tier (some e) rest = refuse (review_refused tier e)

abbrev pub refuse_green : Option NotGreen → Answer → Answer
refuse_green none rest = rest
refuse_green (some why) rest = refuse (not_green why)

abbrev pub green_reasons : Request → List Reason
green_reasons r =
    documents (length r.files) ∷ floor_clear ∷ review_reason r ∷ closing_issues_reason r ∷ []

unfoldable pub evaluate_green : Request → Enablement → Answer
evaluate_green r e =
    if not e.green
    then refuse (green_disabled r.repository)
    else refuse_green (first_not_green r.files) (
        refuse_first governance_source (protected_hits r protected_floor) (
          refuse_review green (check_review r) (
            if not r.closing_issues_match_intent
            then refuse (closing_unconfirmed green)
            else allow green (green_reasons r))))

-- The patterns of condition 4.
unfoldable pub reviewed_patterns : Request → List Text
reviewed_patterns r = merge_patterns protected_floor r.protected_paths default_protected_paths

abbrev pub reviewed_reasons : Request → List Reason
reviewed_reasons r =
    review_reason r
    ∷ checks_clean (length r.checks.required) (short r.head_sha)
    ∷ risks_reason r.closing_issues
    ∷ paths_clear (length r.files) (length (reviewed_patterns r))
    ∷ closing_issues_reason r
    ∷ agent_configuration_clear
    ∷ []

-- Conditions 4 to 6.
unfoldable pub reviewed_paths : Request → Answer
reviewed_paths r =
    if r.protected_paths_unread
    then refuse protected_unread
    else refuse_first protected_path (protected_hits r (reviewed_patterns r)) (
        refuse_some (human_refusal r.closing_issues) (
          if not r.closing_issues_match_intent
          then refuse (closing_unconfirmed reviewed)
          else refuse_first configures_agent (protected_hits r agent_configuration_patterns)
              (allow reviewed (reviewed_reasons r))))

-- Condition 3, and the rest.
unfoldable pub reviewed_risk : Request → Answer
reviewed_risk r =
    if is_empty r.closing_issues
    then refuse no_closing_issue
    else refuse_some (risk_refusal r.closing_issues) (reviewed_paths r)

-- Condition 2, and the rest.
unfoldable pub reviewed_checks : Request → Answer
reviewed_checks r =
    if is_empty r.checks.required
    then refuse (no_required_check r.repository)
    else if not r.checks.strict
    then refuse not_strict
    else refuse_first (λ name. check_missing reviewed name (short r.head_sha))
        (missing_checks r.checks)
        (if not (text_eq (to_upper (trim_space r.checks.merge_state_status)) (codes "CLEAN"))
          then refuse (not_clean r.checks.merge_state_status)
          else reviewed_risk r)

unfoldable pub evaluate_reviewed : Request → Enablement → Answer
evaluate_reviewed r e =
    if not (reviewed_allows e r.repository)
    then refuse (reviewed_disabled r.repository)
    else refuse_review reviewed (check_review r) (
        if not (is_empty r.review.findings)
        then refuse (has_findings (length r.review.findings))
        else reviewed_checks r)
