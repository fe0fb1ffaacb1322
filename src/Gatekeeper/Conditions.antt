-- ===== src/Gatekeeper/Conditions.antt =====
-- What each authority asks of a merge, stated of the request and apart from the code that checks it.
use machinist.Base.{
  Text, codes, ◌≡◌, ◌≢◌, true, false, List, [], All, map, ◌⊎◌, trim_space, to_upper, to_lower,
  contains, has_prefix, trim_prefix,
}
use machinist.Base.Int.{is_positive}
use machinist.Review.Types.{ready, is_no_verdict, verdict_valid, is_escalate}
use machinist.Review.Independence.{Independent}
use machinist.Gatekeeper.Request.{
  mode_valid, mode_file, ChangedFile, risk_valid, is_risk_high, ClosingIssue, ChecksState, Request,
  paths,
}
use machinist.Gatekeeper.Decision.{Enablement, reviewed_allows, normalize}
use machinist.Gatekeeper.Paths.{
  match_path, protected_floor, agent_configuration_patterns, extension,
}
use machinist.Gatekeeper.Tiers.{reviewed_patterns}

-- Every fact that a decision needs has been read.
pub record IsComplete (r : Request) : Type 0 where
  pub repository_known : trim_space r.repository ≢ []
  pub number_known : is_positive r.pull_request ≡ true
  pub head_known : trim_space r.head_sha ≢ []
  pub files_known : r.files ≢ []
  pub files_read :
      All (λ (f : ChangedFile). (trim_space f.path ≢ []) × (mode_valid f.mode ≡ true)) r.files

-- Every required check is among the passing ones.
abbrev pub ChecksPass : ChecksState → Type 0
ChecksPass c = All (λ name. contains (normalize name) (map normalize c.passing) ≡ true) c.required

-- No changed path is matched by a pattern.
abbrev pub Untouched : Request → List Text → Type 0
Untouched r patterns =
    All (λ p. (p ≡ []) ⊎ All (λ pattern. match_path pattern p ≡ false) patterns) (paths r)

-- A plain Markdown file: README.md or one under docs/.
pub record IsDocument (f : ChangedFile) : Type 0 where
  pub plain : f.mode ≡ mode_file
  pub markdown : to_lower (extension (trim_prefix (codes "./") (trim_space f.path))) ≡ codes ".md"
  pub placed :
      (trim_prefix (codes "./") (trim_space f.path) ≡ codes "README.md")
      ⊎ (has_prefix (codes "docs/") (trim_prefix (codes "./") (trim_space f.path)) ≡ true)

-- An independent reviewer found this very head ready.
pub record IsReviewed (r : Request) : Type 0 where
  pub verdict_ready : r.review.verdict ≡ ready
  pub independent : Independent r.review.author r.review.reviewer
  pub head_named : trim_space r.review.head_sha ≢ []
  pub same_head : to_lower (trim_space r.review.head_sha) ≡ to_lower (trim_space r.head_sha)

-- The owner's word, and what it does not certify.
pub record OwnerMay (r : Request) : Type 0 where
  pub named : r.owner_named ≡ true
  pub passing : ChecksPass r.checks
  pub not_withheld :
      (is_no_verdict r.review.verdict ≡ true)
      ⊎ ((verdict_valid r.review.verdict ≡ true) × (is_escalate r.review.verdict ≡ false))
  pub confirmed : r.closing_issues_match_intent ≡ true

pub record GreenMay (r : Request) (e : Enablement) : Type 0 where
  pub enabled : e.green ≡ true
  pub documents : All IsDocument r.files
  pub floor_untouched : Untouched r protected_floor
  pub reviewed_head : IsReviewed r
  pub confirmed : r.closing_issues_match_intent ≡ true

pub record ReviewedMay (r : Request) (e : Enablement) : Type 0 where
  pub enabled : reviewed_allows e r.repository ≡ true
  pub reviewed_head : IsReviewed r
  pub no_findings : r.review.findings ≡ []
  pub checks_required : r.checks.required ≢ []
  pub checks_strict : r.checks.strict ≡ true
  pub passing : ChecksPass r.checks
  pub clean : to_upper (trim_space r.checks.merge_state_status) ≡ codes "CLEAN"
  pub closes : r.closing_issues ≢ []
  pub risks_read :
      All
        (λ (i : ClosingIssue). (risk_valid i.risk ≡ true) × (is_risk_high i.risk ≡ false))
        r.closing_issues
  pub paths_read : r.protected_paths_unread ≡ false
  pub unprotected : Untouched r (reviewed_patterns r)
  pub no_human : All (λ (i : ClosingIssue). i.human_required ≡ false) r.closing_issues
  pub confirmed : r.closing_issues_match_intent ≡ true
  pub agents_untouched : Untouched r agent_configuration_patterns
