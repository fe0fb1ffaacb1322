-- ===== src/Gatekeeper/Examples.antt =====
-- Concrete requests: the fixtures, and the theorems of internal/gatekeeper applied to them.
use machinist.Base.{
  Text, codes, text_eq, text_lt, ◌≡◌, ◌≢◌, ◌⊎◌, refl, true, false, none, [], ◌∷◌, split, trim_space,
  trim_prefix, to_lower, to_upper, equal_fold, has_prefix, sort_strings, sort_stable, insert_stable,
}
use machinist.Base.Glob.{path_match}
use machinist.Base.Int.{pos}
use machinist.Review.Types.{Verdict, ready, escalate, Severity, info, severity_eq, Finding}
use machinist.Review.Types as Types
use machinist.Review.Independence.{is_reviewer, check_independence}
use machinist.Review.Policy.{segment_matches, default_protected_paths}
use machinist.Gatekeeper.Request.{
  mode_file, risk_low, Review, Request, request_valid, check_files, paths,
}
use machinist.Gatekeeper.Decision.{
  Tier, tier_valid, owner_named, green, reviewed, refuse, allow, normalize, Enablement,
  reviewed_allows,
}
use machinist.Gatekeeper.Paths.{
  match_segments, match_path, protected_hits, protected_floor, add_patterns, merge_patterns,
  extension, green_refusal,
}
use machinist.Gatekeeper.Tiers.{
  check_review, missing_checks, first_not_green, risk_refusal, human_refusal, evaluate_green,
  evaluate_reviewed, reviewed_patterns, reviewed_paths, reviewed_risk, reviewed_checks,
}
use machinist.Gatekeeper.Authorize.{authorize_tier, authorize, DeployRequest, authorize_deploy}
use machinist.Gatekeeper.Conditions.{IsComplete, GreenMay, ReviewedMay, Untouched}
use machinist.Gatekeeper.Sound.{Allows, Refuses}
use machinist.Gatekeeper.Authority.{
  authorize-reviewed_iff, authorize_settled, authorize_default, authorize_deploy-allowed_iff,
}
use machinist.Gatekeeper.Floor.{Clear, authorize-reviewed-Clear, authorize_floor}

abbrev head : Text
head = codes "0123456789abcdef"

abbrev review : Review
review = record {
  verdict = ready;
  findings = [];
  head_sha = head;
  author = record { role = codes "engineer"; agent = codes "forge"; run_id = codes "run-1" };
  reviewer = record { role = codes "reviewer"; agent = codes "anvil"; run_id = codes "run-2" };
}

-- A change of one document that closes one issue.
abbrev documented : Request
documented = record {
  repository = codes "acme/tool";
  pull_request = pos 7;
  head_sha = head;
  files = record { path = codes "docs/use.md"; mode = mode_file } ∷ [];
  closing_issues = record { number = pos 5; risk = risk_low; human_required = false } ∷ [];
  closing_issues_match_intent = true;
  checks = record {
    required = codes "test" ∷ [];
    passing = codes "Test" ∷ [];
    strict = true;
    merge_state_status = codes "clean";
  };
  review = review;
  owner_named = false;
  protected_paths = codes "secrets/**" ∷ [];
  protected_paths_unread = false;
}

-- The same request about a source file.
abbrev coded : Request
coded = record documented { files = record { path = codes "a.go"; mode = mode_file } ∷ [] }

abbrev ordered : Request
ordered = record coded { owner_named = true }

abbrev everything : Enablement
everything = record { green = true; reviewed_repositories = codes "Acme/Tool" ∷ [] }

abbrev nothing : Enablement
nothing = record { green = false; reviewed_repositories = [] }

request_complete : request_valid coded ≡ none
unfolding request_valid check_files trim_space
request_complete = refl

by_review : (authorize coded everything).0.tier ≡ reviewed
unfolding authorize request_valid check_files authorize_tier evaluate_green evaluate_reviewed
    reviewed_checks reviewed_risk reviewed_paths reviewed_patterns reviewed_allows risk_refusal
    human_refusal missing_checks merge_patterns add_patterns text_lt to_upper first_not_green
    green_refusal extension protected_hits paths match_path match_segments segment_matches
    path_match check_review check_independence is_reviewer Types.normalize equal_fold sort_strings
    sort_stable allow refuse normalize trim_space trim_prefix to_lower text_eq split has_prefix
    insert_stable
by_review = refl

authorize-reviewed_iff_example :
    IsComplete coded
    × (false ≡ false)
    × (¬ GreenMay coded everything)
    × ReviewedMay coded everything
authorize-reviewed_iff_example = (authorize-reviewed_iff coded everything).0 by_review

authorize_settled_example :
    ((t : Tier) × (tier_valid t ≡ true) × Allows t (authorize coded everything))
    ⊎ Refuses (authorize coded everything)
authorize_settled_example = authorize_settled coded everything

authorize_default_example : Refuses (authorize coded nothing)
authorize_default_example = authorize_default coded nothing refl refl refl

authorize-reviewed-Clear_example :
    Clear coded protected_floor
    × Clear coded (codes "secrets/**" ∷ [])
    × Clear coded default_protected_paths
authorize-reviewed-Clear_example = authorize-reviewed-Clear coded everything by_review

allowed : (authorize documented everything).0.allowed ≡ true
unfolding authorize request_valid check_files authorize_tier evaluate_green first_not_green
    green_refusal extension protected_hits paths match_path match_segments segment_matches
    path_match check_review check_independence is_reviewer Types.normalize equal_fold sort_strings
    sort_stable allow refuse normalize trim_space trim_prefix to_lower text_eq split has_prefix
allowed = refl

authorize_floor_example : Untouched documented protected_floor
authorize_floor_example = authorize_floor documented everything allowed refl

abbrev deploy : DeployRequest
deploy = record {
  target = codes "prod";
  procedure = codes "docs/deploy.md";
  tag = codes "v1.2.0";
  owner_authorized = true;
}

deployed : (authorize_deploy deploy).0.allowed ≡ true
unfolding authorize_deploy normalize trim_space to_lower refuse allow
deployed = refl

authorize_deploy-allowed_iff_example :
    (true ≡ true)
    × (normalize (codes "prod") ≢ [])
    × (normalize (codes "docs/deploy.md") ≢ [])
    × (normalize (codes "v1.2.0") ≢ [])
authorize_deploy-allowed_iff_example = (authorize_deploy-allowed_iff deploy).0 deployed
