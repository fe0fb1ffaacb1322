-- ===== src/Gatekeeper/Sound.antt =====
-- Authorize allows a merge exactly on the conditions of an authority.
use machinist.Base.{
  codes, ◌≡◌, true, false, none, [], is_empty, ◌↔◌, ◌⊎◌, inl, inr, trim_space, to_upper, text_eq,
  text_eq_iff, arith, is_some, is_empty-false_iff,
}
use machinist.Review.Types.{is_no_verdict, verdict_valid, is_escalate}
use machinist.Gatekeeper.Request.{Request}
use machinist.Gatekeeper.Decision.{
  Tier, other, Answer, refuse, allow, owner_named, green, reviewed, Enablement, reviewed_allows,
}
use machinist.Gatekeeper.Paths.{protected_floor, agent_configuration_patterns, protected_hits}
use machinist.Gatekeeper.Tiers.{
  check_review, missing_checks, first_not_green, risk_refusal, human_refusal, evaluate_green,
  evaluate_reviewed, reviewed_paths, reviewed_risk, reviewed_checks, reviewed_patterns,
}
use machinist.Gatekeeper.Authorize.{owner_closing, owner_review, authorize_owner_named}
use machinist.Gatekeeper.Checks.{
  check_review-IsReviewed, missing_checks-ChecksPass, protected_hits-Untouched, first_not_green-All,
  risk_refusal-All, human_refusal-All,
}
use machinist.Gatekeeper.Conditions.{OwnerMay, GreenMay, ReviewedMay}

-- An answer that allows on a tier, and one that refuses.
pub record Allows (tier : Tier) (a : Answer) : Type 0 where
  pub allowed : a.0.allowed ≡ true
  pub on_tier : a.0.tier ≡ tier
  pub unrefused : a.0.refusal ≡ none
  pub no_error : a.1 ≡ none

pub record Refuses (a : Answer) : Type 0 where
  pub not_allowed : a.0.allowed ≡ false
  pub no_tier : a.0.tier ≡ other []
  pub no_reasons : a.0.reasons ≡ []
  pub explained : is_some a.0.refusal ≡ true
  pub wrapped : a.1 ≡ a.0.refusal

module _ (r : Request) where
  -- The checks of an owner-named merge, as the code makes them.
  record OwnerPasses : Type 0 where
    checks : is_empty (missing_checks r.checks) ≡ true
    not_withheld :
        (is_no_verdict r.review.verdict ≡ true)
        ⊎ ((verdict_valid r.review.verdict ≡ true) × (is_escalate r.review.verdict ≡ false))
    confirmed : r.closing_issues_match_intent ≡ true

  owner_cases :
      (OwnerPasses × Allows owner_named (authorize_owner_named r))
      ⊎ ((¬ OwnerPasses) × Refuses (authorize_owner_named r))
  unfolding authorize_owner_named owner_review owner_closing refuse allow
  owner_cases = ground arith

  -- The checks of the Reviewed tier, as the code makes them, the last ones first.
  record PathsPass : Type 0 where
    read : r.protected_paths_unread ≡ false
    unprotected : is_empty (protected_hits r (reviewed_patterns r)) ≡ true
    no_human : human_refusal r.closing_issues ≡ none
    confirmed : r.closing_issues_match_intent ≡ true
    agents : is_empty (protected_hits r agent_configuration_patterns) ≡ true

  paths_cases :
      (PathsPass × Allows reviewed (reviewed_paths r))
      ⊎ ((¬ PathsPass) × Refuses (reviewed_paths r))
  unfolding reviewed_paths refuse allow
  paths_cases = ground arith

  record RiskPasses : Type 0 where
    closes : is_empty r.closing_issues ≡ false
    risks : risk_refusal r.closing_issues ≡ none
    paths_pass : PathsPass

  risk_cases :
      (RiskPasses × Allows reviewed (reviewed_risk r))
      ⊎ ((¬ RiskPasses) × Refuses (reviewed_risk r))
  unfolding reviewed_risk refuse
  risk_cases = ground (arith, paths_cases)

  record ChecksClear : Type 0 where
    required : is_empty r.checks.required ≡ false
    strict : r.checks.strict ≡ true
    checks : is_empty (missing_checks r.checks) ≡ true
    clean : text_eq (to_upper (trim_space r.checks.merge_state_status)) (codes "CLEAN") ≡ true
    risk_passes : RiskPasses

  checks_cases :
      (ChecksClear × Allows reviewed (reviewed_checks r))
      ⊎ ((¬ ChecksClear) × Refuses (reviewed_checks r))
  unfolding reviewed_checks refuse
  checks_cases = ground (arith, risk_cases)

  module _ (e : Enablement) where
    record GreenPasses : Type 0 where
      enabled : e.green ≡ true
      documents : first_not_green r.files ≡ none
      floor : is_empty (protected_hits r protected_floor) ≡ true
      review : check_review r ≡ none
      confirmed : r.closing_issues_match_intent ≡ true

    green_cases :
        (GreenPasses × Allows green (evaluate_green r e))
        ⊎ ((¬ GreenPasses) × Refuses (evaluate_green r e))
    unfolding evaluate_green refuse allow
    green_cases = ground arith

    record ReviewedPasses : Type 0 where
      enabled : reviewed_allows e r.repository ≡ true
      review : check_review r ≡ none
      findings : is_empty r.review.findings ≡ true
      checks_clear : ChecksClear

    reviewed_cases :
        (ReviewedPasses × Allows reviewed (evaluate_reviewed r e))
        ⊎ ((¬ ReviewedPasses) × Refuses (evaluate_reviewed r e))
    unfolding evaluate_reviewed refuse
    reviewed_cases = ground (arith, checks_cases)

    owner_iff : r.owner_named ≡ true → OwnerPasses ↔ OwnerMay r
    owner_iff named = (
      λ p. record {
        named = named;
        passing = (missing_checks-ChecksPass r.checks).0 p.checks;
        not_withheld = p.not_withheld;
        confirmed = p.confirmed;
      },
      λ m. record {
        checks = (missing_checks-ChecksPass r.checks).1 m.passing;
        not_withheld = m.not_withheld;
        confirmed = m.confirmed;
      },
    )

    green_iff : GreenPasses ↔ GreenMay r e
    green_iff = (
      λ p. record {
        enabled = p.enabled;
        documents = (first_not_green-All r.files).0 p.documents;
        floor_untouched = (protected_hits-Untouched r protected_floor).0 p.floor;
        reviewed_head = (check_review-IsReviewed r).0 p.review;
        confirmed = p.confirmed;
      },
      λ m. record {
        enabled = m.enabled;
        documents = (first_not_green-All r.files).1 m.documents;
        floor = (protected_hits-Untouched r protected_floor).1 m.floor_untouched;
        review = (check_review-IsReviewed r).1 m.reviewed_head;
        confirmed = m.confirmed;
      },
    )

    reviewed_iff : ReviewedPasses ↔ ReviewedMay r e
    reviewed_iff = (
      λ p. to p p.checks_clear p.checks_clear.risk_passes p.checks_clear.risk_passes.paths_pass,
      λ m. from m,
    )
      where
        to : ReviewedPasses → ChecksClear → RiskPasses → PathsPass → ReviewedMay r e
        to p c k q = record {
          enabled = p.enabled;
          reviewed_head = (check_review-IsReviewed r).0 p.review;
          no_findings = ground (arith, p.findings);
          checks_required = (is_empty-false_iff r.checks.required).0 c.required;
          checks_strict = c.strict;
          passing = (missing_checks-ChecksPass r.checks).0 c.checks;
          clean = (text_eq_iff _ (codes "CLEAN")).0 c.clean;
          closes = (is_empty-false_iff r.closing_issues).0 k.closes;
          risks_read = (risk_refusal-All r.closing_issues).0 k.risks;
          paths_read = q.read;
          unprotected = (protected_hits-Untouched r (reviewed_patterns r)).0 q.unprotected;
          no_human = (human_refusal-All r.closing_issues).0 q.no_human;
          confirmed = q.confirmed;
          agents_untouched = (protected_hits-Untouched r agent_configuration_patterns).0 q.agents;
        }

        from : ReviewedMay r e → ReviewedPasses
        from m = record {
          enabled = m.enabled;
          review = (check_review-IsReviewed r).1 m.reviewed_head;
          findings = rw m.no_findings;
          checks_clear = record {
            required = (is_empty-false_iff r.checks.required).1 m.checks_required;
            strict = m.checks_strict;
            checks = (missing_checks-ChecksPass r.checks).1 m.passing;
            clean = (text_eq_iff _ (codes "CLEAN")).1 m.clean;
            risk_passes = record {
              closes = (is_empty-false_iff r.closing_issues).1 m.closes;
              risks = (risk_refusal-All r.closing_issues).1 m.risks_read;
              paths_pass = record {
                read = m.paths_read;
                unprotected = (protected_hits-Untouched r (reviewed_patterns r)).1 m.unprotected;
                no_human = (human_refusal-All r.closing_issues).1 m.no_human;
                confirmed = m.confirmed;
                agents =
                    (protected_hits-Untouched r agent_configuration_patterns).1 m.agents_untouched;
              };
            };
          };
        }

    -- Each evaluation allows on its tier exactly when the tier's conditions hold.
    pub OwnerMay-cases :
        r.owner_named ≡ true
        → (OwnerMay r × Allows owner_named (authorize_owner_named r))
          ⊎ ((¬ OwnerMay r) × Refuses (authorize_owner_named r))
    OwnerMay-cases named = elim owner_cases [
      | inl p ↦ inl ((owner_iff named).0 p.0, p.1)
      | inr p ↦ inr ((λ m. p.0 ((owner_iff named).1 m)), p.1)
    ]

    pub GreenMay-cases :
        (GreenMay r e × Allows green (evaluate_green r e))
        ⊎ ((¬ GreenMay r e) × Refuses (evaluate_green r e))
    GreenMay-cases = elim green_cases [
      | inl p ↦ inl (green_iff.0 p.0, p.1)
      | inr p ↦ inr ((λ m. p.0 (green_iff.1 m)), p.1)
    ]

    pub ReviewedMay-cases :
        (ReviewedMay r e × Allows reviewed (evaluate_reviewed r e))
        ⊎ ((¬ ReviewedMay r e) × Refuses (evaluate_reviewed r e))
    ReviewedMay-cases = elim reviewed_cases [
      | inl p ↦ inl (reviewed_iff.0 p.0, p.1)
      | inr p ↦ inr ((λ m. p.0 (reviewed_iff.1 m)), p.1)
    ]
