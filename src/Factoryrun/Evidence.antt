-- ===== src/Factoryrun/Evidence.antt =====
-- internal/factoryrun/evidence.go: what a marker carries. Stages, check states and verdicts are
-- strings, as in the source.
use machinist.Base.{
  ℕ, Text, codes, text_eq, Bool, true, false, ◌&&◌, ◌||◌, not, Option, none, some, List, [], ◌∷◌,
  all, if◌then◌else◌, is_empty, contains, trim_space,
}
use machinist.Review.Types.{verdict_of, verdict_valid}

pub record Check : Type 0 where
  pub name : Text
  pub state : Text
  pub details_url : Text

-- The instant counts nanoseconds since Go's zero time.
pub record Evidence : Type 0 where
  pub job_id : Text
  pub run_id : Text
  pub attempt_id : Text
  pub branch : Text
  pub pr : Text
  pub repo : Text
  pub stage : Text
  pub verdict : Text
  pub checks : List Check
  pub issues : List Text
  pub updated_at : ℕ

abbrev pub stages : List Text
stages = codes "claimed" ∷ codes "running" ∷ codes "complete" ∷ codes "failed" ∷ codes "parked" ∷ []

unfoldable pub stage_valid : Text → Bool
stage_valid s = contains s stages

abbrev pub check_states : List Text
check_states = codes "success" ∷ codes "failure" ∷ codes "pending" ∷ codes "neutral" ∷ []

unfoldable pub state_valid : Text → Bool
state_valid s = contains s check_states

unfoldable pub passing : Text → Bool
passing s = text_eq s (codes "success")

unfoldable pub checks_passing : Evidence → Bool
checks_passing e =
    if is_empty e.checks then false else all (λ (c : Check). passing c.state) e.checks

pub data EvidenceError : Type 0 where
  job_required run_required repo_required check_unnamed : EvidenceError
  unknown_stage unknown_verdict : Text → EvidenceError
  unknown_state : Text → Text → EvidenceError

-- The loop over the checks of Validate: `none` is a nil error.
unfoldable pub check_problem : List Check → Option EvidenceError
check_problem [] = none
check_problem (c ∷ cs) =
    let rest = check_problem cs in
    if is_empty (trim_space c.name)
    then some check_unnamed
    else if not (state_valid c.state)
    then some (unknown_state c.name c.state)
    else rest

unfoldable pub validate : Evidence → Option EvidenceError
validate e =
    if is_empty (trim_space e.job_id)
    then some job_required
    else if is_empty (trim_space e.run_id)
    then some run_required
    else if is_empty (trim_space e.repo)
    then some repo_required
    else if not (is_empty e.stage) && not (stage_valid e.stage)
    then some (unknown_stage e.stage)
    else if not (is_empty e.verdict) && not (verdict_valid (verdict_of e.verdict))
    then some (unknown_verdict e.verdict)
    else check_problem e.checks

-- slices.Equal
abbrev pub equal_texts : List Text → List Text → Bool
equal_texts [] [] = true
equal_texts [] (t ∷ ts) = false
equal_texts (s ∷ ss) [] = false
equal_texts (s ∷ ss) (t ∷ ts) = text_eq s t && equal_texts ss ts

abbrev pub equal_check : Check → Check → Bool
equal_check c d =
    text_eq c.name d.name && (text_eq c.state d.state && text_eq c.details_url d.details_url)

unfoldable pub equal_checks : List Check → List Check → Bool
equal_checks [] [] = true
equal_checks [] (d ∷ ds) = false
equal_checks (c ∷ cs) [] = false
equal_checks (c ∷ cs) (d ∷ ds) = equal_check c d && equal_checks cs ds

-- SameEvidence
unfoldable pub same_evidence : Evidence → Evidence → Bool
same_evidence e o =
    if not (text_eq e.job_id o.job_id)
      || not (text_eq e.run_id o.run_id)
      || not (text_eq e.attempt_id o.attempt_id)
    then false
    else if not (text_eq e.branch o.branch)
        || not (text_eq e.pr o.pr)
        || not (text_eq e.repo o.repo)
    then false
    else if not (text_eq e.stage o.stage) || not (text_eq e.verdict o.verdict)
    then false
    else if not (equal_texts e.issues o.issues)
    then false
    else equal_checks e.checks o.checks
