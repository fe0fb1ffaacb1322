-- ===== src/Gatekeeper/Required.antt =====
-- When the required checks of a branch let a change through (internal/gatekeeper/mergeowed.go).
use machinist.Base.{
  ℕ, max, Text, text_eq, ◌≡◌, ◌≢◌, ◌↔◌, ◌⊎◌, refl, sym, ◌∙◌, ap, Bool, true, false, ◌&&◌, ◌||◌,
  none, some, List, [], ◌∷◌, All, All-map, Any, any_iff, all_iff, any, arith, clash, Bool-cases,
  Option-cases, inl, inr, is_empty-false_iff, trim_space, to_lower, equal_fold,
}
use machinist.Base.Dict.{lookup}
use machinist.Gatekeeper.Owed.{
  Tally, tally, no_runs, judge_required, judge_all, required_checks, CheckOutcome, all_passed,
  pending, failed,
}
use machinist.Gatekeeper.Change.{Check, succeeded, finished, Change}
use machinist.Gatekeeper.Runs.{
  is_run, Newest, newest_of, view, view-tally, latest, all_good, good_at, newest_of-run,
  newest_of-skip, newest_of-some, latest-run, latest-skip, all_good-run, all_good-skip,
}

-- A check that has a run, and whose runs of the newest instant all succeeded.
pub record RunsPass (name : Text) (cs : List Check) : Type 0 where
  pub ran : Any (λ c. is_run name c ≡ true) cs
  pub newest_succeeded :
      All (λ c. is_run name c ≡ true → c.reported_at ≡ latest name cs → succeeded c ≡ true) cs

succeeded-finished : (c : Check) → succeeded c ≡ true → finished c ≡ true
unfolding succeeded finished equal_fold to_lower text_eq
succeeded-finished c h = ground arith

newest_of-none :
    (name : Text) (cs : List Check)
    → any (is_run name) cs ≡ true
    → newest_of name cs none ≡ some (latest name cs, all_good name (latest name cs) cs)
newest_of-none name [] h = cc
newest_of-none name (c ∷ cs) h = elim (Bool-cases (is_run name c)) [
  | inl e ↦
      newest_of-run name c cs none e
      ∙ newest_of-some name cs c.reported_at (succeeded c)
      ∙ rw (latest-run name c cs e, all_good-run name c cs (max c.reported_at (latest name cs)) e)
          (ap (λ b. some (max c.reported_at (latest name cs), b)) (commute (succeeded c) _ _))
  | inr e ↦
      newest_of-skip name c cs none e
      ∙ newest_of-none name cs (rw e at h)
      ∙ rw (latest-skip name c cs e, all_good-skip name c cs (latest name cs) e)
]
  where
    commute : (s n r : Bool) → ((s || n) && r) ≡ ((n || s) && r)
    commute true true r = refl
    commute true false r = refl
    commute false true r = refl
    commute false false r = refl

newest_of-no_run :
    (name : Text) (cs : List Check) → any (is_run name) cs ≡ false → newest_of name cs none ≡ none
newest_of-no_run name [] h = unfold newest_of in refl
newest_of-no_run name (c ∷ cs) h = elim (Bool-cases (is_run name c)) [
  | inl e ↦ ground (arith, e)
  | inr e ↦ newest_of-skip name c cs none e ∙ newest_of-no_run name cs (rw e at h)
]

all_good_iff :
    (name : Text) (cs : List Check) (top : ℕ)
    → (all_good name top cs ≡ true)
      ↔ All (λ c. is_run name c ≡ true → c.reported_at ≡ top → succeeded c ≡ true) cs
unfolding all_good
all_good_iff name cs top = (
  λ h. All-map (λ c g r t. ground arith) cs ((all_iff (good_at name top) cs).0 h),
  λ h. (all_iff (good_at name top) cs).1 (All-map (λ c g. ground (arith, g)) cs h),
)

abbrev is_good : Newest → Bool
is_good none = false
is_good (some (at, good)) = good

view_newest :
    (name : Text) (cs : List Check) → view name (tally cs no_runs) ≡ newest_of name cs none
unfolding lookup
view_newest name cs = view-tally name cs no_runs (λ e. refl)

-- The runs of a name pass exactly when the maps hold a run that succeeded and is not ambiguous.
view-RunsPass :
    (name : Text) (cs : List Check)
    → (is_good (view name (tally cs no_runs)) ≡ true) ↔ RunsPass name cs
view-RunsPass name cs = elim (Bool-cases (any (is_run name) cs)) [
  | inl e ↦
      let v = view_newest name cs ∙ newest_of-none name cs e in
      (
        λ h. record {
          ran = (any_iff (is_run name) cs).0 e;
          newest_succeeded = (all_good_iff name cs (latest name cs)).0 (sym (ap is_good v) ∙ h);
        },
        λ p. ap is_good v ∙ (all_good_iff name cs (latest name cs)).1 p.newest_succeeded,
      )
  | inr e ↦
      let v = ap is_good (view_newest name cs ∙ newest_of-no_run name cs e) in
      (
        λ h. absurd (clash (sym v ∙ h)),
        λ p. absurd (clash (sym e ∙ (any_iff (is_run name) cs).1 p.ran)),
      )
]

judge-is_good :
    (required : Text) (t : Tally)
    → (judge_required required t ≡ all_passed)
      ↔ ((trim_space required ≢ []) × (is_good (view (trim_space required) t) ≡ true))
unfolding judge_required
judge-is_good required t = elim (Option-cases (lookup (trim_space required) t.newest)) [
  | inl e ↦ (λ h. ground (arith, e), λ h. ground (arith, e))
  | inr (c, e) ↦ (
    λ h. ground (arith, e, is_empty-false_iff (trim_space required)),
    λ h. ground (arith, e, is_empty-false_iff (trim_space required), succeeded-finished c),
  )
]

outcome_cases : (o : CheckOutcome) → (o ≡ all_passed) ⊎ (o ≢ all_passed)
outcome_cases all_passed = inl refl
outcome_cases (pending why) = inr (λ e. cc)
outcome_cases (failed why) = inr (λ e. cc)

judge_all-All :
    (names : List Text) (cs : List Check)
    → (judge_all names (tally cs no_runs) ≡ all_passed)
      ↔ All (λ name. (trim_space name ≢ []) × RunsPass (trim_space name) cs) names
unfolding judge_all
judge_all-All [] cs = (λ h. tt, λ h. refl)
judge_all-All (name ∷ names) cs = elim (outcome_cases (judge_required name (tally cs no_runs))) [
  | inl e ↦
      let (n, g) = (judge-is_good name (tally cs no_runs)).0 e in
      (
        λ h. (
          (n, (view-RunsPass (trim_space name) cs).0 g),
          (judge_all-All names cs).0 (rw (e, judge_all) at h),
        ),
        λ h. rw (e, judge_all) ((judge_all-All names cs).1 h.1),
      )
  | inr e ↦ (
    λ h. ground (arith, e),
    λ h. ground (
      arith,
      e,
      (judge-is_good name (tally cs no_runs)).1
          (h.0.0, (view-RunsPass (trim_space name) cs).1 h.0.1),
    ),
  )
]

-- The required checks let a change through exactly when each has a name and a run, and every run of
-- its newest instant succeeded.
pub required_checks-RunsPass :
    (c : Change)
    → (required_checks c ≡ all_passed)
      ↔ All (λ name. (trim_space name ≢ []) × RunsPass (trim_space name) c.checks) c.required_checks
unfolding required_checks
required_checks-RunsPass c = judge_all-All c.required_checks c.checks
