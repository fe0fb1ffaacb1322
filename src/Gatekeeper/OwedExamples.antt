-- ===== src/Gatekeeper/OwedExamples.antt =====
-- Concrete open pull requests: the fixtures, and the theorems about what is owed applied to them.
use machinist.Base.{
  codes, text_eq, ◌≡◌, ◌≢◌, refl, true, false, some, List, [], ◌∷◌, All, trim_space, to_lower,
  equal_fold,
}
use mathlib.Core.List.{Perm}
use machinist.Base.Int.{pos}
use machinist.Base.Dict.{lookup, insert}
use machinist.Review.Types.{ready, info, severity_eq}
use machinist.Gatekeeper.Owed.{
  collect_open, open_severities, tally_check, tally, judge_required, judge_all, required_checks,
  all_passed, owed_judged, owed, owed_each, owed_across,
}
use machinist.Gatekeeper.Change.{
  merge_owed, can_merge, clean, succeeded, finished, Change, Judgement,
}
use machinist.Gatekeeper.Required.{RunsPass, required_checks-RunsPass}
use machinist.Gatekeeper.Standing.{Landable, owed-merge_owed_iff}
use machinist.Gatekeeper.Ordering.{Ordered, owed_across-Ordered}

-- A check that failed and then succeeded.
abbrev change : Change
change = record {
  repository = codes "acme/tool";
  number = pos 7;
  title = codes "t";
  url = codes "u";
  head = codes "abcdef0123";
  draft = false;
  mergeable = can_merge;
  merge_state = clean;
  checks =
      record { name = codes "test"; conclusion = codes "FAILURE"; reported_at = 3 }
      ∷ record { name = codes "test"; conclusion = codes "Success"; reported_at = 9 }
      ∷ [];
  required_checks = codes " test" ∷ [];
  queue_required = false;
}

abbrev judgement : Judgement
judgement = record {
  verdict = ready;
  reviewed_head = codes "ABCDEF0123";
  findings =
      record { severity = info; path = codes "a"; issue = codes "b"; recommendation = [] } ∷ [];
  recorded_at = 10;
}

abbrev changes : List Change
changes = record change { number = pos 8; draft = true } ∷ change ∷ []

checks_passed : required_checks change ≡ all_passed
unfolding required_checks judge_all judge_required tally tally_check lookup insert succeeded
    finished equal_fold trim_space to_lower text_eq
checks_passed = refl

required_checks-RunsPass_example :
    All
      (λ name. (trim_space name ≢ []) × RunsPass (trim_space name) change.checks)
      (codes " test" ∷ [])
required_checks-RunsPass_example = (required_checks-RunsPass change).0 checks_passed

merge_is_owed : (owed change (some judgement) 50).disposition ≡ merge_owed
unfolding owed owed_judged open_severities collect_open severity_eq required_checks judge_all
    judge_required tally tally_check lookup insert succeeded finished equal_fold trim_space to_lower
    text_eq
merge_is_owed = refl

owed-merge_owed_iff_example : Landable change judgement
owed-merge_owed_iff_example = (owed-merge_owed_iff change judgement 50).0 merge_is_owed

owed_across-Ordered_example :
    Perm
      (owed_across changes ((pos 7, judgement) ∷ []) 50)
      (owed_each changes ((pos 7, judgement) ∷ []) 50)
    × Ordered (owed_across changes ((pos 7, judgement) ∷ []) 50)
owed_across-Ordered_example = owed_across-Ordered changes ((pos 7, judgement) ∷ []) 50
