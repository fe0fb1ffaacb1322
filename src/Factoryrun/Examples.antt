-- ===== src/Factoryrun/Examples.antt =====
-- A marker with two issues and two checks: fixtures, tests, and the theorems about
-- internal/factoryrun applied to them.
use machinist.Review.Types.{verdict_of}
use machinist.Base.{
  ℕ, ◌≡◌, refl, Text, codes, text_eq, true, false, Option, none, some, [], ◌∷◌, if◌then◌else◌, any,
  ◌==◌, trim_left, trim_right, is_space, trim_space, sort_stable, insert_stable, text_lt, cut,
  split,
}
use machinist.Base.Result.{ok}
use machinist.Factoryrun.Evidence.{
  Check, Evidence, equal_checks, validate, stage_valid, check_problem, state_valid, same_evidence,
}
use machinist.Factoryrun.Marker.{
  sort_checks, render, parse, publish, write_marker, print_lines, marker_lines, join_issues,
  check_line, read_lines, read_line, assign, parse_check, split_csv,
}
use machinist.Factoryrun.Lines.{Plain}
use machinist.Factoryrun.RoundTrip.{PlainEvidence, Prints, parse-render}
use machinist.Factoryrun.Republish.{publish_again}

-- A clock that knows one instant.
abbrev print_time : ℕ → Text
print_time t = codes "0001-01-01T00:00:01Z"

abbrev parse_time : Text → Option ℕ
parse_time t = if text_eq t (codes "0001-01-01T00:00:01Z") then some 1000000000 else none

abbrev build_check : Check
build_check = record {
  name = codes "build";
  state = codes "success";
  details_url = codes "https://ci/1";
}

abbrev test_check : Check
test_check = record { name = codes "test"; state = codes "pending"; details_url = [] }

abbrev evidence : Evidence
evidence = record {
  job_id = codes "j1";
  run_id = codes "r1";
  attempt_id = [];
  branch = codes "fix-12";
  pr = codes "34";
  repo = codes "owner/repo";
  stage = codes "running";
  verdict = [];
  checks = test_check ∷ build_check ∷ [];
  issues = codes "12" ∷ codes "15" ∷ [];
  updated_at = 1500000000;
}

abbrev marker : Text
marker =
    codes
      "<!-- machinist:FACTORY:RUN -->\nrepo: owner/repo\njob: j1\nrun: r1\nbranch: fix-12\npr: 34\nstage: running\nissues: 12,15\ncheck: build:success:https://ci/1\ncheck: test:pending\nupdated_at: 0001-01-01T00:00:01Z\n"

rendered : render print_time parse_time evidence ≡ ok marker
unfolding render validate trim_space stage_valid text_eq check_problem state_valid print_lines
    marker_lines join_issues sort_checks sort_stable insert_stable text_lt check_line
rendered = refl

plain : (t : Text) → trim_left t ≡ t → trim_right t ≡ t → any (λ c. c == 10) t ≡ false → Plain t
plain t l r o = record { left = l; right = r; one_line = o }

plain_evidence : PlainEvidence evidence
unfolding trim_left trim_right is_space
plain_evidence = record {
  repo = plain _ refl refl refl;
  job_id = plain _ refl refl refl;
  run_id = plain _ refl refl refl;
  attempt_id = plain _ refl refl refl;
  branch = plain _ refl refl refl;
  pr = plain _ refl refl refl;
  stage = plain _ refl refl refl;
  verdict = plain _ refl refl refl;
  issues = (
    record { plain = plain _ refl refl refl; some_text = refl; no_comma = refl },
    (record { plain = plain _ refl refl refl; some_text = refl; no_comma = refl }, tt),
  );
  checks = (
    record { name = plain _ refl refl refl; no_colon = refl; url = plain _ refl refl refl },
    (record { name = plain _ refl refl refl; no_colon = refl; url = plain _ refl refl refl }, tt),
  );
}

-- Half a second is lost.
printed : Prints print_time parse_time 1500000000 1000000000
unfolding trim_left trim_right is_space text_eq
printed = record { plain = plain _ refl refl refl; some_text = refl; back = refl }

parse-render_example :
    parse print_time parse_time marker
    ≡ ok (record evidence {
      checks = sort_checks (test_check ∷ build_check ∷ []);
      updated_at = 1000000000;
    })
parse-render_example =
    parse-render print_time parse_time evidence 1000000000 marker plain_evidence printed rendered

published : publish print_time parse_time 5 (some []) true evidence ≡ (ok marker, some marker)
unfolding publish write_marker render validate trim_space stage_valid text_eq check_problem
    state_valid print_lines marker_lines join_issues sort_checks sort_stable insert_stable text_lt
    check_line
published = refl

publish_again_example : publish print_time parse_time 9 (some marker) true evidence ≡ (
    if equal_checks (sort_checks (test_check ∷ build_check ∷ [])) (test_check ∷ build_check ∷ [])
    then (ok marker, none)
    else write_marker print_time parse_time 9 true evidence)
publish_again_example =
    publish_again print_time parse_time evidence marker 5 1000000000 9 (some []) true plain_evidence
      printed published

-- The checks of this evidence are not sorted, and the marker is written again.
written_again :
    publish print_time parse_time 9 (some marker) true evidence ≡ (ok marker, some marker)
unfolding publish write_marker render validate trim_space stage_valid text_eq check_problem
    state_valid print_lines marker_lines join_issues sort_checks sort_stable insert_stable text_lt
    check_line parse cut read_lines split read_line assign parse_check same_evidence split_csv
    equal_checks verdict_of
written_again = refl
