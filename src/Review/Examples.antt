-- ===== src/Review/Examples.antt =====
-- Concrete reviews: the fixtures, and the theorems of internal/review applied to them.
use machinist.Base.{
  has_prefix, Text, codes, text_eq, ◌≡◌, ◌≢◌, refl, true, false, none, some, [], ◌∷◌, split, All,
  length, filter, trim_space, trim_prefix, to_lower, cut,
}
use machinist.Base.Glob.{path_match}
use machinist.Base.Result.{ok}
use machinist.Review.Types.{
  ready, verdict_valid, verdict_of, info, severity_of, Finding, Report, normalize, stricter,
  strictest, strictest_from,
}
use machinist.Review.Independence.{
  is_reviewer, Party, Independent, check_independence, check_independence-Independent,
}
use machinist.Review.Policy.{match_path, match_segments, segment_matches}
use machinist.Review.Parse.{
  parse, parse_lines, parse_line, parse_prose, parse_header, parse_key, with_verdict, finish,
}
use machinist.Review.Lines.{
  header, parse_findings, parse_finding, finding_match, split_recommendation, is_none, parse_list,
  parse_bool,
}
use machinist.Review.Engine.{Submission, Engine}
use machinist.Review.Order.{strictest-ready_iff}
use machinist.Review.Patterns.{Describes, match_path-Describes}
use machinist.Review.Block.{findings_block, bullets}
use machinist.Review.FailClosed.{IsFinding, names_finding, parse-fail_closed}

abbrev author : Party
author = record { role = codes "engineer"; agent = codes "forge"; run_id = codes "run-1" }

abbrev reviewer : Party
reviewer = record { role = codes "Reviewer "; agent = codes "anvil"; run_id = codes "run-2" }

-- A review that finds one thing to tell and approves.
abbrev pub approval : Text
approval =
    codes
      "VERDICT: ready-for-human-review\nFINDINGS:\n- [info] a.go: odd name - rename\nHIGH_RISK: no"

abbrev told : Finding
told = record {
  severity = info;
  path = codes "a.go";
  issue = codes "odd name";
  recommendation = codes "rename";
}

abbrev approval_report : Report
approval_report = record {
  verdict = ready;
  findings = told ∷ [];
  protected_paths = [];
  high_risk = false;
  note = [];
}

abbrev pub stock : Engine
stock = record { protected_paths = []; blocking_severities = [] }

abbrev submission : Submission
submission = record {
  author = author;
  reviewer = reviewer;
  changed_paths = codes "a.go" ∷ [];
  output = approval;
}

parse-approval : parse approval ≡ ok approval_report
unfolding parse parse_lines parse_line header parse_prose parse_header parse_key with_verdict
    parse_findings parse_finding finding_match split_recommendation is_none parse_list parse_bool
    finish normalize trim_space to_lower text_eq verdict_of severity_of split cut trim_prefix
parse-approval = refl

parse-fail_closed_example :
    (verdict_valid ready ≡ true)
    × All IsFinding (told ∷ [])
    × (parse_findings (findings_block (split b'\n' approval)) ≡ ok (told ∷ []))
    × (1 ≡ length (filter names_finding (findings_block (split b'\n' approval))))
parse-fail_closed_example = parse-fail_closed approval approval_report parse-approval

check_independent : check_independence author reviewer ≡ none
unfolding check_independence is_reviewer normalize trim_space to_lower text_eq
check_independent = refl

check_independence-Independent_example : Independent author reviewer
check_independence-Independent_example =
    (check_independence-Independent author reviewer).0 check_independent

match_workflow : match_path (codes ".github/**/*.yml") (codes ".github/a/b.yml") ≡ true
unfolding match_path match_segments segment_matches path_match split text_eq
match_workflow = refl

match_path-Describes_example :
    Describes (split b'/' (codes ".github/**/*.yml")) (split b'/' (codes ".github/a/b.yml"))
match_path-Describes_example =
    (match_path-Describes (codes ".github/**/*.yml") (codes ".github/a/b.yml")).0 match_workflow

-- Two `**` in a row ask for a segment, where one that stands last asks for none.
match_two_stars : match_path (codes "a/**/**") (codes "a") ≡ false
unfolding match_path match_segments segment_matches path_match split text_eq
match_two_stars = refl

match_one_star : match_path (codes "a/**") (codes "a") ≡ true
unfolding match_path match_segments segment_matches path_match split text_eq
match_one_star = refl

strictest_of_two : strictest (ready ∷ ready ∷ []) ≡ some ready
unfolding strictest strictest_from stricter
strictest_of_two = refl

strictest-ready_iff_example : (ready ∷ ready ∷ [] ≢ []) × All (λ v. v ≡ ready) (ready ∷ ready ∷ [])
strictest-ready_iff_example = (strictest-ready_iff (ready ∷ ready ∷ [])).0 strictest_of_two

-- A blocker that stands below the second line of a wrapped finding is not read.
abbrev wrapped : Text
wrapped =
    codes
      "VERDICT: ready-for-human-review\nFINDINGS:\n- [info] a.go: odd name - rename\nit\n- [blocker] b.go: lost write"

parse_wrapped : parse wrapped ≡ ok approval_report
unfolding parse parse_lines parse_line header parse_prose parse_header parse_key with_verdict
    parse_findings parse_finding finding_match split_recommendation is_none parse_list parse_bool
    finish normalize trim_space to_lower text_eq verdict_of severity_of split cut trim_prefix
parse_wrapped = refl

-- The line of prose ends the block.
wrapped_block : findings_block (split b'\n' wrapped) ≡ codes "- [info] a.go: odd name - rename" ∷ []
unfolding findings_block bullets header trim_space text_eq split has_prefix
wrapped_block = refl
