-- ===== src/Factoryrun/Marker.antt =====
-- internal/factoryrun/marker.go and updater.go. The package time prints and reads RFC 3339; the two
-- calls are parameters.
use machinist.Base.{
  ℕ, ◌==◌, Text, codes, text_eq, text_lt, sort_stable, Bool, false, ◌&&◌, not, Option, none, some,
  List, [], ◌∷◌, ◌++◌, if◌then◌else◌, is_empty, trim_space, contains_text, cut, split,
}
use machinist.Base.Result.{Result, ok, err, ◌>>=◌}
use machinist.Factoryrun.Evidence.{
  Check, Evidence, EvidenceError, validate, state_valid, same_evidence,
}

abbrev pub marker_anchor : Text
marker_anchor = codes "<!-- machinist:FACTORY:RUN -->"

unfoldable pub is_marker : Text → Bool
is_marker body = contains_text marker_anchor body

-- The order of sort.Slice in Render; checks of one name and state are ties.
abbrev pub check_less : Check → Check → Bool
check_less c d =
    if not (text_eq c.name d.name) then text_lt c.name d.name else text_lt c.state d.state

-- The checks sorted, ties in the order in which they stood.
unfoldable pub sort_checks : List Check → List Check
sort_checks checks = sort_stable check_less checks

-- strings.Join with a comma
unfoldable pub join_issues : List Text → Text
join_issues [] = []
join_issues (i ∷ []) = i
join_issues (i ∷ j ∷ is) = i ++ b',' ∷ join_issues (j ∷ is)

unfoldable pub check_line : Check → Text
check_line c =
    c.name ++ b':' ∷ (c.state ++ (if is_empty c.details_url then [] else b':' ∷ c.details_url))

-- A line of the marker is its key and its value; one that Render leaves out is not there.
abbrev pub optional : Text → Text → List (Text × Text) → List (Text × Text)
optional key value rest = if is_empty value then rest else (key, value) ∷ rest

abbrev pub issue_line : List Text → List (Text × Text) → List (Text × Text)
issue_line issues rest =
    if is_empty issues then rest else (codes "issues", join_issues issues) ∷ rest

abbrev pub check_lines : List Check → List (Text × Text) → List (Text × Text)
check_lines [] rest = rest
check_lines (c ∷ cs) rest = (codes "check", check_line c) ∷ check_lines cs rest

-- Fprintf of the lines, one behind the other
unfoldable pub print_lines : List (Text × Text) → Text
print_lines [] = []
print_lines ((key, value) ∷ rest) = key ++ b':' ∷ b' ' ∷ (value ++ 10 ∷ print_lines rest)

abbrev pub empty_evidence : Evidence
empty_evidence = record {
  job_id = [];
  run_id = [];
  attempt_id = [];
  branch = [];
  pr = [];
  repo = [];
  stage = [];
  verdict = [];
  checks = [];
  issues = [];
  updated_at = 0;
}

pub data ParseError : Type 0 where
  no_marker : ParseError
  no_state no_name bad_time : Text → ParseError
  bad_state : Text → Text → ParseError
  invalid : EvidenceError → ParseError

-- splitCSV: the pieces trimmed, those left empty dropped
unfoldable pub keep_pieces : List Text → List Text
keep_pieces [] = []
keep_pieces (p ∷ ps) =
    let rest = keep_pieces ps in if is_empty (trim_space p) then rest else trim_space p ∷ rest

unfoldable pub split_csv : Text → List Text
unfolding keep_pieces
split_csv value = if is_empty value then [] else keep_pieces (split b',' value)

-- The check that the parts make.
abbrev pub checked : Text → Text → Text → Text → Result ParseError Check
checked value name state url =
    if is_empty name
    then err (no_name value)
    else if not (state_valid state)
    then err (bad_state name state)
    else ok (record { name = name; state = state; details_url = url })

-- parseCheck; strings.SplitN into three parts is two cuts.
unfoldable pub parse_check : Text → Result ParseError Check
parse_check value = elim (cut (codes ":") value) [
  | none ↦ err (no_state value)
  | some (name, rest) ↦ elim (cut (codes ":") rest) [
    | none ↦ checked value (trim_space name) (trim_space rest) []
    | some (state, url) ↦ checked value (trim_space name) (trim_space state) (trim_space url)
  ]
]

pub data PublishError : Type 0 where
  refused : EvidenceError → PublishError
  unread unwritten : PublishError

abbrev pub stamped : ℕ → Evidence → Evidence
stamped now e = if e.updated_at == 0 then record e { updated_at = now } else e

module _ (print_time : ℕ → Text) (parse_time : Text → Option ℕ) where
  unfoldable pub marker_lines : Evidence → List (Text × Text)
  marker_lines e =
      (codes "repo", e.repo)
      ∷ (codes "job", e.job_id)
      ∷ (codes "run", e.run_id)
      ∷ optional (codes "attempt") e.attempt_id (
          optional (codes "branch") e.branch (
            optional (codes "pr") e.pr (
              optional (codes "stage") e.stage (
                optional (codes "verdict") e.verdict (
                  issue_line e.issues (
                    check_lines (sort_checks e.checks) (
                      if e.updated_at == 0
                      then []
                      else (codes "updated_at", print_time e.updated_at) ∷ [])))))))

  unfoldable pub render : Evidence → Result EvidenceError Text
  render e = elim (validate e) [
    | some problem ↦ err problem
    | none ↦ ok (marker_anchor ++ 10 ∷ print_lines (marker_lines e))
  ]

  -- The switch of Parse
  unfoldable pub assign : Text → Text → Evidence → Result ParseError Evidence
  assign key value e =
      if text_eq key (codes "repo")
      then ok (record e { repo = value })
      else if text_eq key (codes "job")
      then ok (record e { job_id = value })
      else if text_eq key (codes "run")
      then ok (record e { run_id = value })
      else if text_eq key (codes "attempt")
      then ok (record e { attempt_id = value })
      else if text_eq key (codes "branch")
      then ok (record e { branch = value })
      else if text_eq key (codes "pr")
      then ok (record e { pr = value })
      else if text_eq key (codes "stage")
      then ok (record e { stage = value })
      else if text_eq key (codes "verdict")
      then ok (record e { verdict = value })
      else if text_eq key (codes "issues")
      then ok (record e { issues = split_csv value })
      else if text_eq key (codes "check")
      then (parse_check value >>= λ c. ok (record e { checks = e.checks ++ c ∷ [] }))
      else if text_eq key (codes "updated_at")
      then elim (parse_time value) [
        | none ↦ err (bad_time value)
        | some t ↦ ok (record e { updated_at = t })
      ]
      else ok e

  -- The body of the loop over the lines
  unfoldable pub read_line : Text → Evidence → Result ParseError Evidence
  read_line line e =
      if is_empty (trim_space line) then ok e else elim (cut (codes ":") (trim_space line)) [
        | none ↦ ok e
        | some (key, value) ↦ assign (trim_space key) (trim_space value) e
      ]

  unfoldable pub read_lines : List Text → Evidence → Result ParseError Evidence
  read_lines [] e = ok e
  read_lines (line ∷ rest) e = read_line line e >>= λ e'. read_lines rest e'

  unfoldable pub parse : Text → Result ParseError Evidence
  parse body = elim (cut marker_anchor body) [
    | none ↦ err no_marker
    | some (before, rest) ↦ do
      e ← read_lines (split 10 rest) empty_evidence
      elim (validate e) [ none ↦ ok e | some problem ↦ err (invalid problem) ]
  ]

  -- What Publish hands to SetComment, once it has decided to write.
  unfoldable pub write_marker : ℕ → Bool → Evidence → Result PublishError Text × Option Text
  write_marker now writes e = elim (render (stamped now e)) [
    | err problem ↦ (err (refused problem), none)
    | ok body ↦ (if writes then ok body else err unwritten, some body)
  ]

  abbrev pub unchanged : Text → Evidence → Bool
  unchanged current e =
      not (is_empty current)
      && (elim (parse current) [ err problem ↦ false | ok stored ↦ same_evidence stored e ])

  -- Publish: the body that it returns, and the one that it writes. `current` is what GetComment
  -- answers, `none` for an error, and `writes` whether SetComment works.
  unfoldable pub publish :
      ℕ → Option Text → Bool → Evidence → Result PublishError Text × Option Text
  publish now current writes e = elim (validate e) [
    | some problem ↦ (err (refused problem), none)
    | none ↦ elim current [
      | none ↦ (err unread, none)
      | some body ↦ if unchanged body e then (ok body, none) else write_marker now writes e
    ]
  ]
