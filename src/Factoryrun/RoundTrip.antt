-- ===== src/Factoryrun/RoundTrip.antt =====
-- What Render writes, Parse reads back (internal/factoryrun/marker.go).

use machinist.Base.{
  ℕ, ◌==◌, ◌≡◌, refl, sym, ap, ◌∙◌, subst, Text, codes, text_eq, false, Option, none, some, List,
  [], ◌∷◌, ◌++◌, All, arith, any, if◌then◌else◌, is_empty, is_space, trim_left, trim_right,
  trim_space, split, cut, has_prefix, Bool-cases, Option-cases, inl, inr,
}
use machinist.Base.Result.{ok}
use machinist.Factoryrun.Evidence.{Check, Evidence, check_problem, validate}
use machinist.Factoryrun.Marker.{
  marker_anchor, marker_lines, empty_evidence, print_lines, assign, read_line, read_lines, optional,
  issue_line, check_lines, check_line, sort_checks, join_issues, render, parse,
}
use machinist.Factoryrun.Lines.{Plain, trim_space-Plain, split-append}
use machinist.Factoryrun.Pieces.{
  PlainCheck, PlainIssue, check_line-Plain, join_issues-Plain, split_csv-join_issues,
}
use machinist.Factoryrun.Reading.{
  PlainLine, assign_all, read_lines-assign_all, assign_all-optional, assign_all-check_lines,
}
use machinist.Factoryrun.Sorted.{All-sort_checks, check_problem-sort_checks}

-- Evidence whose texts are one line each, with no white space at the ends; an issue is not empty and
-- has no comma, and the name of a check has no colon.
pub record PlainEvidence (e : Evidence) : Type 0 where
  pub repo : Plain e.repo
  pub job_id : Plain e.job_id
  pub run_id : Plain e.run_id
  pub attempt_id : Plain e.attempt_id
  pub branch : Plain e.branch
  pub pr : Plain e.pr
  pub stage : Plain e.stage
  pub verdict : Plain e.verdict
  pub issues : All PlainIssue e.issues
  pub checks : All PlainCheck e.checks

-- An instant is printed on one line, and `second` is read of that: RFC 3339 reads the instant that
-- the whole second begins with.
pub record Prints (print_time : ℕ → Text) (parse_time : Text → Option ℕ) (t second : ℕ)
    : Type 0 where
  pub plain : Plain (print_time t)
  pub some_text : is_empty (print_time t) ≡ false
  pub back : parse_time (print_time t) ≡ some second

-- A key of the marker.
record PlainKey (k : Text) : Type 0 where
  plain : Plain k
  named : is_empty k ≡ false
  no_colon : any (λ b. b == b':') k ≡ false

key :
    (k : Text)
    → trim_left k ≡ k
    → trim_right k ≡ k
    → any (λ c. c == 10) k ≡ false
    → is_empty k ≡ false
    → any (λ b. b == b':') k ≡ false
    → PlainKey k
key k l r o e c = record {
  plain = record { left = l; right = r; one_line = o };
  named = e;
  no_colon = c;
}

line : (k v : Text) → PlainKey k → Plain v → is_empty v ≡ false → PlainLine (k, v)
line k v h p e = record {
  key = h.plain;
  named = h.named;
  no_colon = h.no_colon;
  value = p;
  some_value = e;
}

optional-PlainLine :
    (k v : Text) (rest : List (Text × Text))
    → PlainKey k
    → Plain v
    → All PlainLine rest
    → All PlainLine (optional k v rest)
optional-PlainLine k v rest h p hs = elim (Bool-cases (is_empty v)) [
  | inl nothing ↦ rw nothing hs
  | inr filled ↦ rw filled (line k v h p filled, hs)
]

filled-Plain : (t : Text) → Plain t → is_empty (trim_space t) ≡ false → is_empty t ≡ false
filled-Plain t h e = subst (λ s. is_empty s ≡ false) (trim_space-Plain t h) e

check_lines-PlainLine :
    (cs : List Check) (rest : List (Text × Text))
    → PlainKey (codes "check")
    → All PlainCheck cs
    → check_problem cs ≡ none
    → All PlainLine rest
    → All PlainLine (check_lines cs rest)
unfolding check_problem
check_lines-PlainLine [] rest k h v hs = hs
check_lines-PlainLine (c ∷ cs) rest k h v hs =
    let named = filled-Plain c.name h.0.name (ground (arith, v)) in
    let (plain, filled) = check_line-Plain c h.0 named (ground (arith, v)) in
    (
      line (codes "check") (check_line c) k plain filled,
      check_lines-PlainLine cs rest k h.1 (ground (arith, v)) hs,
    )

issue_line-PlainLine :
    (is : List Text) (rest : List (Text × Text))
    → PlainKey (codes "issues")
    → All PlainIssue is
    → All PlainLine rest
    → All PlainLine (issue_line is rest)
issue_line-PlainLine [] rest k h hs = hs
issue_line-PlainLine (i ∷ is) rest k h hs =
    let (plain, filled) = join_issues-Plain i is h.0 h.1 in
    (line (codes "issues") (join_issues (i ∷ is)) k plain filled, hs)

cut-marker_anchor : (t : Text) → cut marker_anchor (marker_anchor ++ t) ≡ some ([], t)
unfolding cut has_prefix
cut-marker_anchor t = refl

-- The time that is read back: a marker without one carries none.
abbrev pub read_time : ℕ → Evidence → ℕ
read_time second e = if e.updated_at == 0 then 0 else second

abbrev pub read_back : ℕ → Evidence → Evidence
read_back second e = record e { checks = sort_checks e.checks; updated_at = read_time second e }

module _ (print_time : ℕ → Text) (parse_time : Text → Option ℕ) (e : Evidence) (h : PlainEvidence e)
    (second : ℕ) (prints : Prints print_time parse_time e.updated_at second)
    (valid : validate e ≡ none) where
  time_line-PlainLine :
      All PlainLine
        (if e.updated_at == 0 then [] else (codes "updated_at", print_time e.updated_at) ∷ [])
  unfolding trim_left trim_right is_space
  time_line-PlainLine = elim (Bool-cases (e.updated_at == 0)) [
    | inl zero_time ↦ rw zero_time tt
    | inr set ↦ rw set (
      line (codes "updated_at") (print_time e.updated_at)
          (key (codes "updated_at") refl refl refl refl refl) prints.plain prints.some_text,
      tt,
    )
  ]

  checks_valid : check_problem (sort_checks e.checks) ≡ none
  unfolding validate
  checks_valid = check_problem-sort_checks e.checks (ground (arith, valid))

  marker_lines-PlainLine : All PlainLine (marker_lines print_time parse_time e)
  unfolding marker_lines trim_left trim_right is_space validate
  marker_lines-PlainLine = (
    line (codes "repo") e.repo (key (codes "repo") refl refl refl refl refl) h.repo
        (filled-Plain e.repo h.repo (ground (arith, valid))),
    (
      line (codes "job") e.job_id (key (codes "job") refl refl refl refl refl) h.job_id
          (filled-Plain e.job_id h.job_id (ground (arith, valid))),
      (
        line (codes "run") e.run_id (key (codes "run") refl refl refl refl refl) h.run_id
            (filled-Plain e.run_id h.run_id (ground (arith, valid))),
        optional-PlainLine (codes "attempt") e.attempt_id _
            (key (codes "attempt") refl refl refl refl refl) h.attempt_id
            (optional-PlainLine (codes "branch") e.branch _
              (key (codes "branch") refl refl refl refl refl) h.branch
              (optional-PlainLine (codes "pr") e.pr _ (key (codes "pr") refl refl refl refl refl)
                h.pr
                (optional-PlainLine (codes "stage") e.stage _
                  (key (codes "stage") refl refl refl refl refl) h.stage
                  (optional-PlainLine (codes "verdict") e.verdict _
                    (key (codes "verdict") refl refl refl refl refl) h.verdict
                    (issue_line-PlainLine e.issues _ (key (codes "issues") refl refl refl refl refl)
                      h.issues
                      (check_lines-PlainLine (sort_checks e.checks) _
                        (key (codes "check") refl refl refl refl refl)
                        (All-sort_checks PlainCheck e.checks h.checks) checks_valid
                        time_line-PlainLine)))))),
      ),
    ),
  )

  assign_all-issue_line :
      (is : List Text) (rest : List (Text × Text)) (a : Evidence)
      → All PlainIssue is
      → a ≡ record a { issues = [] }
      → assign_all print_time parse_time (issue_line is rest) a
        ≡ assign_all print_time parse_time rest (record a { issues = is })
  unfolding assign_all assign text_eq
  assign_all-issue_line [] rest a k same = ap (assign_all print_time parse_time rest) same
  assign_all-issue_line (i ∷ is) rest a k same =
      ap (λ is. assign_all print_time parse_time rest (record a { issues = is }))
        (split_csv-join_issues i is k.0 k.1)

  time_line : List (Text × Text)
  time_line = if e.updated_at == 0 then [] else (codes "updated_at", print_time e.updated_at) ∷ []

  assign_all-time_line :
      (a : Evidence)
      → a.updated_at ≡ 0
      → assign_all print_time parse_time time_line a
        ≡ ok (record a { updated_at = read_time second e })
  unfolding time_line assign_all assign text_eq
  assign_all-time_line a zero_yet = elim (Bool-cases (e.updated_at == 0)) [
    | inl zero_time ↦ rw zero_time (ground (arith, zero_time, zero_yet))
    | inr set ↦ rw set (ground (arith, prints.back))
  ]

  assign_all-marker_lines :
      assign_all print_time parse_time (marker_lines print_time parse_time e) empty_evidence
      ≡ ok (read_back second e)
  unfolding marker_lines time_line assign_all assign text_eq
  assign_all-marker_lines =
      let a0 : Evidence = record (empty_evidence) {
        repo = e.repo;
        job_id = e.job_id;
        run_id = e.run_id;
      } in
      let a1 : Evidence = record a0 { attempt_id = e.attempt_id } in
      let a2 : Evidence = record a1 { branch = e.branch } in
      let a3 : Evidence = record a2 { pr = e.pr } in
      let a4 : Evidence = record a3 { stage = e.stage } in
      let a5 : Evidence = record a4 { verdict = e.verdict } in
      let a6 : Evidence = record a5 { issues = e.issues } in
      let a7 : Evidence = record a6 { checks = sort_checks e.checks } in
      let checks = check_lines (sort_checks e.checks) time_line in
      let issues = issue_line e.issues checks in
      let verdict = optional (codes "verdict") e.verdict issues in
      let stage = optional (codes "stage") e.stage verdict in
      let pr = optional (codes "pr") e.pr stage in
      let branch = optional (codes "branch") e.branch pr in
      let skip = assign_all-optional print_time parse_time in
      skip (codes "attempt") e.attempt_id branch a0 a1
        (λ n. ap (λ t. record a0 { attempt_id = t }) (sym n)) refl
      ∙ skip (codes "branch") e.branch pr a1 a2 (λ n. ap (λ t. record a1 { branch = t }) (sym n))
          refl
      ∙ skip (codes "pr") e.pr stage a2 a3 (λ n. ap (λ t. record a2 { pr = t }) (sym n)) refl
      ∙ skip (codes "stage") e.stage verdict a3 a4 (λ n. ap (λ t. record a3 { stage = t }) (sym n))
          refl
      ∙ skip (codes "verdict") e.verdict issues a4 a5
          (λ n. ap (λ t. record a4 { verdict = t }) (sym n)) refl
      ∙ assign_all-issue_line e.issues checks a5 h.issues refl
      ∙ assign_all-check_lines print_time parse_time (sort_checks e.checks) time_line a6
          (All-sort_checks PlainCheck e.checks h.checks) checks_valid
      ∙ assign_all-time_line a7 refl

  read_lines-marker_lines :
      read_lines print_time parse_time
        (split 10 (10 ∷ print_lines (marker_lines print_time parse_time e)))
        empty_evidence
      ≡ ok (read_back second e)
  unfolding read_lines read_line trim_space trim_left trim_right
  read_lines-marker_lines =
      let lines = marker_lines print_time parse_time e in
      ap (λ ls. read_lines print_time parse_time ls empty_evidence)
        (split-append 10 [] (print_lines lines) refl)
      ∙ read_lines-assign_all print_time parse_time lines empty_evidence marker_lines-PlainLine
      ∙ assign_all-marker_lines

  sorted_valid : validate (read_back second e) ≡ none
  unfolding validate
  sorted_valid = ground (arith, valid, checks_valid)

  parse-render_valid :
      (body : Text)
      → render print_time parse_time e ≡ ok body
      → parse print_time parse_time body ≡ ok (read_back second e)
  unfolding parse render
  parse-render_valid body made =
      let lines = marker_lines print_time parse_time e in
      let printed = print_lines lines in
      let whole : marker_anchor ++ 10 ∷ printed ≡ body = ground (arith, valid, made) in
      subst (λ b. parse print_time parse_time b ≡ ok (read_back second e)) whole
        (ground (arith, cut-marker_anchor (10 ∷ printed), read_lines-marker_lines, sorted_valid))

-- A marker that Render makes of plain evidence is read back by Parse as that evidence, its checks
-- sorted and its time, if it carries one, the `second` that is read of the time as printed, where
-- the time is printed on one line and read.
pub parse-render :
    (print_time : ℕ → Text) (parse_time : Text → Option ℕ) (e : Evidence) (second : ℕ) (body : Text)
    → PlainEvidence e
    → Prints print_time parse_time e.updated_at second
    → render print_time parse_time e ≡ ok body
    → parse print_time parse_time body ≡ ok (read_back second e)
unfolding render
parse-render print_time parse_time e second body h prints made = elim (Option-cases (validate e)) [
  | inl valid ↦ parse-render_valid print_time parse_time e h second prints valid body made
  | inr (problem, bad) ↦ absurd (ground (arith, bad, made))
]
