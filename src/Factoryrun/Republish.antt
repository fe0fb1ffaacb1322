-- ===== src/Factoryrun/Republish.antt =====
-- What Publish does where the marker is there already (internal/factoryrun/updater.go).
use machinist.Base.{
  ℕ, ◌==◌, ◌≡◌, refl, ap, ◌∙◌, Text, text_eq_refl, Bool, true, false, Option, none, some, List, [],
  ◌∷◌, arith, if◌then◌else◌, is_empty, Bool-cases, Option-cases, inl, inr,
}
use machinist.Base.Result.{ok}
use machinist.Factoryrun.Evidence.{
  Check, Evidence, validate, same_evidence, equal_checks, equal_texts,
}
use machinist.Factoryrun.Marker.{
  sort_checks, render, parse, publish, write_marker, stamped, unchanged,
}
use machinist.Factoryrun.RoundTrip.{PlainEvidence, Prints, read_time, parse-render}

equal_texts_refl : (ts : List Text) → equal_texts ts ts ≡ true
equal_texts_refl [] = refl
equal_texts_refl (t ∷ ts) = ground (arith, text_eq_refl t, equal_texts_refl ts)

-- Evidence that differs in its checks and its time only is the same if the checks are.
same_evidence-checks :
    (e : Evidence) (checks : List Check) (t : ℕ)
    → same_evidence (record e { checks = checks; updated_at = t }) e ≡ equal_checks checks e.checks
unfolding same_evidence
same_evidence-checks e checks t = rw (
  text_eq_refl e.job_id,
  text_eq_refl e.run_id,
  text_eq_refl e.attempt_id,
  text_eq_refl e.branch,
  text_eq_refl e.pr,
  text_eq_refl e.repo,
  text_eq_refl e.stage,
  text_eq_refl e.verdict,
  equal_texts_refl e.issues,
)

module _ (print_time : ℕ → Text) (parse_time : Text → Option ℕ) (e : Evidence) (body : Text) where
  written :
      (now : ℕ) (current : Option Text)
      → publish print_time parse_time now current true e ≡ (ok body, some body)
      → (validate e ≡ none) × (render print_time parse_time (stamped now e) ≡ ok body)
  unfolding publish write_marker
  written now current done = elim (Option-cases (validate e)) [
    | inr (problem, bad) ↦ absurd (ground (arith, bad, done))
    | inl valid ↦ elim (Option-cases current) [
      | inl lost ↦ absurd (ground (arith, valid, lost, done))
      | inr (body', kept) ↦ elim (Bool-cases (unchanged print_time parse_time body' e)) [
        | inl same ↦ absurd (ground (arith, valid, kept, same, done))
        | inr other ↦ (valid, ground (arith, valid, kept, other, done))
      ]
    ]
  ]

  unchanged-parse :
      (now second : ℕ)
      → is_empty body ≡ false
      → parse print_time parse_time body
        ≡ ok (record (stamped now e) { checks = sort_checks e.checks; updated_at = second })
      → unchanged print_time parse_time body e ≡ equal_checks (sort_checks e.checks) e.checks
  unchanged-parse now second filled read = elim (Bool-cases (e.updated_at == 0)) [
    | inl unset ↦ rw (filled, read, unset) (same_evidence-checks e (sort_checks e.checks) second)
    | inr set ↦ rw (filled, read, set) (same_evidence-checks e (sort_checks e.checks) second)
  ]

  filled-render :
      (e' : Evidence) → render print_time parse_time e' ≡ ok body → is_empty body ≡ false
  unfolding render
  filled-render e' made = ground (arith, made)

stamped-PlainEvidence : (now : ℕ) (e : Evidence) → PlainEvidence e → PlainEvidence (stamped now e)
stamped-PlainEvidence now e h = elim (Bool-cases (e.updated_at == 0)) [
  | inl unset ↦ rw unset (record {
    repo = h.repo;
    job_id = h.job_id;
    run_id = h.run_id;
    attempt_id = h.attempt_id;
    branch = h.branch;
    pr = h.pr;
    stage = h.stage;
    verdict = h.verdict;
    issues = h.issues;
    checks = h.checks;
  })
  | inr set ↦ rw set h
]

sort_checks-stamped :
    (now : ℕ) (e : Evidence) → sort_checks (stamped now e).checks ≡ sort_checks e.checks
sort_checks-stamped now e = ground arith

-- Where Publish has written a marker of plain evidence, and the time that it stamped is printed on
-- one line and read, to the second or not, a second Publish of the same evidence returns the marker
-- and writes nothing if sorting the checks leaves them as they stand; if it does not, the second
-- Publish writes the marker again.
pub publish_again :
    (print_time : ℕ → Text) (parse_time : Text → Option ℕ) (e : Evidence) (body : Text)
    (now second later : ℕ) (current : Option Text) (writes : Bool)
    → PlainEvidence e
    → Prints print_time parse_time (stamped now e).updated_at second
    → publish print_time parse_time now current true e ≡ (ok body, some body)
    → publish print_time parse_time later (some body) writes e ≡ (
        if equal_checks (sort_checks e.checks) e.checks
        then (ok body, none)
        else write_marker print_time parse_time later writes e)
unfolding publish
publish_again print_time parse_time e body now second later current writes h prints done =
    let (valid, made) = written print_time parse_time e body now current done in
    let stored = stamped now e in
    let read =
      parse-render print_time parse_time stored second body (stamped-PlainEvidence now e h) prints
        made in
    let sorted =
      ap (λ cs. ok (record stored { checks = cs; updated_at = read_time second stored }))
        (sort_checks-stamped now e) in
    let same =
      unchanged-parse print_time parse_time e body now (read_time second stored)
        (filled-render print_time parse_time e body stored made) (read ∙ sorted) in
    ground (arith, valid, same)
