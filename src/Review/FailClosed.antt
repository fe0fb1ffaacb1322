-- ===== src/Review/FailClosed.antt =====
-- What a report that internal/review/parse.go returns has been through.
use machinist.Base.{
  ℕ, ◌+◌, Text, text_eq, text_eq_sym, ◌≡◌, ◌≢◌, refl, Bool, true, false, not, List, [], ◌∷◌, arith,
  Bool-cases, inl, inr, contains, length, filter, All, ap, suc, Option-cases, ◌⊎◌, codes,
  trim_prefix, is_empty, trim_space, some, none, split,
}
use machinist.Base.Result.{ok, >>=-eq-ok}
use machinist.Review.Types.{verdict_valid, severity_valid, Finding, Report}
use machinist.Review.Parse.{
  key_verdict, key_findings, parse_key, parse_header, parse_prose, with_verdict, Scan, scan_start,
  parse_line, parse_lines, finish, parse,
}
use machinist.Review.Block.{findings_block, parse_lines-findings_block}
use machinist.Review.Lines.{is_none, parse_finding, parse_findings, header}

-- A finding has a listed severity, a path and an issue.
pub record IsFinding (f : Finding) : Type 0 where
  pub graded : severity_valid f.severity ≡ true
  pub located : f.path ≢ []
  pub described : f.issue ≢ []

parse_finding-IsFinding : (line : Text) (f : Finding) → parse_finding line ≡ ok f → IsFinding f
unfolding parse_finding
parse_finding-IsFinding line f h = ground arith

-- The lines that name a finding: all but an empty one and `none`.
abbrev pub names_finding : Text → Bool
names_finding line = not (is_none (trim_prefix (codes "-") line))

parse_findings-All :
    (lines : List Text) (fs : List Finding)
    → parse_findings lines ≡ ok fs
    → All IsFinding fs × (length fs ≡ length (filter names_finding lines))
unfolding parse_findings
parse_findings-All [] fs h = let e : [] ≡ fs = ground arith in rw (← e) (tt, refl)
parse_findings-All (line ∷ lines) fs h =
    elim (Bool-cases (is_none (trim_prefix (codes "-") line))) [
      | inl e ↦ rw e (parse_findings-All lines fs (rw e at h))
      | inr e ↦
          let (f, ef, h') = >>=-eq-ok (parse_finding line) _ (rw e at h) in
          let (gs, eg, h'') = >>=-eq-ok (parse_findings lines) _ h' in
          let split : f ∷ gs ≡ fs = ground (arith, h'') in
          let (good, count) = parse_findings-All lines gs eg in
          rw (e, ← split) ((parse_finding-IsFinding line f ef, good), ap suc count)
    ]

-- A VERDICT line that has been read left a verdict of the contract.
abbrev VerdictRead : Scan → Type 0
VerdictRead s = contains key_verdict s.seen ≡ true → verdict_valid s.report.verdict ≡ true

module _ (n : ℕ) (key value : Text) (s t : Scan) (h : parse_key n key value s ≡ ok t) where
  parse_key-seen : t.seen ≡ s.seen
  unfolding parse_key with_verdict
  parse_key-seen = ground arith

  parse_key_verdict : text_eq key key_verdict ≡ true → verdict_valid t.report.verdict ≡ true
  unfolding parse_key with_verdict
  parse_key_verdict e = ground arith

  parse_key_other : text_eq key key_verdict ≡ false → t.report.verdict ≡ s.report.verdict
  unfolding parse_key with_verdict
  parse_key_other e = ground arith

parse_header-VerdictRead :
    (n : ℕ) (key value : Text) (s t : Scan)
    → parse_header n key value s ≡ ok t
    → VerdictRead s
    → VerdictRead t
unfolding parse_header
parse_header-VerdictRead n key value s t h v c =
    let s' : Scan = record s { seen = key ∷ s.seen; in_findings = text_eq key key_findings } in
    let k : parse_key n key value s' ≡ ok t = ground arith in
    elim (Bool-cases (text_eq key key_verdict)) [
      | inl e ↦ parse_key_verdict n key value s' t k e
      | inr e ↦
          rw (parse_key_other n key value s' t k e)
            (v (ground (arith, parse_key-seen n key value s' t k, text_eq_sym key key_verdict)))
    ]

parse_prose-VerdictRead :
    (line : Text) (s : Scan) → VerdictRead s → VerdictRead (parse_prose line s)
unfolding parse_prose
parse_prose-VerdictRead line s v c = ground (arith, v)

parse_line-VerdictRead :
    (n : ℕ) (raw : Text) (s t : Scan) → parse_line n raw s ≡ ok t → VerdictRead s → VerdictRead t
unfolding parse_line
parse_line-VerdictRead n raw s t h v =
    go (Bool-cases (is_empty (trim_space raw))) (Option-cases (header (trim_space raw)))
  where
    go :
        (is_empty (trim_space raw) ≡ true) ⊎ (is_empty (trim_space raw) ≡ false)
        → (header (trim_space raw) ≡ none)
          ⊎ ((p : Text × Text) × (header (trim_space raw) ≡ some p))
        → VerdictRead t
    go (inl e) o = let same : s ≡ t = ground arith in rw (← same) v
    go (inr e) (inl o) =
        let same : parse_prose (trim_space raw) s ≡ t = ground arith in
        rw (← same) (parse_prose-VerdictRead (trim_space raw) s v)
    go (inr e) (inr (p, o)) = parse_header-VerdictRead n p.0 (trim_space p.1) s t (ground arith) v

parse_lines-VerdictRead :
    (n : ℕ) (lines : List Text) (s t : Scan)
    → parse_lines n lines s ≡ ok t
    → VerdictRead s
    → VerdictRead t
unfolding parse_lines
parse_lines-VerdictRead n [] s t h v = let same : s ≡ t = ground arith in rw (← same) v
parse_lines-VerdictRead n (raw ∷ rest) s t h v =
    let (u, eu, h') = >>=-eq-ok (parse_line n raw s) _ h in
    parse_lines-VerdictRead (n + 1) rest u t h' (parse_line-VerdictRead n raw s u eu v)

-- A parsed report has a verdict of the contract and well-formed findings, which are read from the
-- lines of the findings block: one for each of them that does not read as none.
pub parse-fail_closed :
    (output : Text) (r : Report)
    → parse output ≡ ok r
    → (verdict_valid r.verdict ≡ true)
      × All IsFinding r.findings
      × (parse_findings (findings_block (split b'\n' output)) ≡ ok r.findings)
      × (length r.findings ≡ length (filter names_finding (findings_block (split b'\n' output))))
unfolding parse finish
parse-fail_closed output r h =
    let lines = split b'\n' output in
    let (s, es, h') = >>=-eq-ok (parse_lines 1 lines scan_start) _ h in
    let v = parse_lines-VerdictRead 1 lines scan_start s es (λ c. cc) in
    let named : contains key_verdict s.seen ≡ true = ground arith in
    let (fs, ef, e) = >>=-eq-ok (parse_findings s.finding_lines) _ (rw named at h') in
    let built : record (s.report) { findings = fs } ≡ r = ground (arith, e) in
    let (good, count) = parse_findings-All s.finding_lines fs ef in
    let block = parse_lines-findings_block lines s es in
    rw (← built, ← block) (v named, good, ef, count)
