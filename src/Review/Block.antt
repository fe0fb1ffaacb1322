-- ===== src/Review/Block.antt =====
-- Which lines of a reviewer's output are findings (internal/review/parse.go).
use machinist.Base.{
  ℕ, ◌+◌, Text, codes, text_eq, text_eq_sym, eq_of_text_eq, not, ◌≡◌, refl, sym, ap, ◌∙◌, true,
  false, ◌&&◌, List, [], ◌∷◌, ◌++◌, none, some, arith, Bool-cases, Option-cases, inl, inr, is_empty,
  trim_space, has_prefix, if◌then◌else◌, contains,
}
use mathlib.Core.List.{append_assoc, append-nil}
use machinist.Base.Result.{ok, >>=-eq-ok}
use machinist.Review.Lines.{header}
use machinist.Review.Parse.{
  key_verdict, key_findings, Scan, scan_start, with_verdict, parse_key, parse_header, parse_prose,
  parse_line, parse_lines,
}

-- The bullets that lines begin with: blank lines between them are passed over, and a header or a line
-- of prose ends them.
unfoldable pub bullets : List Text → List Text
bullets [] = []
bullets (raw ∷ rest) =
    let line = trim_space raw in
    let others = bullets rest in
    if is_empty line then others else elim (header line) [
      | some h ↦ []
      | none ↦ if has_prefix (codes "-") line then line ∷ others else []
    ]

-- The findings block of an output: what stands on the line of the first FINDINGS header, and the
-- bullets behind it.
unfoldable pub findings_block : List Text → List Text
findings_block [] = []
findings_block (raw ∷ rest) =
    let line = trim_space raw in
    let others = findings_block rest in
    if is_empty line then others else elim (header line) [
      | none ↦ others
      | some (key, value) ↦
          if text_eq key key_findings
          then (if is_empty (trim_space value)
              then bullets rest
              else (codes "- " ++ trim_space value) ∷ bullets rest)
          else others
    ]

-- What the lines that are left add to a scan.
abbrev pending : Scan → List Text → List Text
pending s lines =
    if s.in_findings
    then bullets lines
    else if contains key_findings s.seen
    then []
    else findings_block lines

-- A scan is inside the block only behind its header.
abbrev Opened : Scan → Type 0
Opened s = s.in_findings ≡ true → contains key_findings s.seen ≡ true

findings_no_verdict :
    (key : Text) → text_eq key key_findings ≡ true → text_eq key key_verdict ≡ false
unfolding text_eq
findings_no_verdict key e = rw (eq_of_text_eq key key_findings e) refl

module _ (n : ℕ) (key value : Text) (s t : Scan) (h : parse_header n key value s ≡ ok t) where
  parse_header-new : contains key s.seen ≡ false
  unfolding parse_header
  parse_header-new = ground (arith, h)

  parse_header-seen : t.seen ≡ key ∷ s.seen
  unfolding parse_header parse_key with_verdict
  parse_header-seen = ground (arith, h)

  parse_header-in_findings : t.in_findings ≡ text_eq key key_findings
  unfolding parse_header parse_key with_verdict
  parse_header-in_findings = ground (arith, h)

  parse_header-finding_lines : t.finding_lines ≡ (
      if text_eq key key_findings && not (is_empty value)
      then s.finding_lines ++ (codes "- " ++ value) ∷ []
      else s.finding_lines)
  unfolding parse_header parse_key with_verdict
  parse_header-finding_lines = ground (arith, h, findings_no_verdict key)

-- What a line leaves behind: a scan that is inside the block only behind its header, and the findings
-- of the lines to come.
abbrev Leaves : List Text → List Text → Scan → Scan → Type 0
Leaves lines rest s t =
    Opened t × (s.finding_lines ++ pending s lines ≡ t.finding_lines ++ pending t rest)

module _ (raw : Text) (rest : List Text) (s : Scan) (o : Opened s)
    (filled : is_empty (trim_space raw) ≡ false) where
  prose-Leaves :
      header (trim_space raw) ≡ none → Leaves (raw ∷ rest) rest s (parse_prose (trim_space raw) s)
  unfolding bullets findings_block parse_prose
  prose-Leaves prose = elim (Bool-cases (s.in_findings)) [
    | inr outside ↦ ground (arith, filled, prose, outside)
    | inl inside ↦ elim (Bool-cases (has_prefix (codes "-") (trim_space raw))) [
      | inl bullet ↦
          rw (filled, prose, inside, bullet)
            (λ e. o inside, sym (append_assoc s.finding_lines (trim_space raw ∷ []) (bullets rest)))
      | inr word ↦ rw (filled, prose, inside, word, o inside) (λ e. cc, refl)
    ]
  ]

  header-Leaves :
      (n : ℕ) (key value : Text) (t : Scan)
      → header (trim_space raw) ≡ some (key, value)
      → parse_header n key (trim_space value) s ≡ ok t
      → Leaves (raw ∷ rest) rest s t
  unfolding bullets findings_block
  header-Leaves n key value t head h =
      let new = parse_header-new n key (trim_space value) s t h in
      let seen = parse_header-seen n key (trim_space value) s t h in
      let entered = parse_header-in_findings n key (trim_space value) s t h in
      let lines = parse_header-finding_lines n key (trim_space value) s t h in
      elim (Bool-cases (text_eq key key_findings)) [
        | inr other ↦
            let outside : t.in_findings ≡ false = entered ∙ other in
            let unread : contains key_findings t.seen ≡ contains key_findings s.seen =
              ap (contains key_findings) seen
              ∙ ground (arith, other, text_eq_sym key key_findings) in
            let kept : t.finding_lines ≡ s.finding_lines = ground (arith, lines, other) in
            elim (Bool-cases (s.in_findings)) [
              | inl inside ↦
                  rw (filled, head, other, inside, outside, unread, kept, o inside) (λ e. cc, refl)
              | inr before ↦ rw (filled, head, other, before, outside, unread, kept) (λ e. cc, refl)
            ]
        | inl block ↦
            let inside : t.in_findings ≡ true = entered ∙ block in
            let named = eq_of_text_eq key key_findings block in
            let read : contains key_findings t.seen ≡ true =
              ap (contains key_findings) seen
              ∙ ground (arith, block, text_eq_sym key key_findings) in
            let unread : contains key_findings s.seen ≡ false =
              ap (λ k. contains k s.seen) (sym named) ∙ new in
            let outside : s.in_findings ≡ false = ground (arith, o, unread) in
            elim (Bool-cases (is_empty (trim_space value))) [
              | inl bare ↦
                  let kept : t.finding_lines ≡ s.finding_lines =
                    ground (arith, lines, block, bare) in
                  rw (filled, head, block, inside, outside, unread, read, bare, kept)
                    (λ e. refl, refl)
              | inr one ↦
                  let added : t.finding_lines
                      ≡ s.finding_lines ++ (codes "- " ++ trim_space value) ∷ [] =
                    ground (arith, lines, block, one) in
                  rw (filled, head, block, inside, outside, unread, read, one, added)
                    (
                      λ e. refl,
                      sym (
                          append_assoc s.finding_lines ((codes "- " ++ trim_space value) ∷ [])
                            (bullets rest)),
                    )
            ]
      ]

parse_line-Leaves :
    (n : ℕ) (raw : Text) (rest : List Text) (s t : Scan)
    → parse_line n raw s ≡ ok t
    → Opened s
    → Leaves (raw ∷ rest) rest s t
unfolding parse_line bullets findings_block
parse_line-Leaves n raw rest s t h o = elim (Bool-cases (is_empty (trim_space raw))) [
  | inl blank ↦ let same : s ≡ t = ground (arith, blank, h) in rw (← same) (o, rw blank refl)
  | inr filled ↦ elim (Option-cases (header (trim_space raw))) [
    | inl prose ↦
        let same : parse_prose (trim_space raw) s ≡ t = ground (arith, filled, prose, h) in
        rw (← same) (prose-Leaves raw rest s o filled prose)
    | inr ((key, value), head) ↦
        header-Leaves raw rest s o filled n key value t head (ground (arith, filled, head, h))
  ]
]

parse_lines-pending :
    (n : ℕ) (lines : List Text) (s t : Scan)
    → parse_lines n lines s ≡ ok t
    → Opened s
    → t.finding_lines ≡ s.finding_lines ++ pending s lines
unfolding parse_lines bullets findings_block
parse_lines-pending n [] s t h o =
    let same : s ≡ t = ground (arith, h) in
    let rest : pending s [] ≡ [] = ground arith in
    rw (← same, rest) (sym (append-nil s.finding_lines))
parse_lines-pending n (raw ∷ rest) s t h o =
    let (u, first, h') = >>=-eq-ok (parse_line n raw s) _ h in
    let (opened, left) = parse_line-Leaves n raw rest s u first o in
    parse_lines-pending (n + 1) rest u t h' opened ∙ sym left

-- The findings of a scan are those of the block.
pub parse_lines-findings_block :
    (lines : List Text) (t : Scan)
    → parse_lines 1 lines scan_start ≡ ok t
    → t.finding_lines ≡ findings_block lines
parse_lines-findings_block lines t h = parse_lines-pending 1 lines scan_start t h (λ e. cc)
