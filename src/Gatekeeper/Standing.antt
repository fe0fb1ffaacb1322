-- ===== src/Gatekeeper/Standing.antt =====
-- When a merge is owed (internal/gatekeeper/mergeowed.go).
use machinist.Base.{
  ℕ, Text, ◌≡◌, ◌≢◌, ◌↔◌, refl, sym, ap, ◌∙◌, true, false, none, some, List, [], ◌∷◌, ◌++◌, All,
  any, arith, Bool-cases, inl, inr, is_empty, is_empty-false_iff, trim_space, to_lower, equal_fold,
  text_eq_iff, if◌then◌else◌,
}
use machinist.Review.Types.{ready, Severity, Finding, severity_eq}
use machinist.Gatekeeper.Owed.{
  advisory, collect_open, open_severities, required_checks, all_passed, allowed_state, owed_judged,
  owed,
}
use machinist.Gatekeeper.Change.{merge_owed, waiting, can_merge, Change, Judgement}
use machinist.Gatekeeper.Required.{RunsPass, required_checks-RunsPass}

-- What a change and its judgement must show for a merge to be owed.
pub record Landable (c : Change) (j : Judgement) : Type 0 where
  pub published : c.draft ≡ false
  pub judged_head : trim_space j.reviewed_head ≢ []
  pub same_head : to_lower (trim_space j.reviewed_head) ≡ to_lower (trim_space c.head)
  pub approved : j.verdict ≡ ready
  pub all_advisory : All (λ (f : Finding). advisory f.severity ≡ true) j.findings
  pub mergeable : c.mergeable ≡ can_merge
  pub checks_pass :
      All (λ name. (trim_space name ≢ []) × RunsPass (trim_space name) c.checks) c.required_checks
  pub state_allows : allowed_state c ≡ true

collect_open-empty :
    (kept : List Severity) (fs : List Finding)
    → (is_empty (collect_open kept fs) ≡ true)
      ↔ ((is_empty kept ≡ true) × All (λ (f : Finding). advisory f.severity ≡ true) fs)
unfolding collect_open
collect_open-empty kept [] = (λ h. (h, tt), λ h. h.0)
collect_open-empty kept (f ∷ fs) = elim (Bool-cases (advisory f.severity)) [
  | inl e ↦ (
    λ h. ground (arith, collect_open-empty kept fs),
    λ h. ground (arith, collect_open-empty kept fs),
  )
  | inr e ↦ (
    λ h. absurd (
        grows kept f.severity (
          ground (
            arith,
            collect_open-empty
                (if any (severity_eq f.severity) kept then kept else kept ++ f.severity ∷ []) fs,
          ))),
    λ h. ground (arith, e),
  )
]
  where
    grows :
        (ks : List Severity) (s : Severity)
        → is_empty (if any (severity_eq s) ks then ks else ks ++ s ∷ []) ≡ true
        → ⊥
    grows [] s h = cc
    grows (k ∷ ks) s h = ground arith

is_empty-to_lower : (s : Text) → is_empty (to_lower s) ≡ is_empty s
unfolding to_lower
is_empty-to_lower [] = refl
is_empty-to_lower (c ∷ s) = refl

-- What the code has found when it says that a merge is owed.
record Passes (c : Change) (j : Judgement) : Type 0 where
  published : c.draft ≡ false
  judged_head : is_empty (trim_space j.reviewed_head) ≡ false
  present_head : is_empty (trim_space c.head) ≡ false
  same_head : equal_fold (trim_space j.reviewed_head) (trim_space c.head) ≡ true
  approved : j.verdict ≡ ready
  none_open : is_empty (open_severities j.findings) ≡ true
  mergeable : c.mergeable ≡ can_merge
  checks_pass : required_checks c ≡ all_passed
  state_allows : allowed_state c ≡ true

owed-Passes :
    (c : Change) (j : Judgement) (now : ℕ)
    → ((owed c (some j) now).disposition ≡ merge_owed) ↔ Passes c j
unfolding owed owed_judged
owed-Passes c j now = (λ h. ground arith, λ h. ground arith)

Passes-Landable : (c : Change) (j : Judgement) → Passes c j ↔ Landable c j
unfolding open_severities equal_fold
Passes-Landable c j =
    let reviewed = trim_space j.reviewed_head in
    let head = trim_space c.head in
    let same = text_eq_iff (to_lower reviewed) (to_lower head) in
    (
      λ p. record {
        published = p.published;
        judged_head = (is_empty-false_iff reviewed).0 p.judged_head;
        same_head = same.0 p.same_head;
        approved = p.approved;
        all_advisory = ((collect_open-empty [] j.findings).0 p.none_open).1;
        mergeable = p.mergeable;
        checks_pass = (required_checks-RunsPass c).0 p.checks_pass;
        state_allows = p.state_allows;
      },
      λ l. record {
        published = l.published;
        judged_head = (is_empty-false_iff reviewed).1 l.judged_head;
        present_head =
            sym (is_empty-to_lower head)
            ∙ sym (ap is_empty l.same_head)
            ∙ is_empty-to_lower reviewed
            ∙ (is_empty-false_iff reviewed).1 l.judged_head;
        same_head = same.1 l.same_head;
        approved = l.approved;
        none_open = (collect_open-empty [] j.findings).1 (refl, l.all_advisory);
        mergeable = l.mergeable;
        checks_pass = (required_checks-RunsPass c).1 l.checks_pass;
        state_allows = l.state_allows;
      },
    )

-- A merge is owed on a change with a judgement exactly when the change is no draft, the judgement
-- is an approval of the commit that is there with none but advisory findings, the change is
-- mergeable, its required checks pass, and its merge state is one that it may leave in.
pub owed-merge_owed_iff :
    (c : Change) (j : Judgement) (now : ℕ)
    → ((owed c (some j) now).disposition ≡ merge_owed) ↔ Landable c j
owed-merge_owed_iff c j now = (
  λ h. (Passes-Landable c j).0 ((owed-Passes c j now).0 h),
  λ l. (owed-Passes c j now).1 ((Passes-Landable c j).1 l),
)

-- Without a judgement nothing is owed, and no time counts.
pub owed_unjudged :
    (c : Change) (now : ℕ)
    → ((owed c none now).disposition ≡ waiting) × ((owed c none now).owed ≡ 0)
unfolding owed
owed_unjudged c now = ground arith
