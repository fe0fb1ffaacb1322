-- ===== src/Gatekeeper/Checks.antt =====
-- What each check of the gatekeeper finds, as a condition on the request.
use machinist.Base.{
  Text, codes, ◌≡◌, ◌≢◌, refl, sym, ◌∙◌, true, false, none, List, [], ◌∷◌, is_empty, All, All-map,
  any-false_iff, ◌↔◌, ◌⊎◌, inl, inr, trim_space, to_lower, text_eq, text_eq_iff, trim_prefix, arith,
  Bool-cases, Option-cases, equal_fold, is_empty-sort_strings, is_empty-filter, is_empty-false_iff,
}
use machinist.Review.Independence.{check_independence-Independent}
use machinist.Gatekeeper.Request.{
  FileMode, mode_valid, mode_file, is_mode_file, ChangedFile, risk_valid, is_risk_high,
  ClosingIssue, ChecksState, Request, paths, check_files, request_valid,
}
use machinist.Gatekeeper.Paths.{match_path, hit, extension, protected_hits, green_refusal}
use machinist.Gatekeeper.Tiers.{
  check_review, missing_checks, first_not_green, risk_refusal, human_refusal,
}
use machinist.Gatekeeper.Conditions.{IsComplete, ChecksPass, Untouched, IsDocument, IsReviewed}

pub check_files-All :
    (fs : List ChangedFile)
    → (check_files fs ≡ none)
      ↔ All (λ (f : ChangedFile). (trim_space f.path ≢ []) × (mode_valid f.mode ≡ true)) fs
unfolding check_files
check_files-All [] = (λ h. tt, λ h. refl)
check_files-All (f ∷ fs) = (
  λ h. ground (arith, check_files-All fs, is_empty-false_iff (trim_space f.path)),
  λ h. ground (arith, check_files-All fs, is_empty-false_iff (trim_space f.path)),
)

pub request_valid-IsComplete : (r : Request) → (request_valid r ≡ none) ↔ IsComplete r
unfolding request_valid
request_valid-IsComplete r = (
  λ h. ground (
    arith,
    check_files-All r.files,
    is_empty-false_iff (trim_space r.repository),
    is_empty-false_iff (trim_space r.head_sha),
    is_empty-false_iff r.files,
  ),
  λ h. ground (
    arith,
    check_files-All r.files,
    is_empty-false_iff (trim_space r.repository),
    is_empty-false_iff (trim_space r.head_sha),
    is_empty-false_iff r.files,
  ),
)

pub check_review-IsReviewed : (r : Request) → (check_review r ≡ none) ↔ IsReviewed r
unfolding check_review equal_fold
check_review-IsReviewed r = (
  λ h. ground (
    arith,
    check_independence-Independent r.review.author r.review.reviewer,
    is_empty-false_iff (trim_space r.review.head_sha),
    text_eq_iff (to_lower (trim_space r.review.head_sha)) (to_lower (trim_space r.head_sha)),
  ),
  λ h. ground (
    arith,
    check_independence-Independent r.review.author r.review.reviewer,
    is_empty-false_iff (trim_space r.review.head_sha),
    text_eq_iff (to_lower (trim_space r.review.head_sha)) (to_lower (trim_space r.head_sha)),
  ),
)

pub missing_checks-ChecksPass :
    (c : ChecksState) → (is_empty (missing_checks c) ≡ true) ↔ ChecksPass c
unfolding missing_checks
missing_checks-ChecksPass c = (
  λ h. All-map (λ x e. ground arith) c.required ((is_empty-filter _ c.required).0 h),
  λ h. (is_empty-filter _ c.required).1 (All-map (λ x e. ground arith) c.required h),
)

pub protected_hits-Untouched :
    (r : Request) (patterns : List Text)
    → (is_empty (protected_hits r patterns) ≡ true) ↔ Untouched r patterns
unfolding protected_hits
protected_hits-Untouched r patterns = (
  λ h.
      All-map to (paths r)
        ((is_empty-filter (hit patterns) (paths r)).0 (sym (is_empty-sort_strings _) ∙ h)),
  λ h.
      is_empty-sort_strings _
      ∙ (is_empty-filter (hit patterns) (paths r)).1 (All-map from (paths r) h),
)
  where
    to :
        (p : Text)
        → hit patterns p ≡ false
        → (p ≡ []) ⊎ All (λ pattern. match_path pattern p ≡ false) patterns
    to [] h = inl refl
    to (c ∷ p) h = inr ((any-false_iff _ patterns).0 h)

    from :
        (p : Text)
        → (p ≡ []) ⊎ All (λ pattern. match_path pattern p ≡ false) patterns
        → hit patterns p ≡ false
    from p (inl e) = rw e
    from p (inr a) = let none_hits = (any-false_iff _ patterns).1 a in ground arith

is_mode_file_iff : (m : FileMode) → (is_mode_file m ≡ true) ↔ (m ≡ mode_file)
is_mode_file_iff m = (λ h. ground arith, λ h. ground arith)

markdown_nonempty : (path : Text) → to_lower (extension path) ≡ codes ".md" → is_empty path ≡ false
unfolding extension to_lower
markdown_nonempty [] h = ground arith
markdown_nonempty (c ∷ path) h = refl

green_refusal-IsDocument : (f : ChangedFile) → (green_refusal f ≡ none) ↔ IsDocument f
unfolding green_refusal
green_refusal-IsDocument f =
    let clean = trim_prefix (codes "./") (trim_space f.path) in
    let named = text_eq_iff clean (codes "README.md") in
    let suffix = text_eq_iff (to_lower (extension clean)) (codes ".md") in
    (
      λ h. record {
        plain = ground arith;
        markdown = ground (arith, suffix);
        placed = elim (Bool-cases (text_eq clean (codes "README.md"))) [
          | inl e ↦ inl (named.0 e)
          | inr e ↦ inr (ground (arith, e))
        ];
      },
      λ h. ground (arith, named, suffix, markdown_nonempty clean h.markdown),
    )

pub first_not_green-All : (fs : List ChangedFile) → (first_not_green fs ≡ none) ↔ All IsDocument fs
unfolding first_not_green
first_not_green-All [] = (λ h. tt, λ h. refl)
first_not_green-All (f ∷ fs) = elim (Option-cases (green_refusal f)) [
  | inl e ↦ (
    λ h. (
      (green_refusal-IsDocument f).0 e,
      (first_not_green-All fs).0 (rw (e, first_not_green) at h),
    ),
    λ h. rw (e, first_not_green) ((first_not_green-All fs).1 h.1),
  )
  | inr (why, e) ↦
      (λ h. ground (arith, e), λ h. ground (arith, e, (green_refusal-IsDocument f).1 h.0))
]

pub risk_refusal-All :
    (is : List ClosingIssue)
    → (risk_refusal is ≡ none)
      ↔ All (λ (i : ClosingIssue). (risk_valid i.risk ≡ true) × (is_risk_high i.risk ≡ false)) is
unfolding risk_refusal
risk_refusal-All [] = (λ h. tt, λ h. refl)
risk_refusal-All (i ∷ is) =
    (λ h. ground (arith, risk_refusal-All is), λ h. ground (arith, risk_refusal-All is))

pub human_refusal-All :
    (is : List ClosingIssue)
    → (human_refusal is ≡ none) ↔ All (λ (i : ClosingIssue). i.human_required ≡ false) is
unfolding human_refusal
human_refusal-All [] = (λ h. tt, λ h. refl)
human_refusal-All (i ∷ is) =
    (λ h. ground (arith, human_refusal-All is), λ h. ground (arith, human_refusal-All is))
