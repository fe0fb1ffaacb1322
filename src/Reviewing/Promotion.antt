-- ===== src/Reviewing/Promotion.antt =====
-- A change is promoted when every recorded review approves it (internal/controlplane/promote.go).
use mathlib.Core.List.{append_assoc, append-nil}
use machinist.Base.{
  ℕ, ◌≡◌, ◌≢◌, ◌↔◌, refl, sym, ap, ◌∙◌, Text, Bool, true, false, ◌&&◌, not, Option, none, some,
  List, [], ◌∷◌, ◌++◌, All, arith, any, filter, if◌then◌else◌, is_empty, trim_space, sort_stable,
  any-sort_stable, is_empty-false_iff, Bool-cases, Option-cases, inl, inr,
}
use machinist.Base.Int.{ℤ, int_eq, int_eq_iff}
use machinist.Base.Result.{ok, ◌>>=◌, >>=-eq-ok}
use machinist.Review.Types.{Verdict, ready, is_ready, strictest, strictest_from, Finding}
use machinist.Review.Order.{strictest-ready_iff}
use machinist.Gatekeeper.Change.{Judgement}
use machinist.Jobs.Tables.{Run}
use machinist.Reviewing.Judgements.{
  ReviewRow, in_repository, row_less, Folded, fold_in, upsert, find_judgement, rank, fold_row,
  fold_rows, recorded_judgements, wants_promotion,
}

-- The verdicts that are kept for a pull request.
verdicts_at : ℤ → List (ℤ × Folded) → List Verdict
verdicts_at n [] = []
verdicts_at n ((k, f) ∷ m) = if int_eq k n then f.verdicts else verdicts_at n m

-- The verdicts of the rows that are about it.
verdicts_of : ℤ → List ReviewRow → List Verdict
verdicts_of n [] = []
verdicts_of n (v ∷ vs) =
    if int_eq v.pull_request n then v.verdict ∷ verdicts_of n vs else verdicts_of n vs

verdicts_at-upsert :
    (n : ℤ) (v : ReviewRow) (findings : List Finding) (when : ℕ) (m : List (ℤ × Folded))
    → verdicts_at n (upsert v.pull_request (fold_in v findings when) m)
      ≡ (if int_eq v.pull_request n then verdicts_at n m ++ v.verdict ∷ [] else verdicts_at n m)
unfolding verdicts_at upsert
verdicts_at-upsert n v findings when [] = ground arith
verdicts_at-upsert n v findings when ((k, f) ∷ m) = ground (
  arith,
  verdicts_at-upsert n v findings when m,
  int_eq_iff k v.pull_request,
  int_eq_iff k n,
  int_eq_iff v.pull_request n,
)

module _ (parse_time : Text → Option ℕ) (n : ℤ) where
  verdicts_at-fold_row :
      (v : ReviewRow) (m m' : List (ℤ × Folded))
      → fold_row parse_time v m ≡ ok m'
      → verdicts_at n m'
        ≡ (if int_eq v.pull_request n then verdicts_at n m ++ v.verdict ∷ [] else verdicts_at n m)
  unfolding fold_row
  verdicts_at-fold_row v m m' e = elim (Option-cases v.findings) [
    | inl lost ↦ absurd (ground (arith, lost, e))
    | inr (findings, kept) ↦ elim (Option-cases (parse_time v.recorded_at)) [
      | inl lost ↦ absurd (ground (arith, kept, lost, e))
      | inr (when, read) ↦
          let same : upsert v.pull_request (fold_in v findings when) m ≡ m' =
            ground (arith, kept, read, e) in
          rw (← same) (verdicts_at-upsert n v findings when m)
    ]
  ]

  verdicts_at-fold_rows :
      (vs : List ReviewRow) (m m' : List (ℤ × Folded))
      → fold_rows parse_time vs m ≡ ok m'
      → verdicts_at n m' ≡ verdicts_at n m ++ verdicts_of n vs
  unfolding fold_rows verdicts_of
  verdicts_at-fold_rows [] m m' e = ground (arith, e, append-nil (verdicts_at n m))
  verdicts_at-fold_rows (v ∷ vs) m m' e =
      let (m1, first, rest) = >>=-eq-ok (fold_row parse_time v m) _ e in
      let one = verdicts_at-fold_row v m m1 first in
      let more = verdicts_at-fold_rows vs m1 m' rest in
      elim (Bool-cases (int_eq v.pull_request n)) [
        | inl mine ↦ rw mine (
            more
            ∙ ap (λ t. t ++ verdicts_of n vs) (one ∙ (rw mine refl))
            ∙ append_assoc (verdicts_at n m) (v.verdict ∷ []) (verdicts_of n vs))
        | inr other ↦ rw other (more ∙ ap (λ t. t ++ verdicts_of n vs) (one ∙ (rw other refl)))
      ]

ready_of : Option Verdict → Bool
ready_of none = false
ready_of (some v) = is_ready v

ready_of_iff : (o : Option Verdict) → (ready_of o ≡ true) ↔ (o ≡ some ready)
unfolding ready_of
ready_of_iff none = (λ h. cc, λ h. cc)
ready_of_iff (some v) = (λ h. ground arith, λ h. ground arith)

-- What the forge is asked follows the strictest of those verdicts.
wants_promotion-rank :
    (n : ℤ) (m : List (ℤ × Folded)) (js : List (ℤ × Judgement))
    → rank m ≡ ok js
    → wants_promotion true (ok js) n ≡ ready_of (strictest (verdicts_at n m))
unfolding rank wants_promotion find_judgement verdicts_at ready_of strictest strictest_from
wants_promotion-rank n [] js e = let nothing : js ≡ [] = ground (arith, e) in rw nothing refl
wants_promotion-rank n ((k, f) ∷ m) js e = elim (Option-cases (strictest f.verdicts)) [
  | inl unknown ↦ absurd (ground (arith, unknown, e))
  | inr (v, ranked) ↦
      let bound : (rank m >>= λ js. ok ((k, record (f.judgement) { verdict = v }) ∷ js)) ≡ ok js =
        ground (arith, ranked, e) in
      let (rest, more, put) = >>=-eq-ok (rank m) _ bound in
      let whole : js ≡ (k, record (f.judgement) { verdict = v }) ∷ rest = cc put in
      rw whole (elim (Bool-cases (int_eq k n)) [
        | inl mine ↦ rw mine (sym (ap ready_of ranked))
        | inr other ↦ rw other (wants_promotion-rank n m rest more)
      ])
]

-- A review about a pull request, and one that is no approval.
abbrev pub about : ℤ → ReviewRow → Bool
about n v = int_eq v.pull_request n

abbrev pub objects : ℤ → ReviewRow → Bool
objects n v = int_eq v.pull_request n && not (is_ready v.verdict)

any-about : (n : ℤ) (vs : List ReviewRow) → any (about n) vs ≡ not (is_empty (verdicts_of n vs))
unfolding verdicts_of
any-about n [] = refl
any-about n (v ∷ vs) = ground (arith, any-about n vs)

any-objects :
    (n : ℤ) (vs : List ReviewRow)
    → any (objects n) vs ≡ any (λ v. not (is_ready v)) (verdicts_of n vs)
unfolding verdicts_of
any-objects n [] = refl
any-objects n (v ∷ vs) = ground (arith, any-objects n vs)

none_objects_iff :
    (vs : List Verdict) → (any (λ v. not (is_ready v)) vs ≡ false) ↔ All (λ v. v ≡ ready) vs
none_objects_iff [] = (λ h. tt, λ h. refl)
none_objects_iff (v ∷ vs) =
    let ih = none_objects_iff vs in
    (λ h. (ground (arith, h), ih.0 (ground (arith, h))), λ h. ground (arith, h.0, ih.1 h.1))

approving_iff :
    (n : ℤ) (vs : List ReviewRow)
    → ((verdicts_of n vs ≢ []) × All (λ v. v ≡ ready) (verdicts_of n vs))
      ↔ ((any (about n) vs ≡ true) × (any (objects n) vs ≡ false))
approving_iff n vs =
    let filled = is_empty-false_iff (verdicts_of n vs) in
    let approving = none_objects_iff (verdicts_of n vs) in
    (
      λ h. (ground (arith, any-about n vs, filled.1 h.0), any-objects n vs ∙ approving.1 h.1),
      λ h. (
        filled.0 (ground (arith, any-about n vs, h.0)),
        approving.0 (sym (any-objects n vs) ∙ h.1),
      ),
    )

-- Where the recorded reviews can be read, the forge is asked to take a pull request out of draft
-- exactly when there is a review of it from the repository and every such review says ready.
pub wants_promotion_iff :
    (parse_time : Text → Option ℕ) (repository : Text) (runs : List Run) (reviews : List ReviewRow)
    (js : List (ℤ × Judgement)) (n : ℤ)
    → recorded_judgements parse_time repository runs reviews ≡ ok js
    → (wants_promotion true (ok js) n ≡ true) ↔ (
        (any (about n) (filter (in_repository (trim_space repository) runs) reviews) ≡ true)
        × (any (objects n) (filter (in_repository (trim_space repository) runs) reviews) ≡ false))
unfolding recorded_judgements verdicts_at
wants_promotion_iff parse_time repository runs reviews js n e =
    let scoped = filter (in_repository (trim_space repository) runs) reviews in
    let rows = sort_stable row_less scoped in
    let bound : (fold_rows parse_time rows [] >>= rank) ≡ ok js = ground (arith, e) in
    let (m, folded, ranked) = >>=-eq-ok (fold_rows parse_time rows []) rank bound in
    let verdicts : verdicts_at n m ≡ verdicts_of n rows =
      verdicts_at-fold_rows parse_time n rows [] m folded in
    let asked = wants_promotion-rank n m js ranked ∙ ap (λ vs. ready_of (strictest vs)) verdicts in
    let approved = ready_of_iff (strictest (verdicts_of n rows)) in
    let each = strictest-ready_iff (verdicts_of n rows) in
    let sorted = approving_iff n rows in
    let some_row = any-sort_stable row_less (about n) scoped in
    let no_objection = any-sort_stable row_less (objects n) scoped in
    (
      λ h.
          let (there, none_objects) = sorted.0 (each.0 (approved.0 (sym asked ∙ h))) in
          (sym some_row ∙ there, sym no_objection ∙ none_objects),
      λ h. asked ∙ approved.1 (each.1 (sorted.1 (some_row ∙ h.0, no_objection ∙ h.1))),
    )
