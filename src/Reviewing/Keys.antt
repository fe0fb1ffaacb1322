-- ===== src/Reviewing/Keys.antt =====
-- The primary key of the reviews (internal/controlplane/store.go).
use machinist.Base.{
  ◌≡◌, refl, Text, eq_of_text_eq, true, some, List, [], ◌∷◌, arith, if◌then◌else◌, Bool-cases, inl,
  inr,
}
use machinist.Jobs.Tables.{select}
use machinist.Reviewing.Judgements.{ReviewRow}
use machinist.Reviewing.Record.{review_of, put_review}

same_key :
    (run reviewer : Text) (v w : ReviewRow)
    → review_of v.run_id v.reviewer_run_id w ≡ true
    → review_of run reviewer w ≡ review_of run reviewer v
same_key run reviewer v w h =
    let first : w.run_id ≡ v.run_id = eq_of_text_eq w.run_id v.run_id (ground (arith, h)) in
    let second : w.reviewer_run_id ≡ v.reviewer_run_id =
      eq_of_text_eq w.reviewer_run_id v.reviewer_run_id (ground (arith, h)) in
    rw (first, second) refl

own_key :
    (run reviewer : Text) (v w : ReviewRow)
    → review_of run reviewer v ≡ true
    → review_of v.run_id v.reviewer_run_id w ≡ review_of run reviewer w
own_key run reviewer v w h =
    let first : v.run_id ≡ run = eq_of_text_eq v.run_id run (ground (arith, h)) in
    let second : v.reviewer_run_id ≡ reviewer =
      eq_of_text_eq v.reviewer_run_id reviewer (ground (arith, h)) in
    rw (first, second) refl

-- Only the row of the key is another one.
pub select-put_review :
    (run reviewer : Text) (v : ReviewRow) (rows : List ReviewRow)
    → select (review_of run reviewer) (put_review v rows)
      ≡ (if review_of run reviewer v then some v else select (review_of run reviewer) rows)
unfolding select put_review
select-put_review run reviewer v [] = refl
select-put_review run reviewer v (w ∷ rows) =
    let ih = select-put_review run reviewer v rows in
    elim (Bool-cases (review_of v.run_id v.reviewer_run_id w)) [
      | inl same ↦ let key = same_key run reviewer v w same in ground (arith, same, key)
      | inr other ↦ elim (Bool-cases (review_of run reviewer v)) [
        | inl mine ↦ let key = own_key run reviewer v w mine in ground (arith, other, mine, key, ih)
        | inr others ↦ ground (arith, other, others, ih)
      ]
    ]
