-- ===== src/Controlplane/Rows.antt =====
-- What a write to the table of internal/controlplane/claim.go does to the row of a key.
use machinist.Base.{
  ℕ, Text, text_eq, text_eq_iff, ◌≡◌, refl, Bool, false, ◌&&◌, none, some, List, [], ◌∷◌,
  if◌then◌else◌, arith,
}
use machinist.Base.Int.{ℤ, int_eq, int_eq_iff}
use machinist.Controlplane.Claim.{ClaimRow, keyed, find_row, put_row, delete_row, hold_row}

-- Whether two keys are one.
abbrev pub same_key : Text → ℤ → Text → ℤ → Bool
same_key r i s j = text_eq r s && int_eq i j

pub find_row-put_row :
    (row : ClaimRow) (repository : Text) (issue : ℤ) (rows : List ClaimRow)
    → find_row repository issue (put_row row rows)
      ≡ (if keyed repository issue row then some row else find_row repository issue rows)
unfolding find_row put_row
find_row-put_row row repository issue [] = refl
find_row-put_row row repository issue (r ∷ rs) = ground (
  arith,
  find_row-put_row row repository issue rs,
  text_eq_iff row.repository repository,
  text_eq_iff r.repository repository,
  text_eq_iff r.repository row.repository,
  int_eq_iff row.issue issue,
  int_eq_iff r.issue issue,
  int_eq_iff r.issue row.issue,
)

pub find_row-delete_row :
    (s : Text) (j : ℤ) (repository : Text) (issue : ℤ) (rows : List ClaimRow)
    → find_row repository issue (delete_row s j rows)
      ≡ (if same_key s j repository issue then none else find_row repository issue rows)
unfolding find_row delete_row
find_row-delete_row s j repository issue [] = ground arith
find_row-delete_row s j repository issue (r ∷ rs) = ground (
  arith,
  find_row-delete_row s j repository issue rs,
  text_eq_iff s repository,
  text_eq_iff r.repository repository,
  text_eq_iff r.repository s,
  int_eq_iff j issue,
  int_eq_iff r.issue issue,
  int_eq_iff r.issue j,
)

pub find_row-hold_row :
    (s : Text) (j : ℤ) (reason transfer : Text) (until now : ℕ) (repository : Text) (issue : ℤ)
    (rows : List ClaimRow)
    → same_key s j repository issue ≡ false
    → find_row repository issue (hold_row s j reason transfer until now rows)
      ≡ find_row repository issue rows
unfolding find_row hold_row
find_row-hold_row s j reason transfer until now repository issue [] h = refl
find_row-hold_row s j reason transfer until now repository issue (r ∷ rs) h = ground (
  arith,
  find_row-hold_row s j reason transfer until now repository issue rs h,
  text_eq_iff s repository,
  text_eq_iff r.repository repository,
  text_eq_iff r.repository s,
  int_eq_iff j issue,
  int_eq_iff r.issue issue,
  int_eq_iff r.issue j,
)
