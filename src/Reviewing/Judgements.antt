-- ===== src/Reviewing/Judgements.antt =====
-- internal/controlplane/mergeowed_store.go and promote.go: what the recorded reviews make together.
-- Reading a time is a parameter.
use machinist.Base.{
  ℕ, Text, text_eq, text_lt, Bool, false, ◌&&◌, not, Option, none, some, List, [], ◌∷◌, ◌++◌,
  filter, if◌then◌else◌, is_empty, trim_space, sort_stable,
}
use machinist.Base.Int.{ℤ, is_positive, int_lt, int_eq}
use machinist.Base.Result.{Result, ok, err, ◌>>=◌}
use machinist.Review.Types.{Verdict, Finding, no_verdict, is_ready, strictest}
use machinist.Review.Engine.{Reason}
use machinist.Gatekeeper.Change.{Judgement}
use machinist.Jobs.Tables.{Run, select, run_of}

-- A row of run_reviews. The findings are read again; `none` stands for a text that does not decode.
pub record ReviewRow : Type 0 where
  pub run_id : Text
  pub reviewer_run_id : Text
  pub pull_request : ℤ
  pub verdict : Verdict
  pub high_risk : Bool
  pub note : Text
  pub findings : Option (List Finding)
  pub protected_paths : List Text
  pub reasons : List Reason
  pub reviewed_head : Text
  pub recorded_at : Text

pub data JudgementError : Type 0 where
  no_repository : JudgementError
  findings_unreadable time_unreadable verdict_unknown : ℤ → JudgementError

-- WHERE r.repository=? AND v.pull_request>0
abbrev pub in_repository : Text → List Run → ReviewRow → Bool
in_repository repository runs v = elim (select (run_of v.run_id) runs) [
  | none ↦ false
  | some r ↦ text_eq r.info.repository repository && is_positive v.pull_request
]

-- ORDER BY v.pull_request, v.recorded_at, v.reviewer_run_id: the times are compared as texts.
abbrev pub row_less : ReviewRow → ReviewRow → Bool
row_less v w =
    if not (int_eq v.pull_request w.pull_request)
    then int_lt v.pull_request w.pull_request
    else if not (text_eq v.recorded_at w.recorded_at)
    then text_lt v.recorded_at w.recorded_at
    else text_lt v.reviewer_run_id w.reviewer_run_id

-- The two maps, one entry for a pull request.
pub record Folded : Type 0 where
  pub judgement : Judgement
  pub verdicts : List Verdict

abbrev pub unfolded : Folded
unfolded = record {
  judgement = record { verdict = no_verdict; reviewed_head = []; findings = []; recorded_at = 0 };
  verdicts = [];
}

-- One row more for its pull request.
abbrev pub fold_in : ReviewRow → List Finding → ℕ → Folded → Folded
fold_in v findings when f = record {
  judgement = record {
    verdict = f.judgement.verdict;
    reviewed_head = v.reviewed_head;
    findings = f.judgement.findings ++ findings;
    recorded_at = when;
  };
  verdicts = f.verdicts ++ v.verdict ∷ [];
}

unfoldable pub upsert : ℤ → (Folded → Folded) → List (ℤ × Folded) → List (ℤ × Folded)
upsert pull_request f [] = (pull_request, f unfolded) ∷ []
upsert pull_request f ((k, v) ∷ m) =
    if int_eq k pull_request then (k, f v) ∷ m else (k, v) ∷ upsert pull_request f m

unfoldable pub find_judgement : ℤ → List (ℤ × Judgement) → Option Judgement
find_judgement pull_request [] = none
find_judgement pull_request ((k, j) ∷ m) =
    if int_eq k pull_request then some j else find_judgement pull_request m

-- The loop over the verdicts of each pull request
unfoldable pub rank : List (ℤ × Folded) → Result JudgementError (List (ℤ × Judgement))
rank [] = ok []
rank ((k, f) ∷ m) =
    let rest = rank m in
    elim (strictest f.verdicts) [
      | none ↦ err (verdict_unknown k)
      | some v ↦ (rest >>= λ js. ok ((k, record (f.judgement) { verdict = v }) ∷ js))
    ]

module _ (parse_time : Text → Option ℕ) where
  -- The body of the loop over the rows
  unfoldable pub fold_row :
      ReviewRow → List (ℤ × Folded) → Result JudgementError (List (ℤ × Folded))
  fold_row v m = elim v.findings [
    | none ↦ err (findings_unreadable v.pull_request)
    | some findings ↦ elim (parse_time v.recorded_at) [
      | none ↦ err (time_unreadable v.pull_request)
      | some when ↦ ok (upsert v.pull_request (fold_in v findings when) m)
    ]
  ]

  unfoldable pub fold_rows :
      List ReviewRow → List (ℤ × Folded) → Result JudgementError (List (ℤ × Folded))
  fold_rows [] m = ok m
  fold_rows (v ∷ vs) m = fold_row v m >>= λ m'. fold_rows vs m'

  -- RecordedJudgements
  unfoldable pub recorded_judgements :
      Text → List Run → List ReviewRow → Result JudgementError (List (ℤ × Judgement))
  recorded_judgements repository runs reviews =
      let trimmed = trim_space repository in
      if is_empty trimmed
      then err no_repository
      else (fold_rows (sort_stable row_less (filter (in_repository trimmed runs) reviews)) []
          >>= rank)

-- Whether promoteOnApproval asks the forge to take the change out of draft.
unfoldable pub wants_promotion : Bool → Result JudgementError (List (ℤ × Judgement)) → ℤ → Bool
wants_promotion client (err problem) pull_request = false
wants_promotion client (ok js) pull_request =
    client && (elim (find_judgement pull_request js) [ none ↦ false | some j ↦ is_ready j.verdict ])

-- promoteOnApproval; `works` is whether the forge does it.
unfoldable pub promote_on_approval :
    Bool → Result JudgementError (List (ℤ × Judgement)) → ℤ → Bool → Bool
promote_on_approval client judgements pull_request works =
    wants_promotion client judgements pull_request && works
