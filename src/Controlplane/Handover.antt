-- ===== src/Controlplane/Handover.antt =====
-- internal/controlplane/claim.go: how a claim is given back, and how claims are read.
use machinist.Base.{
  ℕ, Text, text_eq, text_lt, ltb, ◌==◌, Bool, true, false, ◌&&◌, ◌||◌, not, Option, none, some,
  List, [], ◌∷◌, is_empty, if◌then◌else◌, trim_space, sort_stable,
}
use machinist.Base.Int.{ℤ, int_lt}
use machinist.Base.Result.{Result, ok, err, ◌>>=◌}
use machinist.Controlplane.Claim.{
  Claim, ClaimError, ClaimRow, ClaimState, claim_held, claim_key, claim_on_hold, claim_taken,
  delete_row, find_claim, hold_lapsed, hold_needs_end, hold_row, live, no_claim, read_claim,
  scan_claim, transition_needs_holder, transition_needs_reason,
}

-- The arguments of ReleaseClaim and HoldClaim; a release has no end and no transfer.
pub record TransitionRequest : Type 0 where
  pub repository : Text
  pub issue : ℤ
  pub holder : Text
  pub reason : Text
  pub into : ClaimState
  pub until : ℕ
  pub transfer : Text

abbrev pub is_hold : ClaimState → Bool
is_hold claim_on_hold = true
is_hold claim_held = false

-- The write of a hold or a release; a release answers with no claim.
unfoldable pub leave :
    ℕ
    → TransitionRequest
    → Text
    → ℤ
    → List ClaimRow
    → Result ClaimError (Option Claim × List ClaimRow)
leave now q repository issue rows =
    if not (is_hold q.into) then ok (none, delete_row repository issue rows) else do
      let rows' =
          hold_row repository issue (trim_space q.reason) (trim_space q.transfer) q.until now rows
      stored ← read_claim repository issue rows'
      ok (some stored, rows')

unfoldable pub leave_found :
    ℕ
    → TransitionRequest
    → Text
    → ℤ
    → Text
    → List ClaimRow
    → Option Claim
    → Result ClaimError (Option Claim × List ClaimRow)
leave_found now q repository issue holder rows none = err (no_claim repository issue)
leave_found now q repository issue holder rows (some e) =
    if not (live e now)
    then err (no_claim repository issue)
    else if not (text_eq e.holder holder)
    then err (claim_taken repository issue e.holder e.expires_at)
    else leave now q repository issue rows

unfoldable pub transition_keyed :
    ℕ
    → TransitionRequest
    → List ClaimRow
    → Text × ℤ
    → Result ClaimError (Option Claim × List ClaimRow)
transition_keyed now q rows (repository, issue) =
    let holder = trim_space q.holder in
    if is_empty holder
    then err transition_needs_holder
    else if is_empty (trim_space q.reason)
    then err transition_needs_reason
    else if is_hold q.into && q.until == 0
    then err hold_needs_end
    else if is_hold q.into && not (ltb now q.until)
    then err hold_lapsed
    else find_claim repository issue rows >>= leave_found now q repository issue holder rows

unfoldable pub transition_claim :
    ℕ → TransitionRequest → List ClaimRow → Result ClaimError (Option Claim × List ClaimRow)
transition_claim now q rows = claim_key q.repository q.issue >>= transition_keyed now q rows

unfoldable pub release_claim :
    ℕ → Text → ℤ → Text → Text → List ClaimRow → Result ClaimError (Option Claim × List ClaimRow)
release_claim now repository issue holder reason rows =
    transition_claim now
      (record {
        repository = repository;
        issue = issue;
        holder = holder;
        reason = reason;
        into = claim_held;
        until = 0;
        transfer = [];
      })
      rows

unfoldable pub hold_claim :
    ℕ
    → Text
    → ℤ
    → Text
    → Text
    → ℕ
    → Text
    → List ClaimRow
    → Result ClaimError (Option Claim × List ClaimRow)
hold_claim now repository issue holder reason until transfer rows =
    transition_claim now
      (record {
        repository = repository;
        issue = issue;
        holder = holder;
        reason = reason;
        into = claim_on_hold;
        until = until;
        transfer = transfer;
      })
      rows

read_keyed : List ClaimRow → Text × ℤ → Result ClaimError (Option Claim)
read_keyed rows (repository, issue) = find_claim repository issue rows

-- Store.Claim
unfoldable pub claim : Text → ℤ → List ClaimRow → Result ClaimError (Option Claim)
unfolding read_keyed
claim repository issue rows = claim_key repository issue >>= read_keyed rows

scan_claims : List ClaimRow → Result ClaimError (List Claim)
scan_claims [] = ok []
scan_claims (r ∷ rs) = do c ← scan_claim r; cs ← scan_claims rs; ok (c ∷ cs)

-- ORDER BY repository,issue
abbrev row_before : ClaimRow → ClaimRow → Bool
row_before a b =
    text_lt a.repository b.repository
    || (text_eq a.repository b.repository && int_lt a.issue b.issue)

-- Store.Claims
unfoldable pub claims : List ClaimRow → Result ClaimError (List Claim)
unfolding scan_claims
claims rows = scan_claims (sort_stable row_before rows)
