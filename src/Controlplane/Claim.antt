-- ===== src/Controlplane/Claim.antt =====
-- internal/controlplane/claim.go: who works on an issue. The table issue_claims is the list of its
-- rows, keyed by repository and issue. Instants are as in Controlplane/Lease.antt, and so are stored
-- times. An operation that fails leaves the table as it was: its transaction is rolled back.
use machinist.Base.{
  ℕ, Text, codes, text_eq, ltb, ◌==◌, Bool, ◌&&◌, not, Option, none, some, List, [], ◌∷◌, is_empty,
  if◌then◌else◌, trim_space, filter,
}
use machinist.Base.Int.{ℤ, is_positive, int_eq}
use machinist.Base.Result.{Result, ok, err, ◌>>=◌}

pub data ClaimState : Type 0 where
  claim_held claim_on_hold : ClaimState

abbrev pub claim_state_text : ClaimState → Text
claim_state_text claim_held = codes "held"
claim_state_text claim_on_hold = codes "on-hold"

-- ParseClaimState; `none` is its error.
unfoldable pub parse_claim_state : Text → Option ClaimState
parse_claim_state value =
    if text_eq (codes "held") (trim_space value)
    then some claim_held
    else if text_eq (codes "on-hold") (trim_space value)
    then some claim_on_hold
    else none

pub record Claim : Type 0 where
  pub repository : Text
  pub issue : ℤ
  pub state : ClaimState
  pub holder : Text
  pub branch : Text
  pub reason : Text
  pub transfer : Text
  pub claimed_at : ℕ
  pub expires_at : ℕ
  pub updated_at : ℕ

-- Claim.Live
abbrev pub live : Claim → ℕ → Bool
live c now = ltb now c.expires_at

-- A row of issue_claims.
pub record ClaimRow : Type 0 where
  pub repository : Text
  pub issue : ℤ
  pub state : Text
  pub holder : Text
  pub branch : Text
  pub reason : Text
  pub transfer : Text
  pub claimed_at : Option ℕ
  pub expires_at : Option ℕ
  pub updated_at : Option ℕ

-- The errors, with what their messages name; those before claim_taken wrap ErrInvalidClaim.
pub data ClaimError : Type 0 where
  needs_repository needs_issue needs_holder needs_reason needs_expiry already_expired : ClaimError
  transition_needs_holder transition_needs_reason hold_needs_end hold_lapsed : ClaimError
  claim_taken : Text → ℤ → Text → ℕ → ClaimError
  no_claim : Text → ℤ → ClaimError
  no_rows : ClaimError
  unreadable_state unreadable_time : Text → ℤ → ClaimError

unfoldable pub claim_key : Text → ℤ → Result ClaimError (Text × ℤ)
claim_key repository issue =
    let trimmed = trim_space repository in
    if is_empty trimmed
    then err needs_repository
    else if not (is_positive issue)
    then err needs_issue
    else ok (trimmed, issue)

abbrev pub keyed : Text → ℤ → ClaimRow → Bool
keyed repository issue r = text_eq r.repository repository && int_eq r.issue issue

scan_claim_times : ClaimRow → ClaimState → Option ℕ → Option ℕ → Option ℕ → Result ClaimError Claim
scan_claim_times r state (some claimed) (some expires) (some updated) = ok (record {
  repository = r.repository;
  issue = r.issue;
  state = state;
  holder = r.holder;
  branch = r.branch;
  reason = r.reason;
  transfer = r.transfer;
  claimed_at = claimed;
  expires_at = expires;
  updated_at = updated;
})
scan_claim_times r state _ _ _ = err (unreadable_time r.repository r.issue)

unfoldable pub scan_claim : ClaimRow → Result ClaimError Claim
unfolding scan_claim_times
scan_claim r = elim (parse_claim_state r.state) [
  | none ↦ err (unreadable_state r.repository r.issue)
  | some state ↦ scan_claim_times r state r.claimed_at r.expires_at r.updated_at
]

unfoldable pub find_row : Text → ℤ → List ClaimRow → Option ClaimRow
find_row repository issue [] = none
find_row repository issue (r ∷ rs) =
    if keyed repository issue r then some r else find_row repository issue rs

-- readClaim: no_rows is sql.ErrNoRows.
unfoldable pub read_claim : Text → ℤ → List ClaimRow → Result ClaimError Claim
read_claim repository issue rows = elim (find_row repository issue rows) [
  | none ↦ err no_rows
  | some r ↦ scan_claim r
]

-- INSERT … ON CONFLICT(repository,issue) DO UPDATE
unfoldable pub put_row : ClaimRow → List ClaimRow → List ClaimRow
put_row row [] = row ∷ []
put_row row (r ∷ rs) = if keyed row.repository row.issue r then row ∷ rs else r ∷ put_row row rs

-- DELETE … WHERE repository=? AND issue=?
unfoldable pub delete_row : Text → ℤ → List ClaimRow → List ClaimRow
delete_row repository issue = filter (λ r. not (keyed repository issue r))

-- UPDATE … SET state, reason, transfer, expires_at, updated_at WHERE repository=? AND issue=?
unfoldable pub hold_row : Text → ℤ → Text → Text → ℕ → ℕ → List ClaimRow → List ClaimRow
hold_row repository issue reason transfer until now [] = []
hold_row repository issue reason transfer until now (r ∷ rs) =
    (if keyed repository issue r
      then record r {
        state = codes "on-hold";
        reason = reason;
        transfer = transfer;
        expires_at = some until;
        updated_at = some now;
      }
      else r)
    ∷ hold_row repository issue reason transfer until now rs

-- A read before a write: a missing row is an answer, an unreadable one is an error.
abbrev pub known : Result ClaimError Claim → Result ClaimError (Option Claim)
known (ok c) = ok (some c)
known (err e) = err e

unfoldable pub find_claim : Text → ℤ → List ClaimRow → Result ClaimError (Option Claim)
find_claim repository issue rows = elim (find_row repository issue rows) [
  | none ↦ ok none
  | some r ↦ known (scan_claim r)
]

-- The arguments of TakeClaim.
pub record TakeRequest : Type 0 where
  pub repository : Text
  pub issue : ℤ
  pub holder : Text
  pub branch : Text
  pub reason : Text
  pub expires_at : ℕ

abbrev pub taken_row : ℕ → TakeRequest → Text → ℤ → Text → ℕ → ClaimRow
taken_row now q repository issue holder claimed_at = record {
  repository = repository;
  issue = issue;
  state = codes "held";
  holder = holder;
  branch = trim_space q.branch;
  reason = trim_space q.reason;
  transfer = [];
  claimed_at = some claimed_at;
  expires_at = some q.expires_at;
  updated_at = some now;
}

-- The write, and the read of what was stored.
unfoldable pub store_taken :
    ℕ
    → TakeRequest
    → Text
    → ℤ
    → Text
    → ℕ
    → List ClaimRow
    → Result ClaimError (Claim × List ClaimRow)
store_taken now q repository issue holder claimed_at rows = do
  let rows' = put_row (taken_row now q repository issue holder claimed_at) rows
  stored ← read_claim repository issue rows'
  ok (stored, rows')

-- The rules about a claim that stands already.
unfoldable pub take_over :
    ℕ
    → TakeRequest
    → Text
    → ℤ
    → Text
    → List ClaimRow
    → Option Claim
    → Result ClaimError (Claim × List ClaimRow)
take_over now q repository issue holder rows none =
    store_taken now q repository issue holder now rows
take_over now q repository issue holder rows (some e) =
    if live e now && not (text_eq e.holder holder)
    then err (claim_taken repository issue e.holder e.expires_at)
    else if live e now && text_eq e.holder holder
    then store_taken now q repository issue holder e.claimed_at rows
    else store_taken now q repository issue holder now rows

unfoldable pub take_keyed :
    ℕ → TakeRequest → List ClaimRow → Text × ℤ → Result ClaimError (Claim × List ClaimRow)
take_keyed now q rows (repository, issue) =
    let holder = trim_space q.holder in
    if is_empty holder
    then err needs_holder
    else if is_empty (trim_space q.reason)
    then err needs_reason
    else if q.expires_at == 0
    then err needs_expiry
    else if not (ltb now q.expires_at)
    then err already_expired
    else find_claim repository issue rows >>= take_over now q repository issue holder rows

unfoldable pub take_claim :
    ℕ → TakeRequest → List ClaimRow → Result ClaimError (Claim × List ClaimRow)
take_claim now q rows = claim_key q.repository q.issue >>= take_keyed now q rows
