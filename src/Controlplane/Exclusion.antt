-- ===== src/Controlplane/Exclusion.antt =====
-- Nobody takes, releases or holds a live claim of somebody else (internal/controlplane/claim.go).
use machinist.Base.{
  ℕ, ◌<◌, Text, text_eq_iff, ◌≡◌, ◌≢◌, refl, ◌∙◌, ap, true, false, Option, none, some, List, [],
  ◌∷◌, trim_space, arith, Bool-cases, inl, inr, All,
}
use machinist.Base.Int.{ℤ, int_eq_iff}
use machinist.Base.Result.{Result, ok, err, ◌>>=◌}
use machinist.Controlplane.Claim.{
  Claim, claim_taken, ClaimRow, ClaimError, claim_key, find_row, read_claim, put_row, hold_row,
  find_claim, TakeRequest, taken_row, store_taken, take_over, take_keyed, take_claim,
}
use machinist.Controlplane.Handover.{
  TransitionRequest, is_hold, leave, leave_found, transition_keyed, transition_claim,
}
use machinist.Controlplane.Rows.{same_key, find_row-put_row, find_row-delete_row, find_row-hold_row}

-- One call of the store; a release and a hold are transitions.
pub data Call : Type 0 where
  takes : TakeRequest → Call
  transitions : TransitionRequest → Call

-- The seat that makes the call, as the store reads it.
abbrev pub caller : Call → Text
caller (takes q) = trim_space q.holder
caller (transitions q) = trim_space q.holder

-- The table after a call: one that fails is rolled back.
abbrev pub after {ℓ} :
    {A : Type ℓ} → List ClaimRow → Result ClaimError (A × List ClaimRow) → List ClaimRow
after rows (ok (a, rows')) = rows'
after rows (err e) = rows

unfoldable pub step : List ClaimRow → ℕ × Call → List ClaimRow
step rows (now, takes q) = after rows (take_claim now q rows)
step rows (now, transitions q) = after rows (transition_claim now q rows)

unfoldable pub run : List ClaimRow → List (ℕ × Call) → List ClaimRow
run rows [] = rows
run rows (c ∷ cs) = run (step rows c) cs

-- What follows a check keeps a property that the table has.
after-bind :
    {A B : Type 0} (P : List ClaimRow → Type 0) (rows : List ClaimRow) (m : Result ClaimError A)
    (f : A → Result ClaimError (B × List ClaimRow))
    → P rows
    → ((a : A) → m ≡ ok a → P (after rows (f a)))
    → P (after rows (m >>= f))
after-bind P rows (ok a) f h k = k a refl
after-bind P rows (err e) f h k = h

module _ (repository : Text) (issue : ℤ) (rows : List ClaimRow) where
  -- The row of the key is as it was.
  abbrev Kept : List ClaimRow → Type 0
  Kept rows' = find_row repository issue rows' ≡ find_row repository issue rows

  store_taken-Kept :
      (now : ℕ) (q : TakeRequest) (r : Text) (i : ℤ) (holder : Text) (since : ℕ)
      → same_key r i repository issue ≡ false
      → Kept (after rows (store_taken now q r i holder since rows))
  unfolding store_taken
  store_taken-Kept now q r i holder since h =
      let row = taken_row now q r i holder since in
      after-bind Kept rows (read_claim r i (put_row row rows)) _ refl
        (λ a e. find_row-put_row row repository issue rows ∙ rw h)

  leave-Kept :
      (now : ℕ) (q : TransitionRequest) (r : Text) (i : ℤ)
      → same_key r i repository issue ≡ false
      → Kept (after rows (leave now q r i rows))
  unfolding leave
  leave-Kept now q r i h = elim (Bool-cases (is_hold q.into)) [
    | inr e ↦ rw e (find_row-delete_row r i repository issue rows ∙ rw h)
    | inl e ↦ rw e (
        after-bind Kept rows
          (read_claim r i
            (hold_row r i (trim_space q.reason) (trim_space q.transfer) q.until now rows))
          _ refl (λ a e'. find_row-hold_row r i _ _ _ _ repository issue rows h))
  ]

  module _ (e : Claim) (stands : find_claim repository issue rows ≡ ok (some e)) (now : ℕ)
      (unexpired : now < e.expires_at) where
    same_claim :
        (r : Text) (i : ℤ) (o : Option Claim)
        → same_key r i repository issue ≡ true
        → find_claim r i rows ≡ ok o
        → o ≡ some e
    same_claim r i o h k = ground (arith, text_eq_iff r repository, int_eq_iff i issue, stands, k)

    take_over_refused :
        (q : TakeRequest) (r : Text) (i : ℤ) (holder : Text)
        → holder ≢ e.holder
        → take_over now q r i holder rows (some e) ≡ err (claim_taken r i e.holder e.expires_at)
    unfolding take_over
    take_over_refused q r i holder other = ground (arith, text_eq_iff e.holder holder)

    take_over-free :
        (q : TakeRequest) (r : Text) (i : ℤ) (holder : Text) (o : Option Claim)
        → same_key r i repository issue ≡ false
        → Kept (after rows (take_over now q r i holder rows o))
    unfolding take_over
    take_over-free q r i holder none h = store_taken-Kept now q r i holder now h
    take_over-free q r i holder (some x) h = ground (
      arith,
      store_taken-Kept now q r i holder now h,
      store_taken-Kept now q r i holder x.claimed_at h,
    )

    take_over-Kept :
        (q : TakeRequest) (r : Text) (i : ℤ) (holder : Text) (o : Option Claim)
        → holder ≢ e.holder
        → find_claim r i rows ≡ ok o
        → Kept (after rows (take_over now q r i holder rows o))
    take_over-Kept q r i holder o other k = elim (Bool-cases (same_key r i repository issue)) [
      | inl h ↦ rw (same_claim r i o h k) (
          ap (λ a. find_row repository issue (after rows a)) (take_over_refused q r i holder other))
      | inr h ↦ take_over-free q r i holder o h
    ]

    leave_refused :
        (q : TransitionRequest) (r : Text) (i : ℤ) (holder : Text)
        → holder ≢ e.holder
        → leave_found now q r i holder rows (some e) ≡ err (claim_taken r i e.holder e.expires_at)
    unfolding leave_found
    leave_refused q r i holder other = ground (arith, text_eq_iff e.holder holder)

    leave_found-free :
        (q : TransitionRequest) (r : Text) (i : ℤ) (holder : Text) (o : Option Claim)
        → same_key r i repository issue ≡ false
        → Kept (after rows (leave_found now q r i holder rows o))
    unfolding leave_found
    leave_found-free q r i holder none h = refl
    leave_found-free q r i holder (some x) h = ground (arith, leave-Kept now q r i h)

    leave_found-Kept :
        (q : TransitionRequest) (r : Text) (i : ℤ) (holder : Text) (o : Option Claim)
        → holder ≢ e.holder
        → find_claim r i rows ≡ ok o
        → Kept (after rows (leave_found now q r i holder rows o))
    leave_found-Kept q r i holder o other k = elim (Bool-cases (same_key r i repository issue)) [
      | inl h ↦
          rw (same_claim r i o h k)
            (ap (λ a. find_row repository issue (after rows a)) (leave_refused q r i holder other))
      | inr h ↦ leave_found-free q r i holder o h
    ]

    take_keyed-Kept :
        (q : TakeRequest) (r : Text) (i : ℤ)
        → trim_space q.holder ≢ e.holder
        → Kept (after rows (take_keyed now q rows (r, i)))
    unfolding take_keyed
    take_keyed-Kept q r i other =
        let kept =
          after-bind Kept rows (find_claim r i rows)
            (take_over now q r i (trim_space q.holder) rows) refl
            (λ o k. take_over-Kept q r i (trim_space q.holder) o other k) in
        ground (arith, kept)

    transition_keyed-Kept :
        (q : TransitionRequest) (r : Text) (i : ℤ)
        → trim_space q.holder ≢ e.holder
        → Kept (after rows (transition_keyed now q rows (r, i)))
    unfolding transition_keyed
    transition_keyed-Kept q r i other =
        let kept =
          after-bind Kept rows (find_claim r i rows)
            (leave_found now q r i (trim_space q.holder) rows) refl
            (λ o k. leave_found-Kept q r i (trim_space q.holder) o other k) in
        ground (arith, kept)

    -- A call by anybody else leaves the row of a live claim as it is, whatever it asks for.
    step-Kept : (c : Call) → caller c ≢ e.holder → Kept (step rows (now, c))
    unfolding step take_claim transition_claim
    step-Kept (takes q) other =
        after-bind Kept rows (claim_key q.repository q.issue) _ refl
          (λ k e'. take_keyed-Kept q k.0 k.1 other)
    step-Kept (transitions q) other =
        after-bind Kept rows (claim_key q.repository q.issue) _ refl
          (λ k e'. transition_keyed-Kept q k.0 k.1 other)

find_claim-row :
    (repository : Text) (issue : ℤ) (rows rows' : List ClaimRow)
    → find_row repository issue rows' ≡ find_row repository issue rows
    → find_claim repository issue rows' ≡ find_claim repository issue rows
unfolding find_claim
find_claim-row repository issue rows rows' h = ground (arith, h)

-- A claim stands through any calls that others make before it expires, in any order.
pub run-stands :
    (repository : Text) (issue : ℤ) (e : Claim) (rows : List ClaimRow) (cs : List (ℕ × Call))
    → find_claim repository issue rows ≡ ok (some e)
    → All (λ (c : ℕ × Call). (c.0 < e.expires_at) × (caller c.1 ≢ e.holder)) cs
    → find_claim repository issue (run rows cs) ≡ ok (some e)
unfolding run
run-stands repository issue e rows [] stands a = stands
run-stands repository issue e rows ((now, c) ∷ cs) stands a =
    run-stands repository issue e (step rows (now, c)) cs
      (find_claim-row repository issue rows _
          (step-Kept repository issue rows e stands now a.0.0 c a.0.1)
        ∙ stands)
      a.1
