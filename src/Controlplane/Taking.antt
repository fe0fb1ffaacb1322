-- ===== src/Controlplane/Taking.antt =====
-- When a claim is taken, what is stored, and how it is given back (internal/controlplane/claim.go).
use machinist.Base.{
  ℕ, ◌<◌, Text, text_eq, text_eq_iff, text_eq_refl, ◌≡◌, ◌≢◌, ◌↔◌, refl, ◌∙◌, ap, true, ◌&&◌,
  Option, none, some, List, [], is_empty-false_iff, trim_space, arith, inl, inr, if◌then◌else◌, ◌⊎◌,
}
use machinist.Base.Int.{int_eq_iff, is_positive}
use machinist.Base.Result.{Result, ok, err, ◌>>=◌, is_ok}
use machinist.Controlplane.Claim.{
  claim_held, parse_claim_state, Claim, live, ClaimRow, ClaimError, claim_key, scan_claim, find_row,
  read_claim, put_row, find_claim, TakeRequest, taken_row, store_taken, take_over, take_keyed,
  take_claim,
}
use machinist.Controlplane.Rows.{find_row-put_row}

-- The claim that a take stores.
abbrev pub taken : ℕ → TakeRequest → ℕ → Claim
taken now q since = record {
  repository = trim_space q.repository;
  issue = q.issue;
  state = claim_held;
  holder = trim_space q.holder;
  branch = trim_space q.branch;
  reason = trim_space q.reason;
  transfer = [];
  claimed_at = since;
  expires_at = q.expires_at;
  updated_at = now;
}

-- Since when the claim counts: the holder's own live claim goes on.
abbrev pub since : ℕ → Text → Option Claim → ℕ
since now holder none = now
since now holder (some e) = if live e now && text_eq e.holder holder then e.claimed_at else now

-- No live claim of somebody else stands.
abbrev pub Free : ℕ → Text → Option Claim → Type 0
Free now holder none = Unit {0}
Free now holder (some e) = live e now ≡ true → e.holder ≡ holder

-- The arguments are those of a claim.
pub record IsClaim (now : ℕ) (q : TakeRequest) : Type 0 where
  pub repository_named : trim_space q.repository ≢ []
  pub issue_named : is_positive q.issue ≡ true
  pub holder_named : trim_space q.holder ≢ []
  pub reason_given : trim_space q.reason ≢ []
  pub in_future : now < q.expires_at

module _ (now : ℕ) (q : TakeRequest) (rows : List ClaimRow) where
  abbrev row : ℕ → ClaimRow
  row s = taken_row now q (trim_space q.repository) q.issue (trim_space q.holder) s

  scan_taken : (s : ℕ) → scan_claim (row s) ≡ ok (taken now q s)
  unfolding scan_claim parse_claim_state trim_space text_eq
  scan_taken s = refl

  find_taken :
      (s : ℕ) → find_row (trim_space q.repository) q.issue (put_row (row s) rows) ≡ some (row s)
  find_taken s =
      find_row-put_row (row s) (trim_space q.repository) q.issue rows
      ∙ ground (arith, text_eq_refl (trim_space q.repository), int_eq_iff q.issue q.issue)

  store_taken_lem :
      (s : ℕ)
      → store_taken now q (trim_space q.repository) q.issue (trim_space q.holder) s rows
        ≡ ok (taken now q s, put_row (row s) rows)
  unfolding store_taken read_claim
  store_taken_lem s = ground (arith, find_taken s, scan_taken s)

  take_over-Free :
      (o : Option Claim)
      → Free now (trim_space q.holder) o
      → take_over now q (trim_space q.repository) q.issue (trim_space q.holder) rows o
        ≡ ok (
          taken now q (since now (trim_space q.holder) o),
          put_row (row (since now (trim_space q.holder) o)) rows,
        )
  unfolding take_over
  take_over-Free none f = store_taken_lem now
  take_over-Free (some e) f = ground (
    arith,
    store_taken_lem now,
    store_taken_lem e.claimed_at,
    text_eq_iff e.holder (trim_space q.holder),
  )

  take_over_only-Free :
      (o : Option Claim)
      → is_ok (take_over now q (trim_space q.repository) q.issue (trim_space q.holder) rows o)
        ≡ true
      → Free now (trim_space q.holder) o
  unfolding take_over
  take_over_only-Free none h = tt
  take_over_only-Free (some e) h = λ l. ground (arith, text_eq_iff e.holder (trim_space q.holder))

  -- The checks of the arguments, with the read that follows.
  take_checked :
      IsClaim now q
      → take_claim now q rows ≡ (
          find_claim (trim_space q.repository) q.issue rows
          >>= take_over now q (trim_space q.repository) q.issue (trim_space q.holder) rows)
  unfolding take_claim take_keyed claim_key
  take_checked c = ground (
    arith,
    is_empty-false_iff (trim_space q.repository),
    is_empty-false_iff (trim_space q.holder),
    is_empty-false_iff (trim_space q.reason),
  )

  take_only-IsClaim : is_ok (take_claim now q rows) ≡ true → IsClaim now q
  unfolding take_claim take_keyed claim_key
  take_only-IsClaim h = ground (
    arith,
    is_empty-false_iff (trim_space q.repository),
    is_empty-false_iff (trim_space q.holder),
    is_empty-false_iff (trim_space q.reason),
  )

  abbrev found : Result ClaimError (Option Claim)
  found = find_claim (trim_space q.repository) q.issue rows

  found_cases :
      (m : Result ClaimError (Option Claim))
      → ((o : Option Claim) × (m ≡ ok o)) ⊎ ((x : ClaimError) × (m ≡ err x))
  found_cases (ok o) = inl (o, refl)
  found_cases (err x) = inr (x, refl)

  -- A take succeeds exactly when its arguments are those of a claim, the row of the issue can be
  -- read or is missing, and no live claim of somebody else stands.
  pub take_claim-ok_iff : (is_ok (take_claim now q rows) ≡ true) ↔ (
      IsClaim now q
      × ((o : Option Claim) × (find_claim (trim_space q.repository) q.issue rows ≡ ok o)
          × Free now (trim_space q.holder) o))
  take_claim-ok_iff =
      (λ h. to h (take_only-IsClaim h) (found_cases found), λ h. from h.0 h.1.0 h.1.1 h.1.2)
    where
      to :
          is_ok (take_claim now q rows) ≡ true
          → IsClaim now q
          → ((o : Option Claim) × (found ≡ ok o)) ⊎ ((x : ClaimError) × (found ≡ err x))
          → IsClaim now q × ((o : Option Claim) × (found ≡ ok o) × Free now (trim_space q.holder) o)
      to h c (inl (o, e)) =
          (c, (o, e, take_over_only-Free o (ground (arith, take_checked c, e, h))))
      to h c (inr (x, e)) = ground (arith, take_checked c, e, h)

      from :
          IsClaim now q
          → (o : Option Claim) → found ≡ ok o
          → Free now (trim_space q.holder) o
          → is_ok (take_claim now q rows) ≡ true
      from c o e f = ground (arith, take_checked c, e, take_over-Free o f)

module _ (now : ℕ) (q : TakeRequest) (rows rows' : List ClaimRow) (c : Claim)
    (took : take_claim now q rows ≡ ok (c, rows')) where
  -- What a successful take leaves: the stored claim is read back, names the caller's holder and
  -- expiry, and counts from the start of the holder's own live claim if there was one.
  pub take_claim_stores :
      (o : Option Claim)
      → find_claim (trim_space q.repository) q.issue rows ≡ ok o
      → (c ≡ taken now q (since now (trim_space q.holder) o))
        × (find_claim (trim_space q.repository) q.issue rows' ≡ ok (some c))
  unfolding find_claim
  take_claim_stores o e =
      let (k, (o', e', f)) = (take_claim-ok_iff now q rows).0 (ap is_ok took) in
      let stored = take_over-Free now q rows o' f in
      let checked = take_checked now q rows k in
      let same : o' ≡ o = ground (arith, e, e') in
      let s = since now (trim_space q.holder) o in
      let both : (c ≡ taken now q s) × (rows' ≡ put_row (row now q rows s) rows) =
        ground (arith, took, checked, e', stored, same) in
      ground (arith, both, find_taken now q rows s, scan_taken now q rows s)
