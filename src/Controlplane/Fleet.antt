-- ===== src/Controlplane/Fleet.antt =====
-- Which polls a fleet lease lets through (internal/controlplane/lease.go).
use machinist.Base.{
  ℕ, ◌<◌, Text, text_eq, text_eq_iff, text_eq_refl, ◌≡◌, ◌≢◌, ◌↔◌, refl, sym, subst, is_some, ◌∙◌,
  ap, true, Option, none, some, List, [], ◌∷◌, is_empty-false_iff, trim_space, arith, if◌then◌else◌,
}
use machinist.Base.Result.{ok, ◌>>=◌, is_ok}
use machinist.Controlplane.Lease.{
  LeaseState, lease_allowed, lease_stood_down, parse_lease_state, allows, LeaseRow, LeaseRequest,
  judge_lease, put_lease, find_lease, set_lease, scan_lease, check_fleet_lease,
}

find_lease-put_lease :
    (row : LeaseRow) (fleet : Text) (rows : List LeaseRow)
    → find_lease fleet (put_lease row rows)
      ≡ (if text_eq row.fleet fleet then some row else find_lease fleet rows)
unfolding find_lease put_lease
find_lease-put_lease row fleet [] = refl
find_lease-put_lease row fleet (r ∷ rs) = ground (
  arith,
  find_lease-put_lease row fleet rs,
  text_eq_iff row.fleet fleet,
  text_eq_iff r.fleet fleet,
  text_eq_iff r.fleet row.fleet,
)

-- A deadline that can be read and is still to come.
abbrev pub Ahead : ℕ → Option ℕ → Type 0
Ahead now none = ⊥
Ahead now (some deadline) = now < deadline

-- A row that permits work: `allowed`, with a deadline ahead and a readable stamp.
abbrev pub Permits : ℕ → Option LeaseRow → Type 0
Permits now none = ⊥
Permits now (some r) =
    (parse_lease_state r.state ≡ some lease_allowed)
    × Ahead now r.expires_at
    × (is_some r.updated_at ≡ true)

judged :
    (fleet : Text) (now : ℕ) (r : LeaseRow)
    → (is_ok (scan_lease r >>= judge_lease fleet now) ≡ true) ↔ Permits now (some r)
unfolding scan_lease judge_lease allows
judged fleet now r = go (parse_lease_state r.state) r.expires_at r.updated_at refl refl refl
  where
    go :
        (s : Option LeaseState) (d u : Option ℕ)
        → parse_lease_state r.state ≡ s
        → r.expires_at ≡ d
        → r.updated_at ≡ u
        → (is_ok (scan_lease r >>= judge_lease fleet now) ≡ true) ↔ Permits now (some r)
    go none d u a b c = (λ h. ground arith, λ h. ground arith)
    go (some s) none u a b c = (λ h. ground arith, λ h. absurd (subst (Ahead now) b h.1))
    go (some s) (some d) none a b c = (λ h. ground arith, λ h. ground arith)
    go (some lease_allowed) (some d) (some u) a b c = (
      λ h. (a, subst (Ahead now) (sym b) (ground arith), ground arith),
      λ h. let ahead : now < d = subst (Ahead now) b h.1 in ground arith,
    )
    go (some lease_stood_down) (some d) (some u) a b c = (λ h. ground arith, λ h. ground arith)

-- A poll is let through exactly when the worker names a fleet and that fleet's row permits work.
pub check_fleet_lease-ok_iff :
    (name : Text) (now : ℕ) (rows : List LeaseRow)
    → (is_ok (check_fleet_lease name now rows) ≡ true)
      ↔ ((trim_space name ≢ []) × Permits now (find_lease (trim_space name) rows))
unfolding check_fleet_lease
check_fleet_lease-ok_iff name now rows = go (find_lease (trim_space name) rows) refl
  where
    go :
        (o : Option LeaseRow)
        → find_lease (trim_space name) rows ≡ o
        → (is_ok (check_fleet_lease name now rows) ≡ true)
          ↔ ((trim_space name ≢ []) × Permits now (find_lease (trim_space name) rows))
    go none e = (λ h. ground (arith, e), λ h. absurd (subst (Permits now) e h.1))
    go (some r) e =
        let j = judged (trim_space name) now r in
        let n = is_empty-false_iff (trim_space name) in
        (
          λ h. (ground (arith, e, n), subst (Permits now) (sym e) (j.0 (ground (arith, e, n)))),
          λ h. let p = j.1 (subst (Permits now) e h.1) in ground (arith, e, n, p),
        )

module _ (now : ℕ) (l : LeaseRequest) (rows rows' : List LeaseRow)
    (set : set_lease now l rows ≡ ok rows') where
  abbrev written : LeaseRow
  written = record {
    fleet = trim_space l.fleet;
    state = l.state;
    expires_at = some l.expires_at;
    reason = trim_space l.reason;
    updated_at = some now;
  }

  set_lease-put : rows' ≡ put_lease written rows
  unfolding set_lease
  set_lease-put = ground (arith, set)

  set_lease-named : trim_space l.fleet ≢ []
  unfolding set_lease
  set_lease-named = ground (arith, set, is_empty-false_iff (trim_space l.fleet))

  set_lease-found :
      (fleet : Text)
      → find_lease fleet rows'
        ≡ (if text_eq (trim_space l.fleet) fleet then some written else find_lease fleet rows)
  set_lease-found fleet =
      ap (find_lease fleet) set_lease-put ∙ find_lease-put_lease written fleet rows

  -- A lease that was set decides every later poll of its fleet: it is let through exactly if the
  -- lease allows work and its deadline is ahead. The polls of every other fleet are as before.
  pub set_lease-decides :
      (name : Text) (later : ℕ)
      → ((trim_space name ≡ trim_space l.fleet)
          → (is_ok (check_fleet_lease name later rows') ≡ true)
            ↔ ((parse_lease_state l.state ≡ some lease_allowed) × (later < l.expires_at)))
        × ((trim_space name ≢ trim_space l.fleet)
            → check_fleet_lease name later rows' ≡ check_fleet_lease name later rows)
  unfolding check_fleet_lease
  set_lease-decides name later = (
    λ same.
        let w : find_lease (trim_space name) rows' ≡ some written =
          set_lease-found (trim_space name)
          ∙ ground (arith, same, text_eq_refl (trim_space l.fleet)) in
        let g = check_fleet_lease-ok_iff name later rows' in
        (
          λ h. let p = subst (Permits later) w (g.0 h).1 in (p.0, p.1),
          λ h.
              g.1 (
                λ n. set_lease-named (sym same ∙ n),
                subst (Permits later) (sym w) (h.0, h.1, refl),
              ),
        ),
    λ other.
        let w : find_lease (trim_space name) rows' ≡ find_lease (trim_space name) rows =
          set_lease-found (trim_space name)
          ∙ ground (arith, other, text_eq_iff (trim_space l.fleet) (trim_space name)) in
        ground (arith, w),
  )
