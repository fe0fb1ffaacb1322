-- ===== src/Controlplane/Lease.antt =====
-- internal/controlplane/lease.go: which fleets may take work. The table fleet_leases is the list of
-- its rows. An instant is the number of nanoseconds since Go's zero time; a stored time is `none`
-- where its text does not parse, and one that was written reads back. The database takes each write.
use machinist.Base.{
  ℕ, Text, codes, text_eq, text_lt, ltb, ◌==◌, Bool, true, false, ◌&&◌, not, Option, none, some,
  List, [], ◌∷◌, is_empty, if◌then◌else◌, trim_space, sort_stable,
}
use machinist.Base.Result.{Result, ok, err, ◌>>=◌}

pub data LeaseState : Type 0 where
  lease_allowed lease_stood_down : LeaseState

abbrev pub lease_state_text : LeaseState → Text
lease_state_text lease_allowed = codes "allowed"
lease_state_text lease_stood_down = codes "stood-down"

-- ParseLeaseState; `none` is its error.
unfoldable pub parse_lease_state : Text → Option LeaseState
parse_lease_state value =
    let state = trim_space value in
    if text_eq state (codes "allowed")
    then some lease_allowed
    else if text_eq state (codes "stood-down")
    then some lease_stood_down
    else none

pub record Lease : Type 0 where
  pub fleet : Text
  pub state : LeaseState
  pub expires_at : ℕ
  pub reason : Text
  pub updated_at : ℕ

abbrev pub is_allowed : LeaseState → Bool
is_allowed lease_allowed = true
is_allowed lease_stood_down = false

-- Lease.Allows
unfoldable pub allows : Lease → ℕ → Bool
allows l now = is_allowed l.state && ltb now l.expires_at

pub record LeaseRow : Type 0 where
  pub fleet : Text
  pub state : Text
  pub expires_at : Option ℕ
  pub reason : Text
  pub updated_at : Option ℕ

-- The errors of the package's lease functions, with what their messages name.
pub data LeaseError : Type 0 where
  needs_fleet needs_expiry needs_reason no_rows : LeaseError
  bad_state : Text → LeaseError
  unreadable_state unreadable_expiry unreadable_timestamp : Text → LeaseError
  fleet_unnamed : LeaseError
  holds_no_lease : Text → LeaseError
  stood_down : Text → Text → LeaseError
  expired : Text → ℕ → Text → LeaseError

-- A lease as a caller hands it in: the state is any string.
pub record LeaseRequest : Type 0 where
  pub fleet : Text
  pub state : Text
  pub expires_at : ℕ
  pub reason : Text

-- INSERT … ON CONFLICT(fleet) DO UPDATE
unfoldable pub put_lease : LeaseRow → List LeaseRow → List LeaseRow
put_lease row [] = row ∷ []
put_lease row (r ∷ rs) = if text_eq r.fleet row.fleet then row ∷ rs else r ∷ put_lease row rs

-- SELECT … WHERE fleet=?
unfoldable pub find_lease : Text → List LeaseRow → Option LeaseRow
find_lease fleet [] = none
find_lease fleet (r ∷ rs) = if text_eq r.fleet fleet then some r else find_lease fleet rs

unfoldable pub set_lease : ℕ → LeaseRequest → List LeaseRow → Result LeaseError (List LeaseRow)
set_lease now l rows =
    let fleet = trim_space l.fleet in
    if is_empty fleet then err needs_fleet else elim (parse_lease_state l.state) [
      | none ↦ err (bad_state l.state)
      | some state ↦
          if l.expires_at == 0
          then err needs_expiry
          else if is_empty (trim_space l.reason)
          then err needs_reason
          else ok (
              put_lease
                (record {
                  fleet = fleet;
                  state = l.state;
                  expires_at = some l.expires_at;
                  reason = trim_space l.reason;
                  updated_at = some now;
                })
                rows)
    ]

scan_times : LeaseRow → LeaseState → Option ℕ → Option ℕ → Result LeaseError Lease
scan_times r state none updated = err (unreadable_expiry r.fleet)
scan_times r state (some expires) none = err (unreadable_timestamp r.fleet)
scan_times r state (some expires) (some updated) = ok (record {
  fleet = r.fleet;
  state = state;
  expires_at = expires;
  reason = r.reason;
  updated_at = updated;
})

unfoldable pub scan_lease : LeaseRow → Result LeaseError Lease
unfolding scan_times
scan_lease r = elim (parse_lease_state r.state) [
  | none ↦ err (unreadable_state r.fleet)
  | some state ↦ scan_times r state r.expires_at r.updated_at
]

-- Store.Lease
unfoldable pub lease : Text → List LeaseRow → Result LeaseError Lease
lease fleet rows = elim (find_lease (trim_space fleet) rows) [
  | none ↦ err no_rows
  | some r ↦ scan_lease r
]

scan_leases : List LeaseRow → Result LeaseError (List Lease)
scan_leases [] = ok []
scan_leases (r ∷ rs) = do l ← scan_lease r; ls ← scan_leases rs; ok (l ∷ ls)

-- Store.Leases
unfoldable pub leases : List LeaseRow → Result LeaseError (List Lease)
unfolding scan_leases
leases rows = do
  ls ← scan_leases rows
  ok (sort_stable (λ (a b : Lease). text_lt a.fleet b.fleet) ls)

-- The end of checkFleetLease, with a lease that has been read; `ok` is a nil error.
unfoldable pub judge_lease : Text → ℕ → Lease → Result LeaseError (Unit {0})
judge_lease fleet now l =
    if allows l now
    then ok tt
    else if not (is_allowed l.state)
    then err (stood_down fleet l.reason)
    else err (expired fleet l.expires_at l.reason)

unfoldable pub check_fleet_lease : Text → ℕ → List LeaseRow → Result LeaseError (Unit {0})
check_fleet_lease name now rows =
    let fleet = trim_space name in
    if is_empty fleet then err fleet_unnamed else elim (find_lease fleet rows) [
      | none ↦ err (holds_no_lease fleet)
      | some r ↦ scan_lease r >>= judge_lease fleet now
    ]
