-- ===== src/Controlplane/Examples.antt =====
-- Concrete tables: the fixtures, and the theorems about leases and claims applied to them.
use machinist.Base.{
  ℕ, ◌<◌, codes, text_eq, text_eq_iff, clash, sym, ◌∙◌, ◌≡◌, ◌≢◌, ◌↔◌, refl, true, false, Option,
  some, [], ◌∷◌, All, trim_space, arith,
}
use machinist.Base.Int.{pos}
use machinist.Base.Result.{ok, is_ok}
use machinist.Controlplane.Lease.{
  lease_allowed, parse_lease_state, allows, LeaseRow, LeaseRequest, put_lease, find_lease,
  set_lease, scan_lease, judge_lease, check_fleet_lease,
}
use machinist.Controlplane.Fleet.{Permits, check_fleet_lease-ok_iff, set_lease-decides}
use machinist.Controlplane.Claim.{
  claim_held, parse_claim_state, Claim, ClaimRow, scan_claim, find_row, read_claim, put_row,
  find_claim, TakeRequest, claim_key, store_taken, take_over, take_keyed, take_claim,
}
use machinist.Controlplane.Handover.{TransitionRequest}
use machinist.Controlplane.Exclusion.{Call, takes, transitions, caller, run, run-stands}
use machinist.Controlplane.Taking.{
  taken, since, Free, IsClaim, take_claim-ok_iff, take_claim_stores,
}

abbrev request : TakeRequest
request = record {
  repository = codes " acme/tool";
  issue = pos 5;
  holder = codes "seat-1 ";
  branch = codes "fix";
  reason = codes "work";
  expires_at = 100;
}

-- The table after the seat took the issue at 10.
abbrev standing_row : ClaimRow
standing_row = record {
  repository = codes "acme/tool";
  issue = pos 5;
  state = codes "held";
  holder = codes "seat-1";
  branch = codes "fix";
  reason = codes "work";
  transfer = [];
  claimed_at = some 10;
  expires_at = some 100;
  updated_at = some 10;
}

abbrev standing : Claim
standing = taken 10 request 10

took : take_claim 10 request [] ≡ ok (standing, standing_row ∷ [])
unfolding take_claim take_keyed claim_key find_claim find_row take_over store_taken put_row
    read_claim scan_claim parse_claim_state trim_space text_eq
took = refl

took_ok : is_ok (take_claim 10 request []) ≡ true
took_ok = rw took

take_claim-ok_iff_example :
    IsClaim 10 request
    × ((o : Option Claim) × (find_claim (trim_space (codes " acme/tool")) (pos 5) [] ≡ ok o)
        × Free 10 (trim_space (codes "seat-1 ")) o)
take_claim-ok_iff_example = (take_claim-ok_iff 10 request []).0 took_ok

abbrev renewed_row : ClaimRow
renewed_row = record standing_row { updated_at = some 20 }

-- The holder's own claim goes on: it counts from 10, not from 20.
renewed : take_claim 20 request (standing_row ∷ []) ≡ ok (taken 20 request 10, renewed_row ∷ [])
unfolding take_claim take_keyed claim_key find_claim find_row take_over store_taken put_row
    read_claim scan_claim parse_claim_state trim_space text_eq
renewed = refl

found_standing :
    find_claim (trim_space (codes " acme/tool")) (pos 5) (standing_row ∷ []) ≡ ok (some standing)
unfolding find_claim find_row scan_claim parse_claim_state trim_space text_eq
found_standing = refl

take_claim_stores_example :
    (taken 20 request 10
      ≡ taken 20 request (since 20 (trim_space (codes "seat-1 ")) (some standing)))
    × (find_claim (trim_space (codes " acme/tool")) (pos 5) (renewed_row ∷ [])
        ≡ ok (some (taken 20 request 10)))
take_claim_stores_example =
    take_claim_stores 20 request (standing_row ∷ []) (renewed_row ∷ []) (taken 20 request 10)
      renewed (some standing) found_standing

abbrev rival : TakeRequest
rival = record request { holder = codes "seat-2" }

abbrev rival_release : TransitionRequest
rival_release = record {
  repository = codes "acme/tool";
  issue = pos 5;
  holder = codes "seat-2";
  reason = codes "mine";
  into = claim_held;
  until = 0;
  transfer = [];
}

found_taken : find_claim (codes "acme/tool") (pos 5) (standing_row ∷ []) ≡ ok (some standing)
unfolding find_claim find_row scan_claim parse_claim_state trim_space text_eq
found_taken = refl

seats_differ : text_eq (codes "seat-2") (codes "seat-1") ≡ false
unfolding text_eq
seats_differ = refl

other_seat : codes "seat-2" ≢ codes "seat-1"
other_seat e = clash (sym seats_differ ∙ (text_eq_iff (codes "seat-2") (codes "seat-1")).1 e)

rivals_wait :
    All
      (λ (c : ℕ × Call). (c.0 < standing.expires_at) × (caller c.1 ≢ standing.holder))
      ((30, takes rival) ∷ (40, transitions rival_release) ∷ [])
unfolding trim_space
rivals_wait = ((omega arith, other_seat), ((omega arith, other_seat), tt))

run-stands_example :
    find_claim
      (codes "acme/tool")
      (pos 5)
      (run (standing_row ∷ []) ((30, takes rival) ∷ (40, transitions rival_release) ∷ []))
    ≡ ok (some standing)
run-stands_example =
    run-stands (codes "acme/tool") (pos 5) standing (standing_row ∷ [])
      ((30, takes rival) ∷ (40, transitions rival_release) ∷ []) found_taken rivals_wait

abbrev granted : LeaseRequest
granted = record {
  fleet = codes "blue ";
  state = codes "allowed";
  expires_at = 100;
  reason = codes "night run";
}

abbrev granted_row : LeaseRow
granted_row = record {
  fleet = codes "blue";
  state = codes "allowed";
  expires_at = some 100;
  reason = codes "night run";
  updated_at = some 10;
}

polled : is_ok (check_fleet_lease (codes "blue") 50 (granted_row ∷ [])) ≡ true
unfolding check_fleet_lease find_lease scan_lease judge_lease allows parse_lease_state trim_space
    text_eq
polled = refl

check_fleet_lease-ok_iff_example :
    (trim_space (codes "blue") ≢ [])
    × Permits 50 (find_lease (trim_space (codes "blue")) (granted_row ∷ []))
check_fleet_lease-ok_iff_example =
    (check_fleet_lease-ok_iff (codes "blue") 50 (granted_row ∷ [])).0 polled

granted_set : set_lease 10 granted [] ≡ ok (granted_row ∷ [])
unfolding set_lease put_lease parse_lease_state trim_space text_eq
granted_set = refl

set_lease-decides_example :
    ((trim_space (codes "blue") ≡ trim_space (codes "blue "))
      → (is_ok (check_fleet_lease (codes "blue") 50 (granted_row ∷ [])) ≡ true)
        ↔ ((parse_lease_state (codes "allowed") ≡ some lease_allowed) × (50 < 100)))
    × ((trim_space (codes "blue") ≢ trim_space (codes "blue "))
        → check_fleet_lease (codes "blue") 50 (granted_row ∷ [])
          ≡ check_fleet_lease (codes "blue") 50 [])
set_lease-decides_example =
    set_lease-decides 10 granted [] (granted_row ∷ []) granted_set (codes "blue") 50
