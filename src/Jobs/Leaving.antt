-- ===== src/Jobs/Leaving.antt =====
-- The stores that a poll may leave (internal/controlplane/store.go).
use machinist.Base.{
  ℕ, ◌≡◌, subst, Text, Bool, ◌||◌, not, none, some, arith, any, all, ltb, Bool-cases, Option-cases,
  inl, inr,
}
use machinist.Base.Int.{ℤ, pos, int_lt}
use machinist.Base.Result.{ok, Result-cases}
use machinist.Controlplane.Lease.{check_fleet_lease}
use machinist.Jobs.Tables.{Executor, Run, Store, select}
use machinist.Jobs.Greet.{PollRequest, greet, transports_of}
use machinist.Jobs.Poll.{
  at_capacity, lease_run, choose_run, dispatch, poll_gate, poll_greeted, poll, queued_run, active,
  readable, is_refusal, supported_transport,
}

-- What is true of the store as it was, of the greeted one, and of that one with the chosen run leased
-- is true of the store that a poll leaves.
module _ (P : Store → Type 0) (now : ℕ) (max : ℤ) (require : Bool) (token attempt : Text)
    (q : PollRequest) (s : Store) (before : P s) (greeted : P (greet now q s))
    (leased : (r : Run) (place : Executor)
      → choose_run now (at_capacity max (greet now q s)) q (greet now q s) (greet now q s).runs
        ≡ ok (some (r, place))
      → P (lease_run now token attempt q place r (greet now q s))) where
  ends : (t t' : Store) → t ≡ t' → P t → P t'
  ends t t' e h = subst P e h

  dispatch_leaves : P (dispatch now max token attempt q s (greet now q s)).1
  unfolding dispatch
  dispatch_leaves =
      let g = greet now q s in
      let left = (dispatch now max token attempt q s g).1 in
      elim (Result-cases (choose_run now (at_capacity max g) q g g.runs)) [
        | inl (e, refused) ↦ ends s left (ground (arith, refused)) before
        | inr (none, chose) ↦ ends g left (ground (arith, chose)) greeted
        | inr (some (r, place), chose) ↦ elim (Bool-cases (any (queued_run r.id) g.runs)) [
          | inl waits ↦
              ends (lease_run now token attempt q place r g) left (ground (arith, chose, waits))
                (leased r place chose)
          | inr gone ↦ ends s left (ground (arith, chose, gone)) before
        ]
      ]

  poll_gate_leaves : P (poll_gate now max require token attempt q s (greet now q s)).1
  unfolding poll_gate
  poll_gate_leaves =
      let g = greet now q s in
      let passed = (dispatch now max token attempt q s g).1 in
      let left = (poll_gate now max require token attempt q s g).1 in
      elim (Bool-cases require) [
        | inr free ↦ ends passed left (ground (arith, free)) dispatch_leaves
        | inl gated ↦ elim (Result-cases (check_fleet_lease q.fleet now g.leases)) [
          | inr (o, holds) ↦ ends passed left (ground (arith, gated, holds)) dispatch_leaves
          | inl (e, refused) ↦ elim (Bool-cases (is_refusal e)) [
            | inl told ↦ ends g left (ground (arith, gated, refused, told)) greeted
            | inr broke ↦ ends s left (ground (arith, gated, refused, broke)) before
          ]
        ]
      ]

  poll_greeted_leaves : P (poll_greeted now max require token attempt q s (greet now q s)).1
  unfolding poll_greeted
  poll_greeted_leaves =
      let g = greet now q s in
      let left = (poll_greeted now max require token attempt q s g).1 in
      elim (Option-cases (select (active q g) g.runs)) [
        | inl idle ↦
            ends (poll_gate now max require token attempt q s g).1 left (ground (arith, idle))
              poll_gate_leaves
        | inr (r, busy) ↦ elim (Bool-cases (readable r)) [
          | inl reads ↦ ends g left (ground (arith, busy, reads)) greeted
          | inr broken ↦ ends s left (ground (arith, busy, broken)) before
        ]
      ]

  pub poll_leaves : P (poll now max require token attempt q s).1
  unfolding poll
  poll_leaves =
      let left = (poll now max require token attempt q s).1 in
      let refused =
        int_lt max (pos 0)
        || (not q.environment_valid
            || (ltb 65536 q.profiles_size || not (all supported_transport (transports_of q)))) in
      elim (Bool-cases refused) [
        | inl bad ↦ ends s left (ground (arith, bad)) before
        | inr fine ↦
            ends (poll_greeted now max require token attempt q s (greet now q s)).1 left
              (ground (arith, fine)) poll_greeted_leaves
      ]
