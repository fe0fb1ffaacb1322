-- ===== src/Jobs/Turns.antt =====
-- What each write to a row of internal/controlplane/store.go does to the life of the run.
use machinist.Base.{ℕ, ◌<◌, ◌≡◌, refl, true, ◌⊎◌, inl, inr, Text, arith, Bool-cases, leb}
use machinist.Base.Int.{is_positive}
use machinist.Jobs.Tables.{
  State, failed, cancelled, is_queued, is_running, terminal_run_state, Run, Executor, expired,
}
use machinist.Jobs.Recovery.{recovered}
use machinist.Jobs.Poll.{lease_row}
use machinist.Jobs.Greet.{PollRequest}
use machinist.Jobs.Complete.{requeue, conclude}
use machinist.Jobs.Report.{Completion, Metrics}
use machinist.Jobs.Operate.{extend_lease, cancel_queued, ask_cancel}
use machinist.Jobs.Budget.{
  IsSound, recovered-IsSound, lease_row-IsSound, requeue-IsSound, conclude-IsSound,
  extend_lease-IsSound, cancel_queued-IsSound, ask_cancel-IsSound,
}
use machinist.Jobs.Life.{
  waiting, working, over, phase_of, life, Turn, starts, waits_again, gives_up, ends, Row,
}

queued-waiting : (s : State) → is_queued s ≡ true → phase_of s ≡ waiting
queued-waiting s h = ground (arith, h)

running-working : (s : State) → is_running s ≡ true → phase_of s ≡ working
running-working s h = ground (arith, h)

terminal-over : (s : State) → terminal_run_state s ≡ true → phase_of s ≡ over s
terminal-over s h = ground (arith, h)

pub lease_row-Row :
    (now : ℕ) (token attempt : Text) (q : PollRequest) (place : Executor) (r : Run)
    → is_queued r.state ≡ true
    → IsSound r
    → Row r (lease_row now token attempt q place r)
lease_row-Row now token attempt q place r e h = (
  lease_row-IsSound now token attempt q place r e h,
  inr (starts (queued-waiting r.state e) (h.spare e) refl),
)

pub requeue-Row :
    (c : Completion) (m : Metrics) (next : ℕ) (r : Run)
    → is_running r.state ≡ true
    → r.attempt_count < r.info.max_attempts
    → Row r (requeue c m next r)
requeue-Row c m next r e l =
    (requeue-IsSound c m next r l, inr (waits_again (running-working r.state e) l refl))

pub conclude-Row :
    (now : ℕ) (c : Completion) (m : Metrics) (r : Run)
    → is_running r.state ≡ true
    → terminal_run_state c.state ≡ true
    → IsSound r
    → Row r (conclude now c m r)
conclude-Row now c m r e t h = (
  conclude-IsSound now c m r t h,
  inr (ends c.state (running-working r.state e) t (rw (terminal-over c.state t) refl)),
)

pub extend_lease-Row :
    (now : ℕ) (r : Run) → is_running r.state ≡ true → IsSound r → Row r (extend_lease now r)
extend_lease-Row now r e h = (extend_lease-IsSound now r e h, inl refl)

pub cancel_queued-Row :
    (now : ℕ) (r : Run) → is_queued r.state ≡ true → IsSound r → Row r (cancel_queued now r)
cancel_queued-Row now r e h =
    (cancel_queued-IsSound now r e h, inr (gives_up cancelled (queued-waiting r.state e) refl refl))

pub ask_cancel-Row : (r : Run) → IsSound r → Row r (ask_cancel r)
ask_cancel-Row r h = (ask_cancel-IsSound r h, inl refl)

-- A recovery ends a run whose lease has lapsed, or lets it wait again within its limit.
recovered-Turn :
    (now : ℕ) (r : Run) → (life (recovered now r) ≡ life r) ⊎ Turn (life r) (life (recovered now r))
recovered-Turn now r = elim (Bool-cases (expired now r)) [
  | inr held ↦ inl (rw held)
  | inl gone ↦
      let w = running-working r.state (ground (arith, gone)) in
      elim (Bool-cases r.cancel_requested) [
        | inl asked ↦ inr (ends cancelled w refl (rw (gone, asked)))
        | inr unasked ↦ elim (Bool-cases (leb r.info.max_attempts r.attempt_count)) [
          | inl spent ↦ inr (ends failed w refl (rw (gone, unasked, spent)))
          | inr left ↦ elim (Bool-cases (is_positive r.info.max_total_tokens)) [
            | inl bounded ↦ inr (ends failed w refl (rw (gone, unasked, left, bounded)))
            | inr free ↦ inr (waits_again w (ground (arith, left)) (rw (gone, unasked, left, free)))
          ]
        ]
      ]
]

pub recovered-Row : (now : ℕ) (r : Run) → IsSound r → Row r (recovered now r)
recovered-Row now r h = (recovered-IsSound now r h, recovered-Turn now r)
