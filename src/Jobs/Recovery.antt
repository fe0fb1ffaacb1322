-- ===== src/Jobs/Recovery.antt =====
-- Recovery decides each run by itself, and leaves none behind (internal/controlplane/store.go).
use machinist.Base.{
  ℕ, ◌≡◌, refl, ◌∙◌, ap, Bool, false, not, List, [], ◌∷◌, All, arith, Bool-cases, inl, inr,
  if◌then◌else◌, leb, Text, any, map, arith,
}
use machinist.Base.Int.{is_positive}
use machinist.Jobs.Tables.{Run, Store, update, expired}
use machinist.Jobs.Recover.{
  expired_cancellation, cancel_expired, unknown_budget, unknown_budget_reason, exhausted,
  exhausted_reason, fail_expired, reclaimable, reclaim, finalize_expired_cancellations,
  abandon_expired_attempts, fail_runs, record_expired_run_failures, reclaim_runs,
  recover_expired_runs,
}

-- One update of one row.
abbrev pub turn : (Run → Bool) → (Run → Run) → Run → Run
turn p f r = if p r then f r else r

update-map :
    (p : Run → Bool) (f : Run → Run) (rows : List Run) → update p f rows ≡ map (turn p f) rows
unfolding update
update-map p f [] = refl
update-map p f (r ∷ rows) = ap (◌∷◌ (turn p f r)) (update-map p f rows)

update-map-map :
    (p : Run → Bool) (f g : Run → Run) (rows : List Run)
    → update p f (map g rows) ≡ map (λ r. turn p f (g r)) rows
unfolding update
update-map-map p f g [] = refl
update-map-map p f g (r ∷ rows) = ap (◌∷◌ (turn p f (g r))) (update-map-map p f g rows)

runs-fail_runs :
    (now : ℕ) (t : Text) (p : Run → Bool) (s : Store)
    → (fail_runs now t p s).runs ≡ update p (fail_expired now t) s.runs
unfolding fail_runs record_expired_run_failures
runs-fail_runs now t p s = elim (Bool-cases (any p s.runs)) [
  | inl e ↦ rw e refl
  | inr e ↦ rw e refl
]

-- The updates of a recovery, one after the other, on one row.
recover_row : ℕ → Run → Run
recover_row now r = turn (reclaimable now) reclaim (
    turn (exhausted now) (fail_expired now exhausted_reason) (
      turn (unknown_budget now) (fail_expired now unknown_budget_reason)
        (turn (expired_cancellation now) (cancel_expired now) r)))

runs-recover_row :
    (now : ℕ) (s : Store) → (recover_expired_runs now s).runs ≡ map (recover_row now) s.runs
unfolding recover_expired_runs reclaim_runs abandon_expired_attempts finalize_expired_cancellations
    recover_row
runs-recover_row now s =
    let s1 = abandon_expired_attempts now (finalize_expired_cancellations now s) in
    let s2 = fail_runs now unknown_budget_reason (unknown_budget now) s1 in
    let cancelling = turn (expired_cancellation now) (cancel_expired now) in
    let first : s1.runs ≡ map cancelling s.runs =
      update-map (expired_cancellation now) (cancel_expired now) s.runs in
    let second =
      runs-fail_runs now unknown_budget_reason (unknown_budget now) s1
      ∙ ap (update (unknown_budget now) (fail_expired now unknown_budget_reason)) first
      ∙ update-map-map (unknown_budget now) (fail_expired now unknown_budget_reason) cancelling
          s.runs in
    let third =
      runs-fail_runs now exhausted_reason (exhausted now) s2
      ∙ ap (update (exhausted now) (fail_expired now exhausted_reason)) second
      ∙ update-map-map (exhausted now) (fail_expired now exhausted_reason) _ s.runs in
    ap (update (reclaimable now) reclaim) third ∙ update-map-map (reclaimable now) reclaim _ s.runs

-- What becomes of a run, as one decision: a run whose lease has not lapsed stays; a cancellation that
-- was asked for is carried out; else a run goes back to the queue if it may be attempted again and
-- has no budget of tokens, and fails if not.
abbrev pub recovered : ℕ → Run → Run
recovered now r =
    if not (expired now r)
    then r
    else if r.cancel_requested
    then cancel_expired now r
    else if leb r.info.max_attempts r.attempt_count
    then fail_expired now exhausted_reason r
    else if is_positive r.info.max_total_tokens
    then fail_expired now unknown_budget_reason r
    else reclaim r

recover_row-recovered : (now : ℕ) (r : Run) → recover_row now r ≡ recovered now r
unfolding recover_row
recover_row-recovered now r = ground arith

map_ext : (f g : Run → Run) (rows : List Run) → ((r : Run) → f r ≡ g r) → map f rows ≡ map g rows
map_ext f g [] h = refl
map_ext f g (r ∷ rows) h = cc (h r, map_ext f g rows h)

-- The five updates of a recovery decide each run by itself.
pub runs-recover_expired_runs :
    (now : ℕ) (s : Store) → (recover_expired_runs now s).runs ≡ map (recovered now) s.runs
runs-recover_expired_runs now s =
    runs-recover_row now s
    ∙ map_ext (recover_row now) (recovered now) s.runs (recover_row-recovered now)

not-expired-recovered : (now : ℕ) (r : Run) → expired now (recovered now r) ≡ false
not-expired-recovered now r = ground arith

pub All-recovered :
    (P Q : Run → Type 0) (now : ℕ) (rows : List Run)
    → ((r : Run) → P r → Q (recovered now r))
    → All P rows
    → All Q (map (recovered now) rows)
All-recovered P Q now [] f h = tt
All-recovered P Q now (r ∷ rows) f h = (f r h.0, All-recovered P Q now rows f h.1)

All-rows : (rows : List Run) → All (λ r. Unit {0}) rows
All-rows [] = tt
All-rows (r ∷ rows) = (tt, All-rows rows)

-- After a recovery no run is running under a lease that has lapsed: each such run is queued again,
-- failed or cancelled.
pub recover_expired_runs_clears :
    (now : ℕ) (s : Store) → All (λ r. expired now r ≡ false) (recover_expired_runs now s).runs
recover_expired_runs_clears now s = rw (runs-recover_expired_runs now s) (
    All-recovered (λ r. Unit {0}) (λ r. expired now r ≡ false) now s.runs
      (λ r u. not-expired-recovered now r) (All-rows s.runs))
