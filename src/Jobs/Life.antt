-- ===== src/Jobs/Life.antt =====
-- The life of a run as internal/controlplane/store.go promises it: what is left of the table of runs
-- without leases, workers and results, and how it may change.
use machinist.Base.{
  ℕ, ◌+◌, ◌<◌, ◌≡◌, refl, Bool, true, ◌⊎◌, inl, inr, List, [], ◌∷◌, ◌++◌, map, All, Text, text_eq,
  ap, not, Bool-cases, filter, some,
}
use machinist.Jobs.Tables.{
  State, queued, running, succeeded, failed, timed_out, cancelled, abandoned, other,
  terminal_run_state, Run, update, update_key, select,
}
use machinist.Jobs.Budget.{IsSound}

-- Waiting for a worker, worked at, or over, in which state.
pub data Phase : Type 0 where
  waiting working : Phase
  over : State → Phase

abbrev pub phase_of : State → Phase
phase_of queued = waiting
phase_of running = working
phase_of succeeded = over succeeded
phase_of failed = over failed
phase_of timed_out = over timed_out
phase_of cancelled = over cancelled
phase_of abandoned = over abandoned
phase_of (other t) = over (other t)

pub record Life : Type 0 where
  pub id : Text
  pub job_id : Text
  pub phase : Phase
  pub attempts : ℕ
  pub limit : ℕ

abbrev pub life : Run → Life
life r = record {
  id = r.id;
  job_id = r.job_id;
  phase = phase_of r.state;
  attempts = r.attempt_count;
  limit = r.info.max_attempts;
}

-- One change of one life. An attempt starts only within the limit, only a run that is worked at
-- waits again, and what is over does not change.
pub data Turn (l l' : Life) : Type 0 where
  starts :
      l.phase ≡ waiting
      → l.attempts < l.limit
      → l' ≡ record l { phase = working; attempts = l.attempts + 1 }
      → Turn l l'
  waits_again :
      l.phase ≡ working → l.attempts < l.limit → l' ≡ record l { phase = waiting } → Turn l l'
  gives_up :
      (s : State)
      → l.phase ≡ waiting
      → terminal_run_state s ≡ true
      → l' ≡ record l { phase = over s }
      → Turn l l'
  ends :
      (s : State)
      → l.phase ≡ working
      → terminal_run_state s ≡ true
      → l' ≡ record l { phase = over s }
      → Turn l l'

-- Any number of changes of one life.
pub data Lives (l : Life) : Life → Type 0 where
  here : Lives l l
  next : {l' l'' : Life} → Lives l l' → Turn l' l'' → Lives l l''

Lives-trans : {l l' l'' : Life} → Lives l l' → Lives l' l'' → Lives l l''
Lives-trans a here = a
Lives-trans a (next b t) = next (Lives-trans a b) t

-- Every life of a table goes on in its place: none is added, lost or moved.
pub data Evolve : List Life → List Life → Type 0 where
  nobody : Evolve [] []
  each :
      {l l' : Life} {ls ls' : List Life} → Lives l l' → Evolve ls ls' → Evolve (l ∷ ls) (l' ∷ ls')

Evolve-refl : (ls : List Life) → Evolve ls ls
Evolve-refl [] = nobody
Evolve-refl (l ∷ ls) = each here (Evolve-refl ls)

Evolve-trans : {ls ls' ls'' : List Life} → Evolve ls ls' → Evolve ls' ls'' → Evolve ls ls''
Evolve-trans nobody nobody = nobody
Evolve-trans (each a c) (each b d) = each (Lives-trans a b) (Evolve-trans c d)

-- What one write of the code may do to a row.
abbrev pub Row : Run → Run → Type 0
Row r r' = IsSound r' × ((life r' ≡ life r) ⊎ Turn (life r) (life r'))

-- What a call may do to a table in which it neither adds nor deletes.
abbrev pub Goes : List Run → List Run → Type 0
Goes rows rows' = All IsSound rows → All IsSound rows' × Evolve (map life rows) (map life rows')

pub Goes-refl : (rows : List Run) → Goes rows rows
Goes-refl rows h = (h, Evolve-refl (map life rows))

pub Goes-trans :
    (rows rows' rows'' : List Run) → Goes rows rows' → Goes rows' rows'' → Goes rows rows''
Goes-trans rows rows' rows'' f g h = let (k, a) = f h in let (m, b) = g k in (m, Evolve-trans a b)

Lives-one : {l l' : Life} → (l' ≡ l) ⊎ Turn l l' → Lives l l'
Lives-one (inl e) = rw e here
Lives-one (inr t) = next here t

pub Goes-map :
    (f : Run → Run) (rows : List Run)
    → ((r : Run) → IsSound r → Row r (f r))
    → Goes rows (map f rows)
Goes-map f [] go h = (tt, nobody)
Goes-map f (r ∷ rows) go h =
    let (k, c) = Goes-map f rows go h.1 in let (m, d) = go r h.0 in ((m, k), each (Lives-one d) c)

pub Goes-update :
    (p : Run → Bool) (f : Run → Run) (rows : List Run)
    → ((r : Run) → p r ≡ true → IsSound r → Row r (f r))
    → Goes rows (update p f rows)
unfolding update
Goes-update p f [] go h = (tt, nobody)
Goes-update p f (r ∷ rows) go h =
    let (k, c) = Goes-update p f rows go h.1 in
    elim (Bool-cases (p r)) [
      | inl e ↦ rw e (let (m, d) = go r e h.0 in ((m, k), each (Lives-one d) c))
      | inr e ↦ rw e ((h.0, k), each here c)
    ]

pub Goes-update_key :
    (p : Run → Bool) (f : Run → Run) (rows : List Run)
    → ((r : Run) → select p rows ≡ some r → p r ≡ true → IsSound r → Row r (f r))
    → Goes rows (update_key p f rows)
unfolding update_key select
Goes-update_key p f [] go h = (tt, nobody)
Goes-update_key p f (r ∷ rows) go h = elim (Bool-cases (p r)) [
  | inl e ↦ rw e (
      let (m, d) = go r (rw e refl) e h.0 in
      ((m, h.1), each (Lives-one d) (Evolve-refl (map life rows))))
  | inr e ↦
      rw e (
        let (k, c) = Goes-update_key p f rows (λ b s. go b (rw e s)) h.1 in ((h.0, k), each here c))
]

pub filter-Sound :
    (p : Run → Bool) (rows : List Run) → All IsSound rows → All IsSound (filter p rows)
filter-Sound p [] h = tt
filter-Sound p (r ∷ rows) h = elim (Bool-cases (p r)) [
  | inl e ↦ rw e (h.0, filter-Sound p rows h.1)
  | inr e ↦ rw e (filter-Sound p rows h.1)
]

pub append-Sound :
    (rows : List Run) (r : Run) → IsSound r → All IsSound rows → All IsSound (rows ++ r ∷ [])
append-Sound [] r k h = (k, tt)
append-Sound (a ∷ rows) r k h = (h.0, append-Sound rows r k h.1)

pub map-life-append :
    (rows : List Run) (r : Run) → map life (rows ++ r ∷ []) ≡ map life rows ++ life r ∷ []
map-life-append [] r = refl
map-life-append (a ∷ rows) r = ap (λ ls. life a ∷ ls) (map-life-append rows r)

-- A life of another job than one that is deleted.
abbrev pub elsewhere : Text → Life → Bool
elsewhere id l = not (text_eq l.job_id id)

pub map-life-filter :
    (id : Text) (rows : List Run)
    → map life (filter (λ (r : Run). not (text_eq r.job_id id)) rows)
      ≡ filter (elsewhere id) (map life rows)
map-life-filter id [] = refl
map-life-filter id (r ∷ rows) = elim (Bool-cases (text_eq r.job_id id)) [
  | inl e ↦ rw e (map-life-filter id rows)
  | inr e ↦ rw e (ap (λ ls. life r ∷ ls) (map-life-filter id rows))
]
