-- ===== src/Jobs/Following.antt =====
-- The calls of internal/controlplane/store.go on the lives of the runs alone, and what follows for a
-- run that is over.
use machinist.Base.{
  ℕ, ◌≡◌, refl, ◌∙◌, Bool, true, false, ◌⊎◌, inl, inr, List, [], ◌∷◌, ◌++◌, All, Text, text_eq,
  text_eq_sym, filter, arith, Bool-cases,
}
use machinist.Jobs.Tables.{State}
use machinist.Jobs.Calls.{Call, creates, polls, completes, beats, binds, cancels, deletes, reclaims}
use machinist.Jobs.Life.{
  Life, waiting, over, Turn, starts, waits_again, gives_up, ends, Lives, here, next, Evolve, each,
  elsewhere,
}

-- A creation adds at most one life, which waits and has no attempt, behind the others; a deletion
-- takes away the lives of its job and no other; under every other call each life goes on.
abbrev pub Moves : Call → List Life → List Life → Type 0
Moves (creates job_id run_id q c) ls ls' =
    (ls' ≡ ls)
    ⊎ ((l : Life) × (l.id ≡ run_id)
        × (l.job_id ≡ job_id)
        × (l.phase ≡ waiting)
        × (l.attempts ≡ 0)
        × (ls' ≡ ls ++ l ∷ []))
Moves (deletes id) ls ls' = (ls' ≡ ls) ⊎ (ls' ≡ filter (elsewhere id) ls)
Moves (polls max require token attempt q) ls ls' = Evolve ls ls'
Moves (completes id c) ls ls' = Evolve ls ls'
Moves (beats id h) ls ls' = Evolve ls ls'
Moves (binds id q) ls ls' = Evolve ls ls'
Moves (cancels id) ls ls' = Evolve ls ls'
Moves reclaims ls ls' = Evolve ls ls'

-- One move for each call, in their order.
abbrev pub Follows : List (ℕ × Call) → List Life → List Life → Type 0
Follows [] ls ls' = ls' ≡ ls
Follows ((now, call) ∷ calls) ls ls' =
    (between : List Life) × Moves call ls between × Follows calls between ls'

-- A table holds a life.
pub data Has (l : Life) : List Life → Type 0 where
  first : {k : Life} {ls : List Life} → k ≡ l → Has l (k ∷ ls)
  behind : {k : Life} {ls : List Life} → Has l ls → Has l (k ∷ ls)

-- A call that deletes a job.
abbrev pub deletes_job : Text → Call → Bool
deletes_job job (creates job_id run_id q c) = false
deletes_job job (deletes id) = text_eq id job
deletes_job job (polls max require token attempt q) = false
deletes_job job (completes id c) = false
deletes_job job (beats id h) = false
deletes_job job (binds id q) = false
deletes_job job (cancels id) = false
deletes_job job reclaims = false

over-Turn : {A : Type 0} {l l' : Life} {end : State} → l.phase ≡ over end → Turn l l' → A
over-Turn e (starts p a q) = absurd (ground (arith, e, p))
over-Turn e (waits_again p a q) = absurd (ground (arith, e, p))
over-Turn e (gives_up s p t q) = absurd (ground (arith, e, p))
over-Turn e (ends s p t q) = absurd (ground (arith, e, p))

over-Lives : {l l' : Life} {end : State} → l.phase ≡ over end → Lives l l' → l' ≡ l
over-Lives e here = refl
over-Lives {end = end} e (next b t) =
    let same = over-Lives {end = end} e b in over-Turn {end = end} (rw same e) t

module _ (l : Life) (end : State) (ended : l.phase ≡ over end) where
  Has-Evolve : {ls ls' : List Life} → Has l ls → Evolve ls ls' → Has l ls'
  Has-Evolve (first e) (each a c) = first (over-Lives {end = end} (rw e ended) a ∙ e)
  Has-Evolve (behind h) (each a c) = behind (Has-Evolve h c)

  Has-append : {ls : List Life} (k : Life) → Has l ls → Has l (ls ++ k ∷ [])
  Has-append k (first e) = first e
  Has-append k (behind h) = behind (Has-append k h)

  Has-filter :
      (ls : List Life) (id : Text)
      → text_eq id l.job_id ≡ false
      → Has l ls
      → Has l (filter (elsewhere id) ls)
  Has-filter [] id d h = elim h [ ]
  Has-filter (k ∷ ls) id d (first e) =
      let kept : elsewhere id k ≡ true = rw e (ground (arith, d, text_eq_sym id l.job_id)) in
      rw kept (first e)
  Has-filter (k ∷ ls) id d (behind h) = elim (Bool-cases (elsewhere id k)) [
    | inl e ↦ rw e (behind (Has-filter ls id d h))
    | inr e ↦ rw e (Has-filter ls id d h)
  ]

  Has-Moves :
      (call : Call) (ls ls' : List Life)
      → deletes_job l.job_id call ≡ false
      → Moves call ls ls'
      → Has l ls
      → Has l ls'
  Has-Moves (creates job_id run_id q c) ls ls' d (inl e) h = rw e h
  Has-Moves (creates job_id run_id q c) ls ls' d (inr (k, i, j, p, a, e)) h = rw e (Has-append k h)
  Has-Moves (deletes id) ls ls' d (inl e) h = rw e h
  Has-Moves (deletes id) ls ls' d (inr e) h = rw e (Has-filter ls id d h)
  Has-Moves (polls max require token attempt q) ls ls' d m h = Has-Evolve h m
  Has-Moves (completes id c) ls ls' d m h = Has-Evolve h m
  Has-Moves (beats id q) ls ls' d m h = Has-Evolve h m
  Has-Moves (binds id q) ls ls' d m h = Has-Evolve h m
  Has-Moves (cancels id) ls ls' d m h = Has-Evolve h m
  Has-Moves reclaims ls ls' d m h = Has-Evolve h m

  pub Has-Follows :
      (calls : List (ℕ × Call)) (ls ls' : List Life)
      → All (λ c. deletes_job l.job_id c.1 ≡ false) calls
      → Follows calls ls ls'
      → Has l ls
      → Has l ls'
  Has-Follows [] ls ls' d m h = rw m h
  Has-Follows ((now, call) ∷ calls) ls ls' d m h =
      Has-Follows calls m.0 ls' d.1 m.2 (Has-Moves call ls m.0 d.0 m.1 h)
