-- ===== src/Gatekeeper/Runs.antt =====
-- Which run of a required check counts in internal/gatekeeper/mergeowed.go.
use machinist.Base.{
  ℕ, ◌<◌, ltb, ◌==◌, Text, text_eq, text_eq_iff, ◌≡◌, ◌⊎◌, refl, ◌∙◌, ap, Bool, true, false, ◌&&◌,
  ◌||◌, not, Option, none, some, List, [], ◌∷◌, all, arith, Bool-cases, inl, inr, max,
  if◌then◌else◌, trim_space,
}
use machinist.Base.Dict.{lookup, lookup-insert}
use machinist.Gatekeeper.Owed.{Tally, tally_check, tally, is_true}
use machinist.Gatekeeper.Change.{Check, succeeded}

-- A run of the check of that name.
abbrev pub is_run : Text → Check → Bool
is_run name c = text_eq (trim_space c.name) name

-- The instant of the newest run and whether all the runs of that instant succeeded.
abbrev pub Newest : Type 0
Newest = Option (ℕ × Bool)

abbrev pub absorb : Check → Newest → Newest
absorb c none = some (c.reported_at, succeeded c)
absorb c (some (at, good)) =
    if ltb at c.reported_at
    then some (c.reported_at, succeeded c)
    else if at == c.reported_at
    then some (at, good && succeeded c)
    else some (at, good)

unfoldable pub newest_of : Text → List Check → Newest → Newest
newest_of name [] v = v
newest_of name (c ∷ cs) v = newest_of name cs (if is_run name c then absorb c v else v)

-- What the two maps say of a name.
abbrev pub view_run : Option Check → Bool → Newest
view_run none amb = none
view_run (some c) amb = some (c.reported_at, succeeded c && not amb)

abbrev pub view : Text → Tally → Newest
view name t = view_run (lookup name t.newest) (is_true (lookup name t.ambiguous))

-- A name that has no run is not said to be ambiguous.
abbrev pub Fresh : Text → Tally → Type 0
Fresh name t = lookup name t.newest ≡ none → is_true (lookup name t.ambiguous) ≡ false

module _ (name : Text) (c : Check) (t : Tally) where
  view-tally_check :
      Fresh name t
      → view name (tally_check c t)
        ≡ (if is_run name c then absorb c (view name t) else view name t)
  unfolding tally_check
  view-tally_check f = ground (
    arith,
    text_eq_iff (trim_space c.name) name,
    lookup-insert (trim_space c.name) name c t.newest,
    lookup-insert (trim_space c.name) name true t.ambiguous,
    lookup-insert (trim_space c.name) name false t.ambiguous,
  )

  tally_check-Fresh : Fresh name t → Fresh name (tally_check c t)
  unfolding tally_check
  tally_check-Fresh f = ground (
    arith,
    text_eq_iff (trim_space c.name) name,
    lookup-insert (trim_space c.name) name c t.newest,
    lookup-insert (trim_space c.name) name true t.ambiguous,
    lookup-insert (trim_space c.name) name false t.ambiguous,
  )

pub view-tally :
    (name : Text) (cs : List Check) (t : Tally)
    → Fresh name t
    → view name (tally cs t) ≡ newest_of name cs (view name t)
unfolding tally newest_of
view-tally name [] t f = refl
view-tally name (c ∷ cs) t f =
    view-tally name cs (tally_check c t) (tally_check-Fresh name c t f)
    ∙ ap (newest_of name cs) (view-tally_check name c t f)

-- The instant of the newest run of a name, and 0 if it has none.
unfoldable pub latest : Text → List Check → ℕ
latest name [] = 0
latest name (c ∷ cs) = if is_run name c then max c.reported_at (latest name cs) else latest name cs

-- No run of that instant failed.
abbrev pub good_at : Text → ℕ → Check → Bool
good_at name at c = not (is_run name c) || (not (c.reported_at == at) || succeeded c)

-- The three ways in which one more run compares with the newest so far; `top` is the last instant.
module _ (at t top : ℕ) (good s rest : Bool) where
  abbrev folded : Bool
  folded = (good || not (at == top)) && ((not (t == top) || s) && rest)

  newer_run : at < top → ((s || not (t == top)) && rest) ≡ folded
  newer_run h = ground arith

  same_run : at ≡ t → (((good && s) || not (at == top)) && rest) ≡ folded
  same_run h = ground arith

  older_run : t < top → ((good || not (at == top)) && rest) ≡ folded
  older_run h = ground arith

unfoldable pub all_good : Text → ℕ → List Check → Bool
all_good name top cs = all (good_at name top) cs

abbrev pub settle : ℕ → Bool → (ℕ → Bool) → ℕ → ℕ × Bool
settle at good rest top = (top, (good || not (at == top)) && rest top)

-- What one more check changes, by whether it is a run of the name.
module _ (name : Text) (c : Check) (cs : List Check) where
  pub latest-run : is_run name c ≡ true → latest name (c ∷ cs) ≡ max c.reported_at (latest name cs)
  unfolding latest
  latest-run e = rw e

  pub latest-skip : is_run name c ≡ false → latest name (c ∷ cs) ≡ latest name cs
  unfolding latest
  latest-skip e = rw e

  pub newest_of-run :
      (v : Newest)
      → is_run name c ≡ true
      → newest_of name (c ∷ cs) v ≡ newest_of name cs (absorb c v)
  unfolding newest_of
  newest_of-run v e = rw e

  pub newest_of-skip :
      (v : Newest) → is_run name c ≡ false → newest_of name (c ∷ cs) v ≡ newest_of name cs v
  unfolding newest_of
  newest_of-skip v e = rw e

  pub all_good-run :
      (top : ℕ)
      → is_run name c ≡ true
      → all_good name top (c ∷ cs)
        ≡ ((not (c.reported_at == top) || succeeded c) && all_good name top cs)
  unfolding all_good
  all_good-run top e = rw e

  pub all_good-skip :
      (top : ℕ) → is_run name c ≡ false → all_good name top (c ∷ cs) ≡ all_good name top cs
  unfolding all_good
  all_good-skip top e = rw e

absorb-newer :
    (c : Check) (at : ℕ) (good : Bool)
    → at < c.reported_at
    → absorb c (some (at, good)) ≡ some (c.reported_at, succeeded c)
absorb-newer c at good h = ground arith

absorb-same :
    (c : Check) (at : ℕ) (good : Bool)
    → at ≡ c.reported_at
    → absorb c (some (at, good)) ≡ some (at, good && succeeded c)
absorb-same c at good h = ground arith

absorb-older :
    (c : Check) (at : ℕ) (good : Bool)
    → c.reported_at < at
    → absorb c (some (at, good)) ≡ some (at, good)
absorb-older c at good h = ground arith

three_ways : (a b : ℕ) → (a < b) ⊎ ((a ≡ b) ⊎ (b < a))
three_ways a b = ground arith

pub newest_of-some :
    (name : Text) (cs : List Check) (at : ℕ) (good : Bool)
    → newest_of name cs (some (at, good))
      ≡ some (settle at good (λ top. all_good name top cs) (max at (latest name cs)))
newest_of-some name [] at good = unfold newest_of latest all_good in ground arith
newest_of-some name (c ∷ cs) at good = elim (Bool-cases (is_run name c)) [
  | inr e ↦
      newest_of-skip name c cs (some (at, good)) e
      ∙ newest_of-some name cs at good
      ∙ rw (latest-skip name c cs e, all_good-skip name c cs _ e)
  | inl e ↦
      newest_of-run name c cs (some (at, good)) e
      ∙ go e (newest_of-some name cs c.reported_at (succeeded c))
          (newest_of-some name cs at (good && succeeded c)) (newest_of-some name cs at good)
          (three_ways at c.reported_at)
]
  where
    t : ℕ
    t = c.reported_at

    rest : ℕ → Bool
    rest top = all_good name top cs

    top : ℕ
    top = max at (latest name (c ∷ cs))

    joined :
        is_run name c ≡ true
        → (b : Bool)
        → b ≡ ((good || not (at == top)) && ((not (t == top) || succeeded c) && rest top))
        → some (top, b) ≡ some (settle at good (λ x. all_good name x (c ∷ cs)) top)
    joined e b h = ap (λ x. some (top, x)) (h ∙ rw (all_good-run name c cs top e))

    go :
        is_run name c ≡ true
        → newest_of name cs (some (t, succeeded c))
          ≡ some (settle t (succeeded c) rest (max t (latest name cs)))
        → newest_of name cs (some (at, good && succeeded c))
          ≡ some (settle at (good && succeeded c) rest (max at (latest name cs)))
        → newest_of name cs (some (at, good)) ≡ some (settle at good rest (max at (latest name cs)))
        → (at < t) ⊎ ((at ≡ t) ⊎ (t < at))
        → newest_of name cs (absorb c (some (at, good)))
          ≡ some (settle at good (λ x. all_good name x (c ∷ cs)) top)
    go e x y z (inl lt) =
        let l = latest-run name c cs e in
        let same : max t (latest name cs) ≡ top = omega (arith, l) in
        ap (newest_of name cs) (absorb-newer c at good lt)
        ∙ x
        ∙ ap (λ m. some (settle t (succeeded c) rest m)) same
        ∙ joined e _ (newer_run at t top good (succeeded c) (rest top) (omega (arith, l)))
    go e x y z (inr (inl eq)) =
        let l = latest-run name c cs e in
        let same : max at (latest name cs) ≡ top = omega (arith, l) in
        ap (newest_of name cs) (absorb-same c at good eq)
        ∙ y
        ∙ ap (λ m. some (settle at (good && succeeded c) rest m)) same
        ∙ joined e _ (same_run at t top good (succeeded c) (rest top) eq)
    go e x y z (inr (inr gt)) =
        let l = latest-run name c cs e in
        let same : max at (latest name cs) ≡ top = omega (arith, l) in
        ap (newest_of name cs) (absorb-older c at good gt)
        ∙ z
        ∙ ap (λ m. some (settle at good rest m)) same
        ∙ joined e _ (older_run at t top good (succeeded c) (rest top) (omega (arith, l)))
