-- ===== src/Review/Order.antt =====
-- What internal/review/review.go promises of the order of verdicts.
use machinist.Base.{
  ℕ, max, ◌≡◌, ◌↔◌, refl, none, some, List, [], ◌∷◌, true, false, arith, Bool-cases, inl, inr, ◌≢◌,
  All, sym, ◌∙◌,
}
use machinist.Review.Types.{
  Verdict, ready, changes_requested, escalate, other, strictness, verdict_valid, stricter,
  strictest, strictest_from,
}

-- The strictest of a list by strictness alone.
abbrev pub max_strictness : List Verdict → ℕ
max_strictness [] = 0
max_strictness (v ∷ vs) = max (strictness v) (max_strictness vs)

pub strictness-stricter :
    (a b : Verdict) → strictness (stricter a b) ≡ max (strictness a) (strictness b)
unfolding stricter
strictness-stricter a b = ground arith

-- One round of the loop, at a verdict that is listed.
from_step :
    (s v : Verdict) (vs : List Verdict)
    → verdict_valid s ≡ true
    → verdict_valid v ≡ true
    → (strictest_from s (v ∷ vs) ≡ strictest_from (stricter s v) vs)
      × (verdict_valid (stricter s v) ≡ true)
unfolding strictest_from
from_step ready v vs h k = (rw k, unfold stricter in ground arith)
from_step changes_requested v vs h k = (rw k, unfold stricter in ground arith)
from_step escalate v vs h k = (rw k, unfold stricter in ground arith)
from_step (other t) v vs h k = cc

from_invalid :
    (s v : Verdict) (vs : List Verdict) → verdict_valid v ≡ false → strictest_from s (v ∷ vs) ≡ none
unfolding strictest_from
from_invalid s v vs k = rw k

from-strictness :
    (s : Verdict) (vs : List Verdict)
    → verdict_valid s ≡ true
    → All (λ v. verdict_valid v ≡ true) vs
    → (t : Verdict) × (strictest_from s vs ≡ some t)
      × (strictness t ≡ max (strictness s) (max_strictness vs))
unfolding strictest_from
from-strictness s [] h a = (s, refl, omega arith)
from-strictness s (v ∷ vs) h a =
    let (e, k) = from_step s v vs h a.0 in
    let (t, et, st) = from-strictness (stricter s v) vs k a.1 in
    (t, e ∙ et, omega (arith, strictness-stricter s v))

stricter_ready :
    (s v : Verdict)
    → verdict_valid s ≡ true
    → verdict_valid v ≡ true
    → (stricter s v ≡ ready) ↔ ((s ≡ ready) × (v ≡ ready))
unfolding stricter
stricter_ready s v h k = (λ e. ground arith, λ e. ground arith)

from_ready :
    (s : Verdict) (vs : List Verdict)
    → verdict_valid s ≡ true
    → (strictest_from s vs ≡ some ready) ↔ ((s ≡ ready) × All (λ v. v ≡ ready) vs)
unfolding strictest_from
from_ready s [] h = (λ e. ground arith, λ e. ground arith)
from_ready s (v ∷ vs) h = elim (Bool-cases (verdict_valid v)) [
  | inl k ↦
      let (e, j) = from_step s v vs h k in
      let ih = from_ready (stricter s v) vs j in
      (
        λ r.
            let (p, q) = ih.0 (sym e ∙ r) in
            let (a, b) = (stricter_ready s v h k).0 p in (a, (b, q)),
        λ r. e ∙ ih.1 ((stricter_ready s v h k).1 (r.0, r.1.0), r.1.1),
      )
  | inr k ↦ (λ r. ground (arith, from_invalid s v vs k), λ r. ground arith)
]

strictest_step :
    (v : Verdict) (vs : List Verdict)
    → verdict_valid v ≡ true
    → strictest (v ∷ vs) ≡ strictest_from v vs
unfolding strictest strictest_from
strictest_step v vs k = rw k

strictest_invalid :
    (v : Verdict) (vs : List Verdict) → verdict_valid v ≡ false → strictest (v ∷ vs) ≡ none
unfolding strictest strictest_from
strictest_invalid v vs k = rw k

-- Several reviews together approve exactly when there is one and each of them approves.
pub strictest-ready_iff :
    (vs : List Verdict) → (strictest vs ≡ some ready) ↔ ((vs ≢ []) × All (λ v. v ≡ ready) vs)
unfolding strictest strictest_from
strictest-ready_iff [] = (λ e. ground arith, λ r. absurd (r.0 refl))
strictest-ready_iff (v ∷ vs) = elim (Bool-cases (verdict_valid v)) [
  | inl k ↦
      let e = strictest_step v vs k in
      let ih = from_ready v vs k in (λ r. ((λ n. cc), ih.0 (sym e ∙ r)), λ r. e ∙ ih.1 r.1)
  | inr k ↦ (λ r. ground (arith, strictest_invalid v vs k), λ r. ground arith)
]

-- Over verdicts of the contract the result is as strict as the strictest of them.
strictness-strictest :
    (v : Verdict) (vs : List Verdict)
    → All (λ w. verdict_valid w ≡ true) (v ∷ vs)
    → (t : Verdict) × (strictest (v ∷ vs) ≡ some t) × (strictness t ≡ max_strictness (v ∷ vs))
strictness-strictest v vs a =
    let (t, e, s) = from-strictness v vs a.0 a.1 in (t, strictest_step v vs a.0 ∙ e, s)
