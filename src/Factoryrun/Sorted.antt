-- ===== src/Factoryrun/Sorted.antt =====
-- Sorting the checks keeps what is true of each (internal/factoryrun/marker.go).
use machinist.Base.{
  ◌≡◌, refl, ◌∙◌, Bool, false, ◌||◌, not, none, List, [], ◌∷◌, All, arith, any, is_empty,
  trim_space, insert_stable, sort_stable, any-sort_stable, Bool-cases, inl, inr,
}
use machinist.Factoryrun.Evidence.{Check, check_problem, state_valid}
use machinist.Factoryrun.Marker.{check_less, sort_checks}

module _ (P : Check → Type 0) where
  All-insert :
      (c : Check) (cs : List Check) → P c → All P cs → All P (insert_stable check_less c cs)
  unfolding insert_stable
  All-insert c [] h hs = (h, tt)
  All-insert c (d ∷ cs) h hs = elim (Bool-cases (check_less d c)) [
    | inl e ↦ rw e (hs.0, All-insert c cs h hs.1)
    | inr e ↦ rw e (h, hs)
  ]

  pub All-sort_checks : (cs : List Check) → All P cs → All P (sort_checks cs)
  unfolding sort_checks sort_stable
  All-sort_checks [] h = tt
  All-sort_checks (c ∷ cs) h = All-insert c (sort_stable check_less cs) h.0 (All-sort_checks cs h.1)

bad : Check → Bool
bad c = is_empty (trim_space c.name) || not (state_valid c.state)

any-bad : (cs : List Check) → check_problem cs ≡ none → any bad cs ≡ false
unfolding check_problem bad
any-bad [] h = refl
any-bad (c ∷ cs) h = ground (arith, any-bad cs, h)

none-bad : (cs : List Check) → any bad cs ≡ false → check_problem cs ≡ none
unfolding check_problem bad
none-bad [] h = refl
none-bad (c ∷ cs) h = ground (arith, none-bad cs, h)

pub check_problem-sort_checks :
    (cs : List Check) → check_problem cs ≡ none → check_problem (sort_checks cs) ≡ none
unfolding sort_checks
check_problem-sort_checks cs h =
    none-bad (sort_stable check_less cs) (any-sort_stable check_less bad cs ∙ any-bad cs h)
