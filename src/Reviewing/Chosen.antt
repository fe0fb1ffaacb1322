-- ===== src/Reviewing/Chosen.antt =====
-- The reviewer that is assigned may judge the work (internal/controlplane/reviewer_assigner.go).
use machinist.Base.{
  ◌≡◌, subst, Text, text_eq, text_eq_sym, true, false, ◌||◌, not, none, some, List, [], ◌∷◌, All,
  arith, any, is_empty, Bool-cases, inl, inr,
}
use machinist.Review.Types.{normalize}
use machinist.Review.Independence.{Party, is_reviewer, check_independence}
use machinist.Jobs.Create.{ResolvedCommand}
use machinist.Reviewing.Assigner.{
  reviewer_commands, command_profiles, independent_of, first_independent, independent_reviewer,
}

-- What the choice makes sure of.
abbrev Fits : Text → ResolvedCommand → Type 0
Fits author c =
    (is_reviewer c.role ≡ true)
    × (is_empty (command_profiles c) ≡ false)
    × (any (λ p. text_eq (normalize p) author) (command_profiles c) ≡ false)

first_independent-Fits :
    (author : Text) (commands : List ResolvedCommand) (c : ResolvedCommand)
    → first_independent author (reviewer_commands commands) ≡ some c
    → Fits author c
unfolding first_independent reviewer_commands independent_of
first_independent-Fits author [] c e = cc
first_independent-Fits author (d ∷ ds) c e = elim (Bool-cases (is_reviewer d.role)) [
  | inr other ↦ first_independent-Fits author ds c (rw other at e)
  | inl judge ↦
      let profiles = command_profiles d in
      elim (Bool-cases (is_empty profiles || not (independent_of author profiles))) [
        | inl skipped ↦ first_independent-Fits author ds c (ground (arith, judge, skipped, e))
        | inr taken ↦
            let same : d ≡ c = ground (arith, judge, taken, e) in
            subst (Fits author) same (judge, ground (arith, taken), ground (arith, taken))
      ]
]

All-passes :
    (author : Party) (role run_id : Text) (profiles : List Text)
    → is_empty (normalize author.agent) ≡ false
    → is_reviewer role ≡ true
    → is_reviewer author.role ≡ false
    → text_eq (normalize author.run_id) (normalize run_id) ≡ false
    → any (λ p. text_eq (normalize p) (normalize author.agent)) profiles ≡ false
    → All (λ p. is_empty (normalize p) ≡ false) profiles
    → All
        (λ p. check_independence author (record { role = role; agent = p; run_id = run_id }) ≡ none)
        profiles
unfolding check_independence
All-passes author role run_id [] a r w d n h = tt
All-passes author role run_id (p ∷ ps) a r w d n h = (
  ground (arith, a, r, w, d, n, h.0, text_eq_sym (normalize author.agent) (normalize p)),
  All-passes author role run_id ps a r w d (ground (arith, n)) h.1,
)

-- The command that is chosen to review an author is a reviewer's and has a profile. Where the author
-- is no reviewer himself and each of the command's profiles has a name, it passes the review's check
-- of independence in another run, on whichever of them it lands.
pub independent_reviewer-passes :
    (commands : List ResolvedCommand) (c : ResolvedCommand) (author : Party) (run_id : Text)
    → is_reviewer author.role ≡ false
    → text_eq (normalize author.run_id) (normalize run_id) ≡ false
    → independent_reviewer (reviewer_commands commands) author.agent ≡ some c
    → All (λ p. is_empty (normalize p) ≡ false) (command_profiles c)
    → (is_reviewer c.role ≡ true)
      × (is_empty (command_profiles c) ≡ false)
      × All
          (λ p.
            check_independence author (record { role = c.role; agent = p; run_id = run_id }) ≡ none)
          (command_profiles c)
unfolding independent_reviewer
independent_reviewer-passes commands c author run_id w d chosen named =
    let known : is_empty (normalize author.agent) ≡ false = ground (arith, chosen) in
    let (judge, filled, others) =
      first_independent-Fits (normalize author.agent) commands c (ground (arith, known, chosen)) in
    (
      judge,
      filled,
      All-passes author c.role run_id (command_profiles c) known judge w d others named,
    )
