-- ===== src/Reviewing/Assigner.antt =====
-- internal/controlplane/reviewer_assigner.go: which change is reviewed, and by which command.
use machinist.Base.{
  ℕ, ◌+◌, ◌==◌, Text, codes, text_eq, Bool, ◌||◌, not, Option, none, some, List, [], ◌∷◌, any,
  filter, if◌then◌else◌, is_empty, trim_space, equal_fold,
}
use machinist.Base.Int.{ℤ, pos, is_positive}
use machinist.Review.Types.{normalize}
use machinist.Review.Independence.{is_reviewer}
use machinist.Jobs.Create.{ResolvedCommand}

pub record LinkedPullRequest : Type 0 where
  pub state : Text
  pub number : ℤ

-- The loop: how many are open, and the number of the last of them.
unfoldable pub count_open : ℕ → ℤ → List LinkedPullRequest → ℕ × ℤ
count_open found number [] = (found, number)
count_open found number (p ∷ ps) =
    let test = equal_fold p.state (codes "open") in
    count_open (if test then found + 1 else found) (if test then p.number else number) ps

-- soleOpenPullRequest
unfoldable pub sole_open_pull_request : List LinkedPullRequest → Option ℤ
unfolding count_open
sole_open_pull_request linked =
    let (found, number) = count_open 0 (pos 0) linked in
    if not (found == 1) || not (is_positive number) then none else some number

-- reviewerCommands, of the commands that the definitions resolve to
unfoldable pub reviewer_commands : List ResolvedCommand → List ResolvedCommand
reviewer_commands commands = filter (λ (c : ResolvedCommand). is_reviewer c.role) commands

-- commandProfiles
unfoldable pub command_profiles : ResolvedCommand → List Text
command_profiles c =
    if is_empty (trim_space c.profile) then c.candidates else trim_space c.profile ∷ []

-- The inner loop: whether no profile is the author.
unfoldable pub independent_of : Text → List Text → Bool
independent_of author profiles = not (any (λ p. text_eq (normalize p) author) profiles)

unfoldable pub first_independent : Text → List ResolvedCommand → Option ResolvedCommand
first_independent author [] = none
first_independent author (c ∷ cs) =
    let rest = first_independent author cs in
    let profiles = command_profiles c in
    if is_empty profiles || not (independent_of author profiles) then rest else some c

-- independentReviewer
unfoldable pub independent_reviewer : List ResolvedCommand → Text → Option ResolvedCommand
independent_reviewer reviewers agent =
    if is_empty (normalize agent) then none else first_independent (normalize agent) reviewers
