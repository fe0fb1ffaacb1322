-- ===== src/Review/Independence.antt =====
-- internal/review/independence.go: who may judge whose work.
use machinist.Base.{
  Text, codes, text_eq, text_eq_iff, Bool, ◌&&◌, not, Option, none, some, ◌≡◌, ◌≢◌, ◌↔◌, [],
  is_empty, if◌then◌else◌, arith,
}
use machinist.Review.Types.{normalize}

abbrev pub role_reviewer : Text
role_reviewer = codes "reviewer"

unfoldable pub is_reviewer : Text → Bool
is_reviewer role = text_eq (normalize role) role_reviewer

pub record Party : Type 0 where
  pub role : Text
  pub agent : Text
  pub run_id : Text

-- The refusals that wrap ErrNotIndependent, with what their messages name.
pub data NotIndependent : Type 0 where
  author_unknown reviewer_unknown : NotIndependent
  reviewer_holds : Text → NotIndependent
  author_is_reviewer : NotIndependent
  same_agent : Text → NotIndependent
  same_run : Text → NotIndependent

unfoldable pub check_independence : Party → Party → Option NotIndependent
unfolding is_reviewer
check_independence author reviewer =
    if is_empty (normalize author.agent)
    then some author_unknown
    else if is_empty (normalize reviewer.agent)
    then some reviewer_unknown
    else if not (is_reviewer reviewer.role)
    then some (reviewer_holds reviewer.role)
    else if is_reviewer author.role
    then some author_is_reviewer
    else if text_eq (normalize author.agent) (normalize reviewer.agent)
    then some (same_agent reviewer.agent)
    else if not (is_empty (normalize author.run_id))
        && text_eq (normalize author.run_id) (normalize reviewer.run_id)
    then some (same_run author.run_id)
    else none

-- What independence asks, stated of the two parties.
pub record Independent (author reviewer : Party) : Type 0 where
  pub author_named : normalize author.agent ≢ []
  pub reviewer_named : normalize reviewer.agent ≢ []
  pub reviewer_role : normalize reviewer.role ≡ role_reviewer
  pub author_role : normalize author.role ≢ role_reviewer
  pub agents_differ : normalize author.agent ≢ normalize reviewer.agent
  pub runs_differ :
      normalize author.run_id ≢ [] → normalize author.run_id ≢ normalize reviewer.run_id

-- A review passes the check exactly when the two parties are independent.
pub check_independence-Independent :
    (author reviewer : Party)
    → (check_independence author reviewer ≡ none) ↔ Independent author reviewer
unfolding check_independence
check_independence-Independent a r =
    let judge = text_eq_iff (normalize r.role) role_reviewer in
    let worker = text_eq_iff (normalize a.role) role_reviewer in
    let agents = text_eq_iff (normalize a.agent) (normalize r.agent) in
    let runs = text_eq_iff (normalize a.run_id) (normalize r.run_id) in
    (
      λ h. ground (arith, judge, worker, agents, runs),
      λ h. ground (arith, judge, worker, agents, runs),
    )
