-- ===== src/Gatekeeper/Authority.antt =====
-- Authorize allows a merge exactly on the conditions of an authority, and says which.
use machinist.Base.{
  ◌≡◌, refl, true, false, ◌↔◌, ◌⊎◌, inl, inr, arith, Bool-cases, Option-cases, [], ◌≢◌,
  is_empty-false_iff,
}
use machinist.Gatekeeper.Request.{Request, request_valid}
use machinist.Gatekeeper.Decision.{
  Tier, tier_valid, owner_named, green, reviewed, refuse, allow, Enablement, reviewed_allows,
  normalize,
}
use machinist.Gatekeeper.Authorize.{
  authorize_owner_named, authorize_tier, authorize, DeployRequest, authorize_deploy,
}
use machinist.Gatekeeper.Conditions.{IsComplete, OwnerMay, GreenMay, ReviewedMay}
use machinist.Gatekeeper.Checks.{request_valid-IsComplete}
use machinist.Gatekeeper.Sound.{Allows, Refuses, OwnerMay-cases, GreenMay-cases, ReviewedMay-cases}

module _ (r : Request) (e : Enablement) where
  tier_cases :
      (GreenMay r e × Allows green (authorize_tier r e))
      ⊎ ((¬ GreenMay r e) × ReviewedMay r e × Allows reviewed (authorize_tier r e))
      ⊎ ((¬ GreenMay r e) × (¬ ReviewedMay r e) × Refuses (authorize_tier r e))
  unfolding authorize_tier refuse
  tier_cases = ground (arith, GreenMay-cases r e, ReviewedMay-cases r e)

  incomplete_cases : (IsComplete r) ⊎ ((¬ IsComplete r) × Refuses (authorize r e))
  unfolding authorize refuse
  incomplete_cases = elim (Option-cases (request_valid r)) [
    | inl v ↦ inl ((request_valid-IsComplete r).0 v)
    | inr (problem, v) ↦
        inr ((λ c. ground (arith, (request_valid-IsComplete r).1 c)), ground (arith, v))
  ]

  complete_owner : IsComplete r → r.owner_named ≡ true → authorize r e ≡ authorize_owner_named r
  unfolding authorize
  complete_owner c named = ground (arith, (request_valid-IsComplete r).1 c)

  complete_tier : IsComplete r → r.owner_named ≡ false → authorize r e ≡ authorize_tier r e
  unfolding authorize
  complete_tier c named = ground (arith, (request_valid-IsComplete r).1 c)

  -- The four ways a decision can come out.
  pub data Ruling : Type 0 where
    by_owner : IsComplete r → OwnerMay r → Allows owner_named (authorize r e) → Ruling
    by_green :
        IsComplete r → r.owner_named ≡ false → GreenMay r e → Allows green (authorize r e) → Ruling
    by_reviewed :
        IsComplete r
        → r.owner_named ≡ false
        → (¬ GreenMay r e)
        → ReviewedMay r e
        → Allows reviewed (authorize r e)
        → Ruling
    by_nobody :
        (IsComplete r → OwnerMay r → ⊥)
        → (IsComplete r → r.owner_named ≡ false → GreenMay r e → ⊥)
        → (IsComplete r → r.owner_named ≡ false → ReviewedMay r e → ⊥)
        → Refuses (authorize r e)
        → Ruling

  ruling_of_complete : IsComplete r → Ruling
  ruling_of_complete c = elim (Bool-cases r.owner_named) [
    | inl n ↦
        let same = complete_owner c n in
        elim (OwnerMay-cases r e n) [
          | inl (m, a) ↦ by_owner c m (rw same a)
          | inr (m, a) ↦
              by_nobody (λ d. m) (λ d o. absurd (ground arith)) (λ d o. absurd (ground arith))
                (rw same a)
        ]
    | inr n ↦
        let same = complete_tier c n in
        elim tier_cases [
          | inl (g, a) ↦ by_green c n g (rw same a)
          | inr (inl (g, m, a)) ↦ by_reviewed c n g m (rw same a)
          | inr (inr (g, m, a)) ↦
              by_nobody (λ d o. absurd (not_named n o)) (λ d o. g) (λ d o. m) (rw same a)
        ]
  ]
    where
      not_named : r.owner_named ≡ false → OwnerMay r → ⊥
      not_named n o = ground (arith, n, o.named)

  settle : Ruling
  settle = elim incomplete_cases [
    | inl c ↦ ruling_of_complete c
    | inr (n, a) ↦ by_nobody (λ c m. n c) (λ c o m. n c) (λ c o m. n c) a
  ]

  owner_from : Ruling → ((authorize r e).0.tier ≡ owner_named) ↔ (IsComplete r × OwnerMay r)
  owner_from (by_owner c m a) = (λ t. (c, m), λ p. a.on_tier)
  owner_from (by_green c n g a) = (λ t. ground (arith, t), λ p. ground (arith, p.1.named))
  owner_from (by_reviewed c n g m a) = (λ t. ground (arith, t), λ p. ground (arith, p.1.named))
  owner_from (by_nobody o g m a) = (λ t. ground (arith, t), λ p. absurd (o p.0 p.1))

  green_from :
      Ruling
      → ((authorize r e).0.tier ≡ green) ↔ (IsComplete r × (r.owner_named ≡ false) × GreenMay r e)
  green_from (by_owner c m a) = (λ t. ground (arith, t), λ p. ground (arith, p.1, m.named))
  green_from (by_green c n g a) = (λ t. (c, n, g), λ p. a.on_tier)
  green_from (by_reviewed c n g m a) = (λ t. ground (arith, t), λ p. absurd (g p.2))
  green_from (by_nobody o g m a) = (λ t. ground (arith, t), λ p. absurd (g p.0 p.1 p.2))

  reviewed_from :
      Ruling
      → ((authorize r e).0.tier ≡ reviewed)
        ↔ (IsComplete r × (r.owner_named ≡ false) × (¬ GreenMay r e) × ReviewedMay r e)
  reviewed_from (by_owner c m a) = (λ t. ground (arith, t), λ p. ground (arith, p.1, m.named))
  reviewed_from (by_green c n g a) = (λ t. ground (arith, t), λ p. absurd (p.2 g))
  reviewed_from (by_reviewed c n g m a) = (λ t. (c, n, g, m), λ p. a.on_tier)
  reviewed_from (by_nobody o g m a) = (λ t. ground (arith, t), λ p. absurd (m p.0 p.1 p.3))

  settled_from :
      Ruling
      → ((t : Tier) × (tier_valid t ≡ true) × Allows t (authorize r e)) ⊎ Refuses (authorize r e)
  settled_from (by_owner c m a) = inl (owner_named, refl, a)
  settled_from (by_green c n g a) = inl (green, refl, a)
  settled_from (by_reviewed c n g m a) = inl (reviewed, refl, a)
  settled_from (by_nobody o g m a) = inr a

  pub authorize-owner_named_iff :
      ((authorize r e).0.tier ≡ owner_named) ↔ (IsComplete r × OwnerMay r)
  authorize-owner_named_iff = owner_from settle

  pub authorize-green_iff :
      ((authorize r e).0.tier ≡ green) ↔ (IsComplete r × (r.owner_named ≡ false) × GreenMay r e)
  authorize-green_iff = green_from settle

  -- A merge runs on the Reviewed tier exactly when the request is complete, the owner has not named
  -- the pull request, the conditions of Green do not hold, and those of Reviewed do.
  pub authorize-reviewed_iff :
      ((authorize r e).0.tier ≡ reviewed)
      ↔ (IsComplete r × (r.owner_named ≡ false) × (¬ GreenMay r e) × ReviewedMay r e)
  authorize-reviewed_iff = reviewed_from settle

  -- Every answer either allows the merge on a tier of the package, with no refusal and no error, or
  -- refuses it, on no tier and with no reasons, with a refusal that the error wraps.
  pub authorize_settled :
      ((t : Tier) × (tier_valid t ≡ true) × Allows t (authorize r e)) ⊎ Refuses (authorize r e)
  authorize_settled = settled_from settle

  -- With nothing enabled, a pull request that the owner has not named is refused.
  pub authorize_default :
      e.green ≡ false
      → e.reviewed_repositories ≡ []
      → r.owner_named ≡ false
      → Refuses (authorize r e)
  unfolding reviewed_allows
  authorize_default g l n = go settle
    where
      go : Ruling → Refuses (authorize r e)
      go (by_owner c m a) = ground (arith, m.named)
      go (by_green c o m a) = ground (arith, m.enabled)
      go (by_reviewed c o k m a) = ground (arith, m.enabled)
      go (by_nobody o k m a) = a

-- A deploy is allowed exactly when the owner authorized it and named its target, its procedure and
-- its release tag.
pub authorize_deploy-allowed_iff :
    (r : DeployRequest)
    → ((authorize_deploy r).0.allowed ≡ true) ↔ (
        (r.owner_authorized ≡ true)
        × (normalize r.target ≢ [])
        × (normalize r.procedure ≢ [])
        × (normalize r.tag ≢ []))
unfolding authorize_deploy refuse allow
authorize_deploy-allowed_iff r =
    let target = is_empty-false_iff (normalize r.target) in
    let procedure = is_empty-false_iff (normalize r.procedure) in
    let tag = is_empty-false_iff (normalize r.tag) in
    (λ h. ground (arith, target, procedure, tag), λ h. ground (arith, target, procedure, tag))
