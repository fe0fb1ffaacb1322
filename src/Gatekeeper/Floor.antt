-- ===== src/Gatekeeper/Floor.antt =====
-- No tier reaches a protected path (internal/gatekeeper/tiers.go).
use machinist.Base.{
  or_shuffle, Text, ◌≡◌, refl, ◌∙◌, Bool, true, false, ◌&&◌, ◌||◌, not, List, [], ◌∷◌, ◌++◌,
  is_empty, any, any-false_iff, any_of_contains, contains, All, All-map, ◌⊎◌, inl, inr, arith,
  Bool-cases, trim_space, sort_strings, any-sort_stable, text_lt, if◌then◌else◌,
}
use machinist.Gatekeeper.Request.{Request, paths}
use machinist.Review.Policy.{default_protected_paths}
use machinist.Gatekeeper.Decision.{
  Enablement, Tier, tier_valid, owner_named, reviewed, green, other,
}
use machinist.Gatekeeper.Paths.{match_path, protected_floor, add_patterns, merge_patterns}
use machinist.Gatekeeper.Tiers.{reviewed_patterns}
use machinist.Gatekeeper.Authorize.{authorize}
use machinist.Gatekeeper.Conditions.{OwnerMay, Untouched}
use machinist.Gatekeeper.Authority.{
  authorize-owner_named_iff, authorize-green_iff, authorize-reviewed_iff, authorize_settled,
}

-- A pattern counts as it is trimmed, and not if nothing is left of it.
abbrev pub counts : (Text → Bool) → Text → Bool
counts p pattern = not (is_empty (trim_space pattern)) && p (trim_space pattern)

any-append_one :
    (p : Text → Bool) (xs : List Text) (x : Text) → any p (xs ++ x ∷ []) ≡ (p x || any p xs)
any-append_one p [] x = refl
any-append_one p (y ∷ xs) x = ground (arith, any-append_one p xs x)

-- One pattern that is not yet merged adds itself.
any-add_one :
    (p : Text → Bool) (merged : List Text) (clean : Text)
    → any p (if contains clean merged then merged else merged ++ clean ∷ [])
      ≡ (p clean || any p merged)
any-add_one p merged clean = elim (Bool-cases (contains clean merged)) [
  | inl c ↦ rw c (there (Bool-cases (p clean)) c)
  | inr c ↦ rw c (any-append_one p merged clean)
]
  where
    there :
        (p clean ≡ true) ⊎ (p clean ≡ false)
        → contains clean merged ≡ true
        → any p merged ≡ (p clean || any p merged)
    there (inl e) c = rw e (any_of_contains p clean merged c e)
    there (inr e) c = rw e

any-add_patterns :
    (p : Text → Bool) (merged patterns : List Text)
    → any p (add_patterns merged patterns) ≡ (any p merged || any (counts p) patterns)
unfolding add_patterns
any-add_patterns p merged [] = ground arith
any-add_patterns p merged (x ∷ xs) = elim (Bool-cases (is_empty (trim_space x))) [
  | inl e ↦ rw e (any-add_patterns p merged xs)
  | inr e ↦ rw e (
      any-add_patterns p
        (if contains (trim_space x) merged then merged else merged ++ trim_space x ∷ []) xs
      ∙ rw (any-add_one p merged (trim_space x)) (or_shuffle (p (trim_space x)) (any p merged) _))
]

-- The merged patterns match what one of the three lists matches.
any-merge_patterns :
    (p : Text → Bool) (a b c : List Text)
    → any p (merge_patterns a b c) ≡ (any (counts p) a || any (counts p) b || any (counts p) c)
unfolding merge_patterns sort_strings
any-merge_patterns p a b c =
    any-sort_stable text_lt p _
    ∙ any-add_patterns p (add_patterns (add_patterns [] a) b) c
    ∙ ground (arith, any-add_patterns p (add_patterns [] a) b, any-add_patterns p [] a)

-- No changed path is matched by a pattern of the list, as it is trimmed.
abbrev pub Clear : Request → List Text → Type 0
Clear r patterns =
    All (λ path. (path ≡ []) ⊎ All (λ x. counts (λ y. match_path y path) x ≡ false) patterns)
      (paths r)

merged-Clear :
    (a b c : List Text) (ps : List Text)
    → All (λ p. (p ≡ []) ⊎ All (λ x. match_path x p ≡ false) (merge_patterns a b c)) ps
    → All (λ p. (p ≡ []) ⊎ All (λ x. counts (λ y. match_path y p) x ≡ false) a) ps
      × All (λ p. (p ≡ []) ⊎ All (λ x. counts (λ y. match_path y p) x ≡ false) b) ps
      × All (λ p. (p ≡ []) ⊎ All (λ x. counts (λ y. match_path y p) x ≡ false) c) ps
merged-Clear a b c [] h = (tt, tt, tt)
merged-Clear a b c (p ∷ ps) (inl e, h) =
    let (x, y, z) = merged-Clear a b c ps h in ((inl e, x), (inl e, y), (inl e, z))
merged-Clear a b c (p ∷ ps) (inr m, h) =
    let (x, y, z) = merged-Clear a b c ps h in
    let none_match = (any-false_iff (λ q. match_path q p) (merge_patterns a b c)).1 m in
    let merged = any-merge_patterns (λ q. match_path q p) a b c in
    (
      (inr ((any-false_iff _ a).0 (ground (arith, merged, none_match))), x),
      (inr ((any-false_iff _ b).0 (ground (arith, merged, none_match))), y),
      (inr ((any-false_iff _ c).0 (ground (arith, merged, none_match))), z),
    )

-- The floor's patterns are trimmed already.
floor-Untouched : (r : Request) → Clear r protected_floor → Untouched r protected_floor
unfolding trim_space
floor-Untouched r h = All-map (λ p e. go p e) (paths r) h
  where
    go :
        (p : Text)
        → (p ≡ []) ⊎ All (λ x. counts (λ y. match_path y p) x ≡ false) protected_floor
        → (p ≡ []) ⊎ All (λ x. match_path x p ≡ false) protected_floor
    go p (inl e) = inl e
    go p (inr a) = inr a

module _ (r : Request) (e : Enablement) where
  -- A merge on the Reviewed tier changes no path that a pattern of the floor, of the repository's
  -- own list or of the review engine's defaults matches.
  pub authorize-reviewed-Clear :
      (authorize r e).0.tier ≡ reviewed
      → Clear r protected_floor × Clear r r.protected_paths × Clear r default_protected_paths
  unfolding reviewed_patterns
  authorize-reviewed-Clear t =
      let (c, n, g, m) = (authorize-reviewed_iff r e).0 t in
      merged-Clear protected_floor r.protected_paths default_protected_paths (paths r) m.unprotected

  -- No merge that the owner has not named changes a path of the floor, whatever is enabled and
  -- whatever the repository's own list says.
  pub authorize_floor :
      (authorize r e).0.allowed ≡ true → r.owner_named ≡ false → Untouched r protected_floor
  authorize_floor a n = elim (authorize_settled r e) [
    | inl (t, valid, allows) ↦ on t valid allows.on_tier
    | inr refuses ↦ absurd (ground (arith, refuses.not_allowed))
  ]
    where
      on :
          (t : Tier)
          → tier_valid t ≡ true
          → (authorize r e).0.tier ≡ t
          → Untouched r protected_floor
      on owner_named v e' = absurd (named ((authorize-owner_named_iff r e).0 e').1)
        where
          named : OwnerMay r → ⊥
          named m = ground (arith, m.named)
      on green v e' = ((authorize-green_iff r e).0 e').2.floor_untouched
      on reviewed v e' = floor-Untouched r (authorize-reviewed-Clear e').0
      on (other t) v e' = ground arith
