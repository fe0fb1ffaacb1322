-- ===== src/Base/Lists.antt =====
-- Lists measured by native numbers, tested and filtered by Boolean functions.
use Prim.Native.Nat.{ℕ, zero, suc}
use mathlib.Core.Path.{sym, ◌≡◌, refl}
use mathlib.Core.Logic.{◌≢◌, ◌↔◌, ◌⊎◌, inl, inr}
use mathlib.Core.Bool.{Bool, true, false, ◌&&◌, ◌||◌}
use mathlib.Core.List.{List, [], ◌∷◌}
use mathlib.Core.Option.{Option, none, some}
use native.Mathlib.Omega.{arith}
use machinist.Base.Tests.{if◌then◌else◌, Bool-cases}

module _ {ℓ} {A : Type ℓ} where
  abbrev pub length : List A → ℕ
  length [] = 0
  length (x ∷ xs) = suc (length xs)

  abbrev pub is_empty : List A → Bool
  is_empty [] = true
  is_empty (x ∷ xs) = false

  abbrev pub take : ℕ → List A → List A
  take zero xs = []
  take (suc n) [] = []
  take (suc n) (x ∷ xs) = x ∷ take n xs

  abbrev pub any : (A → Bool) → List A → Bool
  any p [] = false
  any p (x ∷ xs) = p x || any p xs

  abbrev pub all : (A → Bool) → List A → Bool
  all p [] = true
  all p (x ∷ xs) = p x && all p xs

  -- The items that pass a Boolean test.
  abbrev pub filter : (A → Bool) → List A → List A
  filter p [] = []
  filter p (x ∷ xs) = if p x then x ∷ filter p xs else filter p xs

  -- The first item that passes.
  abbrev pub find : (A → Bool) → List A → Option A
  find p [] = none
  find p (x ∷ xs) = if p x then some x else find p xs

  -- Every item satisfies `P`.
  abbrev pub All {κ} : (A → Type κ) → List A → Type κ
  All P [] = Unit
  All P (x ∷ xs) = P x × All P xs

  -- Some item satisfies `P`.
  abbrev pub Any : (A → Type 0) → List A → Type 0
  Any P [] = ⊥
  Any P (x ∷ xs) = P x ⊎ Any P xs

pub clash : false ≡ true → ⊥
clash h = cc

module _ {ℓ} {A : Type ℓ} where
  pub any_iff : (p : A → Bool) (xs : List A) → (any p xs ≡ true) ↔ Any (λ x. p x ≡ true) xs
  any_iff p [] = (λ h. cc, λ h. elim h [ ])
  any_iff p (x ∷ xs) = (λ h. to (any_iff p xs).0 h, λ h. from (any_iff p xs).1 h)
    where
      to :
          (any p xs ≡ true → Any (λ x. p x ≡ true) xs)
          → (p x || any p xs) ≡ true
          → (p x ≡ true) ⊎ Any (λ x. p x ≡ true) xs
      to ih h = elim (Bool-cases (p x)) [ inl e ↦ inl e | inr e ↦ inr (ih (rw e at h)) ]

      from :
          (Any (λ x. p x ≡ true) xs → any p xs ≡ true)
          → (p x ≡ true) ⊎ Any (λ x. p x ≡ true) xs
          → (p x || any p xs) ≡ true
      from ih (inl e) = rw e
      from ih (inr e) = ground (arith, ih e)

  pub all_iff : (p : A → Bool) (xs : List A) → (all p xs ≡ true) ↔ All (λ x. p x ≡ true) xs
  all_iff p [] = (λ h. tt, λ h. refl)
  all_iff p (x ∷ xs) = (λ h. to (all_iff p xs).0 h, λ h. from (all_iff p xs).1 h)
    where
      to :
          (all p xs ≡ true → All (λ x. p x ≡ true) xs)
          → (p x && all p xs) ≡ true
          → (p x ≡ true) × All (λ x. p x ≡ true) xs
      to ih h = elim (Bool-cases (p x)) [ inl e ↦ (e, ih (rw e at h)) | inr e ↦ cc h ]

      from :
          (All (λ x. p x ≡ true) xs → all p xs ≡ true)
          → (p x ≡ true) × All (λ x. p x ≡ true) xs
          → (p x && all p xs) ≡ true
      from ih (e, r) = rw e (ih r)

  -- Nothing passes exactly when every item fails.
  pub any-false_iff : (p : A → Bool) (xs : List A) → (any p xs ≡ false) ↔ All (λ x. p x ≡ false) xs
  any-false_iff p [] = (λ h. tt, λ h. refl)
  any-false_iff p (x ∷ xs) = (λ h. to (any-false_iff p xs).0 h, λ h. from (any-false_iff p xs).1 h)
    where
      to :
          (any p xs ≡ false → All (λ x. p x ≡ false) xs)
          → (p x || any p xs) ≡ false
          → (p x ≡ false) × All (λ x. p x ≡ false) xs
      to ih h = elim (Bool-cases (p x)) [
        | inl e ↦ absurd (clash (sym (rw e at h)))
        | inr e ↦ (e, ih (rw e at h))
      ]

      from :
          (All (λ x. p x ≡ false) xs → any p xs ≡ false)
          → (p x ≡ false) × All (λ x. p x ≡ false) xs
          → (p x || any p xs) ≡ false
      from ih (e, r) = rw e (ih r)

  pub All-map {κ λ'} :
      {P : A → Type κ} {Q : A → Type λ'}
      → ((x : A) → P x → Q x)
      → (xs : List A) → All P xs
      → All Q xs
  All-map f [] h = tt
  All-map f (x ∷ xs) h = (f x h.0, All-map f xs h.1)

  -- A filter leaves nothing exactly when every item fails.
  pub is_empty-filter :
      (p : A → Bool) (xs : List A) → (is_empty (filter p xs) ≡ true) ↔ All (λ x. p x ≡ false) xs
  is_empty-filter p [] = (λ h. tt, λ h. refl)
  is_empty-filter p (x ∷ xs) =
      (λ h. ground (arith, is_empty-filter p xs), λ h. ground (arith, is_empty-filter p xs))

  pub is_empty-false_iff : (xs : List A) → (is_empty xs ≡ false) ↔ (xs ≢ [])
  is_empty-false_iff [] = (λ h. ground arith, λ h. absurd (h refl))
  is_empty-false_iff (x ∷ xs) = (λ h. ground arith, λ h. refl)
