-- ===== src/Base/Sort.antt =====
-- sort.Strings and sort.SliceStable: insertion sort, which keeps the order of equal items.

use mathlib.Core.Path.{◌≡◌, refl, ◌∙◌}
use mathlib.Core.Logic.{◌↔◌, inl, inr}
use mathlib.Core.Bool.{Bool, true, false, ◌||◌}
use mathlib.Core.List.{List, [], ◌∷◌, Perm}
use mathlib.Core.List.Perm
use native.Mathlib.Omega.{arith}
use machinist.Base.Tests.{if◌then◌else◌, Bool-cases}
use machinist.Base.Lists.{any, is_empty, All, All-map}
use machinist.Base.Strings.{Text, text_lt, contains}

module _ {ℓ} {A : Type ℓ} where
  -- `x` stood before the items of the sorted list, so it goes before those that are not less.
  unfoldable pub insert_stable : (A → A → Bool) → A → List A → List A
  insert_stable less x [] = x ∷ []
  insert_stable less x (y ∷ ys) = if less y x then y ∷ insert_stable less x ys else x ∷ y ∷ ys

  unfoldable pub sort_stable : (A → A → Bool) → List A → List A
  sort_stable less [] = []
  sort_stable less (x ∷ xs) = insert_stable less x (sort_stable less xs)

  -- No item is less than one before it.
  abbrev pub IsSorted : (A → A → Bool) → List A → Type 0
  IsSorted less [] = Unit
  IsSorted less (x ∷ xs) = All (λ y. less y x ≡ false) xs × IsSorted less xs

  -- `less` orders the items up to ties.
  pub record Order (less : A → A → Bool) : Type ℓ where
    pub asym : (x y : A) → less x y ≡ true → less y x ≡ false
    pub trans : (x y z : A) → less y x ≡ false → less z y ≡ false → less z x ≡ false

module _ {ℓ} {A : Type ℓ} (less : A → A → Bool) where
  any-insert_stable :
      (p : A → Bool) (x : A) (xs : List A) → any p (insert_stable less x xs) ≡ (p x || any p xs)
  unfolding insert_stable
  any-insert_stable p x [] = refl
  any-insert_stable p x (y ∷ ys) = elim (Bool-cases (less y x)) [
    | inl e ↦ rw e (rw (any-insert_stable p x ys) (swap (p x) (p y) (any p ys)))
    | inr e ↦ rw e
  ]
    where
      swap : (a b c : Bool) → (b || (a || c)) ≡ (a || (b || c))
      swap true true c = refl
      swap true false c = refl
      swap false b c = refl

  pub any-sort_stable : (p : A → Bool) (xs : List A) → any p (sort_stable less xs) ≡ any p xs
  unfolding sort_stable
  any-sort_stable p [] = refl
  any-sort_stable p (x ∷ xs) =
      any-insert_stable p x (sort_stable less xs) ∙ (rw (any-sort_stable p xs))

  insert_stable-perm : (x : A) (xs : List A) → Perm (insert_stable less x xs) (x ∷ xs)
  unfolding insert_stable
  insert_stable-perm x [] = Perm.refl (x ∷ [])
  insert_stable-perm x (y ∷ ys) = elim (Bool-cases (less y x)) [
    | inl e ↦ rw e (Perm.trans (Perm.cons y (insert_stable-perm x ys)) (Perm.swap x y ys))
    | inr e ↦ rw e (Perm.refl (x ∷ y ∷ ys))
  ]

  -- Sorting moves items and neither loses nor adds one.
  pub sort_stable-perm : (xs : List A) → Perm (sort_stable less xs) xs
  unfolding sort_stable
  sort_stable-perm [] = Perm.refl []
  sort_stable-perm (x ∷ xs) =
      Perm.trans (insert_stable-perm x (sort_stable less xs)) (Perm.cons x (sort_stable-perm xs))

  module _ (o : Order less) where
    All-insert_stable :
        (P : A → Type 0) (x : A) (xs : List A) → P x → All P xs → All P (insert_stable less x xs)
    unfolding insert_stable
    All-insert_stable P x [] h hs = (h, tt)
    All-insert_stable P x (y ∷ ys) h hs = elim (Bool-cases (less y x)) [
      | inl e ↦ rw e (hs.0, All-insert_stable P x ys h hs.1)
      | inr e ↦ rw e (h, hs)
    ]

    insert_stable-IsSorted :
        (x : A) (xs : List A) → IsSorted less xs → IsSorted less (insert_stable less x xs)
    unfolding insert_stable
    insert_stable-IsSorted x [] s = (tt, tt)
    insert_stable-IsSorted x (y ∷ ys) s = elim (Bool-cases (less y x)) [
      | inl e ↦ rw e (
        All-insert_stable (λ z. less z y ≡ false) x ys (o.asym y x e) s.0,
        insert_stable-IsSorted x ys s.1,
      )
      | inr e ↦ rw e ((e, All-map (λ z h. o.trans x y z e h) ys s.0), s)
    ]

    pub sort_stable-IsSorted : (xs : List A) → IsSorted less (sort_stable less xs)
    unfolding sort_stable
    sort_stable-IsSorted [] = tt
    sort_stable-IsSorted (x ∷ xs) =
        insert_stable-IsSorted x (sort_stable less xs) (sort_stable-IsSorted xs)

unfoldable pub sort_strings : List Text → List Text
sort_strings = sort_stable text_lt

pub contains-sort_strings :
    (a : Text) (xs : List Text) → contains a (sort_strings xs) ≡ contains a xs
unfolding sort_strings
contains-sort_strings a xs = any-sort_stable text_lt _ xs

pub is_empty-any {ℓ} :
    {A : Type ℓ} (xs : List A) → (any (λ x. true) xs ≡ true) ↔ (is_empty xs ≡ false)
is_empty-any [] = (λ h. cc, λ h. cc)
is_empty-any (x ∷ xs) = (λ h. refl, λ h. refl)

pub is_empty-sort_strings : (xs : List Text) → is_empty (sort_strings xs) ≡ is_empty xs
unfolding sort_strings
is_empty-sort_strings xs = ground (
  arith,
  any-sort_stable text_lt (λ x. true) xs,
  is_empty-any xs,
  is_empty-any (sort_stable text_lt xs),
)

text_lt_asym : (s t : Text) → text_lt s t ≡ true → text_lt t s ≡ false
unfolding text_lt
text_lt_asym [] [] h = refl
text_lt_asym [] (y ∷ t) h = refl
text_lt_asym (x ∷ s) [] h = cc
text_lt_asym (x ∷ s) (y ∷ t) h = ground (arith, text_lt_asym s t)

text_lt_trans : (s t u : Text) → text_lt t s ≡ false → text_lt u t ≡ false → text_lt u s ≡ false
unfolding text_lt
text_lt_trans [] [] u h k = k
text_lt_trans [] (y ∷ t) [] h k = cc
text_lt_trans [] (y ∷ t) (z ∷ u) h k = refl
text_lt_trans (x ∷ s) [] [] h k = h
text_lt_trans (x ∷ s) [] (z ∷ u) h k = cc
text_lt_trans (x ∷ s) (y ∷ t) [] h k = cc
text_lt_trans (x ∷ s) (y ∷ t) (z ∷ u) h k = ground (arith, text_lt_trans s t u)

pub text_lt-Order : Order text_lt
text_lt-Order = record { asym = text_lt_asym; trans = text_lt_trans }

pub text_lt_antisym : (s t : Text) → text_lt s t ≡ false → text_lt t s ≡ false → s ≡ t
unfolding text_lt
text_lt_antisym [] [] h k = refl
text_lt_antisym [] (y ∷ t) h k = cc
text_lt_antisym (x ∷ s) [] h k = cc
text_lt_antisym (x ∷ s) (y ∷ t) h k = ground (arith, text_lt_antisym s t)
