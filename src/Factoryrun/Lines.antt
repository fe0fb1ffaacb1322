-- ===== src/Factoryrun/Lines.antt =====
-- What trimming, cutting and splitting make of the pieces that a marker is put together from.
use machinist.Base.{
  ℕ, ◌==◌, ◌≤◌, length, ◌≡◌, refl, ap, ◌∙◌, Text, Bool, false, none, some, List, [], ◌∷◌, ◌++◌,
  arith, any, is_empty, is_space, trim_left, trim_right, trim_space, keep_byte, split, cut,
  has_prefix, Bool-cases, inl, inr,
}

-- One line of text with no white space at its ends.
pub record Plain (t : Text) : Type 0 where
  pub left : trim_left t ≡ t
  pub right : trim_right t ≡ t
  pub one_line : any (λ c. c == 10) t ≡ false

pub trim_space-Plain : (t : Text) → Plain t → trim_space t ≡ t
unfolding trim_space
trim_space-Plain t h = ap trim_right h.left ∙ h.right

length-trim_left : (t : Text) → length (trim_left t) ≤ length t
unfolding trim_left
length-trim_left [] = omega arith
length-trim_left (c ∷ t) = ground (arith, length-trim_left t)

pub is_empty-append : (p t : Text) → is_empty t ≡ false → is_empty (p ++ t) ≡ false
is_empty-append [] t e = e
is_empty-append (c ∷ p) t e = refl

-- Behind text that ends in no white space nothing is trimmed.
pub trim_right-append :
    (p t : Text) → trim_right t ≡ t → is_empty t ≡ false → trim_right (p ++ t) ≡ p ++ t
unfolding trim_right
trim_right-append [] t h e = h
trim_right-append (c ∷ p) t h e =
    rw (trim_right-append p t h e) (keep_byte-full c (p ++ t) (is_empty-append p t e))
  where
    keep_byte-full : (c : ℕ) (t : Text) → is_empty t ≡ false → keep_byte c t ≡ c ∷ t
    keep_byte-full c [] e = cc
    keep_byte-full c (d ∷ t) e = refl

pub trim_left-append :
    (p t : Text) → trim_left p ≡ p → is_empty p ≡ false → trim_left (p ++ t) ≡ p ++ t
unfolding trim_left
trim_left-append [] t h e = cc
trim_left-append (c ∷ p) t h e = elim (Bool-cases (is_space c)) [
  | inr kept ↦ rw kept refl
  | inl dropped ↦ absurd (omega (arith, ap length (rw dropped at h), length-trim_left p))
]

pub any-append :
    (f : ℕ → Bool) (p t : Text) → any f p ≡ false → any f t ≡ false → any f (p ++ t) ≡ false
any-append f [] t h k = k
any-append f (c ∷ p) t h k = ground (arith, any-append f p t, h)

-- Two plain texts with one line of text between them make one.
pub append-Plain :
    (p m t : Text)
    → Plain p
    → is_empty p ≡ false
    → any (λ c. c == 10) m ≡ false
    → Plain t
    → is_empty t ≡ false
    → Plain (p ++ (m ++ t))
append-Plain p m t hp ep hm ht et = record {
  left = trim_left-append p (m ++ t) hp.left ep;
  right = trim_right-append p (m ++ t) (trim_right-append m t ht.right et) (is_empty-append m t et);
  one_line =
      any-append (λ c. c == 10) p (m ++ t) hp.one_line
        (any-append (λ c. c == 10) m t hm ht.one_line);
}

split_pieces : (sep : ℕ) (s : Text) → (w : Text) × (ws : List Text) × (split sep s ≡ w ∷ ws)
unfolding split
split_pieces sep [] = ([], [], refl)
split_pieces sep (c ∷ s) =
    let (w, ws, e) = split_pieces sep s in
    elim (Bool-cases (c == sep)) [
      | inl same ↦ ([], w ∷ ws, rw (e, same) refl)
      | inr other ↦ (c ∷ w, ws, rw (e, other) refl)
    ]

-- A text without the separator, and a separator behind it, are the first piece.
pub split-append :
    (sep : ℕ) (p t : Text)
    → any (λ c. c == sep) p ≡ false
    → split sep (p ++ sep ∷ t) ≡ p ∷ split sep t
unfolding split
split-append sep [] t h = let (w, ws, e) = split_pieces sep t in ground (arith, e)
split-append sep (c ∷ p) t h = ground (arith, split-append sep p t, h)

pub split-none : (sep : ℕ) (p : Text) → any (λ c. c == sep) p ≡ false → split sep p ≡ p ∷ []
unfolding split
split-none sep [] h = refl
split-none sep (c ∷ p) h = ground (arith, split-none sep p, h)

pub cut-append :
    (sep : ℕ) (p t : Text)
    → any (λ c. c == sep) p ≡ false
    → cut (sep ∷ []) (p ++ sep ∷ t) ≡ some (p, t)
unfolding cut has_prefix
cut-append sep [] t h = ground arith
cut-append sep (c ∷ p) t h = ground (arith, cut-append sep p t, h)

pub cut-none : (sep : ℕ) (p : Text) → any (λ c. c == sep) p ≡ false → cut (sep ∷ []) p ≡ none
unfolding cut has_prefix
cut-none sep [] h = refl
cut-none sep (c ∷ p) h = ground (arith, cut-none sep p, h)
