-- ===== src/Review/Patterns.antt =====
-- What the pattern matcher of internal/review/policy.go decides.
use machinist.Base.{
  Text, ◌≡◌, ◌↔◌, refl, Bool, true, false, List, [], ◌∷◌, Bool-cases, inl, inr, ◌||◌, ◌&&◌, &&_iff,
  split, sym, ◌∙◌, clash,
}
use machinist.Review.Policy.{is_star, segment_matches, some_suffix, match_segments, match_path}

-- Which lists of segments a list of pattern segments describes: a `**` that stands last takes any
-- segments, another one takes some and leaves at least one, and any other segment takes one.
pub data Describes : List Text → List Text → Type 0 where
  all_taken : Describes [] []
  star_last : (p : Text) (cs : List Text) → is_star p ≡ true → Describes (p ∷ []) cs
  star_stop :
      (p q c : Text) (ps cs : List Text)
      → is_star p ≡ true
      → Describes (q ∷ ps) (c ∷ cs)
      → Describes (p ∷ q ∷ ps) (c ∷ cs)
  star_skip :
      (p q c : Text) (ps cs : List Text)
      → is_star p ≡ true
      → Describes (p ∷ q ∷ ps) cs
      → Describes (p ∷ q ∷ ps) (c ∷ cs)
  segment :
      (p c : Text) (ps cs : List Text)
      → is_star p ≡ false
      → segment_matches p c ≡ true
      → Describes ps cs
      → Describes (p ∷ ps) (c ∷ cs)

star_step :
    (p q : Text) (ps cs : List Text)
    → is_star p ≡ true
    → match_segments (p ∷ q ∷ ps) cs ≡ some_suffix (match_segments (q ∷ ps)) cs
unfolding match_segments
star_step p q ps cs e = rw e

star_end : (p : Text) (cs : List Text) → is_star p ≡ true → match_segments (p ∷ []) cs ≡ true
unfolding match_segments
star_end p cs e = rw e

segment_step :
    (p c : Text) (ps cs : List Text)
    → is_star p ≡ false
    → match_segments (p ∷ ps) (c ∷ cs) ≡ (segment_matches p c && match_segments ps cs)
unfolding match_segments
segment_step p c ps cs e = rw e

segment_end : (p : Text) (ps : List Text) → is_star p ≡ false → match_segments (p ∷ ps) [] ≡ false
unfolding match_segments
segment_end p ps e = rw e

or_right : (a : Bool) {b : Bool} → b ≡ true → (a || b) ≡ true
or_right true h = refl
or_right false h = h

complete : {ps cs : List Text} → Describes ps cs → match_segments ps cs ≡ true
unfolding match_segments
complete all_taken = refl
complete (star_last p cs e) = star_end p cs e
complete (star_stop p q c ps cs e d) = let ih = complete d in star_step p q ps (c ∷ cs) e ∙ (rw ih)
complete (star_skip p q c ps cs e d) =
    let ih = complete d in
    star_step p q ps (c ∷ cs) e
    ∙ or_right (match_segments (q ∷ ps) (c ∷ cs)) (sym (star_step p q ps cs e) ∙ ih)
complete (segment p c ps cs e m d) = let ih = complete d in segment_step p c ps cs e ∙ (rw (m, ih))

suffix_sound :
    (p q : Text) (ps cs : List Text)
    → is_star p ≡ true
    → ((ds : List Text) → match_segments (q ∷ ps) ds ≡ true → Describes (q ∷ ps) ds)
    → some_suffix (match_segments (q ∷ ps)) cs ≡ true
    → Describes (p ∷ q ∷ ps) cs
suffix_sound p q ps [] e ih h = cc
suffix_sound p q ps (c ∷ cs) e ih h = elim (Bool-cases (match_segments (q ∷ ps) (c ∷ cs))) [
  | inl m ↦ star_stop p q c ps cs e (ih (c ∷ cs) m)
  | inr m ↦ star_skip p q c ps cs e (suffix_sound p q ps cs e ih (rw m at h))
]

segment_sound :
    (p : Text) (ps cs : List Text)
    → is_star p ≡ false
    → ((ds : List Text) → match_segments ps ds ≡ true → Describes ps ds)
    → match_segments (p ∷ ps) cs ≡ true
    → Describes (p ∷ ps) cs
segment_sound p ps [] e ih h = absurd (clash (sym (segment_end p ps e) ∙ h))
segment_sound p ps (c ∷ cs) e ih h =
    let (m, r) =
      (&&_iff (segment_matches p c) (match_segments ps cs)).0
        (sym (segment_step p c ps cs e) ∙ h) in
    segment p c ps cs e m (ih cs r)

sound : (ps cs : List Text) → match_segments ps cs ≡ true → Describes ps cs
unfolding match_segments
sound [] [] h = all_taken
sound [] (c ∷ cs) h = cc
sound (p ∷ []) cs h = elim (Bool-cases (is_star p)) [
  | inl e ↦ star_last p cs e
  | inr e ↦ segment_sound p [] cs e (sound []) h
]
sound (p ∷ q ∷ ps) cs h = elim (Bool-cases (is_star p)) [
  | inl e ↦ suffix_sound p q ps cs e (sound (q ∷ ps)) (sym (star_step p q ps cs e) ∙ h)
  | inr e ↦ segment_sound p (q ∷ ps) cs e (sound (q ∷ ps)) h
]

-- A pattern matches a path exactly when its segments describe those of the path.
pub match_path-Describes :
    (pattern candidate : Text)
    → (match_path pattern candidate ≡ true) ↔ Describes (split b'/' pattern) (split b'/' candidate)
unfolding match_path
match_path-Describes pattern candidate = (sound _ _, complete)
