-- ===== src/Triggers/Marking.antt =====
-- What the loop over the values of an item leaves behind (internal/triggers/cron.go).
use machinist.Base.{
  ℕ, ◌+◌, ◌-◌, ◌≤◌, ◌<◌, suc, zero, ◌≡◌, ◌↔◌, ◌⊎◌, inl, inr, refl, ◌∙◌, subst, Bool, true, false,
  ◌&&◌, ◌||◌, some, List, [], ◌∷◌, arith, leb, ◌==◌, Bool-cases, Option-cases,
}
use machinist.Base.Result.{ok}
use machinist.Triggers.Field.{
  CronField, set_value, get_value, normalized, mark_value, mark_values, unset,
}

-- The values that a loop from one value in steps comes to.
pub data Steps (step : ℕ) : ℕ → ℕ → Type 0 where
  here : (value : ℕ) → Steps step value value
  later : (value w : ℕ) → Steps step (value + step) w → Steps step value w

Steps-le : {step value w : ℕ} → Steps step value w → value ≤ w
Steps-le (here value) = omega arith
Steps-le (later value w s) = let rest = Steps-le s in omega arith

-- A loop from `value` to `end` comes to a value that counts as `u`.
pub record Covered (sunday7 : Bool) (step end value u : ℕ) : Type 0 where
  pub reached : ℕ
  pub by_steps : Steps step value reached
  pub in_range : reached ≤ end
  pub counts_as : normalized sunday7 reached ≡ u

get_value-set_value :
    (i j : ℕ) (bs cs : List Bool)
    → set_value i bs ≡ some cs
    → get_value j cs ≡ (i == j || get_value j bs)
unfolding set_value get_value
get_value-set_value i j [] cs h = cc
get_value-set_value zero zero (b ∷ bs) cs h = ground (arith, h)
get_value-set_value zero (suc j) (b ∷ bs) cs h = ground (arith, h)
get_value-set_value (suc i) j (b ∷ bs) cs h = elim (Option-cases (set_value i bs)) [
  | inl e ↦ ground (arith, e)
  | inr (rest, e) ↦ shifted j rest (rw e at h) (λ k. get_value-set_value i k bs rest e)
]
  where
    shifted :
        (j : ℕ) (rest : List Bool)
        → some (b ∷ rest) ≡ some cs
        → ((k : ℕ) → get_value k rest ≡ (i == k || get_value k bs))
        → get_value j cs ≡ (suc i == j || get_value j (b ∷ bs))
    shifted zero rest h ih = ground (arith, h)
    shifted (suc j) rest h ih = ground (arith, h, ih j)

pub get_value-unset : (i n : ℕ) → get_value i (unset n) ≡ false
unfolding get_value unset
get_value-unset i zero = refl
get_value-unset zero (suc n) = refl
get_value-unset (suc i) (suc n) = get_value-unset i n

-- The field says of a value at least its minimum that it is set.
abbrev pub is_set : CronField → ℕ → Bool
is_set f u = leb f.min u && get_value (u - f.min) f.values

-- Marking changes the values alone.
pub record SameFrame (f g : CronField) : Type 0 where
  pub same_min : g.min ≡ f.min
  pub same_max : g.max ≡ f.max
  pub same_sunday7 : g.sunday7 ≡ f.sunday7

mark_value-SameFrame : (f g : CronField) (w : ℕ) → mark_value f w ≡ some g → SameFrame f g
unfolding mark_value
mark_value-SameFrame f g w h = ground arith

is_set-mark_value :
    (f g : CronField) (w u : ℕ)
    → mark_value f w ≡ some g
    → f.min ≤ normalized f.sunday7 w
    → is_set g u ≡ (normalized f.sunday7 w == u || is_set f u)
unfolding mark_value
is_set-mark_value f g w u h l =
    elim (Option-cases (set_value (normalized f.sunday7 w - f.min) f.values)) [
      | inl e ↦ ground (arith, e)
      | inr (cs, e) ↦
          ground (
            arith,
            e,
            get_value-set_value (normalized f.sunday7 w - f.min) (u - f.min) f.values cs e,
          )
    ]

module _ (end step : ℕ) where
  -- The values of a loop that goes on: its first, and those of the rest.
  Covered_step :
      (sunday7 : Bool) (value u : ℕ)
      → value ≤ end
      → Covered sunday7 step end value u
        ↔ ((normalized sunday7 value ≡ u) ⊎ Covered sunday7 step end (value + step) u)
  Covered_step sunday7 value u l = (λ c. split_at c.reached c.by_steps c.in_range c.counts_as, join)
    where
      split_at :
          (w : ℕ)
          → Steps step value w
          → w ≤ end
          → normalized sunday7 w ≡ u
          → (normalized sunday7 value ≡ u) ⊎ Covered sunday7 step end (value + step) u
      split_at w (here v) r e = inl e
      split_at w (later v v' s) r e =
          inr (record { reached = w; by_steps = s; in_range = r; counts_as = e })

      join :
          (normalized sunday7 value ≡ u) ⊎ Covered sunday7 step end (value + step) u
          → Covered sunday7 step end value u
      join (inl e) = record { reached = value; by_steps = here value; in_range = l; counts_as = e }
      join (inr c) = record {
        reached = c.reached;
        by_steps = later value c.reached c.by_steps;
        in_range = c.in_range;
        counts_as = c.counts_as;
      }

  Covered_past : (sunday7 : Bool) (value u : ℕ) → end < value → Covered sunday7 step end value u → ⊥
  Covered_past sunday7 value u l c =
      let low = Steps-le c.by_steps in let high = c.in_range in omega arith

  -- What a loop over values leaves behind.
  pub record Marked (value : ℕ) (f g : CronField) : Type 0 where
    pub frame : SameFrame f g
    pub sets :
        (u : ℕ) → (is_set g u ≡ true) ↔ ((is_set f u ≡ true) ⊎ Covered f.sunday7 step end value u)

  mark_values_stop :
      (fuel value : ℕ) (f g : CronField)
      → mark_values fuel value end step f ≡ ok g
      → leb value end ≡ false
      → f ≡ g
  unfolding mark_values
  mark_values_stop zero value f g h past = ground (arith, h)
  mark_values_stop (suc fuel) value f g h past = ground (arith, h)

  Marked-past : (value : ℕ) (f : CronField) → end < value → Marked value f f
  Marked-past value f past = record {
    frame = record { same_min = refl; same_max = refl; same_sunday7 = refl };
    sets = λ u. (inl, only u);
  }
    where
      only : (u : ℕ) → (is_set f u ≡ true) ⊎ Covered f.sunday7 step end value u → is_set f u ≡ true
      only u (inl e) = e
      only u (inr c) = absurd (Covered_past f.sunday7 value u past c)

  Marked-step :
      (value : ℕ) (f f' g : CronField)
      → value ≤ end
      → f.min ≤ normalized f.sunday7 value
      → mark_value f value ≡ some f'
      → Marked (value + step) f' g
      → Marked value f g
  Marked-step value f f' g l low e m =
      let first = mark_value-SameFrame f f' value e in
      record {
        frame = record {
          same_min = m.frame.same_min ∙ first.same_min;
          same_max = m.frame.same_max ∙ first.same_max;
          same_sunday7 = m.frame.same_sunday7 ∙ first.same_sunday7;
        };
        sets = λ u.
            let set = is_set-mark_value f f' value u e low in
            let there =
              subst
                (λ s.
                  (is_set g u ≡ true)
                  ↔ ((is_set f' u ≡ true) ⊎ Covered s step end (value + step) u))
                first.same_sunday7 (m.sets u) in
            let split_off = Covered_step f.sunday7 value u l in
            (
              λ h. ground (arith, set, there, split_off),
              λ h. ground (arith, set, there, split_off),
            );
      }

  pub mark_values-Marked :
      (fuel value : ℕ) (f g : CronField)
      → mark_values fuel value end step f ≡ ok g
      → Marked value f g
  unfolding mark_values
  mark_values-Marked zero value f g h = elim (Bool-cases (leb value end)) [
    | inr past ↦
        rw (← mark_values_stop 0 value f g h past) (Marked-past value f (ground (arith, past)))
    | inl more ↦ ground (arith, h, more)
  ]
  mark_values-Marked (suc fuel) value f g h = elim (Bool-cases (leb value end)) [
    | inr past ↦
        rw (← mark_values_stop (suc fuel) value f g h past)
          (Marked-past value f (ground (arith, past)))
    | inl more ↦ elim (Option-cases (mark_value f value)) [
      | inl e ↦ ground (arith, e, h, more)
      | inr (f', e) ↦
          Marked-step value f f' g (ground (arith, more)) (ground (arith, h, more)) e
            (mark_values-Marked fuel (value + step) f' g (ground (arith, e, h, more)))
    ]
  ]
