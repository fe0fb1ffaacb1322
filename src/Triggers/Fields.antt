-- ===== src/Triggers/Fields.antt =====
-- Which values a parsed field admits (internal/triggers/cron.go).
use machinist.Base.{
  ℕ, ◌+◌, ◌-◌, ◌≤◌, Text, ◌≡◌, ◌↔◌, ◌⊎◌, inl, inr, refl, ◌∙◌, Bool, true, List, [], ◌∷◌, arith,
  Bool-cases, Any, split, has_prefix, codes, is_empty,
}
use machinist.Base.Result.{ok, >>=-eq-ok}
use machinist.Triggers.Field.{
  CronField, cron_range, split_cron_step, normalized, item_end, mark_item, mark_items, unset,
  parse_cron_field, has,
}
use machinist.Triggers.Marking.{
  Covered, Marked, SameFrame, get_value-unset, is_set, mark_values-Marked,
}

-- An item covers a value: its step and its range can be read, and the loop comes to the value.
pub record ItemCovers (min max : ℕ) (named : List (Text × ℕ)) (sunday7 : Bool) (u : ℕ) (item : Text)
    : Type 0 where
  pub base : Text
  pub step : ℕ
  pub start : ℕ
  pub end : ℕ
  pub stepped : split_cron_step item ≡ ok (base, step)
  pub ranged : cron_range base min max named ≡ ok (start, end)
  pub covered : Covered sunday7 step (item_end base step max end) start u

mark_item-sets :
    (named : List (Text × ℕ)) (f g : CronField) (item : Text)
    → mark_item named f item ≡ ok g
    → SameFrame f g
      × ((u : ℕ)
          → (is_set g u ≡ true)
            ↔ ((is_set f u ≡ true) ⊎ ItemCovers f.min f.max named f.sunday7 u item))
unfolding mark_item
mark_item-sets named f g item h = elim (Bool-cases (is_empty item)) [
  | inl e ↦ ground (arith, h, e)
  | inr e ↦
      let ((base, step), es, h') = >>=-eq-ok (split_cron_step item) _ (rw e at h) in
      let ((start, end), er, m) = >>=-eq-ok (cron_range base f.min f.max named) _ h' in
      read base step start end es er (
        mark_values-Marked (item_end base step f.max end) step (item_end base step f.max end + 1)
          start f g m)
]
  where
    read :
        (base : Text) (step start end : ℕ)
        → split_cron_step item ≡ ok (base, step)
        → cron_range base f.min f.max named ≡ ok (start, end)
        → Marked (item_end base step f.max end) step start f g
        → SameFrame f g
          × ((u : ℕ)
              → (is_set g u ≡ true)
                ↔ ((is_set f u ≡ true) ⊎ ItemCovers f.min f.max named f.sunday7 u item))
    read base step start end es er m =
        (m.frame, λ u. (λ s. there u ((m.sets u).0 s), λ c. (m.sets u).1 (back u c)))
      where
        there :
            (u : ℕ)
            → (is_set f u ≡ true) ⊎ Covered f.sunday7 step (item_end base step f.max end) start u
            → (is_set f u ≡ true) ⊎ ItemCovers f.min f.max named f.sunday7 u item
        there u (inl s) = inl s
        there u (inr c) = inr (record {
          base = base;
          step = step;
          start = start;
          end = end;
          stepped = es;
          ranged = er;
          covered = c;
        })

        back :
            (u : ℕ)
            → (is_set f u ≡ true) ⊎ ItemCovers f.min f.max named f.sunday7 u item
            → (is_set f u ≡ true) ⊎ Covered f.sunday7 step (item_end base step f.max end) start u
        back u (inl s) = inl s
        back u (inr c) =
            let (b, t) : (c.base ≡ base) × (c.step ≡ step) = ground (arith, es, c.stepped) in
            let (a, e) : (c.start ≡ start) × (c.end ≡ end) = ground (arith, er, c.ranged, b) in
            inr (rw (← b, ← t, ← a, ← e) c.covered)

mark_items-sets :
    (named : List (Text × ℕ)) (items : List Text) (f g : CronField)
    → mark_items named f items ≡ ok g
    → SameFrame f g
      × ((u : ℕ)
          → (is_set g u ≡ true)
            ↔ ((is_set f u ≡ true) ⊎ Any (ItemCovers f.min f.max named f.sunday7 u) items))
unfolding mark_items
mark_items-sets named [] f g h =
    let same : f ≡ g = ground (arith, h) in
    rw (← same)
      (record { same_min = refl; same_max = refl; same_sunday7 = refl }, λ u. (inl, only u))
  where
    only : (u : ℕ) → (is_set f u ≡ true) ⊎ ⊥ → is_set f u ≡ true
    only u (inl s) = s
    only u (inr e) = absurd e
mark_items-sets named (item ∷ items) f g h =
    let (f', e, h') = >>=-eq-ok (mark_item named f item) _ h in
    joined f' (mark_item-sets named f f' item e) (mark_items-sets named items f' g h')
  where
    joined :
        (f' : CronField)
        → SameFrame f f'
          × ((u : ℕ)
              → (is_set f' u ≡ true)
                ↔ ((is_set f u ≡ true) ⊎ ItemCovers f.min f.max named f.sunday7 u item))
        → SameFrame f' g
          × ((u : ℕ)
              → (is_set g u ≡ true)
                ↔ ((is_set f' u ≡ true) ⊎ Any (ItemCovers f'.min f'.max named f'.sunday7 u) items))
        → SameFrame f g
          × ((u : ℕ)
              → (is_set g u ≡ true) ↔ (
                  (is_set f u ≡ true)
                  ⊎ Any (ItemCovers f.min f.max named f.sunday7 u) (item ∷ items)))
    joined f' (a, p) (b, q) = (
      record {
        same_min = b.same_min ∙ a.same_min;
        same_max = b.same_max ∙ a.same_max;
        same_sunday7 = b.same_sunday7 ∙ a.same_sunday7;
      },
      λ u.
          let rest : (is_set g u ≡ true)
              ↔ ((is_set f' u ≡ true) ⊎ Any (ItemCovers f.min f.max named f.sunday7 u) items) =
            rw (← a.same_min, ← a.same_max, ← a.same_sunday7) (q u) in
          (λ s. onto u (rest.0 s), λ s. rest.1 (back u s)),
    )
      where
        onto :
            (u : ℕ)
            → (is_set f' u ≡ true) ⊎ Any (ItemCovers f.min f.max named f.sunday7 u) items
            → (is_set f u ≡ true) ⊎ Any (ItemCovers f.min f.max named f.sunday7 u) (item ∷ items)
        onto u (inr c) = inr (inr c)
        onto u (inl s) = shift ((p u).0 s)
          where
            shift :
                (is_set f u ≡ true) ⊎ ItemCovers f.min f.max named f.sunday7 u item
                → (is_set f u ≡ true)
                  ⊎ Any (ItemCovers f.min f.max named f.sunday7 u) (item ∷ items)
            shift (inl s) = inl s
            shift (inr c) = inr (inl c)

        back :
            (u : ℕ)
            → (is_set f u ≡ true) ⊎ Any (ItemCovers f.min f.max named f.sunday7 u) (item ∷ items)
            → (is_set f' u ≡ true) ⊎ Any (ItemCovers f.min f.max named f.sunday7 u) items
        back u (inl s) = inl ((p u).1 (inl s))
        back u (inr (inl c)) = inl ((p u).1 (inr c))
        back u (inr (inr c)) = inr c

-- A field that parses admits a value exactly when the value, with Sunday's 7 read as 0, is at most
-- the maximum and at least the minimum, and an item of the list covers it.
pub parse_cron_field-covers :
    (input : Text) (min max : ℕ) (named : List (Text × ℕ)) (sunday7 : Bool) (f : CronField)
    → parse_cron_field input min max named sunday7 ≡ ok f
    → (value : ℕ)
    → (has f value ≡ true) ↔ (
        (min ≤ normalized sunday7 value)
        × (normalized sunday7 value ≤ max)
        × Any (ItemCovers min max named sunday7 (normalized sunday7 value)) (split b',' input))
unfolding parse_cron_field has
parse_cron_field-covers input min max named sunday7 f h value =
    let fresh : CronField = record {
      min = min;
      max = max;
      values = unset (max - min + 1);
      star = has_prefix (codes "*") input;
      sunday7 = sunday7;
    } in
    let marked : mark_items named fresh (split b',' input) ≡ ok f = ground (arith, h) in
    let (frame, sets) = mark_items-sets named (split b',' input) fresh f marked in
    let u = normalized sunday7 value in
    let none_set = get_value-unset (u - min) (max - min + 1) in
    let covered = sets u in
    let lo = frame.same_min in
    let hi = frame.same_max in
    let sunday = frame.same_sunday7 in
    (
      λ m. ground (arith, m, none_set, covered, lo, hi, sunday),
      λ m. ground (arith, m, none_set, covered, lo, hi, sunday),
    )
