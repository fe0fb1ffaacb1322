-- ===== src/Triggers/Termination.antt =====
-- A cron field is read to its end (internal/triggers/cron.go).
use machinist.Base.{
  ℕ, ◌+◌, ◌-◌, has_prefix, ◌<◌, suc, zero, Text, ◌≡◌, ◌≢◌, inl, inr, refl, Bool, Option, none, some,
  List, [], ◌∷◌, arith, Option-cases, split, codes,
}
use machinist.Base.Int.{ℤ, pos, negsuc}
use machinist.Base.Numbers.{atoi}
use machinist.Base.Result.{Result, ok, err, ◌>>=◌}
use machinist.Triggers.Field.{
  CronField, CronError, loop_unfinished, bounded, cron_value, range_of, range_parts, cron_range,
  step_parts, split_cron_step, mark_value, mark_values, item_end, mark_item, mark_items,
  parse_cron_field, unset,
}

-- Fuel that reaches beyond the end is enough for the loop over the values.
mark_values_terminates :
    (fuel value end step : ℕ) (f : CronField)
    → 0 < step
    → end < value + fuel
    → mark_values fuel value end step f ≢ err loop_unfinished
unfolding mark_values
mark_values_terminates zero value end step f p l h = ground arith
mark_values_terminates (suc fuel) value end step f p l h =
    elim (Option-cases (mark_value f value)) [
      | inl e ↦ ground (arith, e)
      | inr (g, e) ↦
          let rest = mark_values_terminates fuel (value + step) end step g p (omega arith) in
          ground (arith, e, rest)
    ]

-- A computation that does not fail for want of fuel.
abbrev Finishes {ℓ} : {A : Type ℓ} → Result CronError A → Type ℓ
Finishes m = m ≢ err loop_unfinished

after_finishing :
    {A B : Type 0} (m : Result CronError A) (f : A → Result CronError B)
    → Finishes m
    → ((a : A) → m ≡ ok a → Finishes (f a))
    → Finishes (m >>= f)
after_finishing (ok a) f g h = h a refl
after_finishing (err e) f g h = λ w. g (ground (arith, w))

bounded-Finishes : (input : Text) (min max : ℕ) (o : Option ℤ) → Finishes (bounded input min max o)
bounded-Finishes input min max none = λ e. ground (arith, e)
bounded-Finishes input min max (some (negsuc n)) = λ e. ground (arith, e)
bounded-Finishes input min max (some (pos n)) = λ e. ground (arith, e)

cron_value-Finishes :
    (input : Text) (min max : ℕ) (named : List (Text × ℕ))
    → Finishes (cron_value input min max named)
unfolding cron_value
cron_value-Finishes input min max named =
    λ e. ground (arith, e, bounded-Finishes input min max (atoi input))

range_parts-Finishes :
    (parts : List Text) (min max : ℕ) (named : List (Text × ℕ))
    → Finishes (range_parts parts min max named)
unfolding range_parts
range_parts-Finishes [] min max named = λ e. ground (arith, e)
range_parts-Finishes (a ∷ []) min max named =
    after_finishing (cron_value a min max named) _ (cron_value-Finishes a min max named)
      (λ v r e. ground (arith, e))
range_parts-Finishes (a ∷ b ∷ []) min max named =
    let both =
      after_finishing (cron_value a min max named) (λ v. cron_value b min max named >>= range_of v)
        (cron_value-Finishes a min max named)
        (λ v r.
          after_finishing (cron_value b min max named) (range_of v)
            (cron_value-Finishes b min max named) (λ w s e. ground (arith, e))) in
    λ e. ground (arith, e, both)
range_parts-Finishes (a ∷ b ∷ c ∷ rest) min max named = λ e. ground (arith, e)

step_parts-Finishes : (input : Text) (parts : List Text) → Finishes (step_parts input parts)
unfolding step_parts
step_parts-Finishes input [] = λ e. ground (arith, e)
step_parts-Finishes input (a ∷ []) = λ e. ground (arith, e)
step_parts-Finishes input (a ∷ b ∷ []) = λ e. ground (arith, e)
step_parts-Finishes input (a ∷ b ∷ c ∷ rest) = λ e. ground (arith, e)

step_parts_positive :
    (input : Text) (parts : List Text) (base : Text) (step : ℕ)
    → step_parts input parts ≡ ok (base, step)
    → 0 < step
unfolding step_parts
step_parts_positive input [] base step h = ground (arith, h)
step_parts_positive input (a ∷ []) base step h = ground (arith, h)
step_parts_positive input (a ∷ b ∷ []) base step h = ground (arith, h)
step_parts_positive input (a ∷ b ∷ c ∷ rest) base step h = ground (arith, h)

mark_item-Finishes :
    (named : List (Text × ℕ)) (f : CronField) (item : Text) → Finishes (mark_item named f item)
unfolding mark_item split_cron_step cron_range
mark_item-Finishes named f item =
    let parts = range_parts-Finishes in
    let marked =
      after_finishing (split_cron_step item) _ (step_parts-Finishes item (split b'/' item)) (λ p r.
        after_finishing (cron_range p.0 f.min f.max named) _
          (λ e. ground (arith, e, range_parts-Finishes (split b'-' p.0) f.min f.max named))
          (λ q s.
            mark_values_terminates (item_end p.0 p.1 f.max q.1 + 1) q.0 (item_end p.0 p.1 f.max q.1)
              p.1 f (step_parts_positive item (split b'/' item) p.0 p.1 r) (omega arith))) in
    λ e. ground (arith, e, marked)

mark_items-Finishes :
    (named : List (Text × ℕ)) (f : CronField) (items : List Text)
    → Finishes (mark_items named f items)
unfolding mark_items
mark_items-Finishes named f [] = λ e. ground (arith, e)
mark_items-Finishes named f (item ∷ items) =
    after_finishing (mark_item named f item) _ (mark_item-Finishes named f item)
      (λ g r. mark_items-Finishes named g items)

-- The loops that read a field come to an end within their fuel, whatever the field's text is.
pub parse_cron_field_terminates :
    (input : Text) (min max : ℕ) (named : List (Text × ℕ)) (sunday7 : Bool)
    → parse_cron_field input min max named sunday7 ≢ err loop_unfinished
unfolding parse_cron_field
parse_cron_field_terminates input min max named sunday7 h =
    let fresh : CronField = record {
      min = min;
      max = max;
      values = unset (max - min + 1);
      star = has_prefix (codes "*") input;
      sunday7 = sunday7;
    } in
    ground (arith, h, mark_items-Finishes named fresh (split b',' input))
