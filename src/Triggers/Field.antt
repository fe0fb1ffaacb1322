-- ===== src/Triggers/Field.antt =====
-- internal/triggers/cron.go: one field of a cron schedule.
use machinist.Base.{
  ℕ, ◌+◌, ◌-◌, Text, codes, text_eq, ltb, leb, ◌==◌, Bool, true, false, ◌&&◌, ◌||◌, not, Option,
  none, some, List, [], ◌∷◌, is_empty, if◌then◌else◌, suc, zero, to_lower, has_prefix, split,
  contains_text, take,
}
use machinist.Base.Int.{ℤ, pos, negsuc}
use machinist.Base.Numbers.{atoi, int_limit}
use machinist.Base.Dict.{lookup}
use machinist.Base.Result.{Result, ok, err, ◌>>=◌}

pub record CronField : Type 0 where
  pub min : ℕ
  pub max : ℕ
  pub values : List Bool
  pub star : Bool
  pub sunday7 : Bool

-- The errors. `index_out_of_range` is a panic, not an error value, and `loop_unfinished` would be a
-- loop that outran its fuel.
pub data CronError : Type 0 where
  several_lines environment_assignment not_five_fields zone_required zone_unloadable : CronError
  bad_zone : Text → CronError
  field_empty item_empty bad_step step_not_positive bad_range range_reversed : CronError
  bad_value : Text → ℕ → ℕ → CronError
  no_occurrence index_out_of_range loop_unfinished : CronError

-- The loop of `names`: each word and its first three letters.
name_words : ℕ → List Text → List (Text × ℕ)
name_words start [] = []
name_words start (word ∷ words) =
    (word, start) ∷ (take 3 word, start) ∷ name_words (start + 1) words

unfoldable pub names : List Text → ℕ → List (Text × ℕ)
unfolding name_words
names words start = name_words start words

abbrev pub month_names : List (Text × ℕ)
month_names =
    names
      (codes "january"
        ∷ codes "february"
        ∷ codes "march"
        ∷ codes "april"
        ∷ codes "may"
        ∷ codes "june"
        ∷ codes "july"
        ∷ codes "august"
        ∷ codes "september"
        ∷ codes "october"
        ∷ codes "november"
        ∷ codes "december"
        ∷ [])
      1

abbrev pub weekday_names : List (Text × ℕ)
weekday_names =
    names
      (codes "sunday"
        ∷ codes "monday"
        ∷ codes "tuesday"
        ∷ codes "wednesday"
        ∷ codes "thursday"
        ∷ codes "friday"
        ∷ codes "saturday"
        ∷ [])
      0

-- What strconv.Atoi gives, between the bounds.
abbrev pub bounded : Text → ℕ → ℕ → Option ℤ → Result CronError ℕ
bounded input min max none = err (bad_value input min max)
bounded input min max (some (negsuc n)) = err (bad_value input min max)
bounded input min max (some (pos n)) =
    if ltb n min || ltb max n then err (bad_value input min max) else ok n

-- A field without names has an empty list of them.
unfoldable pub cron_value : Text → ℕ → ℕ → List (Text × ℕ) → Result CronError ℕ
cron_value input min max named = elim (lookup (to_lower input) named) [
  | some value ↦ ok value
  | none ↦ bounded input min max (atoi input)
]

abbrev pub range_of : ℕ → ℕ → Result CronError (ℕ × ℕ)
range_of start end = if ltb end start then err range_reversed else ok (start, end)

unfoldable pub range_parts : List Text → ℕ → ℕ → List (Text × ℕ) → Result CronError (ℕ × ℕ)
range_parts [] min max named = err bad_range
range_parts (a ∷ []) min max named = do start ← cron_value a min max named; ok (start, start)
range_parts (a ∷ b ∷ []) min max named =
    if is_empty a || is_empty b
    then err bad_range
    else do start ← cron_value a min max named; end ← cron_value b min max named; range_of start end
range_parts (a ∷ b ∷ c ∷ rest) min max named = err bad_range

unfoldable pub cron_range : Text → ℕ → ℕ → List (Text × ℕ) → Result CronError (ℕ × ℕ)
unfolding range_parts
cron_range input min max named =
    if text_eq input (codes "*")
    then ok (min, max)
    else range_parts (split b'-' input) min max named

abbrev step_of : Text → Option ℤ → Result CronError (Text × ℕ)
step_of base none = err step_not_positive
step_of base (some (negsuc n)) = err step_not_positive
step_of base (some (pos n)) = if n == 0 then err step_not_positive else ok (base, n)

unfoldable pub step_parts : Text → List Text → Result CronError (Text × ℕ)
step_parts input [] = err bad_step
step_parts input (a ∷ []) = ok (input, 1)
step_parts input (a ∷ b ∷ []) =
    if is_empty a || is_empty b then err bad_step else step_of a (atoi b)
step_parts input (a ∷ b ∷ c ∷ rest) = err bad_step

unfoldable pub split_cron_step : Text → Result CronError (Text × ℕ)
unfolding step_parts
split_cron_step input = step_parts input (split b'/' input)

-- `values[i] = true`; `none` where i is out of range.
unfoldable pub set_value : ℕ → List Bool → Option (List Bool)
set_value i [] = none
set_value zero (b ∷ bs) = some (true ∷ bs)
set_value (suc i) (b ∷ bs) = elim (set_value i bs) [ none ↦ none | some rest ↦ some (b ∷ rest) ]

unfoldable pub get_value : ℕ → List Bool → Bool
get_value i [] = false
get_value zero (b ∷ bs) = b
get_value (suc i) (b ∷ bs) = get_value i bs

-- Cron counts Sunday as 0 and as 7.
abbrev pub normalized : Bool → ℕ → ℕ
normalized sunday7 value = if sunday7 && value == 7 then 0 else value

-- `field.values[normalized-min] = true`
unfoldable pub mark_value : CronField → ℕ → Option CronField
mark_value f value = elim (set_value (normalized f.sunday7 value - f.min) f.values) [
  | none ↦ none
  | some values ↦ some (record f { values = values })
]

-- The loop over the values of an item, on fuel. `value += step` wraps to a negative number at 2 ^ 63,
-- which is no index: the next round panics.
unfoldable pub mark_values : ℕ → ℕ → ℕ → ℕ → CronField → Result CronError CronField
unfolding mark_value
mark_values zero value end step f = if leb value end then err loop_unfinished else ok f
mark_values (suc fuel) value end step f =
    if not (leb value end)
    then ok f
    else if ltb (normalized f.sunday7 value) f.min
    then err index_out_of_range
    else elim (mark_value f value) [
      | none ↦ err index_out_of_range
      | some g ↦ elim (ltb (value + step) int_limit) [
        | true ↦ mark_values fuel (value + step) end step g
        | false ↦ err index_out_of_range
      ]
    ]

-- A step on one value runs to the field's maximum.
abbrev pub item_end : Text → ℕ → ℕ → ℕ → ℕ
item_end base step max end =
    if ltb 1 step && not (text_eq base (codes "*")) && not (contains_text (codes "-") base)
    then max
    else end

unfoldable pub mark_item : List (Text × ℕ) → CronField → Text → Result CronError CronField
mark_item named f item = if is_empty item then err item_empty else do
  (base, step) ← split_cron_step item
  (start, end) ← cron_range base f.min f.max named
  mark_values (item_end base step f.max end + 1) start (item_end base step f.max end) step f

unfoldable pub mark_items : List (Text × ℕ) → CronField → List Text → Result CronError CronField
mark_items named f [] = ok f
mark_items named f (item ∷ items) = do g ← mark_item named f item; mark_items named g items

unfoldable pub unset : ℕ → List Bool
unset zero = []
unset (suc n) = false ∷ unset n

unfoldable pub parse_cron_field : Text → ℕ → ℕ → List (Text × ℕ) → Bool → Result CronError CronField
parse_cron_field input min max named sunday7 =
    if is_empty input
    then err field_empty
    else mark_items named
        (record {
          min = min;
          max = max;
          values = unset (max - min + 1);
          star = has_prefix (codes "*") input;
          sunday7 = sunday7;
        })
        (split b',' input)

-- cronField.has
unfoldable pub has : CronField → ℕ → Bool
has f value =
    let v = normalized f.sunday7 value in
    leb f.min v && leb v f.max && get_value (v - f.min) f.values
