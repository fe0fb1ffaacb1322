-- ===== src/Triggers/Examples.antt =====
-- Concrete schedules: the fixtures, tests, and the theorems of internal/triggers applied to them.
use machinist.Base.{
  ℕ, ◌≤◌, ◌==◌, if◌then◌else◌, codes, text_eq, ◌≡◌, ◌≢◌, refl, true, false, some, [], ◌∷◌, split,
  Any, to_lower, has_prefix, contains_text,
}
use machinist.Base.Numbers.{atoi}
use machinist.Base.Dict.{lookup}
use machinist.Base.Result.{ok, err}
use machinist.Triggers.Cron.{LocalTime, Cron, matches, search, next}
use machinist.Triggers.Field.{
  CronField, index_out_of_range, loop_unfinished, names, cron_value, range_parts, cron_range,
  step_parts, split_cron_step, set_value, get_value, mark_value, mark_values, mark_item, mark_items,
  unset, parse_cron_field, weekday_names, has,
}
use machinist.Triggers.Schedule.{IsNext, next-IsNext}
use machinist.Triggers.Fields.{ItemCovers, parse_cron_field-covers}
use machinist.Triggers.Termination.{parse_cron_field_terminates}

-- From Monday to Wednesday and on Sunday, written as 7.
abbrev weekdays : CronField
weekdays = record {
  min = 0;
  max = 7;
  values = true ∷ true ∷ true ∷ true ∷ false ∷ false ∷ false ∷ false ∷ [];
  star = false;
  sunday7 = true;
}

parse_weekdays : parse_cron_field (codes "mon-wed,7") 0 7 weekday_names true ≡ ok weekdays
unfolding parse_cron_field mark_items mark_item mark_values mark_value set_value unset
    split_cron_step step_parts cron_range range_parts cron_value names lookup atoi to_lower
    has_prefix contains_text split text_eq
parse_weekdays = refl

sunday_set : has weekdays 7 ≡ true
unfolding has get_value
sunday_set = refl

parse_cron_field-covers_example :
    (0 ≤ 0) × (0 ≤ 7) × Any (ItemCovers 0 7 weekday_names true 0) (split b',' (codes "mon-wed,7"))
parse_cron_field-covers_example =
    (parse_cron_field-covers (codes "mon-wed,7") 0 7 weekday_names true weekdays parse_weekdays 7).0
      sunday_set

parse_cron_field_terminates_example :
    parse_cron_field (codes "0-59/7") 0 59 [] false ≢ err loop_unfinished
parse_cron_field_terminates_example = parse_cron_field_terminates (codes "0-59/7") 0 59 [] false

-- A step that wraps the loop's variable to a negative number makes the next round panic.
step_wraps : parse_cron_field (codes "1/9223372036854775807") 0 59 [] false ≡ err index_out_of_range
unfolding parse_cron_field mark_items mark_item mark_values mark_value set_value unset
    split_cron_step step_parts cron_range range_parts cron_value names lookup atoi to_lower
    has_prefix contains_text split text_eq
step_wraps = refl

abbrev every : ℕ → ℕ → CronField
every min max = record { min = min; max = max; values = true ∷ []; star = true; sunday7 = false }

-- A field of five values with the second alone set.
abbrev second : CronField
second = record {
  min = 0;
  max = 4;
  values = false ∷ true ∷ false ∷ false ∷ false ∷ [];
  star = false;
  sunday7 = false;
}

-- A zone whose clock stands at minute 1 two minutes after Go's zero time, and at 0 else.
abbrev clock : ℕ → LocalTime
clock t = record {
  minute = if t == 120000000000 then 1 else 0;
  hour = 0;
  day = 0;
  month = 0;
  weekday = 0;
}

abbrev schedule : Cron
schedule = record {
  expression = [];
  location = clock;
  minute = second;
  hour = every 0 0;
  day = every 0 0;
  month = every 0 0;
  weekday = every 0 0;
}

next_hit : next schedule 5 ≡ some 120000000000
unfolding next search matches has get_value
next_hit = refl

next-IsNext_example : IsNext schedule 5 120000000000
next-IsNext_example = (next-IsNext schedule 5 120000000000).0 next_hit
