-- ===== src/Triggers/Cron.antt =====
-- internal/triggers/cron.go: five-field cron schedules. An instant is the number of nanoseconds since
-- Go's zero time, and a time zone is the function that reads an instant on its clock and calendar;
-- the database of zones is a parameter.
use machinist.Base.{
  ℕ, ◌+◌, ◌*◌, ◌/◌, Text, codes, text_eq, ◌==◌, Bool, true, false, ◌&&◌, ◌||◌, not, Option, none,
  some, List, [], ◌∷◌, is_empty, any, if◌then◌else◌, suc, zero, trim_space, to_upper, fields,
  contains_text,
}
use machinist.Base.Result.{Result, ok, err, ◌>>=◌}
use machinist.Triggers.Field.{
  CronError, CronField, bad_zone, environment_assignment, has, month_names, no_occurrence,
  not_five_fields, parse_cron_field, several_lines, weekday_names, zone_required, zone_unloadable,
}

abbrev pub max_cron_search_minutes : ℕ
max_cron_search_minutes = 4216320

-- The clock and the calendar of a zone at an instant; Sunday is 0.
pub record LocalTime : Type 0 where
  pub minute : ℕ
  pub hour : ℕ
  pub day : ℕ
  pub month : ℕ
  pub weekday : ℕ

pub record Cron : Type 0 where
  -- the five fields; the source joins them by spaces
  pub expression : List Text
  pub location : ℕ → LocalTime
  pub minute : CronField
  pub hour : CronField
  pub day : CronField
  pub month : CronField
  pub weekday : CronField

-- Cron.matches
unfoldable pub matches : Cron → ℕ → Bool
matches c candidate =
    let t = c.location candidate in
    if not (has c.minute t.minute) || not (has c.hour t.hour) || not (has c.month t.month)
    then false
    else if c.day.star || c.weekday.star
    then has c.day t.day && has c.weekday t.weekday
    else has c.day t.day || has c.weekday t.weekday

-- time.Minute
abbrev pub one_minute : ℕ
one_minute = 60000000000

-- The loop of Next; `none` is the zero time.
unfoldable pub search : Cron → ℕ → ℕ → Option ℕ
search c zero candidate = none
search c (suc rounds) candidate = elim (matches c candidate) [
  | true ↦ some candidate
  | false ↦ search c rounds (candidate + one_minute)
]

-- after.Truncate(time.Minute).Add(time.Minute)
abbrev pub first_candidate : ℕ → ℕ
first_candidate after = (after / one_minute) * one_minute + one_minute

-- Cron.Next
unfoldable pub next : Cron → ℕ → Option ℕ
next c after = search c max_cron_search_minutes (first_candidate after)

-- 2000-01-01T00:00:00Z
abbrev pub year_2000 : ℕ
year_2000 = 63082281600000000000

abbrev occurring : Cron → Option ℕ → Result CronError Cron
occurring c none = err no_occurrence
occurring c (some t) = ok c

module _ (load_location : Text → Option (ℕ → LocalTime)) where
  parse_fields : List Text → (ℕ → LocalTime) → Result CronError Cron
  parse_fields (a ∷ b ∷ c ∷ d ∷ e ∷ []) location = do
    minute ← parse_cron_field a 0 59 [] false
    hour ← parse_cron_field b 0 23 [] false
    day ← parse_cron_field c 1 31 [] false
    month ← parse_cron_field d 1 12 month_names false
    weekday ← parse_cron_field e 0 7 weekday_names true
    let schedule : Cron = record {
      expression = a ∷ b ∷ c ∷ d ∷ e ∷ [];
      location = location;
      minute = minute;
      hour = hour;
      day = day;
      month = month;
      weekday = weekday;
    }
    occurring schedule (next schedule year_2000)
  parse_fields parts location = err not_five_fields

  unfoldable pub parse_cron : Text → Text → Result CronError Cron
  unfolding parse_fields
  parse_cron expression timezone =
      let parts = fields expression in
      let zone = trim_space timezone in
      if any (λ c. c == 10 || c == 13) expression
      then err several_lines
      else if contains_text (codes "=") expression
          || contains_text (codes "CRON_TZ") (to_upper expression)
      then err environment_assignment
      else if not (is_five parts)
      then err not_five_fields
      else if is_empty zone
      then err zone_required
      else if not (text_eq zone timezone) || text_eq zone (codes "Local")
      then err (bad_zone timezone)
      else elim (load_location zone) [
        | none ↦ err zone_unloadable
        | some location ↦ parse_fields parts location
      ]
    where
      is_five : List Text → Bool
      is_five (a ∷ b ∷ c ∷ d ∷ e ∷ []) = true
      is_five parts = false
