-- ===== src/Triggers/Schedule.antt =====
-- When a schedule fires next (internal/triggers/cron.go).
use machinist.Base.{
  ℕ, ◌+◌, ◌≤◌, ◌<◌, suc, zero, ◌≡◌, ◌↔◌, inl, inr, sym, ◌∙◌, ap, subst, true, false, some, arith,
  ◌*◌, ◌/◌, ◌&&◌, ◌||◌, if◌then◌else◌, ◌-◌, Bool-cases,
}
use machinist.Triggers.Field.{has}
use machinist.Triggers.Cron.{
  Cron, LocalTime, matches, search, next, one_minute, first_candidate, max_cron_search_minutes,
}

-- The k-th minute of a search.
abbrev pub minute_at : ℕ → ℕ → ℕ
minute_at candidate zero = candidate
minute_at candidate (suc k) = minute_at (candidate + one_minute) k

-- An instant is the first match among the minutes of a search.
pub record IsFirst (c : Cron) (rounds candidate t : ℕ) : Type 0 where
  pub index : ℕ
  pub in_bound : index < rounds
  pub at_minute : t ≡ minute_at candidate index
  pub matching : matches c t ≡ true
  pub none_before : (j : ℕ) → j < index → matches c (minute_at candidate j) ≡ false

search_hit :
    (c : Cron) (rounds candidate : ℕ)
    → matches c candidate ≡ true
    → search c (suc rounds) candidate ≡ some candidate
unfolding search
search_hit c rounds candidate m = rw (m, search)

search_miss :
    (c : Cron) (rounds candidate : ℕ)
    → matches c candidate ≡ false
    → search c (suc rounds) candidate ≡ search c rounds (candidate + one_minute)
unfolding search
search_miss c rounds candidate m = rw (m, search)

-- Where the first minute misses, the later ones decide.
misses :
    (c : Cron) (candidate i : ℕ)
    → matches c candidate ≡ false
    → ((j : ℕ) → j < i → matches c (minute_at (candidate + one_minute) j) ≡ false)
    → (j : ℕ) → j < suc i
    → matches c (minute_at candidate j) ≡ false
misses c candidate i m later zero l = m
misses c candidate i m later (suc j) l = later j (omega arith)

search-IsFirst :
    (c : Cron) (rounds candidate t : ℕ)
    → search c rounds candidate ≡ some t
    → IsFirst c rounds candidate t
unfolding search
search-IsFirst c zero candidate t h = cc
search-IsFirst c (suc rounds) candidate t h = elim (Bool-cases (matches c candidate)) [
  | inl m ↦
      let same : candidate ≡ t = ground (arith, search_hit c rounds candidate m, h) in
      record {
        index = 0;
        in_bound = omega arith;
        at_minute = sym same;
        matching = subst (λ u. matches c u ≡ true) same m;
        none_before = λ j l. absurd (omega arith);
      }
  | inr m ↦
      let f =
        search-IsFirst c rounds (candidate + one_minute) t
          (sym (search_miss c rounds candidate m) ∙ h) in
      let bound = f.in_bound in
      record {
        index = suc f.index;
        in_bound = omega arith;
        at_minute = f.at_minute;
        matching = f.matching;
        none_before = λ j l. misses c candidate f.index m (λ i b. f.none_before i b) j l;
      }
]

IsFirst-search :
    (c : Cron) (rounds candidate i t : ℕ)
    → i < rounds
    → t ≡ minute_at candidate i
    → matches c t ≡ true
    → ((j : ℕ) → j < i → matches c (minute_at candidate j) ≡ false)
    → search c rounds candidate ≡ some t
IsFirst-search c zero candidate i t l e m before = absurd (omega arith)
IsFirst-search c (suc rounds) candidate zero t l e m before =
    search_hit c rounds candidate (subst (λ u. matches c u ≡ true) e m) ∙ ap some (sym e)
IsFirst-search c (suc rounds) candidate (suc i) t l e m before =
    search_miss c rounds candidate (before 0 (omega arith))
    ∙ IsFirst-search c rounds (candidate + one_minute) i t (omega arith) e m
        (λ j b. before (suc j) (omega arith))

-- Whether the day is one of the schedule's: where one of the two fields of the day begins with a
-- star, both must admit it, and otherwise one of them.
pub data DayFires (c : Cron) (t : LocalTime) : Type 0 where
  both : has c.day t.day ≡ true → has c.weekday t.weekday ≡ true → DayFires c t
  by_day : c.day.star ≡ false → c.weekday.star ≡ false → has c.day t.day ≡ true → DayFires c t
  by_weekday :
      c.day.star ≡ false → c.weekday.star ≡ false → has c.weekday t.weekday ≡ true → DayFires c t

-- An instant at which a schedule fires: the zone's clock and calendar read values that the fields admit.
pub record Fires (c : Cron) (t : ℕ) : Type 0 where
  pub minute : has c.minute (c.location t).minute ≡ true
  pub hour : has c.hour (c.location t).hour ≡ true
  pub month : has c.month (c.location t).month ≡ true
  pub day : DayFires c (c.location t)

DayFires-days :
    (c : Cron) (t : LocalTime)
    → DayFires c t
    → (if c.day.star || c.weekday.star
        then has c.day t.day && has c.weekday t.weekday
        else has c.day t.day || has c.weekday t.weekday)
      ≡ true
DayFires-days c t (both d w) = ground (arith, d, w)
DayFires-days c t (by_day p q d) = ground (arith, p, q, d)
DayFires-days c t (by_weekday p q w) = ground (arith, p, q, w)

days-DayFires :
    (c : Cron) (t : LocalTime)
    → (if c.day.star || c.weekday.star
        then has c.day t.day && has c.weekday t.weekday
        else has c.day t.day || has c.weekday t.weekday)
      ≡ true
    → DayFires c t
days-DayFires c t h = elim (Bool-cases (has c.day t.day)) [
  | inl d ↦ elim (Bool-cases (has c.weekday t.weekday)) [
    | inl w ↦ both d w
    | inr w ↦ by_day (ground (arith, d, w, h)) (ground (arith, d, w, h)) d
  ]
  | inr d ↦ by_weekday (ground (arith, d, h)) (ground (arith, d, h)) (ground (arith, d, h))
]

matches_iff : (c : Cron) (t : ℕ) → (matches c t ≡ true) ↔ Fires c t
unfolding matches
matches_iff c t = (
  λ h.
      let days = days-DayFires c (c.location t) (ground (arith, h)) in
      record {
        minute = ground (arith, h);
        hour = ground (arith, h);
        month = ground (arith, h);
        day = days;
      },
  λ f.
      let days = DayFires-days c (c.location t) f.day in
      let m = f.minute in let h = f.hour in let mo = f.month in ground (arith, m, h, mo, days),
)

-- The first whole minute behind an instant at which a schedule fires, if it is within the bound of
-- the search.
pub record IsNext (c : Cron) (after t : ℕ) : Type 0 where
  pub minutes : ℕ
  pub whole : t ≡ minutes * one_minute
  pub behind : after < t
  pub in_bound : t ≤ after + max_cron_search_minutes * one_minute
  pub fires : Fires c t
  pub none_between :
      (k : ℕ) → after < k * one_minute → k * one_minute < t → ¬ Fires c (k * one_minute)

minute_at-eq : (candidate i : ℕ) → minute_at candidate i ≡ candidate + i * one_minute
minute_at-eq candidate zero = omega arith
minute_at-eq candidate (suc i) = let later = minute_at-eq (candidate + one_minute) i in omega arith

-- The minutes of a search are those behind the instant.
whole_after :
    (after i : ℕ) → minute_at (first_candidate after) i ≡ (after / one_minute + 1 + i) * one_minute
whole_after after i = let at = minute_at-eq (first_candidate after) i in omega arith

-- Every whole minute behind the instant is one of a search.
index_of :
    (after k : ℕ)
    → after < k * one_minute
    → minute_at (first_candidate after) (k - (after / one_minute + 1)) ≡ k * one_minute
index_of after k l =
    let at = whole_after after (k - (after / one_minute + 1)) in
    let split : k ≡ after / one_minute + 1 + (k - (after / one_minute + 1)) = omega arith in
    at ∙ ap (λ n. n * one_minute) (sym split)

IsFirst-IsNext :
    (c : Cron) (after t : ℕ)
    → IsFirst c max_cron_search_minutes (first_candidate after) t
    → IsNext c after t
IsFirst-IsNext c after t f =
    let at = f.at_minute ∙ whole_after after f.index in
    let bound = f.in_bound in
    record {
      minutes = after / one_minute + 1 + f.index;
      whole = at;
      behind = omega arith;
      in_bound = omega arith;
      fires = (matches_iff c t).0 f.matching;
      none_between = λ k low high fire.
          let j = k - (after / one_minute + 1) in
          let missed = f.none_before j (omega arith) in
          let hit = (matches_iff c (k * one_minute)).1 fire in
          let same : matches c (minute_at (first_candidate after) j) ≡ matches c (k * one_minute) =
            ap (matches c) (index_of after k low) in
          absurd (ground (arith, missed, hit, same));
    }

IsNext-IsFirst :
    (c : Cron) (after t : ℕ)
    → IsNext c after t
    → IsFirst c max_cron_search_minutes (first_candidate after) t
IsNext-IsFirst c after t n =
    let whole = n.whole in
    let behind = n.behind in
    let bound = n.in_bound in
    let low : after < n.minutes * one_minute = omega arith in
    record {
      index = n.minutes - (after / one_minute + 1);
      in_bound = omega arith;
      at_minute = whole ∙ sym (index_of after n.minutes low);
      matching = (matches_iff c t).1 n.fires;
      none_before = λ j l.
          let at = whole_after after j in
          elim (Bool-cases (matches c (minute_at (first_candidate after) j))) [
            | inr missed ↦ missed
            | inl hit ↦ absurd (
                n.none_between (after / one_minute + 1 + j) (omega arith) (omega arith) (
                  (matches_iff c ((after / one_minute + 1 + j) * one_minute)).0
                    (sym (ap (matches c) at) ∙ hit)))
          ];
    }

-- Next gives an instant exactly when it is a whole minute behind the given one, within the bound of
-- the search, at which the schedule fires, and the schedule fires at no whole minute between them.
pub next-IsNext : (c : Cron) (after t : ℕ) → (next c after ≡ some t) ↔ IsNext c after t
unfolding next
next-IsNext c after t = (
  λ h.
      IsFirst-IsNext c after t
        (search-IsFirst c max_cron_search_minutes (first_candidate after) t h),
  λ n.
      let f = IsNext-IsFirst c after t n in
      IsFirst-search c max_cron_search_minutes (first_candidate after) f.index t f.in_bound
        f.at_minute f.matching f.none_before,
)
