-- ===== src/Domain/Schedule.antt =====
-- app/time_utils.py, and `review_message_schedule` of app/domain/reviews.py. A moment is a number of
-- microseconds since the start of year 1, in UTC or on the clock of a zone. The zone database is a
-- parameter.
use native.Mathlib.Decide.{dec_lt}
use poolbrian_sms_automation.Prelude.{
  ℕ, ◌+◌, ◌-◌, ◌*◌, ◌/◌, ◌%◌, ◌≤◌, ◌<◌, ◌≡◌, refl, Bool, true, ◌&&◌, arith, ltb, leb, ◌==◌,
  if◌then◌else◌, Bool-cases, inl, inr, ap, ltb→lt, ◌∙◌,
}

-- `astimezone(zone)`, and `datetime.combine(date, time, zone).astimezone(UTC)`.
pub record Zone : Type 0 where
  pub local : ℕ → ℕ
  pub to_utc : ℕ → ℕ

abbrev pub hour_length : ℕ
hour_length = 3600000000

abbrev pub day_length : ℕ
day_length = 86400000000

-- `.date()`, as days since 1 January of year 1, and `.hour`.
abbrev pub date_of : ℕ → ℕ
date_of wall = wall / day_length

abbrev pub hour_of : ℕ → ℕ
hour_of wall = wall % day_length / hour_length

-- `.weekday()`: 1 January of year 1 is a Monday, which is 0.
abbrev pub weekday : ℕ → ℕ
weekday day = day % 7

-- `datetime.combine(date, time(hour=hour), zone)`, on the zone's clock.
abbrev pub combine : ℕ → ℕ → ℕ
combine day hour = day * day_length + hour * hour_length

unfoldable pub next_day_email_at : Zone → ℕ → ℕ → ℕ
next_day_email_at zone starting_at hour =
    zone.to_utc (combine (date_of (zone.local starting_at) + 1) hour)

-- `(5 - weekday) % 7` with Python's `%`, whose result is never negative.
abbrev pub days_until_saturday : ℕ → ℕ
days_until_saturday day = let days = (5 + 7 - weekday day) % 7 in if days == 0 then 7 else days

unfoldable pub first_saturday_after : Zone → ℕ → ℕ → ℕ
first_saturday_after zone first_email_at hour =
    let local_date = date_of (zone.local first_email_at) in
    zone.to_utc (combine (local_date + days_until_saturday local_date) hour)

unfoldable pub within_local_hours : Zone → ℕ → ℕ → ℕ → Bool
within_local_hours zone now start_hour end_hour =
    leb start_hour (hour_of (zone.local now)) && ltb (hour_of (zone.local now)) end_hour

unfoldable pub next_service_notice_at : Zone → ℕ → ℕ → ℕ → ℕ
next_service_notice_at zone starting_at start_hour end_hour =
    let local = zone.local starting_at in
    if leb start_hour (hour_of local) && ltb (hour_of local) end_hour
    then starting_at
    else zone.to_utc (
        combine (if ltb (hour_of local) start_hour then date_of local else date_of local + 1)
          start_hour)

pub record ReviewSchedule : Type 0 where
  pub initial_review_sms : ℕ
  pub next_day_review_email : ℕ
  pub saturday_review_email : ℕ

unfoldable pub review_message_schedule : Zone → ℕ → ℕ → ℕ → ReviewSchedule
unfolding next_day_email_at first_saturday_after
review_message_schedule zone now sms_delay_hours email_hour =
    let email = next_day_email_at zone now email_hour in
    record {
      initial_review_sms = now + sms_delay_hours * hour_length;
      next_day_review_email = email;
      saturday_review_email = first_saturday_after zone email email_hour;
    }

-- The zone's clock shows the hour on every day: no change of the clock skips it.
abbrev pub NeverSkips : Zone → ℕ → Type 0
NeverSkips zone hour = (day : ℕ) → zone.local (zone.to_utc (combine day hour)) ≡ combine day hour

saturday_step :
    (day : ℕ)
    → (weekday (day + days_until_saturday day) ≡ 5)
      × (day < day + days_until_saturday day)
      × (day + days_until_saturday day ≤ day + 7)
saturday_step day = ground arith

combined :
    (day hour : ℕ)
    → hour < 24
    → (date_of (combine day hour) ≡ day) × (hour_of (combine day hour) ≡ hour)
combined day hour h = omega arith

combined_at :
    (first second today day hour : ℕ)
    → hour < 24
    → day ≡ today + 1
    → first ≡ combine day hour
    → second ≡ combine (day + days_until_saturday day) hour
    → (date_of first ≡ today + 1)
      × (hour_of first ≡ hour)
      × (weekday (date_of second) ≡ 5)
      × (hour_of second ≡ hour)
      × (date_of first < date_of second)
      × (date_of second ≤ date_of first + 7)
combined_at first second today day hour h n f s =
    let (first_day, first_hour) = combined day hour h in
    let (second_day, second_hour) = combined (day + days_until_saturday day) hour h in
    let (saturday, later, soon) = saturday_step day in
    rw (f, s, first_day, second_day) (n, first_hour, saturday, second_hour, later, soon)

-- The first email is sent on the day after, at the hour; the second on a Saturday at the hour,
-- after the day of the first and at most seven days later. All by the zone's clock, where the hour
-- is one of the day and the clock never skips it.
pub review_message_schedule_lem :
    (zone : Zone) (now delay hour : ℕ)
    → hour < 24
    → NeverSkips zone hour
    → let s = review_message_schedule zone now delay hour in
      let first = zone.local s.next_day_review_email in
      let second = zone.local s.saturday_review_email in
      (date_of first ≡ date_of (zone.local now) + 1)
      × (hour_of first ≡ hour)
      × (weekday (date_of second) ≡ 5)
      × (hour_of second ≡ hour)
      × (date_of first < date_of second)
      × (date_of second ≤ date_of first + 7)
unfolding review_message_schedule
review_message_schedule_lem zone now delay hour h clock =
    let day = date_of (zone.local now) + 1 in
    let first_day : date_of (zone.local (zone.to_utc (combine day hour))) ≡ day =
      ap date_of (clock day) ∙ (combined day hour h).0 in
    combined_at _ _ (date_of (zone.local now)) day hour h refl (clock day)
      (clock _ ∙ ap (λ d. combine (d + days_until_saturday d) hour) first_day)

-- The clock shows the hour once: after the moment that stands for it, the clock is past it, since
-- no change turns it back over that hour.
abbrev pub NeverReturns : Zone → ℕ → Type 0
NeverReturns zone hour =
    (day t : ℕ) → zone.to_utc (combine day hour) < t → combine day hour < zone.local t

-- A moment at which the clock is not past the hour is not behind it.
not_later :
    (zone : Zone) (hour : ℕ)
    → NeverReturns zone hour
    → (day t : ℕ) → zone.local t ≤ combine day hour
    → t ≤ zone.to_utc (combine day hour)
not_later zone hour clock day t h = elim (dec_lt (zone.to_utc (combine day hour)) t) [
  | yes p ↦ absurd (omega (arith, clock day t p))
  | no p ↦ omega arith
]

opening :
    (day start_hour end_hour : ℕ)
    → start_hour < end_hour
    → end_hour ≤ 24
    → (leb start_hour (hour_of (combine day start_hour))
        && ltb (hour_of (combine day start_hour)) end_hour)
      ≡ true
opening day start_hour end_hour h e = rw ((combined day start_hour (omega arith)).1) (ground arith)

early_moment : (local hour : ℕ) → hour_of local < hour → local ≤ combine (date_of local) hour
early_moment local hour h = omega arith

late_moment : (local hour : ℕ) → local ≤ combine (date_of local + 1) hour
late_moment local hour = omega arith

-- A notice is scheduled in the window by the zone's clock, at a moment that is not before the one
-- that was asked for, and at the latest on the day after it by the clock, where the window is not
-- empty, lies in one day, and the clock never skips its first hour nor shows it twice.
pub next_service_notice_at_lem :
    (zone : Zone) (starting_at start_hour end_hour : ℕ)
    → start_hour < end_hour
    → end_hour ≤ 24
    → NeverSkips zone start_hour
    → NeverReturns zone start_hour
    → let at = next_service_notice_at zone starting_at start_hour end_hour in
      (within_local_hours zone at start_hour end_hour ≡ true)
      × (starting_at ≤ at)
      × (date_of (zone.local at) ≤ date_of (zone.local starting_at) + 1)
unfolding next_service_notice_at within_local_hours
next_service_notice_at_lem zone starting_at start_hour end_hour h e clock once =
    let local = zone.local starting_at in
    elim (Bool-cases (leb start_hour (hour_of local) && ltb (hour_of local) end_hour)) [
      | inl now ↦ rw now (now, omega arith, omega arith)
      | inr shut ↦ elim (Bool-cases (ltb (hour_of local) start_hour)) [
        | inl early ↦
            let day = date_of local in
            let shown = combined day start_hour (omega arith) in
            rw (shut, early, clock day)
              (
                opening day start_hour end_hour h e,
                not_later zone start_hour once day starting_at
                    (early_moment local start_hour (ltb→lt _ _ early)),
                rw shown.0 (omega arith),
              )
        | inr late ↦
            let day = date_of local + 1 in
            let shown = combined day start_hour (omega arith) in
            rw (shut, late, clock day)
              (
                opening day start_hour end_hour h e,
                not_later zone start_hour once day starting_at (late_moment local start_hour),
                rw shown.0 (omega arith),
              )
      ]
    ]
