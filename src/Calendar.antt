-- ===== src/Calendar.antt =====
-- backend/app/services/sla_calendar.py. A moment is the number of microseconds since
-- 0001-01-01 00:00 UTC, a naive datetime read as UTC, as the code reads it; a date is the number of
-- days since 0001-01-01.
pub mod Civil
pub mod Worked
pub mod Between
pub mod Add
pub mod Total
mod Tests
use Civil.{weekday, month_day}
use registrator_ofid.Base.{
  ℕ, zero, suc, ◌+◌, ◌-◌, ◌*◌, ◌/◌, ◌%◌, Bool, true, false, not, ◌&&◌, ◌||◌, Option, none, some,
  List, [], ◌∷◌, ltb, leb, ◌==◌, if◌then◌else◌, any,
}

-- The SLA part of the settings, parsed; the time zone is its fixed offset east of UTC.
pub record SlaCalendar : Type 0 where
  pub offset : ℕ
  pub workdays : List ℕ
  pub fixed_holidays : List (ℕ × ℕ)
  pub dated_holidays : List ℕ

-- Microseconds in a day.
abbrev pub day_us : ℕ
day_us = 86_400_000_000

abbrev pub hour_us : ℕ
hour_us = 3_600_000_000

unfoldable pub is_working_day : SlaCalendar → ℕ → Bool
is_working_day cal day =
    let (month, mday) = month_day day in
    if not (any (λ d. weekday day == d) cal.workdays)
    then false
    else if any (λ h. (month == h.0) && (mday == h.1)) cal.fixed_holidays
    then false
    else not (any (λ h. day == h) cal.dated_holidays)

-- `moment.astimezone(_tz()).date()`
unfoldable pub local_date : SlaCalendar → ℕ → ℕ
local_date cal moment = (moment + cal.offset) / day_us

unfoldable pub local_midnight_after : SlaCalendar → ℕ → ℕ
unfolding local_date
local_midnight_after cal moment = (local_date cal moment + 1) * day_us - cal.offset

-- The `for` of `add_working_time`, on the rounds that are left.
unfoldable pub add_loop : SlaCalendar → ℕ → ℕ → ℕ → Option ℕ
add_loop cal zero cursor remaining = none
add_loop cal (suc rounds) cursor remaining =
    let day_end = local_midnight_after cal cursor in
    let available = day_end - cursor in
    let after_work = add_loop cal rounds day_end (remaining - available) in
    let after_rest = add_loop cal rounds day_end remaining in
    if is_working_day cal (local_date cal cursor)
    then (if leb remaining available then some (cursor + remaining) else after_work)
    else after_rest

-- `none` is the `ValueError` of a calendar with no working days.
unfoldable pub add_working_time : SlaCalendar → ℕ → ℕ → Option ℕ
add_working_time cal start duration = add_loop cal 3660 start duration

-- The `while` of `working_time_between`, on fuel; each round goes on to the next local midnight.
unfoldable pub between_loop : SlaCalendar → ℕ → ℕ → ℕ → ℕ → Option ℕ
between_loop cal zero cursor end total = none
between_loop cal (suc fuel) cursor end total =
    let midnight = local_midnight_after cal cursor in
    let day_end = if ltb end midnight then end else midnight in
    let gained =
      if is_working_day cal (local_date cal cursor) then total + (day_end - cursor) else total in
    let rest = between_loop cal fuel day_end end gained in
    if ltb cursor end then rest else some total

-- The fuel is the number of local dates from the start to the end, and one more test; that the loop
-- ends within it is part of the theorem on this function.
unfoldable pub working_time_between : SlaCalendar → ℕ → ℕ → ℕ
working_time_between cal start end =
    elim (between_loop cal (local_date cal end - local_date cal start + 2) start end 0) [
      | none ↦ 0
      | some total ↦ total
    ]

unfoldable pub sla_deadline_from : SlaCalendar → ℕ → ℕ → Option ℕ
sla_deadline_from cal start sla_hours = add_working_time cal start (sla_hours * hour_us)
