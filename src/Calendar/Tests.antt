-- ===== src/Calendar/Tests.antt =====
-- Runs of backend/app/services/sla_calendar.py on concrete calendars.
use registrator_ofid.Base.{◌==◌, ℕ, ◌+◌, ◌*◌, ◌≡◌, refl, true, false, [], ◌∷◌, some, arith, any}
use registrator_ofid.Samples.{office, always, never, friday_noon}
use registrator_ofid.Calendar.{hour_us, day_us, add_loop, local_date, local_midnight_after}
use registrator_ofid.Calendar.{add_working_time, working_time_between, is_working_day}
use registrator_ofid.Calendar.Civil.{weekday, month_day}
use registrator_ofid.Calendar.Worked.{worked}
use registrator_ofid.Calendar.Between.{loop, working_time_between-worked}
use registrator_ofid.Calendar.Add.{Due, add_working_time-Due, working_time_between-add_working_time}
use registrator_ofid.Calendar.Total.{WorksWithin, add_working_time_total}

-- A day of working time from Friday noon ends on Monday at noon.
abbrev monday_noon : ℕ
monday_noon = friday_noon + 3 * day_us

deadline_example : Due office friday_noon (24 * hour_us) monday_noon
unfolding add_working_time add_loop is_working_day weekday local_date month_day local_midnight_after
deadline_example = add_working_time-Due office friday_noon (24 * hour_us) refl

measured_example : working_time_between office friday_noon monday_noon ≡ 24 * hour_us
unfolding add_working_time add_loop is_working_day weekday local_date month_day local_midnight_after
measured_example = working_time_between-add_working_time office friday_noon (24 * hour_us) refl

worked_example :
    (loop office friday_noon monday_noon
      ≡ some (working_time_between office friday_noon monday_noon))
    × (worked office friday_noon + working_time_between office friday_noon monday_noon
        ≡ worked office monday_noon)
worked_example = working_time_between-worked office friday_noon monday_noon (omega arith)

weekday_cases : (d : ℕ) → any (λ w. weekday d == w) (0 ∷ 1 ∷ 2 ∷ 3 ∷ 4 ∷ 5 ∷ 6 ∷ []) ≡ true
unfolding weekday
weekday_cases d = ground arith

open_every_day : WorksWithin always 1
unfolding is_working_day
open_every_day d = (0, omega arith, rw (weekday_cases (d + 0)) refl)

total_example :
    (deadline : ℕ) × (add_working_time always friday_noon (24 * hour_us) ≡ some deadline)
total_example =
    add_working_time_total always 1 1 friday_noon (24 * hour_us) open_every_day (omega arith)
      (omega arith) (omega arith)

closed_every_day : (d : ℕ) → is_working_day never d ≡ false
unfolding is_working_day
closed_every_day d = refl
