-- ===== src/Calendar/Worked.antt =====
-- The specification of the SLA clock: the working time from the beginning of the calendar up to a
-- moment, a running total of whole working days and the part of the current one.
use registrator_ofid.Base.{
  ℕ, zero, suc, ◌+◌, ◌-◌, ◌%◌, ◌≤◌, ◌<◌, ◌≡◌, refl, arith, if◌then◌else◌, Bool-cases, ltb, ltb→lt,
  inl, inr,
}
use registrator_ofid.Calendar.{
  SlaCalendar, day_us, is_working_day, local_date, local_midnight_after,
}

-- `amount` on a working day and nothing on another.
abbrev pub on_working_day : SlaCalendar → ℕ → ℕ → ℕ
on_working_day cal day amount = if is_working_day cal day then amount else 0

-- The working time of the first `n` days.
pub whole_days : SlaCalendar → ℕ → ℕ
whole_days cal zero = 0
whole_days cal (suc n) = whole_days cal n + on_working_day cal n day_us

-- The working time up to a moment.
pub worked : SlaCalendar → ℕ → ℕ
worked cal moment =
    let day = local_date cal moment in
    whole_days cal day + on_working_day cal day ((moment + cal.offset) % day_us)

pub midnight_bounds :
    (cal : SlaCalendar) (c : ℕ)
    → (c < local_midnight_after cal c)
      × (local_midnight_after cal c ≤ c + day_us)
      × (local_date cal (local_midnight_after cal c) ≡ local_date cal c + 1)
      × ((local_midnight_after cal c + cal.offset) % day_us ≡ 0)
      × ((c + cal.offset) % day_us + (local_midnight_after cal c - c) ≡ day_us)
unfolding local_midnight_after local_date
midnight_bounds cal c = omega arith

pub date_mono : (cal : SlaCalendar) (c e : ℕ) → c ≤ e → local_date cal c ≤ local_date cal e
unfolding local_date
date_mono cal c e h = omega arith

-- A moment before the next local midnight is on the same local date.
pub date_same :
    (cal : SlaCalendar) (c e : ℕ)
    → c ≤ e
    → e < local_midnight_after cal c
    → (local_date cal e ≡ local_date cal c)
      × ((e + cal.offset) % day_us ≡ (c + cal.offset) % day_us + (e - c))
unfolding local_midnight_after local_date
date_same cal c e h k = omega arith

worked_on :
    (cal : SlaCalendar) (m d r : ℕ)
    → local_date cal m ≡ d
    → (m + cal.offset) % day_us ≡ r
    → worked cal m ≡ whole_days cal d + on_working_day cal d r
unfolding worked
worked_on cal m d r p q = rw (p, q)

-- Up to the next midnight the clock advances by the time that passes if the day is a working day,
-- and stands still otherwise.
pub worked_within :
    (cal : SlaCalendar) (c e : ℕ)
    → c ≤ e
    → e ≤ local_midnight_after cal c
    → worked cal e ≡ worked cal c + on_working_day cal (local_date cal c) (e - c)
unfolding whole_days
worked_within cal c e h k = elim (Bool-cases (ltb e (local_midnight_after cal c))) [
  | inl before ↦
      let (same, rest) = date_same cal c e h (ltb→lt _ _ before) in
      ground (
        arith,
        worked_on cal e (local_date cal c) ((c + cal.offset) % day_us + (e - c)) same rest,
        worked_on cal c (local_date cal c) ((c + cal.offset) % day_us) refl refl,
      )
  | inr at ↦
      let at_midnight : e ≡ local_midnight_after cal c = ground arith in
      let (_, _, next, zero_rest, whole) = midnight_bounds cal c in
      rw at_midnight (
        ground (
          arith,
          worked_on cal (local_midnight_after cal c) (suc (local_date cal c)) 0 (omega arith)
              zero_rest,
          worked_on cal c (local_date cal c) ((c + cal.offset) % day_us) refl refl,
        ))
]
