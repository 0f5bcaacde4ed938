-- ===== src/Calendar/Add.antt =====
-- `add_working_time` of backend/app/services/sla_calendar.py is the inverse of the SLA clock.
use native.Mathlib.Nat.{sub-zero}
use registrator_ofid.Base.{
  ℕ, zero, suc, ◌+◌, ◌-◌, ◌≤◌, ◌<◌, ◌≡◌, true, arith, Bool-cases, ltb, leb, ltb→lt, leb→le, inl,
  inr, some, subst,
}
use registrator_ofid.Calendar.{
  SlaCalendar, is_working_day, local_date, local_midnight_after, add_loop, add_working_time,
  working_time_between,
}
use registrator_ofid.Calendar.Worked.{worked, on_working_day, worked_within, midnight_bounds}
use registrator_ofid.Calendar.Between.{working_time_between-worked, worked_mono}

-- `e` is the moment at which the clock has advanced by `r` since `c`, and the first such moment if
-- `r` is not zero.
pub record Due (cal : SlaCalendar) (c r e : ℕ) : Type 0 where
  pub later : c ≤ e
  pub elapsed : worked cal e ≡ worked cal c + r
  pub earliest : (t : ℕ) → 0 < r → t < e → worked cal t < worked cal c + r

-- Within a working day.
Due-today :
    (cal : SlaCalendar) (c r : ℕ)
    → is_working_day cal (local_date cal c) ≡ true
    → c + r ≤ local_midnight_after cal c
    → Due cal c r (c + r)
Due-today cal c r works fits = record {
  later = omega arith;
  elapsed = ground (arith, worked_within cal c (c + r) (omega arith) fits);
  earliest = λ t p before. elim (Bool-cases (ltb t c)) [
    | inl t_first ↦ omega (arith, worked_mono cal t c (omega (arith, ltb→lt _ _ t_first)))
    | inr c_first ↦
        let c-le-t : c ≤ t = ground arith in
        ground (arith, worked_within cal c t c-le-t (omega arith))
  ];
}

-- Past a midnight before which the clock gains `day`.
Due-later :
    (cal : SlaCalendar) (c r e : ℕ)
    → let mid = local_midnight_after cal c in
      let day = on_working_day cal (local_date cal c) (mid - c) in
      day ≤ r → Due cal mid (r - day) e → (0 < r → 0 < r - day) → Due cal c r e
Due-later cal c r e fits due more =
    let (grows, _, _, _, _) = midnight_bounds cal c in
    let reached = worked_within cal c (local_midnight_after cal c) (omega arith) (omega arith) in
    record {
      later = omega (arith, due.later);
      elapsed = omega (arith, due.elapsed);
      earliest = λ t p before. omega (arith, due.earliest t (more p) before);
    }

-- The loop's result, when it has one.
add_loop-Due :
    (cal : SlaCalendar) (rounds c r e : ℕ) → add_loop cal rounds c r ≡ some e → Due cal c r e
unfolding add_loop
add_loop-Due cal zero c r e h = cc
add_loop-Due cal (suc rounds) c r e h =
    let mid = local_midnight_after cal c in
    let (grows, _, _, _, _) = midnight_bounds cal c in
    elim (Bool-cases (is_working_day cal (local_date cal c))) [
      | inl works ↦ elim (Bool-cases (leb r (mid - c))) [
        | inl fits ↦
            let at : c + r ≡ e = ground arith in
            subst (Due cal c r) at
              (Due-today cal c r works (omega (arith, leb→le r (mid - c) fits)))
        | inr over ↦
            let gt : mid - c < r = ground arith in
            Due-later cal c r e (rw works (omega arith))
              (rw works (add_loop-Due cal rounds mid (r - (mid - c)) e (ground arith)))
              (rw works (λ p. omega arith))
      ]
      | inr rests ↦
          Due-later cal c r e (rw rests (omega arith))
            (rw (rests, sub-zero) (add_loop-Due cal rounds mid r e (ground arith)))
            (rw rests (λ p. omega arith))
    ]

-- A deadline that `add_working_time` returns is not before the start, the SLA clock advances by
-- exactly the duration from the start to it, and for a positive duration no earlier moment will do.
pub add_working_time-Due :
    (cal : SlaCalendar) (start duration : ℕ) {deadline : ℕ}
    → add_working_time cal start duration ≡ some deadline
    → Due cal start duration deadline
unfolding add_working_time
add_working_time-Due cal start duration {deadline} h =
    add_loop-Due cal 3660 start duration deadline h

-- Measuring the working time up to a deadline that `add_working_time` set gives the duration back.
pub working_time_between-add_working_time :
    (cal : SlaCalendar) (start duration : ℕ) {deadline : ℕ}
    → add_working_time cal start duration ≡ some deadline
    → working_time_between cal start deadline ≡ duration
working_time_between-add_working_time cal start duration {deadline} h =
    let due = add_working_time-Due cal start duration h in
    omega (arith, (working_time_between-worked cal start deadline due.later).1, due.elapsed)
