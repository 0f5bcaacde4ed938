-- ===== src/Calendar/Between.antt =====
-- `working_time_between` of backend/app/services/sla_calendar.py against the specification.
use native.Mathlib.Nat.{add-zero}
use registrator_ofid.Base.{
  refl, ℕ, zero, suc, ◌+◌, ◌-◌, ◌≤◌, ◌<◌, ◌≡◌, arith, if◌then◌else◌, Bool-cases, ltb, ltb→lt, inl,
  inr, Option, some, lt→ltb, ap, ◌∙◌,
}
use registrator_ofid.Calendar.{
  SlaCalendar, is_working_day, local_date, local_midnight_after, between_loop, working_time_between,
}
use registrator_ofid.Calendar.Worked.{
  worked, on_working_day, worked_within, midnight_bounds, date_mono,
}

-- The time `g` that the clock gains from `c` to `e` is what the loop adds to its total.
abbrev Gains : SlaCalendar → ℕ → ℕ → ℕ → Option ℕ → Type 0
Gains cal c e total r = (g : ℕ) × (worked cal e ≡ worked cal c + g) × (r ≡ some (total + g))

between_loop_end :
    (cal : SlaCalendar) (fuel c e total : ℕ)
    → 0 < fuel
    → e ≤ c
    → between_loop cal fuel c e total ≡ some total
unfolding between_loop
between_loop_end cal zero c e total h k = absurd (omega arith)
between_loop_end cal (suc fuel) c e total h k = ground arith

-- One round goes on to `next`, the end or the midnight before it.
between_loop_round :
    (cal : SlaCalendar) (fuel c e next total : ℕ)
    → c < e
    → next ≡ (if ltb e (local_midnight_after cal c) then e else local_midnight_after cal c)
    → between_loop cal (suc fuel) c e total
      ≡ between_loop cal fuel next e (total + on_working_day cal (local_date cal c) (next - c))
unfolding between_loop
between_loop_round cal fuel c e next total h p =
    elim (Bool-cases (is_working_day cal (local_date cal c))) [
      | inl works ↦ rw (works, p, lt→ltb c e h)
      | inr rests ↦ rw (rests, p, lt→ltb c e h, add-zero)
    ]

between_loop-Gains :
    (cal : SlaCalendar) (fuel c e total : ℕ)
    → c < e
    → local_date cal e + 2 ≤ fuel + local_date cal c
    → Gains cal c e total (between_loop cal fuel c e total)
between_loop-Gains cal zero c e total h k = absurd (omega (arith, date_mono cal c e (omega arith)))
between_loop-Gains cal (suc fuel) c e total h k =
    let mid = local_midnight_after cal c in
    let day = on_working_day cal (local_date cal c) in
    let (grows, _, dated, _, _) = midnight_bounds cal c in
    elim (Bool-cases (ltb mid e)) [
      | inl later ↦
          let (g, gained, ends) =
            between_loop-Gains cal fuel mid e (total + day (mid - c)) (ltb→lt _ _ later)
              (omega arith) in
          (
            day (mid - c) + g,
            omega (arith, worked_within cal c mid (omega arith) (omega arith)),
            between_loop_round cal fuel c e mid total h (ground arith)
                ∙ ends
                ∙ ap some (omega arith),
          )
      | inr last ↦
          let near : e ≤ mid = ground arith in
          (
            day (e - c),
            worked_within cal c e (omega arith) near,
            between_loop_round cal fuel c e e total h (ground arith)
                ∙ between_loop_end cal fuel e e (total + day (e - c))
                    (omega (arith, date_mono cal c e (omega arith))) (omega arith),
          )
    ]

-- The loop of `working_time_between`, with the fuel that the model gives it.
abbrev pub loop : SlaCalendar → ℕ → ℕ → Option ℕ
loop cal start end = between_loop cal (local_date cal end - local_date cal start + 2) start end 0

loop-Gains :
    (cal : SlaCalendar) (start end : ℕ) → start ≤ end → Gains cal start end 0 (loop cal start end)
loop-Gains cal start end h = elim (Bool-cases (ltb start end)) [
  | inl before ↦
      between_loop-Gains cal (local_date cal end - local_date cal start + 2) start end 0
        (ltb→lt _ _ before) (omega (arith, date_mono cal start end h))
  | inr at ↦
      let same : start ≡ end = ground arith in
      (
        0,
        rw same (omega arith),
        between_loop_end cal (local_date cal end - local_date cal start + 2) start end 0
              (omega arith) (omega arith)
            ∙ ap some (omega arith),
      )
]

-- From a start up to an end, the loop of `working_time_between` ends within its fuel, and the result
-- is the advance of the SLA clock from the start to the end.
pub working_time_between-worked :
    (cal : SlaCalendar) (start end : ℕ)
    → start ≤ end
    → (loop cal start end ≡ some (working_time_between cal start end))
      × (worked cal start + working_time_between cal start end ≡ worked cal end)
unfolding working_time_between
working_time_between-worked cal start end h =
    let (g, gained, ends) = loop-Gains cal start end h in
    let ends' : loop cal start end ≡ some g = ends ∙ ap some (omega arith) in
    rw (ends', working_time_between) (refl, omega arith)

-- The SLA clock never runs backwards.
pub worked_mono : (cal : SlaCalendar) (a b : ℕ) → a ≤ b → worked cal a ≤ worked cal b
worked_mono cal a b h = omega (arith, (working_time_between-worked cal a b h).1)
