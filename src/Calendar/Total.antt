-- ===== src/Calendar/Total.antt =====
-- When `add_working_time` of backend/app/services/sla_calendar.py answers, and when it raises.
use native.Mathlib.Nat.{add-zero}
use registrator_ofid.Base.{
  ℕ, zero, suc, ◌+◌, ◌-◌, ◌*◌, ◌%◌, ◌≤◌, ◌<◌, ◌≡◌, true, false, arith, Bool-cases, leb, leb→le, inl,
  inr, Option, some, ◌∙◌, subst,
}
use registrator_ofid.Calendar.{
  SlaCalendar, day_us, is_working_day, local_date, local_midnight_after, add_loop, add_working_time,
}
use registrator_ofid.Calendar.Worked.{midnight_bounds}

-- Among any `g` consecutive days there is a working day.
abbrev pub WorksWithin : SlaCalendar → ℕ → Type 0
WorksWithin cal g = (d : ℕ) → (k : ℕ) × (k < g) × (is_working_day cal (d + k) ≡ true)

-- The round of a working day that leaves `r - available`, and the round of another day.
add_loop_works :
    (cal : SlaCalendar) (rounds c r : ℕ)
    → is_working_day cal (local_date cal c) ≡ true
    → let mid = local_midnight_after cal c in
      mid - c < r → add_loop cal (suc rounds) c r ≡ add_loop cal rounds mid (r - (mid - c))
unfolding add_loop
add_loop_works cal rounds c r works over = ground arith

add_loop_fits :
    (cal : SlaCalendar) (rounds c r : ℕ)
    → is_working_day cal (local_date cal c) ≡ true
    → r ≤ local_midnight_after cal c - c
    → add_loop cal (suc rounds) c r ≡ some (c + r)
unfolding add_loop
add_loop_fits cal rounds c r works fits = ground arith

add_loop_rests :
    (cal : SlaCalendar) (rounds c r : ℕ)
    → is_working_day cal (local_date cal c) ≡ false
    → add_loop cal (suc rounds) c r ≡ add_loop cal rounds (local_midnight_after cal c) r
unfolding add_loop
add_loop_rests cal rounds c r rests = ground arith

-- After a whole working day one day less is left, and the next working day is less than `g` ahead.
one_day_less :
    (n g k k' rounds : ℕ)
    → 0 < n
    → k' < g
    → k + 1 + n * g ≤ suc rounds
    → (m : ℕ) × (n ≡ m + 1) × (k' + 1 + m * g ≤ rounds)
one_day_less zero g k k' rounds pos near fuel = absurd (omega arith)
one_day_less (suc n) g k k' rounds pos near fuel = (n, omega arith, omega arith)

-- After a day of rest the next working day is one day nearer.
one_day_nearer :
    (cal : SlaCalendar) (d k : ℕ)
    → is_working_day cal d ≡ false
    → is_working_day cal (d + k) ≡ true
    → (j : ℕ) × (k ≡ j + 1) × (is_working_day cal (d + 1 + j) ≡ true)
one_day_nearer cal d zero rests works = cc (rests, rw add-zero at works)
one_day_nearer cal d (suc j) rests works =
    (j, omega arith, subst (λ m. is_working_day cal m ≡ true) (omega arith) works)

abbrev Answers : Option ℕ → Type 0
Answers o = (e : ℕ) × (o ≡ some e)

-- From a local midnight, with the next working day `k` days ahead, a duration of up to `n + 1` days
-- takes no more than `k + 1 + n * g` rounds.
add_loop_aligned :
    (cal : SlaCalendar) (g : ℕ)
    → WorksWithin cal g
    → (n k rounds c r : ℕ) → (c + cal.offset) % day_us ≡ 0
    → is_working_day cal (local_date cal c + k) ≡ true
    → r ≤ (n + 1) * day_us
    → k + 1 + n * g ≤ rounds
    → Answers (add_loop cal rounds c r)
add_loop_aligned cal g gap n k zero c r at works size fuel = absurd (omega arith)
add_loop_aligned cal g gap n k (suc rounds) c r at works size fuel =
    let mid = local_midnight_after cal c in
    let (grows, _, next, mid_at, whole) = midnight_bounds cal c in
    elim (Bool-cases (is_working_day cal (local_date cal c))) [
      | inl today ↦ elim (Bool-cases (leb r (mid - c))) [
        | inl fits ↦ (c + r, add_loop_fits cal rounds c r today (leb→le _ _ fits))
        | inr over ↦
            let more : mid - c < r = ground arith in
            let (k', near, works') = gap (local_date cal mid) in
            let (n', split, shorter) = one_day_less n g k k' rounds (omega arith) near fuel in
            let (e, ends) =
              add_loop_aligned cal g gap n' k' rounds mid (r - (mid - c)) mid_at works'
                (omega arith) shorter in
            (e, add_loop_works cal rounds c r today more ∙ ends)
      ]
      | inr rests ↦
          let (k', split, works') = one_day_nearer cal (local_date cal c) k rests works in
          let (e, ends) =
            add_loop_aligned cal g gap n k' rounds mid r mid_at (rw next works') size
              (omega arith) in
          (e, add_loop_rests cal rounds c r rests ∙ ends)
    ]

-- If any `g` consecutive days contain a working day, then every duration of up to `n` days, one day
-- or more, with `1 + n * g` within the 3660 rounds of the loop, gets a deadline.
pub add_working_time_total :
    (cal : SlaCalendar) (g n start duration : ℕ)
    → WorksWithin cal g
    → duration ≤ n * day_us
    → 1 + n * g ≤ 3660
    → 0 < n
    → (deadline : ℕ) × (add_working_time cal start duration ≡ some deadline)
unfolding add_working_time
add_working_time_total cal g zero start duration gap size fuel pos = absurd (omega arith)
add_working_time_total cal g (suc n) start duration gap size fuel pos =
    let mid = local_midnight_after cal start in
    let (grows, _, next, mid_at, whole) = midnight_bounds cal start in
    let (k, near, works) = gap (local_date cal mid) in
    elim (Bool-cases (is_working_day cal (local_date cal start))) [
      | inl today ↦ elim (Bool-cases (leb duration (mid - start))) [
        | inl fits ↦
            (start + duration, add_loop_fits cal 3659 start duration today (leb→le _ _ fits))
        | inr over ↦
            let more : mid - start < duration = ground arith in
            let (e, ends) =
              add_loop_aligned cal g gap n k 3659 mid (duration - (mid - start)) mid_at works
                (omega arith) (omega arith) in
            (e, add_loop_works cal 3659 start duration today more ∙ ends)
      ]
      | inr rests ↦
          let (e, ends) =
            add_loop_aligned cal g gap n k 3659 mid duration mid_at works (omega arith)
              (omega arith) in
          (e, add_loop_rests cal 3659 start duration rests ∙ ends)
    ]
