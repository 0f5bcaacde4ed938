-- ===== src/Calendar/Civil.antt =====
-- Python's proleptic Gregorian dates, as `datetime.date` computes them from an ordinal. A date is
-- the number of days since 0001-01-01, which was a Monday.
use registrator_ofid.Base.{
  ℕ, ◌+◌, ◌-◌, ◌/◌, ◌%◌, ◌≡◌, refl, Bool, not, ◌&&◌, ◌||◌, List, [], ◌∷◌, ltb, ◌==◌, if◌then◌else◌,
}

-- `date.weekday()`: 0 is Monday.
unfoldable pub weekday : ℕ → ℕ
weekday day = day % 7

month_lengths : Bool → List ℕ
month_lengths leap =
    31 ∷ (if leap then 29 else 28) ∷ 31 ∷ 30 ∷ 31 ∷ 30 ∷ 31 ∷ 31 ∷ 30 ∷ 31 ∷ 30 ∷ 31 ∷ []

-- The month, counted from `m`, and the day of the month, counted from 1, of day `n` of the year.
walk_months : ℕ → ℕ → List ℕ → ℕ × ℕ
walk_months m n [] = (m, n + 1)
walk_months m n (len ∷ lens) =
    let later = walk_months (m + 1) (n - len) lens in if ltb n len then (m, n + 1) else later

-- `(date.month, date.day)`
unfoldable pub month_day : ℕ → ℕ × ℕ
unfolding month_lengths walk_months
month_day day =
    let in_400 = day % 146_097 in
    let n100 = in_400 / 36_524 in
    let in_100 = in_400 % 36_524 in
    let n4 = in_100 / 1_461 in
    let in_4 = in_100 % 1_461 in
    let n1 = in_4 / 365 in
    let leap = (n1 == 3) && (not (n4 == 24) || (n100 == 3)) in
    if (n1 == 4) || (n100 == 4) then (12, 31) else walk_months 1 (in_4 % 365) (month_lengths leap)

-- 2024-02-29, 2024-12-31, 2000-12-31 and 2026-09-01.
month_day_runs :
    ◌≡◌ {A = List (ℕ × ℕ)}
      (month_day 738_944 ∷ month_day 739_250 ∷ month_day 730_484 ∷ month_day 739_859 ∷ [])
      ((2, 29) ∷ (12, 31) ∷ (12, 31) ∷ (9, 1) ∷ [])
unfolding month_day
month_day_runs = refl
