-- ===== src/Tracking/Tests.antt =====
-- Runs of `generate_tracking_no` of backend/app/services/request_service.py.
use registrator_ofid.Tracking.{recover}
use registrator_ofid.Tracking.Number.{recover-tracking_no}
use registrator_ofid.Base.{◌+◌, ◌↔◌, ℕ, ◌≡◌, refl, [], ◌∷◌, none, some}
use registrator_ofid.Base.Text.{text}
use registrator_ofid.Tracking.{
  next_seq, highest, tracking_no, decimal, prefix_of, after_prefix, text_lt, after_last_dash,
  parse_int,
}

-- A warm counter gives the next number, and a cold one the number after the highest of the year.
warm : next_seq (text "REQ-2026-00007" ∷ []) 2026 (some 7) ≡ 8
unfolding next_seq
warm = refl

cold :
    next_seq (text "REQ-2026-00007" ∷ text "REQ-2026-00012" ∷ text "REQ-2025-00040" ∷ []) 2026 none
    ≡ 13
unfolding next_seq highest after_prefix prefix_of decimal after_last_dash text_lt parse_int
cold = refl

first_of_year : next_seq (text "REQ-2025-00040" ∷ []) 2026 none ≡ 1
unfolding next_seq highest after_prefix prefix_of decimal
first_of_year = refl

-- Past 99999 the highest text is not the highest number, so a cold counter gives a number again.
repeats :
    next_seq
      (text "REQ-2026-99999" ∷ text "REQ-2026-100000" ∷ text "REQ-2026-100001" ∷ [])
      2026
      none
    ≡ 100_000
unfolding next_seq highest after_prefix prefix_of decimal after_last_dash text_lt parse_int
repeats = refl

read_back_example :
    (recover (some (tracking_no 2026 123_456)) ≡ 123_456 + 1)
    × ((tracking_no 2026 123_456 ≡ tracking_no 2026 7) ↔ (◌≡◌ {A = ℕ} 123_456 7))
read_back_example = recover-tracking_no 2026 123_456 7
