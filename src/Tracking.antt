-- ===== src/Tracking.antt =====
-- `generate_tracking_no` of backend/app/services/request_service.py. The Redis counter of the year is
-- `none` when the key is gone (never set, expired or flushed); texts are compared by code points, as
-- SQLite and the C collation compare them.
pub mod Number
mod Tests
use registrator_ofid.Base.{
  ℕ, zero, suc, ◌+◌, ◌-◌, ◌*◌, ◌/◌, ◌%◌, Bool, true, false, ◌&&◌, ◌||◌, ◌==◌, ltb, leb, List, [],
  ◌∷◌, ◌++◌, Option, none, some, if◌then◌else◌, length, map,
}
use registrator_ofid.Base.{◌≡◌, refl}
use registrator_ofid.Base.Text.{Text, text}
use registrator_ofid.Models.Request.{Request}

-- The decimal digits of `n`, on fuel that `n` bounds.
unfoldable pub digits_of : ℕ → ℕ → Text
digits_of zero n = (48 + n) ∷ []
digits_of (suc fuel) n =
    let higher = digits_of fuel (n / 10) in
    if ltb n 10 then (48 + n) ∷ [] else higher ++ (48 + n % 10) ∷ []

-- `str(n)`
unfoldable pub decimal : ℕ → Text
unfolding digits_of
decimal n = digits_of n n

unfoldable pub zeros : ℕ → Text
zeros zero = []
zeros (suc n) = 48 ∷ zeros n

-- `f"{n:05d}"`
unfoldable pub pad5 : ℕ → Text
unfolding zeros
pad5 n = zeros (5 - length (decimal n)) ++ decimal n

-- `f"REQ-{year}-"`
unfoldable pub prefix_of : ℕ → Text
prefix_of year = text "REQ-" ++ decimal year ++ 45 ∷ []

unfoldable pub tracking_no : ℕ → ℕ → Text
tracking_no year seq = prefix_of year ++ pad5 seq

-- What follows `prefix` in a text that starts with it (`LIKE 'prefix%'`).
unfoldable pub after_prefix : Text → Text → Option Text
after_prefix [] t = some t
after_prefix (c ∷ cs) [] = none
after_prefix (c ∷ cs) (d ∷ ds) = let rest = after_prefix cs ds in if c == d then rest else none

unfoldable pub text_lt : Text → Text → Bool
text_lt [] [] = false
text_lt [] (d ∷ t) = true
text_lt (c ∷ s) [] = false
text_lt (c ∷ s) (d ∷ t) = ltb c d || ((c == d) && text_lt s t)

later_text : Option Text → Text → Text
later_text none t = t
later_text (some s) t = if text_lt s t then t else s

-- `max(tracking_no)` of the rows that match.
unfoldable pub highest : ℕ → List Text → Option Text
unfolding later_text
highest year [] = none
highest year (t ∷ ts) =
    let rest = highest year ts in
    elim (after_prefix (prefix_of year) t) [ none ↦ rest | some _ ↦ some (later_text rest t) ]

-- `s.rsplit("-", 1)[1]`, or `none` where that is an `IndexError`.
unfoldable pub after_last_dash : Text → Option Text
after_last_dash [] = none
after_last_dash (c ∷ s) = elim (after_last_dash s) [
  | some rest ↦ some rest
  | none ↦ if c == 45 then some s else none
]

unfoldable pub digits_value : ℕ → Text → Option ℕ
digits_value acc [] = some acc
digits_value acc (c ∷ s) =
    let rest = digits_value (acc * 10 + (c - 48)) s in if leb 48 c && leb c 57 then rest else none

-- `int(s)` of a text of digits, and `none` where that is a `ValueError`.
unfoldable pub parse_int : Text → Option ℕ
unfolding digits_value
parse_int [] = none
parse_int (c ∷ s) = digits_value 0 (c ∷ s)

unfoldable pub parse_last : Option Text → Option ℕ
parse_last none = none
parse_last (some s) = parse_int s

unfoldable pub recover : Option Text → ℕ
recover none = 1
recover (some t) = elim (parse_last (after_last_dash t)) [ none ↦ 1 | some k ↦ k + 1 ]

-- `redis.incr`
incr : Option ℕ → ℕ
incr none = 1
incr (some c) = c + 1

-- The number that the call takes, which is also what it leaves in the counter.
unfoldable pub next_seq : List Text → ℕ → Option ℕ → ℕ
unfolding incr recover parse_last
next_seq existing year counter =
    if incr counter == 1 then recover (highest year existing) else incr counter

-- The tracking number, and the counter after the call.
unfoldable pub generate_tracking_no : List Request → ℕ → Option ℕ → Text × Option ℕ
generate_tracking_no requests year counter =
    let seq = next_seq (map (λ r. r.tracking_no) requests) year counter in
    (tracking_no year seq, some seq)
