-- ===== src/Totp.antt =====
-- One-time passwords: backend/app/core/totp.py. Decoding the secret and the HMAC, and which code points
-- above ASCII are digits, are left to the caller. Times are in seconds, at least one step after the
-- epoch.
pub mod Window
use registrator_ofid.Base.{
  ℕ, zero, suc, ◌+◌, ◌-◌, ◌*◌, ◌/◌, ◌%◌, ◌^◌, Bool, not, ◌&&◌, ◌||◌, ◌==◌, leb, List, [], ◌∷◌, ◌++◌,
  Option, none, some, if◌then◌else◌, filter, any, length, take, drop,
}
use registrator_ofid.Base.Text.{Text, text_eq, strip}
use registrator_ofid.Http.{Result, ok, err, type_error}
use registrator_ofid.Tracking.{decimal, zeros}

abbrev pub step_seconds : ℕ
step_seconds = 30

abbrev pub digits : ℕ
digits = 6

abbrev pub drift_steps : ℕ
drift_steps = 1

pub record Totp : Type 0 where
  -- The bytes of the HMAC-SHA1 of a counter, under a secret in base 32.
  pub digest : Text → ℕ → List ℕ
  pub other_digit : ℕ → Bool

unfoldable pub last_byte : List ℕ → ℕ
last_byte [] = 0
last_byte (b ∷ []) = b
last_byte (b ∷ c ∷ bytes) = last_byte (c ∷ bytes)

-- `struct.unpack(">I", ...)`
unfoldable pub big_endian : ℕ → List ℕ → ℕ
big_endian n [] = n
big_endian n (b ∷ bytes) = big_endian (n * 256 + b) bytes

unfoldable pub zfill : ℕ → Text → Text
unfolding zeros
zfill width t = zeros (width - length t) ++ t

unfoldable pub code_at : Totp → Text → ℕ → Text
unfolding last_byte big_endian zfill
code_at totp secret counter =
    let bytes = totp.digest secret counter in
    let offset = last_byte bytes % 16 in
    let value = big_endian 0 (take 4 (drop offset bytes)) % 2 ^ 31 in
    zfill digits (decimal (value % 10 ^ digits))

unfoldable pub step_of : ℕ → ℕ
step_of at = at / step_seconds

unfoldable pub current_code : Totp → Text → ℕ → Text
unfolding code_at step_of
current_code totp secret at = code_at totp secret (step_of at)

-- `range(start, start + n)`
unfoldable pub range : ℕ → ℕ → List ℕ
range start zero = []
range start (suc n) = start ∷ range (suc start) n

-- The first of the steps whose code is `code`.
unfoldable pub first_match : (ℕ → Text) → Text → List ℕ → Option ℕ
first_match code_of code [] = none
first_match code_of code (step ∷ steps) =
    let rest = first_match code_of code steps in
    if text_eq (code_of step) code then some step else rest

unfoldable pub is_digit : Totp → ℕ → Bool
is_digit totp c = (leb 48 c && leb c 57) || (leb 128 c && totp.other_digit c)

-- `code.strip().replace(" ", "")`
unfoldable pub clean_code : Text → Text
clean_code code = filter (λ c. not (c == 32)) (strip code)

-- The comparison raises a `TypeError` on digits that are not ASCII.
unfoldable pub matching_step : Totp → Text → Text → ℕ → Result (Option ℕ)
unfolding clean_code is_digit step_of range first_match
matching_step totp secret code at =
    let clean = clean_code code in
    let first = step_of at - drift_steps in
    if not (length clean == digits) || any (λ c. not (is_digit totp c)) clean
    then ok none
    else if any (leb 128) clean
    then err type_error
    else ok (
        first_match (code_at totp secret) clean
          (range first (step_of at + drift_steps + 1 - first)))
