-- ===== src/Totp/Window.antt =====
-- The moments at which a code is valid: `matching_step` of backend/app/core/totp.py.
use registrator_ofid.Base.{
  ℕ, zero, suc, ◌+◌, ◌-◌, ◌/◌, ◌≤◌, ◌<◌, ◌≡◌, some, arith, Bool-cases, inl, inr,
}
use registrator_ofid.Base.Text.{Text, text_eq}
use registrator_ofid.Http.{ok}
use registrator_ofid.Totp.{Totp, clean_code, code_at, step_of, range, first_match, matching_step}

first_match_within :
    (f : ℕ → Text) (code : Text) (start n step : ℕ)
    → first_match f code (range start n) ≡ some step
    → (start ≤ step) × (step < start + n)
unfolding first_match range
first_match_within f code start zero step h = absurd (ground arith)
first_match_within f code start (suc n) step h = elim (Bool-cases (text_eq (f start) code)) [
  | inl hit ↦ ground arith
  | inr miss ↦ ground (arith, first_match_within f code (suc start) n step)
]

-- A code that is valid belongs to the step of the moment or to one of its neighbours.
matching_step_near :
    (totp : Totp) (secret code : Text) (at step : ℕ)
    → matching_step totp secret code at ≡ ok (some step)
    → (step ≤ at / 30 + 1) × (at / 30 ≤ step + 1)
unfolding matching_step step_of
matching_step_near totp secret code at step h =
    let near =
      first_match_within (code_at totp secret) (clean_code code) (at / 30 - 1)
        (at / 30 + 1 + 1 - (at / 30 - 1)) step (ground arith) in
    (omega (arith, near), omega (arith, near))

-- No step is valid two minutes after it was.
pub matching_step_ends :
    (totp : Totp) (secret code code' : Text) (at later step : ℕ)
    → matching_step totp secret code at ≡ ok (some step)
    → matching_step totp secret code' later ≡ ok (some step)
    → later < at + 120
matching_step_ends totp secret code code' at later step h h' =
    let before = matching_step_near totp secret code at step h in
    let after = matching_step_near totp secret code' later step h' in omega (arith, before, after)
