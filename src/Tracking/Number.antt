-- ===== src/Tracking/Number.antt =====
-- Tracking numbers of backend/app/services/request_service.py can be read back.
use registrator_ofid.Base.{
  ◌↔◌, ℕ, zero, suc, ◌+◌, ◌-◌, ◌*◌, ◌/◌, ◌%◌, ◌≤◌, ◌<◌, ◌≡◌, refl, sym, ap, ◌∙◌, true, false, ltb,
  [], ◌∷◌, ◌++◌, Option, none, some, arith, Bool-cases, inl, inr, length,
}
use registrator_ofid.Base.Text.{Text, text, is_nonempty}
use registrator_ofid.Tracking.{
  digits_of, decimal, zeros, pad5, prefix_of, tracking_no, after_last_dash, digits_value, parse_int,
  parse_last, recover,
}

then_digit : Option ℕ → ℕ → Option ℕ
then_digit none d = none
then_digit (some v) d = some (v * 10 + d)

digits_value_snoc :
    (acc d : ℕ) (s : Text)
    → d < 10
    → digits_value acc (s ++ (48 + d) ∷ []) ≡ then_digit (digits_value acc s) d
unfolding digits_value then_digit
digits_value_snoc acc d [] small = ground arith
digits_value_snoc acc d (c ∷ s) small =
    ground (arith, digits_value_snoc (acc * 10 + (c - 48)) d s small)

pub one_digit : (fuel n : ℕ) → ltb n 10 ≡ true → digits_of (suc fuel) n ≡ (48 + n) ∷ []
unfolding digits_of
one_digit fuel n h = rw h refl

pub more_digits :
    (fuel n : ℕ)
    → ltb n 10 ≡ false
    → digits_of (suc fuel) n ≡ digits_of fuel (n / 10) ++ (48 + n % 10) ∷ []
unfolding digits_of
more_digits fuel n h = rw h refl

digit_value : (n : ℕ) → n < 10 → digits_value 0 ((48 + n) ∷ []) ≡ some n
unfolding digits_value
digit_value n h = ground arith

digits_value-digits_of : (fuel n : ℕ) → n ≤ fuel → digits_value 0 (digits_of fuel n) ≡ some n
unfolding digits_of then_digit
digits_value-digits_of zero n h = digit_value n (omega (arith, h))
digits_value-digits_of (suc fuel) n h = elim (Bool-cases (ltb n 10)) [
  | inl small ↦ ap (digits_value 0) (one_digit fuel n small) ∙ digit_value n (ground arith)
  | inr large ↦
      let below : n / 10 ≤ fuel = ground arith in
      let digit : n % 10 < 10 = omega arith in
      ap (digits_value 0) (more_digits fuel n large)
      ∙ digits_value_snoc 0 (n % 10) (digits_of fuel (n / 10)) digit
      ∙ ap (λ o. then_digit o (n % 10)) (digits_value-digits_of fuel (n / 10) below)
      ∙ ap some (omega arith)
]

digits_value-zeros : (k : ℕ) (t : Text) → digits_value 0 (zeros k ++ t) ≡ digits_value 0 t
unfolding digits_value zeros
digits_value-zeros zero t = refl
digits_value-zeros (suc k) t = ground (arith, digits_value-zeros k t)

-- A text whose number is known is not empty if it ends in a digit.
parse_int_nonempty : (t : Text) → is_nonempty t ≡ true → parse_int t ≡ digits_value 0 t
unfolding parse_int
parse_int_nonempty [] h = absurd (ground arith)
parse_int_nonempty (c ∷ t) h = refl

nonempty_append : (s t : Text) → is_nonempty t ≡ true → is_nonempty (s ++ t) ≡ true
nonempty_append [] t h = h
nonempty_append (c ∷ s) t h = refl

nonempty-digits_of : (fuel n : ℕ) → is_nonempty (digits_of fuel n) ≡ true
unfolding digits_of
nonempty-digits_of zero n = refl
nonempty-digits_of (suc fuel) n = elim (Bool-cases (ltb n 10)) [
  | inl small ↦ ap is_nonempty (one_digit fuel n small)
  | inr large ↦
      ap is_nonempty (more_digits fuel n large) ∙ nonempty_append (digits_of fuel (n / 10)) _ refl
]

parse_int-pad5 : (n : ℕ) → parse_int (pad5 n) ≡ some n
unfolding pad5 decimal
parse_int-pad5 n =
    parse_int_nonempty _
      (nonempty_append (zeros (5 - length (digits_of n n))) _ (nonempty-digits_of n n))
    ∙ digits_value-zeros (5 - length (digits_of n n)) (digits_of n n)
    ∙ digits_value-digits_of n n (omega arith)

-- No dash is left in a text that is a number.
no_dash : (acc v : ℕ) (t : Text) → digits_value acc t ≡ some v → after_last_dash t ≡ none
unfolding digits_value after_last_dash
no_dash acc v [] h = refl
no_dash acc v (c ∷ t) h =
    let later = no_dash (acc * 10 + (c - 48)) v t (ground arith) in ground (arith, later)

after_dash : (s t : Text) → after_last_dash t ≡ none → after_last_dash (s ++ 45 ∷ t) ≡ some t
unfolding after_last_dash
after_dash [] t h = rw h refl
after_dash (c ∷ s) t h = rw (after_dash s t h) refl

dash_inside : (s p : Text) → (s ++ 45 ∷ []) ++ p ≡ s ++ 45 ∷ p
dash_inside [] p = refl
dash_inside (c ∷ s) p = ap (λ o. c ∷ o) (dash_inside s p)

pad5_no_dash : (n : ℕ) → after_last_dash (pad5 n) ≡ none
unfolding pad5 decimal
pad5_no_dash n = no_dash 0 n (pad5 n) (
    digits_value-zeros (5 - length (digits_of n n)) (digits_of n n)
    ∙ digits_value-digits_of n n (omega arith))

number_after_dash : (year seq : ℕ) → after_last_dash (tracking_no year seq) ≡ some (pad5 seq)
unfolding tracking_no prefix_of
number_after_dash year seq =
    ap (λ o. after_last_dash (text "REQ-" ++ o)) (dash_inside (decimal year) (pad5 seq))
    ∙ after_dash (text "REQ-" ++ decimal year) (pad5 seq) (pad5_no_dash seq)

reads_back : (year n : ℕ) → parse_last (after_last_dash (tracking_no year n)) ≡ some n
unfolding parse_last
reads_back year n = ap parse_last (number_after_dash year n) ∙ parse_int-pad5 n

same_number : {m n : ℕ} → some m ≡ some n → m ≡ n
same_number e = cc

-- The number in a tracking number can be read back, of whatever size: a cold counter that finds that
-- number to be the highest goes on with the one after it. And two tracking numbers of one year are
-- the same text only for the same number.
pub recover-tracking_no :
    (year seq other : ℕ)
    → (recover (some (tracking_no year seq)) ≡ seq + 1)
      × ((tracking_no year seq ≡ tracking_no year other) ↔ (seq ≡ other))
unfolding recover
recover-tracking_no year seq other = (
  ap (λ o. elim o [ none ↦ 1 | some k ↦ k + 1 ]) (reads_back year seq),
  (
    λ e. same_number (
        sym (reads_back year seq)
        ∙ ap (λ t. parse_last (after_last_dash t)) e
        ∙ reads_back year other),
    λ e. ap (tracking_no year) e,
  ),
)
