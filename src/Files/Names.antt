-- ===== src/Files/Names.antt =====
-- The name that `_safe_filename` of backend/app/services/file_service.py gives to a file.
use registrator_ofid.Base.{
  ℕ, zero, suc, ◌≤◌, ◌≡◌, refl, Bool, true, false, [], ◌∷◌, All, arith, length, take, Bool-cases,
  inl, inr, subst, sym, if◌then◌else◌,
}
use registrator_ofid.Base.Text.{Text}
use registrator_ofid.Files.{is_safe, replace_unsafe, safe_filename, basename, or_file}

abbrev pub IsSafe : ℕ → Type 0
IsSafe c = is_safe c ≡ true

-- A name for a file: of one to 200 characters, all of them safe, so there is no slash among them.
pub record IsFileName (name : Text) : Type 0 where
  pub least : 1 ≤ length name
  pub most : length name ≤ 200
  pub safe : All IsSafe name

replace_unsafe_kept :
    (in_run : Bool) (c : ℕ) (s : Text)
    → is_safe c ≡ true
    → replace_unsafe in_run (c ∷ s) ≡ c ∷ replace_unsafe false s
unfolding replace_unsafe
replace_unsafe_kept in_run c s h = rw (replace_unsafe, h) refl

replace_unsafe_run :
    (in_run : Bool) (c : ℕ) (s : Text)
    → is_safe c ≡ false
    → replace_unsafe in_run (c ∷ s)
      ≡ (if in_run then replace_unsafe true s else b'_' ∷ replace_unsafe true s)
unfolding replace_unsafe
replace_unsafe_run in_run c s h = rw (replace_unsafe, h) refl

underscore : IsSafe b'_'
unfolding is_safe
underscore = refl

run :
    (b : Bool) (s : Text)
    → All IsSafe (replace_unsafe true s)
    → All IsSafe (if b then replace_unsafe true s else b'_' ∷ replace_unsafe true s)
run true s h = h
run false s h = (underscore, h)

replace_unsafe-IsSafe : (in_run : Bool) (s : Text) → All IsSafe (replace_unsafe in_run s)
unfolding replace_unsafe
replace_unsafe-IsSafe in_run [] = tt
replace_unsafe-IsSafe in_run (c ∷ s) = elim (Bool-cases (is_safe c)) [
  | inl good ↦
      subst (All IsSafe) (sym (replace_unsafe_kept in_run c s good))
        (good, replace_unsafe-IsSafe false s)
  | inr bad ↦
      subst (All IsSafe) (sym (replace_unsafe_run in_run c s bad))
        (run in_run s (replace_unsafe-IsSafe true s))
]

All-take : (n : ℕ) (s : Text) → All IsSafe s → All IsSafe (take n s)
All-take zero s h = tt
All-take (suc n) [] h = tt
All-take (suc n) (c ∷ s) (safe, h) = (safe, All-take n s h)

length-take_le : (n : ℕ) (s : Text) → length (take n s) ≤ n
length-take_le zero s = omega arith
length-take_le (suc n) [] = omega arith
length-take_le (suc n) (c ∷ s) = omega (arith, length-take_le n s)

or_file-IsFileName : (s : Text) → length s ≤ 200 → All IsSafe s → IsFileName (or_file s)
unfolding is_safe
or_file-IsFileName [] h safe = record {
  least = omega arith;
  most = omega arith;
  safe = (refl, (refl, (refl, (refl, tt))));
}
or_file-IsFileName (c ∷ s) h safe = record { least = omega arith; most = h; safe = safe }

pub safe_filename-IsFileName : (name : Text) → IsFileName (safe_filename name)
unfolding safe_filename
safe_filename-IsFileName name =
    let base = replace_unsafe false (basename name) in
    or_file-IsFileName (take 200 base) (length-take_le 200 base)
      (All-take 200 base (replace_unsafe-IsSafe false (basename name)))
