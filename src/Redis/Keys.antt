-- ===== src/Redis/Keys.antt =====
-- Equality of the keys of backend/app/core/security.py.
use registrator_ofid.Base.{
  ℕ, ◌≡◌, refl, ap, ◌∙◌, Bool, true, false, [], ◌∷◌, none, some, if◌then◌else◌, is_some, arith,
}
use registrator_ofid.Base.Text.{Text, text_eq, text_eq_refl}
use registrator_ofid.Redis.{
  refresh_active, refresh_blocked, session_seen, fail_user, fail_ip, totp_used, password_reset, Key,
  key_tag, key_user, key_step, key_text, same_key,
}

pub text_eq-eq : (s t : Text) → text_eq s t ≡ true → s ≡ t
text_eq-eq [] [] h = refl
text_eq-eq [] (d ∷ t) h = absurd (ground arith)
text_eq-eq (c ∷ s) [] h = absurd (ground arith)
text_eq-eq (c ∷ s) (d ∷ t) h =
    let tails = text_eq-eq s t (ground arith) in let heads : c ≡ d = ground arith in cc

pub same_key_refl : (k : Key) → same_key k k ≡ true
unfolding same_key
same_key_refl k = ground (arith, text_eq_refl (key_text k))

-- Equal keys agree with every other key.
pub same_key_cong : (k l m : Key) → same_key k l ≡ true → same_key k m ≡ same_key l m
unfolding same_key
same_key_cong k l m h =
    let t : key_tag k ≡ key_tag l = ground arith in
    let u : key_user k ≡ key_user l = ground arith in
    let s : key_step k ≡ key_step l = ground arith in
    let x : key_text k ≡ key_text l = text_eq-eq (key_text k) (key_text l) (ground arith) in
    rw (t, u, s, x) refl

-- A number that is kept while a test holds.
pub kept_while : (b : Bool) (n : ℕ) → b ≡ true → (if b then some n else none) ≡ some n
kept_while b n h = rw h refl

pub is_some-while : (b : Bool) (n : ℕ) → is_some (if b then some n else none) ≡ b
is_some-while true n = refl
is_some-while false n = refl

pub same_key-eq : (a b : Key) → same_key a b ≡ true → a ≡ b
unfolding same_key key_tag key_user key_step key_text
same_key-eq (refresh_active u j) (refresh_active v k) h =
    let e : u ≡ v = ground arith in
    ap (λ x. refresh_active x j) e ∙ ap (refresh_active v) (text_eq-eq j k (ground arith))
same_key-eq (refresh_active u j) (refresh_blocked k) h = absurd (ground arith)
same_key-eq (refresh_active u j) (session_seen k) h = absurd (ground arith)
same_key-eq (refresh_active u j) (fail_user k) h = absurd (ground arith)
same_key-eq (refresh_active u j) (fail_ip k) h = absurd (ground arith)
same_key-eq (refresh_active u j) (totp_used v k) h = absurd (ground arith)
same_key-eq (refresh_active u j) (password_reset k) h = absurd (ground arith)
same_key-eq (refresh_blocked j) (refresh_active v k) h = absurd (ground arith)
same_key-eq (refresh_blocked j) (refresh_blocked k) h =
    ap refresh_blocked (text_eq-eq j k (ground arith))
same_key-eq (refresh_blocked j) (session_seen k) h = absurd (ground arith)
same_key-eq (refresh_blocked j) (fail_user k) h = absurd (ground arith)
same_key-eq (refresh_blocked j) (fail_ip k) h = absurd (ground arith)
same_key-eq (refresh_blocked j) (totp_used v k) h = absurd (ground arith)
same_key-eq (refresh_blocked j) (password_reset k) h = absurd (ground arith)
same_key-eq (session_seen j) (refresh_active v k) h = absurd (ground arith)
same_key-eq (session_seen j) (refresh_blocked k) h = absurd (ground arith)
same_key-eq (session_seen j) (session_seen k) h = ap session_seen (text_eq-eq j k (ground arith))
same_key-eq (session_seen j) (fail_user k) h = absurd (ground arith)
same_key-eq (session_seen j) (fail_ip k) h = absurd (ground arith)
same_key-eq (session_seen j) (totp_used v k) h = absurd (ground arith)
same_key-eq (session_seen j) (password_reset k) h = absurd (ground arith)
same_key-eq (fail_user j) (refresh_active v k) h = absurd (ground arith)
same_key-eq (fail_user j) (refresh_blocked k) h = absurd (ground arith)
same_key-eq (fail_user j) (session_seen k) h = absurd (ground arith)
same_key-eq (fail_user j) (fail_user k) h = ap fail_user (text_eq-eq j k (ground arith))
same_key-eq (fail_user j) (fail_ip k) h = absurd (ground arith)
same_key-eq (fail_user j) (totp_used v k) h = absurd (ground arith)
same_key-eq (fail_user j) (password_reset k) h = absurd (ground arith)
same_key-eq (fail_ip j) (refresh_active v k) h = absurd (ground arith)
same_key-eq (fail_ip j) (refresh_blocked k) h = absurd (ground arith)
same_key-eq (fail_ip j) (session_seen k) h = absurd (ground arith)
same_key-eq (fail_ip j) (fail_user k) h = absurd (ground arith)
same_key-eq (fail_ip j) (fail_ip k) h = ap fail_ip (text_eq-eq j k (ground arith))
same_key-eq (fail_ip j) (totp_used v k) h = absurd (ground arith)
same_key-eq (fail_ip j) (password_reset k) h = absurd (ground arith)
same_key-eq (totp_used u i) (refresh_active v k) h = absurd (ground arith)
same_key-eq (totp_used u i) (refresh_blocked k) h = absurd (ground arith)
same_key-eq (totp_used u i) (session_seen k) h = absurd (ground arith)
same_key-eq (totp_used u i) (fail_user k) h = absurd (ground arith)
same_key-eq (totp_used u i) (fail_ip k) h = absurd (ground arith)
same_key-eq (totp_used u i) (totp_used v k) h =
    let e : u ≡ v = ground arith in
    let f : i ≡ k = ground arith in ap (λ x. totp_used x i) e ∙ ap (totp_used v) f
same_key-eq (totp_used u i) (password_reset k) h = absurd (ground arith)
same_key-eq (password_reset j) (refresh_active v k) h = absurd (ground arith)
same_key-eq (password_reset j) (refresh_blocked k) h = absurd (ground arith)
same_key-eq (password_reset j) (session_seen k) h = absurd (ground arith)
same_key-eq (password_reset j) (fail_user k) h = absurd (ground arith)
same_key-eq (password_reset j) (fail_ip k) h = absurd (ground arith)
same_key-eq (password_reset j) (totp_used v k) h = absurd (ground arith)
same_key-eq (password_reset j) (password_reset k) h =
    ap password_reset (text_eq-eq j k (ground arith))
