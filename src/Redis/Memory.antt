-- ===== src/Redis/Memory.antt =====
-- A store that keeps what the interface of Redis promises: the entries in a list.
use registrator_ofid.Base.{
  ℕ, ◌+◌, ◌≤◌, ◌≡◌, refl, sym, ap, ◌∙◌, subst, Bool, true, false, not, ◌&&◌, ◌==◌, ltb, List, [],
  ◌∷◌, Option, none, some, if◌then◌else◌, filter, is_some, arith, Bool-cases, Option-cases, inl,
  inr, In, ==_iff,
}
use registrator_ofid.Base.Text.{Text}
use registrator_ofid.Redis.{
  Key, refresh_active, refresh_blocked, session_seen, fail_user, fail_ip, totp_used, password_reset,
  key_tag, key_user, key_step, key_text, same_key, RedisStore, counted,
}
use registrator_ofid.Redis.Keys.{same_key_refl, same_key_cong, text_eq-eq}

pub record Entry : Type 0 where
  pub key : Key
  pub value : ℕ
  pub expires_at : ℕ

unfoldable pub live : ℕ → Entry → Bool
live now e = ltb now e.expires_at

unfoldable pub lookup : List Entry → ℕ → Key → Option ℕ
unfolding live
lookup [] now key = none
lookup (e ∷ redis) now key =
    let rest = lookup redis now key in
    if same_key e.key key && live now e then some e.value else rest

unfoldable pub remove : List Entry → Key → List Entry
remove redis key = filter (λ e. not (same_key e.key key)) redis

unfoldable pub put : List Entry → ℕ → Key → ℕ → ℕ → List Entry
unfolding remove
put redis now key ttl value =
    record { key = key; value = value; expires_at = now + ttl } ∷ remove redis key

token_of : ℕ → Key → Option Text
token_of user (refresh_active u jti) = if u == user then some jti else none
token_of user (refresh_blocked jti) = none
token_of user (session_seen sid) = none
token_of user (fail_user identity) = none
token_of user (fail_ip ip) = none
token_of user (totp_used u step) = none
token_of user (password_reset token) = none

unfoldable pub tokens : List Entry → ℕ → ℕ → List Key
unfolding token_of
tokens [] now user = []
tokens (e ∷ redis) now user =
    let rest = tokens redis now user in
    elim (token_of user e.key) [
      | none ↦ rest
      | some jti ↦ if live now e then refresh_active user jti ∷ rest else rest
    ]

lookup_other :
    (e : Entry) (redis : List Entry) (now : ℕ) (k : Key)
    → same_key e.key k ≡ false
    → lookup (e ∷ redis) now k ≡ lookup redis now k
unfolding lookup
lookup_other e redis now k h = rw h refl

lookup_tail :
    (e : Entry) (redis redis' : List Entry) (now : ℕ) (k : Key)
    → lookup redis now k ≡ lookup redis' now k
    → lookup (e ∷ redis) now k ≡ lookup (e ∷ redis') now k
unfolding lookup
lookup_tail e redis redis' now k h = rw h refl

remove_hit :
    (e : Entry) (redis : List Entry) (k : Key)
    → same_key e.key k ≡ true
    → remove (e ∷ redis) k ≡ remove redis k
unfolding remove
remove_hit e redis k h = rw h refl

remove_miss :
    (e : Entry) (redis : List Entry) (k : Key)
    → same_key e.key k ≡ false
    → remove (e ∷ redis) k ≡ e ∷ remove redis k
unfolding remove
remove_miss e redis k h = rw h refl

pub lookup-remove : (redis : List Entry) (now : ℕ) (k : Key) → lookup (remove redis k) now k ≡ none
unfolding remove lookup
lookup-remove [] now k = refl
lookup-remove (e ∷ redis) now k = elim (Bool-cases (same_key e.key k)) [
  | inl hit ↦ ap (λ r. lookup r now k) (remove_hit e redis k hit) ∙ lookup-remove redis now k
  | inr miss ↦
      ap (λ r. lookup r now k) (remove_miss e redis k miss)
      ∙ lookup_other e (remove redis k) now k miss
      ∙ lookup-remove redis now k
]

pub lookup-remove_other :
    (redis : List Entry) (now : ℕ) (k l : Key)
    → same_key k l ≡ false
    → lookup (remove redis k) now l ≡ lookup redis now l
unfolding remove
lookup-remove_other [] now k l apart = refl
lookup-remove_other (e ∷ redis) now k l apart = elim (Bool-cases (same_key e.key k)) [
  | inl hit ↦
      ap (λ r. lookup r now l) (remove_hit e redis k hit)
      ∙ lookup-remove_other redis now k l apart
      ∙ sym (lookup_other e redis now l (same_key_cong e.key k l hit ∙ apart))
  | inr miss ↦
      ap (λ r. lookup r now l) (remove_miss e redis k miss)
      ∙ lookup_tail e (remove redis k) redis now l (lookup-remove_other redis now k l apart)
]

-- A key that was set is there until its time is over, and other keys do not change.
pub lookup-put :
    (redis : List Entry) (at now : ℕ) (k : Key) (ttl value : ℕ)
    → lookup (put redis at k ttl value) now k ≡ (if ltb now (at + ttl) then some value else none)
unfolding put lookup live
lookup-put redis at now k ttl value = ground (arith, same_key_refl k, lookup-remove redis now k)

pub lookup-put_other :
    (redis : List Entry) (at now : ℕ) (k l : Key) (ttl value : ℕ)
    → same_key k l ≡ false
    → lookup (put redis at k ttl value) now l ≡ lookup redis now l
unfolding put
lookup-put_other redis at now k l ttl value apart =
    lookup_other _ (remove redis k) now l apart ∙ lookup-remove_other redis now k l apart

token_found :
    (user : ℕ) (jti : Text) (k : Key)
    → same_key k (refresh_active user jti) ≡ true
    → token_of user k ≡ some jti
unfolding same_key key_tag key_user key_step key_text token_of
token_found user jti (refresh_active u j) h =
    let e : u ≡ user = ground arith in
    let t = text_eq-eq j jti (ground arith) in rw ((==_iff u user).1 e, t) refl
token_found user jti (refresh_blocked j) h = absurd (ground arith)
token_found user jti (session_seen sid) h = absurd (ground arith)
token_found user jti (fail_user identity) h = absurd (ground arith)
token_found user jti (fail_ip ip) h = absurd (ground arith)
token_found user jti (totp_used u step) h = absurd (ground arith)
token_found user jti (password_reset token) h = absurd (ground arith)

tokens_take :
    (e : Entry) (redis : List Entry) (now user : ℕ) (jti : Text)
    → token_of user e.key ≡ some jti
    → live now e ≡ true
    → tokens (e ∷ redis) now user ≡ refresh_active user jti ∷ tokens redis now user
unfolding tokens
tokens_take e redis now user jti t l = rw (t, l, tokens) refl

tokens_keep :
    (e : Entry) (redis : List Entry) (now user : ℕ) (k : Key)
    → In k (tokens redis now user)
    → In k (tokens (e ∷ redis) now user)
unfolding tokens
tokens_keep e redis now user k i = elim (Option-cases (token_of user e.key)) [
  | inl n ↦ rw (n, tokens) i
  | inr (jti, s) ↦ elim (Bool-cases (live now e)) [
    | inl l ↦ rw (s, l, tokens) (inr i)
    | inr d ↦ rw (s, d, tokens) i
  ]
]

pub tokens_find :
    (redis : List Entry) (at now user : ℕ) (jti : Text)
    → at ≤ now
    → is_some (lookup redis now (refresh_active user jti)) ≡ true
    → In (refresh_active user jti) (tokens redis at user)
unfolding lookup live
tokens_find [] at now user jti after h = absurd (ground arith)
tokens_find (e ∷ redis) at now user jti after h =
    elim (Bool-cases (same_key e.key (refresh_active user jti) && ltb now e.expires_at)) [
      | inl hit ↦
          subst (In (refresh_active user jti))
            (sym (
              tokens_take e redis at user jti (token_found user jti e.key (ground arith))
                (ground arith)))
            (inl refl)
      | inr miss ↦
          tokens_keep e redis at user (refresh_active user jti)
            (tokens_find redis at now user jti after (ground arith))
    ]

pub tokens_only :
    (redis : List Entry) (at user : ℕ) (k : Key)
    → In k (tokens redis at user)
    → (jti : Text) × (k ≡ refresh_active user jti)
unfolding tokens
tokens_only [] at user k i = absurd i
tokens_only (e ∷ redis) at user k i = elim (Option-cases (token_of user e.key)) [
  | inl n ↦ tokens_only redis at user k (rw (n, tokens) at i)
  | inr (jti, s) ↦ elim (Bool-cases (live at e)) [
    | inl l ↦ elim (rw (s, l, tokens) at i) [
      | inl is ↦ (jti, is)
      | inr later ↦ tokens_only redis at user k later
    ]
    | inr d ↦ tokens_only redis at user k (rw (s, d, tokens) at i)
  ]
]

instance abbrev pub memory : RedisStore (List Entry)
memory = record {
  read = lookup;
  write = put;
  drop = remove;
  count = λ s at k ttl. put s at k ttl (counted (lookup s at k));
  scan = tokens;
  read-write = lookup-put;
  read-write_other = lookup-put_other;
  read-drop = lookup-remove;
  read-drop_other = lookup-remove_other;
  read-count = λ s at now k ttl. lookup-put s at now k ttl (counted (lookup s at k));
  read-count_other =
      λ s at now k l ttl apart. lookup-put_other s at now k l ttl (counted (lookup s at k)) apart;
  scan_finds = tokens_find;
  scan_only = tokens_only;
}
