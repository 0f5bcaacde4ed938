-- ===== src/Redis.antt =====
-- Redis as backend/app/core/security.py uses it. The store is not part of the program: it is a
-- parameter, by its operations and what their documentation promises of a later read. A key of the
-- source is a text with a prefix; here the prefix is a constructor. Times are in seconds.
pub mod Keys
pub mod Memory
use registrator_ofid.Base.{
  ℕ, zero, suc, ◌+◌, ◌≤◌, ◌≡◌, Bool, true, false, not, ◌&&◌, ◌==◌, ltb, List, [], ◌∷◌, Option, none,
  some, if◌then◌else◌, is_some, In,
}
use registrator_ofid.Base.Text.{Text, text_eq}

pub data Key : Type 0 where
  refresh_active : ℕ → Text → Key
  refresh_blocked : Text → Key
  session_seen : Text → Key
  fail_user : Text → Key
  fail_ip : Text → Key
  totp_used : ℕ → ℕ → Key
  password_reset : Text → Key

unfoldable pub key_tag : Key → ℕ
key_tag (refresh_active user jti) = 0
key_tag (refresh_blocked jti) = 1
key_tag (session_seen sid) = 2
key_tag (fail_user identity) = 3
key_tag (fail_ip ip) = 4
key_tag (totp_used user step) = 5
key_tag (password_reset token) = 6

unfoldable pub key_user : Key → ℕ
key_user (refresh_active user jti) = user
key_user (refresh_blocked jti) = 0
key_user (session_seen sid) = 0
key_user (fail_user identity) = 0
key_user (fail_ip ip) = 0
key_user (totp_used user step) = user
key_user (password_reset token) = 0

unfoldable pub key_step : Key → ℕ
key_step (refresh_active user jti) = 0
key_step (refresh_blocked jti) = 0
key_step (session_seen sid) = 0
key_step (fail_user identity) = 0
key_step (fail_ip ip) = 0
key_step (totp_used user step) = step
key_step (password_reset token) = 0

unfoldable pub key_text : Key → Text
key_text (refresh_active user jti) = jti
key_text (refresh_blocked jti) = jti
key_text (session_seen sid) = sid
key_text (fail_user identity) = identity
key_text (fail_ip ip) = ip
key_text (totp_used user step) = []
key_text (password_reset token) = token

unfoldable pub same_key : Key → Key → Bool
unfolding key_tag key_user key_step key_text
same_key k l =
    (key_tag k == key_tag l)
    && (key_user k == key_user l)
    && (key_step k == key_step l)
    && text_eq (key_text k) (key_text l)

unfoldable pub counted : Option ℕ → ℕ
counted none = 1
counted (some n) = n + 1

pub record RedisStore (S : Type 0) : Type 0 where
  -- `GET`: what is stored under a key at a moment.
  pub read : S → ℕ → Key → Option ℕ
  -- `SETEX` with a number, `DEL`, and `INCR` followed by `EXPIRE` in one pipeline.
  pub write : S → ℕ → Key → ℕ → ℕ → S
  pub drop : S → Key → S
  pub count : S → ℕ → Key → ℕ → S
  -- `SCAN` for the active refresh tokens of a user.
  pub scan : S → ℕ → ℕ → List Key
  pub read-write :
      (s : S) (at now : ℕ) (k : Key) (ttl value : ℕ)
      → read (write s at k ttl value) now k ≡ (if ltb now (at + ttl) then some value else none)
  pub read-write_other :
      (s : S) (at now : ℕ) (k l : Key) (ttl value : ℕ)
      → same_key k l ≡ false
      → read (write s at k ttl value) now l ≡ read s now l
  pub read-drop : (s : S) (now : ℕ) (k : Key) → read (drop s k) now k ≡ none
  pub read-drop_other :
      (s : S) (now : ℕ) (k l : Key) → same_key k l ≡ false → read (drop s k) now l ≡ read s now l
  pub read-count :
      (s : S) (at now : ℕ) (k : Key) (ttl : ℕ)
      → read (count s at k ttl) now k
        ≡ (if ltb now (at + ttl) then some (counted (read s at k)) else none)
  pub read-count_other :
      (s : S) (at now : ℕ) (k l : Key) (ttl : ℕ)
      → same_key k l ≡ false
      → read (count s at k ttl) now l ≡ read s now l
  -- A key that a later read still finds was there when the scan was made.
  pub scan_finds :
      (s : S) (at now user : ℕ) (jti : Text)
      → at ≤ now
      → is_some (read s now (refresh_active user jti)) ≡ true
      → In (refresh_active user jti) (scan s at user)
  pub scan_only :
      (s : S) (at user : ℕ) (k : Key)
      → In k (scan s at user)
      → (jti : Text) × (k ≡ refresh_active user jti)

module _ {S : Type 0} ⦃r : RedisStore S⦄ where
  abbrev pub get : S → ℕ → Key → Option ℕ
  get redis now key = r.read redis now key

  abbrev pub exists : S → ℕ → Key → Bool
  exists redis now key = is_some (r.read redis now key)

  abbrev pub setex : S → ℕ → Key → ℕ → ℕ → S
  setex redis now key ttl value = r.write redis now key ttl value

  abbrev pub delete : S → Key → S
  delete redis key = r.drop redis key

  abbrev pub incr_expire : S → ℕ → Key → ℕ → S
  incr_expire redis now key ttl = r.count redis now key ttl

  -- `SET` with `NX` and `EX`: whether the key was set, and the store.
  abbrev pub set_nx : S → ℕ → Key → ℕ → ℕ → Bool × S
  set_nx redis now key ttl value =
      if exists redis now key then (false, redis) else (true, setex redis now key ttl value)
