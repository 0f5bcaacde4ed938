-- ===== src/Sessions/Refresh.antt =====
-- Rotation of refresh tokens: `refresh` of backend/app/api/v1/auth.py over core/security.py.
use registrator_ofid.Base.{
  ℕ, ◌+◌, ◌<◌, ◌≡◌, refl, ap, ◌∙◌, true, false, ltb, lt→ltb, List, is_some, arith, inl, inr,
}
use registrator_ofid.Base.Text.{Text, text, text_eq}
use registrator_ofid.Http.{ok, is_ok, Result-cases}
use registrator_ofid.Models.User.{User}
use registrator_ofid.Redis.{
  refresh_active, refresh_blocked, key_tag, key_user, key_step, key_text, same_key, RedisStore,
  exists,
}
use registrator_ofid.Redis.Keys.{kept_while, is_some-while}
use registrator_ofid.Sessions.{
  AuthSettings, Claims, refresh_ttl, register_refresh_jti, revoke_refresh_jti, is_refresh_jti_valid,
  is_session_active, refresh, rotate, or_new, check_user,
}
use registrator_ofid.Sessions.Idle.{touch_session_other}

module _ {S : Type 0} ⦃r : RedisStore S⦄ where
  -- What a refresh that returned a user has checked and done.
  pub record Refreshed (settings : AuthSettings) (users : List User) (redis : S) (now : ℕ)
      (payload : Claims) (new_jti new_sid : Text) (user : User) (after : S) : Type 0 where
    pub token_type : text_eq payload.token_type (text "refresh") ≡ true
    pub valid : is_refresh_jti_valid redis now payload.sub payload.jti ≡ true
    pub active : is_session_active redis now payload.sid ≡ true
    pub found : check_user users payload.sub ≡ ok user
    pub rotated :
        after
        ≡ rotate settings redis now payload.sub payload.jti (or_new payload.sid new_sid) new_jti

  pub refresh-Refreshed :
      (settings : AuthSettings) (users : List User) (redis : S) (now : ℕ) (payload : Claims)
      (new_jti new_sid : Text) (user : User)
      → (refresh settings users redis now payload new_jti new_sid).0 ≡ ok user
      → Refreshed settings users redis now payload new_jti new_sid user
          (refresh settings users redis now payload new_jti new_sid).1
  unfolding refresh
  refresh-Refreshed settings users redis now payload new_jti new_sid user h =
      elim (Result-cases (check_user users payload.sub)) [
        | inl (u, e) ↦ record {
          token_type = ground arith;
          valid = ground arith;
          active = ground arith;
          found = ground arith;
          rotated = ground arith;
        }
        | inr (x, e) ↦ absurd (ground arith)
      ]

  blocked_after :
      (settings : AuthSettings) (redis : S) (now later user_id : ℕ) (jti sid new_jti : Text)
      → later < now + refresh_ttl settings
      → exists (rotate settings redis now user_id jti sid new_jti) later (refresh_blocked jti)
        ≡ true
  unfolding rotate register_refresh_jti revoke_refresh_jti same_key key_tag key_user key_step
      key_text
  blocked_after settings redis now later user_id jti sid new_jti soon = ap is_some (
      touch_session_other {S = S} settings _ now later sid (refresh_blocked jti) refl
      ∙ r.read-write_other _ now later (refresh_active user_id new_jti) (refresh_blocked jti)
          (refresh_ttl settings) 1 refl
      ∙ r.read-write _ now later (refresh_blocked jti) (refresh_ttl settings) 1
      ∙ kept_while _ 1 (lt→ltb later (now + refresh_ttl settings) soon))

  -- Another identifier is as blocked after a rotation as before it.
  still_unblocked :
      (settings : AuthSettings) (redis : S) (now later user_id : ℕ) (jti sid new_jti : Text)
      → text_eq jti new_jti ≡ false
      → exists (rotate settings redis now user_id jti sid new_jti) later (refresh_blocked new_jti)
        ≡ exists redis later (refresh_blocked new_jti)
  unfolding rotate register_refresh_jti revoke_refresh_jti same_key key_tag key_user key_step
      key_text
  still_unblocked settings redis now later user_id jti sid new_jti apart = ap is_some (
      touch_session_other {S = S} settings _ now later sid (refresh_blocked new_jti) refl
      ∙ r.read-write_other _ now later (refresh_active user_id new_jti) (refresh_blocked new_jti)
          (refresh_ttl settings) 1 refl
      ∙ r.read-write_other _ now later (refresh_blocked jti) (refresh_blocked new_jti)
          (refresh_ttl settings) 1 apart
      ∙ r.read-drop_other redis later (refresh_active user_id jti) (refresh_blocked new_jti) refl)

  renewed_until :
      (settings : AuthSettings) (redis : S) (now later user_id : ℕ) (jti sid new_jti : Text)
      → exists
          (rotate settings redis now user_id jti sid new_jti)
          later
          (refresh_active user_id new_jti)
        ≡ ltb later (now + refresh_ttl settings)
  unfolding rotate register_refresh_jti revoke_refresh_jti same_key key_tag key_user key_step
      key_text
  renewed_until settings redis now later user_id jti sid new_jti =
      ap is_some (
        touch_session_other {S = S} settings _ now later sid (refresh_active user_id new_jti) refl
        ∙ r.read-write _ now later (refresh_active user_id new_jti) (refresh_ttl settings) 1)
      ∙ is_some-while (ltb later (now + refresh_ttl settings)) 1

  unblocked_valid :
      (redis : S) (now user_id : ℕ) (jti : Text)
      → exists redis now (refresh_blocked jti) ≡ false
      → is_refresh_jti_valid redis now user_id jti ≡ exists redis now (refresh_active user_id jti)
  unfolding is_refresh_jti_valid
  unblocked_valid redis now user_id jti h = rw h refl

  blocked_invalid :
      (redis : S) (now user_id : ℕ) (jti : Text)
      → exists redis now (refresh_blocked jti) ≡ true
      → is_refresh_jti_valid redis now user_id jti ≡ false
  unfolding is_refresh_jti_valid
  blocked_invalid redis now user_id jti h = rw h refl

  invalid_refused :
      (settings : AuthSettings) (users : List User) (redis : S) (now : ℕ) (payload : Claims)
      (new_jti new_sid : Text)
      → is_refresh_jti_valid redis now payload.sub payload.jti ≡ false
      → is_ok (refresh settings users redis now payload new_jti new_sid).0 ≡ false
  unfolding refresh
  invalid_refused settings users redis now payload new_jti new_sid h = ground arith

  -- A refresh token is good for one refresh: after a call that returned, every call with the same token
  -- fails while the token has not expired, whatever session it names and whatever identifiers are drawn.
  pub refresh_once :
      (settings : AuthSettings) (users users' : List User) (redis : S) (now later : ℕ)
      (payload : Claims) (new_jti new_sid new_jti' new_sid' : Text) (user : User)
      → (refresh settings users redis now payload new_jti new_sid).0 ≡ ok user
      → later < now + refresh_ttl settings
      → is_ok
          (refresh settings users'
            (refresh settings users redis now payload new_jti new_sid).1
            later
            payload
            new_jti'
            new_sid').0
        ≡ false
  refresh_once settings users users' redis now later payload new_jti new_sid new_jti' new_sid' user
        h soon =
      let done = refresh-Refreshed settings users redis now payload new_jti new_sid user h in
      let after = (refresh settings users redis now payload new_jti new_sid).1 in
      let spent : is_refresh_jti_valid after later payload.sub payload.jti ≡ false =
        ap (λ q. is_refresh_jti_valid q later payload.sub payload.jti) done.rotated
        ∙ blocked_invalid _ later payload.sub payload.jti (
            blocked_after settings redis now later payload.sub payload.jti
              (or_new payload.sid new_sid) new_jti soon) in
      invalid_refused settings users' after later payload new_jti' new_sid' spent

  -- The pair that a refresh returns goes on: its refresh token is valid until it expires, unless its
  -- identifier had been drawn before and is blocked.
  refresh_renews :
      (settings : AuthSettings) (users : List User) (redis : S) (now later : ℕ) (payload : Claims)
      (new_jti new_sid : Text) (user : User)
      → (refresh settings users redis now payload new_jti new_sid).0 ≡ ok user
      → exists redis later (refresh_blocked new_jti) ≡ false
      → text_eq payload.jti new_jti ≡ false
      → is_refresh_jti_valid
          (refresh settings users redis now payload new_jti new_sid).1
          later
          payload.sub
          new_jti
        ≡ ltb later (now + refresh_ttl settings)
  refresh_renews settings users redis now later payload new_jti new_sid user h unused apart =
      let done = refresh-Refreshed settings users redis now payload new_jti new_sid user h in
      ap (λ q. is_refresh_jti_valid q later payload.sub new_jti) done.rotated
      ∙ unblocked_valid _ later payload.sub new_jti (
          still_unblocked settings redis now later payload.sub payload.jti
            (or_new payload.sid new_sid) new_jti apart
          ∙ unused)
      ∙ renewed_until settings redis now later payload.sub payload.jti (or_new payload.sid new_sid)
          new_jti
