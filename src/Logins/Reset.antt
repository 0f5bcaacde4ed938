-- ===== src/Logins/Reset.antt =====
-- `reset_password` of backend/app/api/v1/auth.py.
use registrator_ofid.Base.{ℕ, ◌≡◌, refl, ◌∙◌, none, some}
use registrator_ofid.Base.Text.{Text}
use registrator_ofid.Http.{Result, ok, err, http, link_invalid}
use registrator_ofid.Redis.{
  password_reset, key_tag, key_user, key_step, key_text, same_key, RedisStore, get, delete,
}
use registrator_ofid.Sessions.Revoke.{revoke_all_refresh_tokens_other}
use registrator_ofid.Logins.{Account, LoginEnv, LoginState, find_account}
use registrator_ofid.Logins.Steps.{with_redis}
use registrator_ofid.Logins.Settings.{reset_password, use_link, finish_reset, check_reset}

module _ {S : Type 0} ⦃r : RedisStore S⦄ where
  link_missing :
      (env : LoginEnv) (st : LoginState S) (token new ip : Text)
      → get st.redis env.now (password_reset (env.token_hash token)) ≡ none
      → reset_password env st token new ip ≡ (err (http 400 link_invalid), st)
  unfolding reset_password use_link
  link_missing env st token new ip h = rw (reset_password, h) refl

  -- Revoking tokens does not bring a link back.
  finish_reset_keeps :
      (env : LoginEnv) (st : LoginState S) (later : ℕ) (ip token : Text) (checked : Result Account)
      → get st.redis later (password_reset token) ≡ none
      → get (finish_reset env st ip checked).1.redis later (password_reset token) ≡ none
  unfolding finish_reset with_redis same_key key_tag key_user key_step key_text
  finish_reset_keeps env st later ip token (err e) h = h
  finish_reset_keeps env st later ip token (ok account) h =
      revoke_all_refresh_tokens_other st.redis env.now later account.user.id (password_reset token)
        (λ jti. refl)
      ∙ h

  link_gone :
      (env : LoginEnv) (st : LoginState S) (later id : ℕ) (token new ip : Text)
      → get st.redis env.now (password_reset (env.token_hash token)) ≡ some id
      → get
          (reset_password env st token new ip).1.redis
          later
          (password_reset (env.token_hash token))
        ≡ none
  unfolding reset_password use_link with_redis
  link_gone env st later id token new ip h =
      rw (reset_password, h)
        (finish_reset_keeps env
          (with_redis st (delete st.redis (password_reset (env.token_hash token)))) later ip
          (env.token_hash token) (check_reset env (find_account st.accounts id) new)
          (r.read-drop st.redis later (password_reset (env.token_hash token))))

  -- A link that resets a password works once: after a call with a link that Redis has, whether the call
  -- returned or raised, every call with the same link is refused as invalid, and changes nothing.
  pub reset_password_once :
      (env : LoginEnv) (st : LoginState S) (later id : ℕ) (token new ip new' ip' : Text)
      → get st.redis env.now (password_reset (env.token_hash token)) ≡ some id
      → reset_password
          (record env { now = later })
          (reset_password env st token new ip).1
          token
          new'
          ip'
        ≡ (err (http 400 link_invalid), (reset_password env st token new ip).1)
  reset_password_once env st later id token new ip new' ip' h =
      link_missing (record env { now = later }) (reset_password env st token new ip).1 token new'
        ip' (link_gone env st later id token new ip h)
