-- ===== src/Logins/Settings.antt =====
-- The user's own account in backend/app/api/v1/auth.py: logging out, the password and the second
-- factor. The account is that of the authenticated user.
use registrator_ofid.Base.{
  ℕ, Bool, true, false, not, ◌&&◌, ◌==◌, ◌++◌, Option, none, some, if◌then◌else◌, length,
}
use registrator_ofid.Base.Text.{Text, text, text_eq, is_nonempty, or_empty}
use registrator_ofid.Http.{
  Result, ok, err, http, ◌>>=◌, ◌>>◌, raise_if, or_raise, wrong_code, no_password,
  current_password_wrong, same_password, link_invalid, totp_enabled_already, totp_not_enabled,
  password_wrong,
}
use registrator_ofid.Redis.{RedisStore, get, delete, setex, password_reset}
use registrator_ofid.Outbox.{enqueue_email}
use registrator_ofid.Sessions.{
  Claims, check_brute_force, record_login_failure, issue_tokens, revoke_refresh_jti,
  revoke_all_refresh_tokens, end_session,
}
use registrator_ofid.Logins.{
  Account, LoginAction, password_change, password_reset_requested, password_reset_done,
  totp_enable_done, totp_disable_done, LoginState, LoginEnv, LoginResponse, token_pair,
  find_lower_email, find_account, save_account, has_password,
}
use registrator_ofid.Logins.Steps.{with_redis, log_login, consume_totp}

abbrev pub reset_ttl_seconds : ℕ
reset_ttl_seconds = 1800

unfoldable pub check_change : LoginEnv → Account → Text → Text → Result Account
unfolding has_password
check_change env account current new = do
  raise_if (not (has_password account)) 400 no_password
  raise_if (not (env.verify_password current (or_empty account.password_hash))) 400
      current_password_wrong
  raise_if (text_eq current new) 400 same_password
  ok (record account { password_hash = some (env.hash_password new) })

unfoldable pub check_reset : LoginEnv → Option Account → Text → Result Account
check_reset env found new = do
  account ← or_raise found 400 link_invalid
  raise_if (not account.user.is_active) 400 link_invalid
  ok (record account { password_hash = some (env.hash_password new) })

unfoldable pub totp_setup : Text → Account → Result Account
unfolding has_password
totp_setup secret account = do
  raise_if account.totp_enabled 409 totp_enabled_already
  raise_if (not (has_password account)) 400 no_password
  ok (record account { totp_secret = some secret })

unfoldable pub may_disable : LoginEnv → Account → Text → Bool
unfolding has_password
may_disable env account password =
    has_password account && env.verify_password password (or_empty account.password_hash)

unfoldable pub wants_mail : Account → Bool
unfolding has_password
wants_mail account = account.user.is_active && has_password account

module _ {S : Type 0} ⦃r : RedisStore S⦄ where
  -- `logout`, on the claims of the refresh token, if there is one that decodes; it drops the cookie in
  -- every case.
  unfoldable pub logout : LoginEnv → LoginState S → Option Claims → LoginState S
  unfolding with_redis
  logout env st none = st
  logout env st (some payload) =
      let revoked =
        if not (payload.sub == 0) && is_nonempty payload.jti
        then revoke_refresh_jti env.auth st.redis env.now payload.sub payload.jti
        else st.redis in
      if text_eq payload.token_type (text "refresh")
      then with_redis st (end_session revoked payload.sid)
      else st

  unfoldable pub store_account : LoginState S → Account → LoginAction → Text → LoginState S
  unfolding log_login
  store_account st account action ip =
      log_login (record st { accounts = save_account st.accounts account }) account.user.id action
        ip

  unfoldable pub change_password :
      LoginEnv
      → LoginState S
      → Account
      → Text
      → Text
      → Text
      → Text
      → Text
      → Result LoginResponse × LoginState S
  unfolding check_change store_account with_redis
  change_password env st account current new ip jti sid =
      elim (check_change env account current new) [
        | err e ↦ (err e, st)
        | ok changed ↦
            let id = account.user.id in
            let ended = (revoke_all_refresh_tokens st.redis env.now id).0 in
            (
              ok (token_pair id jti sid),
              with_redis (store_account st changed password_change ip)
                  (issue_tokens env.auth ended env.now id sid jti),
            )
      ]

  unfoldable send_link : LoginEnv → LoginState S → Account → Text → Text → LoginState S
  unfolding log_login
  send_link env st account token ip =
      log_login
        (record st {
          redis =
              setex st.redis env.now (password_reset (env.token_hash token)) reset_ttl_seconds
                account.user.id;
          outbox =
              enqueue_email st.outbox (env.new_key (length st.outbox)) env.now
                (env.reset_mail (or_empty account.user.email) token);
        })
        account.user.id password_reset_requested ip

  unfoldable answer_forgotten :
      LoginEnv → LoginState S → Option Account → Text → Text → LoginState S
  unfolding wants_mail send_link
  answer_forgotten env st none token ip = st
  answer_forgotten env st (some account) token ip =
      if wants_mail account then send_link env st account token ip else st

  -- `forgot_password`; `token` is what `token_urlsafe` draws.
  unfoldable pub forgot_password :
      LoginEnv → LoginState S → Text → Text → Text → Result (Unit {0}) × LoginState S
  unfolding answer_forgotten with_redis
  forgot_password env st address token ip =
      let email = env.lower address in
      let identity = text "pwreset:" ++ email in
      elim (check_brute_force env.auth st.redis env.now identity ip) [
        | err e ↦ (err e, st)
        | ok delay ↦ (
          ok tt,
          answer_forgotten env
              (with_redis st (record_login_failure env.auth st.redis env.now identity ip))
              (find_lower_email env.lower st.accounts email) token ip,
        )
      ]

  unfoldable pub finish_reset :
      LoginEnv → LoginState S → Text → Result Account → Result (Unit {0}) × LoginState S
  unfolding store_account with_redis
  finish_reset env st ip (err e) = (err e, st)
  finish_reset env st ip (ok account) = (
    ok tt,
    with_redis (store_account st account password_reset_done ip)
        (revoke_all_refresh_tokens st.redis env.now account.user.id).0,
  )

  -- The key goes before anything else can fail.
  unfoldable pub use_link :
      LoginEnv → LoginState S → Text → Text → Text → Option ℕ → Result (Unit {0}) × LoginState S
  unfolding finish_reset check_reset with_redis
  use_link env st token new ip none = (err (http 400 link_invalid), st)
  use_link env st token new ip (some id) =
      finish_reset env (with_redis st (delete st.redis (password_reset (env.token_hash token)))) ip
        (check_reset env (find_account st.accounts id) new)

  unfoldable pub reset_password :
      LoginEnv → LoginState S → Text → Text → Text → Result (Unit {0}) × LoginState S
  unfolding use_link
  reset_password env st token new ip =
      use_link env st token new ip (get st.redis env.now (password_reset (env.token_hash token)))

  unfoldable finish_totp :
      LoginState S → Account → LoginAction → Text → Result Bool → Result (Unit {0}) × LoginState S
  unfolding store_account
  finish_totp st account action ip (err e) = (err e, st)
  finish_totp st account action ip (ok false) = (err (http 400 wrong_code), st)
  finish_totp st account action ip (ok true) = (ok tt, store_account st account action ip)

  unfoldable pub totp_enable :
      LoginEnv → LoginState S → Account → Text → Text → Result (Unit {0}) × LoginState S
  unfolding finish_totp with_redis consume_totp
  totp_enable env st account code ip =
      let used = consume_totp env st.redis account code in
      let on : Account = record account { totp_enabled = true } in
      if account.totp_enabled
      then (err (http 409 totp_enabled_already), st)
      else finish_totp (with_redis st used.1) on totp_enable_done ip used.0

  unfoldable pub totp_disable :
      LoginEnv → LoginState S → Account → Text → Text → Text → Result (Unit {0}) × LoginState S
  unfolding finish_totp with_redis consume_totp may_disable
  totp_disable env st account password code ip =
      let used = consume_totp env st.redis account code in
      let off : Account = record account { totp_enabled = false; totp_secret = none } in
      if not account.totp_enabled
      then (err (http 409 totp_not_enabled), st)
      else if not (may_disable env account password)
      then (err (http 400 password_wrong), st)
      else finish_totp (with_redis st used.1) off totp_disable_done ip used.0
