-- ===== src/Logins/Steps.antt =====
-- The two steps of a login: `login`, `login_second_factor`, `_consume_totp` and `_complete_login` of
-- backend/app/api/v1/auth.py.
use registrator_ofid.Base.{ℕ, Bool, true, false, [], ◌∷◌, ◌++◌, Option, none, some, if◌then◌else◌}
use registrator_ofid.Base.Text.{Text, is_nonempty, or_empty}
use registrator_ofid.Http.{Result, ok, err, http, wrong_code}
use registrator_ofid.Redis.{totp_used, RedisStore, set_nx}
use registrator_ofid.Sessions.{
  Claims, check_brute_force, record_login_failure, clear_login_failures, issue_tokens,
}
use registrator_ofid.Totp.{matching_step}
use registrator_ofid.Logins.{
  Account, LoginAction, login_done, login_2fa, LoginState, LoginEnv, LoginResponse, mfa_required,
  token_pair, save_account, authenticate_local, check_second_factor_user, mfa_identity,
}

module _ {S : Type 0} ⦃r : RedisStore S⦄ where
  unfoldable pub with_redis : LoginState S → S → LoginState S
  with_redis st redis = record st { redis = redis }

  unfoldable pub log_login : LoginState S → ℕ → LoginAction → Text → LoginState S
  log_login st id action ip = record st {
    audit_logs = st.audit_logs ++ record { user_id = id; action = action; ip_address = ip } ∷ [];
  }

  -- `_complete_login`
  unfoldable pub complete_login :
      LoginEnv
      → LoginState S
      → Account
      → LoginAction
      → Text
      → Text
      → Text
      → Result LoginResponse × LoginState S
  unfolding with_redis log_login
  complete_login env st account action ip jti sid =
      let id = account.user.id in
      let opened = with_redis st (issue_tokens env.auth st.redis env.now id sid jti) in
      (ok (token_pair id jti sid), log_login opened id action ip)

  -- A step that is used for the first time.
  unfoldable pub burn : S → ℕ → ℕ → Option ℕ → Result Bool × S
  burn redis now id none = (ok false, redis)
  burn redis now id (some step) =
      let done = set_nx redis now (totp_used id step) 120 1 in (ok done.0, done.1)

  unfoldable pub burn_matched : S → ℕ → ℕ → Result (Option ℕ) → Result Bool × S
  unfolding burn
  burn_matched redis now id (err e) = (err e, redis)
  burn_matched redis now id (ok step) = burn redis now id step

  -- `_consume_totp`
  unfoldable pub consume_totp : LoginEnv → S → Account → Text → Result Bool × S
  unfolding burn_matched
  consume_totp env redis account code =
      if is_nonempty (or_empty account.totp_secret)
      then burn_matched redis env.now account.user.id
          (matching_step env.totp (or_empty account.totp_secret) code env.now)
      else (ok false, redis)

  unfoldable finish_login :
      LoginEnv
      → LoginState S
      → Text
      → Text
      → Text
      → Text
      → Result Account
      → Result LoginResponse × LoginState S
  finish_login env st email ip jti sid (err e) =
      (err e, with_redis st (record_login_failure env.auth st.redis env.now (env.lower email) ip))
  finish_login env st email ip jti sid (ok account) =
      let cleared : LoginState S = record st {
        accounts = save_account st.accounts account;
        redis = clear_login_failures st.redis (env.lower email) ip;
      } in
      if account.totp_enabled
      then (ok (mfa_required account.user.id), cleared)
      else complete_login env cleared account login_done ip jti sid

  unfoldable pub login :
      LoginEnv
      → LoginState S
      → Text
      → Text
      → Text
      → Text
      → Text
      → Result LoginResponse × LoginState S
  unfolding finish_login
  login env st email password ip jti sid =
      elim (check_brute_force env.auth st.redis env.now (env.lower email) ip) [
        | err e ↦ (err e, st)
        | ok delay ↦
            finish_login env st email ip jti sid (authenticate_local env st.accounts email password)
      ]

  unfoldable pub finish_second_factor :
      LoginEnv
      → LoginState S
      → Account
      → Text
      → Text
      → Text
      → Result Bool
      → Result LoginResponse × LoginState S
  unfolding with_redis complete_login mfa_identity
  finish_second_factor env st account ip jti sid (err e) = (err e, st)
  finish_second_factor env st account ip jti sid (ok false) = (
    err (http 401 wrong_code),
    with_redis st
        (record_login_failure env.auth st.redis env.now (mfa_identity account.user.id) ip),
  )
  finish_second_factor env st account ip jti sid (ok true) =
      complete_login env
        (with_redis st (clear_login_failures st.redis (mfa_identity account.user.id) ip)) account
        login_2fa ip jti sid

  unfoldable pub second_factor :
      LoginEnv
      → LoginState S
      → Account
      → Text
      → Text
      → Text
      → Text
      → Result LoginResponse × LoginState S
  unfolding consume_totp finish_second_factor mfa_identity
  second_factor env st account code ip jti sid =
      elim (check_brute_force env.auth st.redis env.now (mfa_identity account.user.id) ip) [
        | err e ↦ (err e, st)
        | ok delay ↦
            let used = consume_totp env st.redis account code in
            finish_second_factor env (with_redis st used.1) account ip jti sid used.0
      ]

  -- `login_second_factor`, on the claims of the token.
  unfoldable pub login_second_factor :
      LoginEnv
      → LoginState S
      → Claims
      → Text
      → Text
      → Text
      → Text
      → Result LoginResponse × LoginState S
  unfolding check_second_factor_user second_factor
  login_second_factor env st payload code ip jti sid =
      elim (check_second_factor_user st.accounts payload) [
        | err e ↦ (err e, st)
        | ok account ↦ second_factor env st account code ip jti sid
      ]
