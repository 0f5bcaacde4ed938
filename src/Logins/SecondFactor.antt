-- ===== src/Logins/SecondFactor.antt =====
-- The second factor in backend/app/core/totp.py and `_consume_totp` of backend/app/api/v1/auth.py.
use registrator_ofid.Base.{
  ℕ, ◌+◌, ◌≡◌, refl, sym, ap, ◌∙◌, true, false, lt→ltb, List, Option, none, some, is_some, arith,
  Bool-cases, inl, inr,
}
use registrator_ofid.Base.Text.{Text, is_nonempty, or_empty}
use registrator_ofid.Http.{Result, ok, err, is_ok, Result-cases}
use registrator_ofid.Redis.{
  fail_user, fail_ip, refresh_active, totp_used, key_tag, key_user, key_step, key_text, same_key,
  RedisStore, get, exists, setex,
}
use registrator_ofid.Redis.Keys.{kept_while}
use registrator_ofid.Totp.{matching_step}
use registrator_ofid.Sessions.{
  Claims, issue_tokens, register_refresh_jti, refresh_ttl, clear_login_failures, check_brute_force,
}
use registrator_ofid.Sessions.Idle.{touch_session_other}
use registrator_ofid.Logins.{
  Account, LoginEnv, LoginState, check_second_factor_user, find_account, mfa_identity,
}
use registrator_ofid.Logins.Steps.{
  consume_totp, burn, burn_matched, second_factor, login_second_factor, finish_second_factor,
  complete_login, with_redis,
}
use registrator_ofid.Totp.Window.{matching_step_ends}

checked_same :
    (accounts : List Account) (payload : Claims) (account found : Account)
    → check_second_factor_user accounts payload ≡ ok account
    → find_account accounts payload.sub ≡ some found
    → account ≡ found
unfolding check_second_factor_user
checked_same accounts payload account found h f = ground arith

module _ {S : Type 0} ⦃r : RedisStore S⦄ where
  burn_first :
      (redis : S) (now id : ℕ) (found : Result (Option ℕ))
      → (burn_matched redis now id found).0 ≡ ok true
      → (step : ℕ) × (found ≡ ok (some step))
        × ((burn_matched redis now id found).1 ≡ setex redis now (totp_used id step) 120 1)
  unfolding burn_matched burn
  burn_first redis now id (err e) h = absurd (ground arith)
  burn_first redis now id (ok none) h = absurd (ground arith)
  burn_first redis now id (ok (some step)) h =
      elim (Bool-cases (exists redis now (totp_used id step))) [
        | inl there ↦ absurd (ground arith)
        | inr fresh ↦ (step, refl, ground arith)
      ]

  -- A code that is accepted leaves the mark of its step for two minutes.
  consume_totp_marks :
      (env : LoginEnv) (redis : S) (account : Account) (code : Text)
      → (consume_totp env redis account code).0 ≡ ok true
      → (step : ℕ) × (matching_step env.totp (or_empty account.totp_secret) code env.now
          ≡ ok (some step))
        × ((consume_totp env redis account code).1
            ≡ setex redis env.now (totp_used account.user.id step) 120 1)
  unfolding consume_totp
  consume_totp_marks env redis account code h =
      elim (Bool-cases (is_nonempty (or_empty account.totp_secret))) [
        | inl has ↦
            let (step, m, e) =
              burn_first redis env.now account.user.id
                (matching_step env.totp (or_empty account.totp_secret) code env.now)
                (rw has at h) in
            (step, m, rw has e)
        | inr hasnt ↦ absurd (ground arith)
      ]

  -- A code whose step is marked is refused.
  consume_totp_marked :
      (env : LoginEnv) (redis : S) (account : Account) (code : Text) (step : ℕ)
      → matching_step env.totp (or_empty account.totp_secret) code env.now ≡ ok (some step)
      → exists redis env.now (totp_used account.user.id step) ≡ true
      → (consume_totp env redis account code).0 ≡ ok false
  unfolding consume_totp burn_matched burn
  consume_totp_marked env redis account code step m there =
      elim (Bool-cases (is_nonempty (or_empty account.totp_secret))) [
        | inl has ↦ rw (has, m, there) refl
        | inr hasnt ↦ rw hasnt refl
      ]

  -- Opening a session changes no mark.
  complete_login_keeps :
      (env : LoginEnv) (redis : S) (later id step : ℕ) (sid jti identity ip : Text)
      → get
          (issue_tokens env.auth (clear_login_failures redis identity ip) env.now id sid jti)
          later
          (totp_used id step)
        ≡ get redis later (totp_used id step)
  unfolding issue_tokens register_refresh_jti clear_login_failures same_key key_tag key_user
      key_step key_text
  complete_login_keeps env redis later id step sid jti identity ip =
      touch_session_other {S = S} env.auth _ env.now later sid (totp_used id step) refl
      ∙ r.read-write_other _ env.now later (refresh_active id jti) (totp_used id step)
          (refresh_ttl env.auth) 1 refl
      ∙ r.read-drop_other _ later (fail_ip ip) (totp_used id step) refl
      ∙ r.read-drop_other redis later (fail_user identity) (totp_used id step) refl

  -- What a second factor that logged in has checked and done.
  second_factor_done :
      (env : LoginEnv) (st : LoginState S) (account : Account) (code ip jti sid : Text)
      → is_ok (second_factor env st account code ip jti sid).0 ≡ true
      → ((consume_totp env st.redis account code).0 ≡ ok true)
        × ((second_factor env st account code ip jti sid).1.accounts ≡ st.accounts)
        × ((second_factor env st account code ip jti sid).1.redis
            ≡ issue_tokens env.auth
                (clear_login_failures
                  (consume_totp env st.redis account code).1
                  (mfa_identity account.user.id)
                  ip)
                env.now
                account.user.id
                sid
                jti)
  unfolding second_factor finish_second_factor complete_login with_redis
  second_factor_done env st account code ip jti sid h =
      elim (Result-cases
        (check_brute_force env.auth st.redis env.now (mfa_identity account.user.id) ip)) [
          | inr (e, refused) ↦ absurd (ground arith)
          | inl (delay, passed) ↦ elim (Result-cases (consume_totp env st.redis account code).0) [
            | inr (e, raised) ↦ absurd (ground arith)
            | inl (true, right) ↦ (right, ground arith, ground arith)
            | inl (false, wrong) ↦ absurd (ground arith)
          ]
        ]

  second_factor_marked :
      (env : LoginEnv) (st : LoginState S) (account : Account) (code ip jti sid : Text)
      → (consume_totp env st.redis account code).0 ≡ ok false
      → is_ok (second_factor env st account code ip jti sid).0 ≡ false
  unfolding second_factor finish_second_factor
  second_factor_marked env st account code ip jti sid wrong =
      elim (Result-cases
        (check_brute_force env.auth st.redis env.now (mfa_identity account.user.id) ip)) [
          | inr (e, refused) ↦ ground arith
          | inl (delay, passed) ↦ ground arith
        ]

  -- A step that has logged a user in logs the same account in no more.
  pub second_factor_once :
      (env : LoginEnv) (st : LoginState S) (later : ℕ) (account : Account)
      (code ip jti sid code' ip' jti' sid' : Text)
      → is_ok (second_factor env st account code ip jti sid).0 ≡ true
      → matching_step env.totp (or_empty account.totp_secret) code' later
        ≡ matching_step env.totp (or_empty account.totp_secret) code env.now
      → is_ok
          (second_factor
            (record env { now = later })
            (second_factor env st account code ip jti sid).1
            account
            code'
            ip'
            jti'
            sid').0
        ≡ false
  second_factor_once env st later account code ip jti sid code' ip' jti' sid' h same =
      let after = (second_factor env st account code ip jti sid).1 in
      let (right, kept, opened) = second_factor_done env st account code ip jti sid h in
      let (step, m, marked) = consume_totp_marks env st.redis account code right in
      let soon =
        matching_step_ends env.totp (or_empty account.totp_secret) code code' env.now later step m
          (same ∙ m) in
      let there : exists after.redis later (totp_used account.user.id step) ≡ true = ap is_some (
        ap (λ q. get q later (totp_used account.user.id step)) opened
        ∙ complete_login_keeps env _ later account.user.id step sid jti
            (mfa_identity account.user.id) ip
        ∙ ap (λ q. get q later (totp_used account.user.id step)) marked
        ∙ r.read-write st.redis env.now later (totp_used account.user.id step) 120 1
        ∙ kept_while _ 1 (lt→ltb later (env.now + 120) soon)) in
      second_factor_marked (record env { now = later }) after account code' ip' jti' sid'
        (consume_totp_marked (record env { now = later }) after.redis account code' step (same ∙ m)
          there)

  -- What a login with a second factor that returned has checked.
  login_second_factor_user :
      (env : LoginEnv) (st : LoginState S) (payload : Claims) (account : Account)
      (code ip jti sid : Text)
      → find_account st.accounts payload.sub ≡ some account
      → is_ok (login_second_factor env st payload code ip jti sid).0 ≡ true
      → login_second_factor env st payload code ip jti sid
        ≡ second_factor env st account code ip jti sid
  unfolding login_second_factor
  login_second_factor_user env st payload account code ip jti sid f h =
      elim (Result-cases (check_second_factor_user st.accounts payload)) [
        | inr (e, refused) ↦ absurd (ground arith)
        | inl (a, passed) ↦
            let same = checked_same st.accounts payload a account passed f in
            rw (login_second_factor, passed) (ap (λ o. second_factor env st o code ip jti sid) same)
      ]

  -- One step of the codes of an account is good for one login: after a login with the second factor, at
  -- any later time, a login of the same account is refused, if its code is that of the step of the first
  -- one, whatever token, address and code it comes with.
  pub login_second_factor_once :
      (env : LoginEnv) (st : LoginState S) (later : ℕ) (payload payload' : Claims)
      (account : Account) (code ip jti sid code' ip' jti' sid' : Text)
      → find_account st.accounts payload.sub ≡ some account
      → payload'.sub ≡ payload.sub
      → is_ok (login_second_factor env st payload code ip jti sid).0 ≡ true
      → matching_step env.totp (or_empty account.totp_secret) code' later
        ≡ matching_step env.totp (or_empty account.totp_secret) code env.now
      → is_ok
          (login_second_factor
            (record env { now = later })
            (login_second_factor env st payload code ip jti sid).1
            payload'
            code'
            ip'
            jti'
            sid').0
        ≡ false
  login_second_factor_once env st later payload payload' account code ip jti sid code' ip' jti' sid'
        f user h same =
      let is = login_second_factor_user env st payload account code ip jti sid f h in
      let after = (login_second_factor env st payload code ip jti sid).1 in
      let first : is_ok (second_factor env st account code ip jti sid).0 ≡ true =
        sym (ap (λ o. is_ok o.0) is) ∙ h in
      let found : find_account after.accounts payload'.sub ≡ some account =
        ap (λ o. find_account o.1.accounts payload'.sub) is
        ∙ ap (λ o. find_account o payload'.sub)
            (second_factor_done env st account code ip jti sid first).1
        ∙ ap (find_account st.accounts) user
        ∙ f in
      elim (Bool-cases (
        is_ok
          (login_second_factor (record env { now = later }) after payload' code' ip' jti'
            sid').0)) [
              | inr refused ↦ refused
              | inl again ↦
                  ap (λ o. is_ok o.0)
                    (login_second_factor_user (record env { now = later }) after payload' account
                      code' ip' jti' sid' found again)
                  ∙ ap
                      (λ o.
                        is_ok
                          (second_factor (record env { now = later }) o.1 account code' ip' jti'
                            sid').0)
                      is
                  ∙ second_factor_once env st later account code ip jti sid code' ip' jti' sid'
                      first same
            ]
