-- ===== src/Logins/Tests.antt =====
-- Logins of backend/app/api/v1/auth.py on concrete accounts.
use registrator_ofid.Redis.{same_key}
use registrator_ofid.Tracking.{decimal}
use registrator_ofid.Base.{◌≡◌, refl, ◌/◌, ◌%◌, true, false, List, [], ◌∷◌, ◌++◌, none, some}
use registrator_ofid.Base.Text.{text, text_eq, strip}
use registrator_ofid.Http.{ok, err, http, is_ok, link_invalid, bad_credentials, type_error}
use registrator_ofid.Redis.Memory.{Entry, memory, lookup, put}
use registrator_ofid.Sessions.{AuthSettings, Claims, check_brute_force}
use registrator_ofid.Totp.{Totp, matching_step, code_at}
use registrator_ofid.Logins.{
  Account, LoginEnv, LoginState, mfa_required, token_pair, authenticate_local, find_account,
  find_email, find_lower_email,
}
use registrator_ofid.Logins.Steps.{login, login_second_factor}
use registrator_ofid.Logins.Settings.{forgot_password, reset_password}
use registrator_ofid.Logins.SecondFactor.{login_second_factor_once}
use registrator_ofid.Logins.Reset.{reset_password_once}
use registrator_ofid.Samples.{student}

abbrev auth : AuthSettings
auth = record {
  jwt_refresh_ttl_days = 7;
  session_idle_timeout_minutes = 30;
  login_window_seconds = 900;
  login_max_attempts_per_ip = 30;
  login_max_attempts_per_user = 5;
  login_lockout_attempts = 15;
}

-- The code of a step is its number.
abbrev totp : Totp
totp = record {
  digest = λ secret counter. 0 ∷ 0 ∷ (counter / 256) ∷ (counter % 256) ∷ 0 ∷ [];
  other_digit = λ c. false;
}

abbrev env : LoginEnv
env = record {
  auth = auth;
  totp = totp;
  now = 1200;
  verify_password = λ password hash. text_eq (text "#" ++ password) hash;
  hash_password = λ password. text "#" ++ password;
  lower = λ t. t;
  token_hash = λ t. t;
  reset_mail = λ to token. record { to = to; subject = text "ROYD"; body = token; html = none };
  new_key = λ n. n;
}

abbrev account : Account
account = record {
  user = student;
  password_hash = some (text "#secret");
  totp_secret = some (text "ABCD");
  totp_enabled = true;
  last_login_at = none;
}

abbrev state : LoginState (List Entry)
state = record { accounts = account ∷ []; redis = []; audit_logs = []; outbox = [] }

abbrev mfa_token : Claims
mfa_token = record {
  sub = 1;
  token_type = text "mfa";
  jti = text "m";
  sid = [];
  ver = 0;
  scope = [];
}

password_alone :
    (login env state (text "ali@example.uz") (text "secret") (text "h1") (text "j1") (text "s1")).0
    ≡ ok (mfa_required 1)
unfolding login check_brute_force lookup authenticate_local find_email
password_alone = refl

password_wrong :
    (login env state (text "ali@example.uz") (text "Secret") (text "h1") (text "j1") (text "s1")).0
    ≡ err (http 401 bad_credentials)
unfolding login check_brute_force lookup authenticate_local find_email
password_wrong = refl

spaced_code : matching_step totp (text "ABCD") (text " 000 040") 1200 ≡ ok (some 40)
unfolding matching_step strip code_at decimal
spaced_code = refl

late_code : matching_step totp (text "ABCD") (text "000040") 1260 ≡ ok none
unfolding matching_step strip code_at decimal
late_code = refl

-- Arabic digits pass `isdigit`, and `compare_digest` raises.
arabic_code :
    matching_step
      (record totp { other_digit = λ c. true })
      (text "ABCD")
      (0x664 ∷ 0x660 ∷ 0x660 ∷ 0x660 ∷ 0x660 ∷ 0x660 ∷ [])
      1200
    ≡ err type_error
unfolding matching_step strip
arabic_code = refl

logged_in :
    (login_second_factor env state mfa_token (text "000040") (text "h1") (text "j1") (text "s1")).0
    ≡ ok (token_pair 1 (text "j1") (text "s1"))
unfolding login_second_factor find_account check_brute_force lookup matching_step strip code_at
    decimal
logged_in = refl

second_factor_example :
    is_ok
      (login_second_factor
        (record env { now = 1215 })
        (login_second_factor env state mfa_token
          (text "000040")
          (text "h1")
          (text "j1")
          (text "s1")).1
        mfa_token
        (text "000 040")
        (text "h2")
        (text "j2")
        (text "s2")).0
    ≡ false
unfolding find_account login_second_factor check_brute_force lookup matching_step strip code_at
    decimal
second_factor_example =
    login_second_factor_once env state 1215 mfa_token mfa_token account (text "000040") (text "h1")
      (text "j1") (text "s1") (text "000 040") (text "h2") (text "j2") (text "s2") refl refl refl
      refl

-- Once the link of a forgotten password has been sent.
abbrev forgotten : LoginState (List Entry)
forgotten = (forgot_password env state (text "ali@example.uz") (text "link") (text "h1")).1

reset_example :
    reset_password
      (record env { now = 1300 })
      (reset_password env forgotten (text "link") (text "N3w") (text "h1")).1
      (text "link")
      (text "Other")
      (text "h2")
    ≡ (
      err (http 400 link_invalid),
      (reset_password env forgotten (text "link") (text "N3w") (text "h1")).1,
    )
unfolding lookup forgot_password check_brute_force find_lower_email put same_key
reset_example =
    reset_password_once env forgotten 1300 1 (text "link") (text "N3w") (text "h1") (text "Other")
      (text "h2") refl
