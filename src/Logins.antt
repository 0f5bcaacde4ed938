-- ===== src/Logins.antt =====
-- Logging in and the account's own settings: authenticate_local of backend/app/services/auth_service.py
-- and the endpoints of backend/app/api/v1/auth.py but `refresh`. A request that raises leaves the
-- database as it was, and Redis as it is by then. `jti` and `sid` are the identifiers that a call
-- draws; a token is what it decodes to. Times are in seconds.
pub mod Steps
pub mod Settings
pub mod SecondFactor
pub mod Reset
mod Tests
use registrator_ofid.Base.{
  ℕ, zero, suc, ◌+◌, ◌*◌, Bool, true, false, not, ◌&&◌, ◌||◌, ◌==◌, List, [], ◌∷◌, ◌++◌, Option,
  none, some, if◌then◌else◌, length,
}
use registrator_ofid.Base.Text.{Text, text, text_eq, is_nonempty, or_empty}
use registrator_ofid.Http.{
  Result, ok, err, http, ◌>>=◌, ◌>>◌, raise_if, or_raise, bad_credentials, account_inactive,
  login_refused, wrong_code, no_password, current_password_wrong, same_password, link_invalid,
  totp_enabled_already, totp_not_enabled, password_wrong, wrong_token_type,
}
use registrator_ofid.Models.User.{User}
use registrator_ofid.Tracking.{decimal}
use registrator_ofid.Redis.{
  Key, totp_used, password_reset, RedisStore, get, exists, delete, setex, set_nx,
}
use registrator_ofid.Outbox.{OutboxMessage, Mail, enqueue_email}
use registrator_ofid.Sessions.{
  AuthSettings, Claims, check_brute_force, record_login_failure, clear_login_failures, issue_tokens,
  revoke_refresh_jti, revoke_all_refresh_tokens, end_session,
}
use registrator_ofid.Totp.{Totp, matching_step}

-- A row of `users`, with the columns that only logins read.
pub record Account : Type 0 where
  pub user : User
  pub password_hash : Option Text
  pub totp_secret : Option Text
  pub totp_enabled : Bool
  pub last_login_at : Option ℕ

pub data LoginAction : Type 0 where
  login_done login_2fa password_change password_reset_requested password_reset_done : LoginAction
  totp_enable_done totp_disable_done : LoginAction

-- What `log_action` writes of a user's own account.
pub record LoginLog : Type 0 where
  pub user_id : ℕ
  pub action : LoginAction
  pub ip_address : Text

pub record LoginState (S : Type 0) : Type 0 where
  pub accounts : List Account
  pub redis : S
  pub audit_logs : List LoginLog
  pub outbox : List OutboxMessage

-- Settings, the clock, and what libraries do: bcrypt, lower case, SHA-256 of a reset token, the
-- message with the link, and the key of the next row of the outbox.
pub record LoginEnv : Type 0 where
  pub auth : AuthSettings
  pub totp : Totp
  pub now : ℕ
  pub verify_password : Text → Text → Bool
  pub hash_password : Text → Text
  pub lower : Text → Text
  pub token_hash : Text → Text
  pub reset_mail : Text → Text → Mail
  pub new_key : ℕ → ℕ

-- `LoginResponse` and `TokenPair`: the user of an MFA token, or of a pair of tokens with the session
-- and the refresh token's identifier.
pub data LoginResponse : Type 0 where
  mfa_required : ℕ → LoginResponse
  token_pair : ℕ → Text → Text → LoginResponse

has_email : Option Text → Text → Bool
has_email none email = false
has_email (some e) email = text_eq e email

unfoldable pub find_email : List Account → Text → Option Account
unfolding has_email
find_email [] email = none
find_email (a ∷ accounts) email =
    let rest = find_email accounts email in if has_email a.user.email email then some a else rest

lower_email : (Text → Text) → Option Text → Text → Bool
lower_email lower none email = false
lower_email lower (some e) email = text_eq (lower e) email

unfoldable pub find_lower_email : (Text → Text) → List Account → Text → Option Account
unfolding lower_email
find_lower_email lower [] email = none
find_lower_email lower (a ∷ accounts) email =
    let rest = find_lower_email lower accounts email in
    if lower_email lower a.user.email email then some a else rest

-- `db.get(User, id)`
unfoldable pub find_account : List Account → ℕ → Option Account
find_account [] id = none
find_account (a ∷ accounts) id =
    let rest = find_account accounts id in if a.user.id == id then some a else rest

unfoldable pub save_account : List Account → Account → List Account
save_account [] account = []
save_account (a ∷ accounts) account =
    let rest = save_account accounts account in
    if a.user.id == account.user.id then account ∷ accounts else a ∷ rest

unfoldable pub has_password : Account → Bool
has_password a = is_nonempty (or_empty a.password_hash)

-- The account with its new login. `login` raises each `AuthError` as a 401.
unfoldable pub authenticate_local : LoginEnv → List Account → Text → Text → Result Account
unfolding has_password
authenticate_local env accounts email password = do
  account ← or_raise (find_email accounts email) 401 bad_credentials
  raise_if (not (has_password account)) 401 bad_credentials
  raise_if (not account.user.is_active) 401 account_inactive
  raise_if (not (env.verify_password password (or_empty account.password_hash))) 401 bad_credentials
  ok (record account { last_login_at = some env.now })

-- `f"mfa:{user.id}"`
unfoldable pub mfa_identity : ℕ → Text
mfa_identity id = text "mfa:" ++ decimal id

unfoldable pub check_second_factor_user : List Account → Claims → Result Account
check_second_factor_user accounts payload = do
  raise_if (not (text_eq payload.token_type (text "mfa"))) 401 wrong_token_type
  account ← or_raise (find_account accounts payload.sub) 401 login_refused
  raise_if (not account.user.is_active || not account.totp_enabled) 401 login_refused
  ok account
