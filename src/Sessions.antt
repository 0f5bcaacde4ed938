-- ===== src/Sessions.antt =====
-- Sessions and logins: the Redis part of backend/app/core/security.py and the token endpoints of
-- backend/app/services/auth_service.py and api/v1/auth.py. A token is what it decodes to; signing and
-- decoding it, and drawing new identifiers, are left to the caller. Times are in seconds.
pub mod Refresh
pub mod Idle
pub mod Lockout
pub mod Scopes
pub mod Revoke
mod Tests
use registrator_ofid.Base.{
  ℕ, zero, suc, ◌+◌, ◌-◌, ◌*◌, ◌^◌, Bool, true, false, not, ◌&&◌, ◌||◌, ◌==◌, ltb, leb, List, [],
  ◌∷◌, Option, none, some, if◌then◌else◌, filter, any, length, is_some,
}
use registrator_ofid.Base.Text.{Text, text, text_eq, is_nonempty}
use registrator_ofid.Http.{
  Result, ok, err, http, ◌>>=◌, ◌>>◌, raise_if, or_raise, not_authenticated, wrong_token_type,
  invalid_token, refresh_invalid, session_expired, user_inactive, role_not_allowed, client_revoked,
  scopes_missing, too_many_from_ip, account_locked,
}
use registrator_ofid.Models.User.{User, Role, has_role}
use registrator_ofid.Workflow.{find_user}
use registrator_ofid.Redis.{
  Key, refresh_active, refresh_blocked, session_seen, fail_user, fail_ip, RedisStore, get, exists,
  delete, setex, incr_expire,
}

pub record AuthSettings : Type 0 where
  pub jwt_refresh_ttl_days : ℕ
  pub session_idle_timeout_minutes : ℕ
  pub login_window_seconds : ℕ
  pub login_max_attempts_per_ip : ℕ
  pub login_max_attempts_per_user : ℕ
  pub login_lockout_attempts : ℕ

-- The claims of a token: `token_type` is `type`, and an absent number or text is zero or empty.
pub record Claims : Type 0 where
  pub sub : ℕ
  pub token_type : Text
  pub jti : Text
  pub sid : Text
  pub ver : ℕ
  pub scope : List Text

abbrev pub refresh_ttl : AuthSettings → ℕ
refresh_ttl settings = settings.jwt_refresh_ttl_days * 24 * 3600

abbrev pub idle_ttl : AuthSettings → ℕ
idle_ttl settings = settings.session_idle_timeout_minutes * 60

module _ {S : Type 0} ⦃r : RedisStore S⦄ where
  unfoldable pub register_refresh_jti : AuthSettings → S → ℕ → ℕ → Text → S
  register_refresh_jti settings redis now user_id jti =
      setex redis now (refresh_active user_id jti) (refresh_ttl settings) 1

  unfoldable pub revoke_refresh_jti : AuthSettings → S → ℕ → ℕ → Text → S
  revoke_refresh_jti settings redis now user_id jti =
      setex (delete redis (refresh_active user_id jti)) now (refresh_blocked jti)
        (refresh_ttl settings) 1

  unfoldable pub is_refresh_jti_valid : S → ℕ → ℕ → Text → Bool
  is_refresh_jti_valid redis now user_id jti =
      if exists redis now (refresh_blocked jti)
      then false
      else exists redis now (refresh_active user_id jti)

  unfoldable pub touch_session : AuthSettings → S → ℕ → Text → S
  touch_session settings redis now session_id =
      if is_nonempty session_id
      then setex redis now (session_seen session_id) (idle_ttl settings) 1
      else redis

  unfoldable pub is_session_active : S → ℕ → Text → Bool
  is_session_active redis now session_id =
      if is_nonempty session_id then exists redis now (session_seen session_id) else true

  unfoldable pub end_session : S → Text → S
  end_session redis session_id =
      if is_nonempty session_id then delete redis (session_seen session_id) else redis

  -- `redis.delete(*keys)`
  unfoldable pub delete_all : S → List Key → S
  delete_all redis [] = redis
  delete_all redis (k ∷ ks) = delete_all (delete redis k) ks

  -- The store without the user's refresh tokens, and the number of those that the scan found.
  unfoldable pub revoke_all_refresh_tokens : S → ℕ → ℕ → S × ℕ
  unfolding delete_all
  revoke_all_refresh_tokens redis now user_id =
      let keys = r.scan redis now user_id in (delete_all redis keys, length keys)

  -- `get_current_user`, on the claims of the token, if there is one; it also returns the store.
  unfoldable pub get_current_user :
      AuthSettings → List User → S → ℕ → Option Claims → Result (User × S)
  get_current_user settings users redis now token = do
    payload ← or_raise token 401 not_authenticated
    raise_if (not (text_eq payload.token_type (text "access"))) 401 wrong_token_type
    raise_if (payload.sub == 0) 401 invalid_token
    raise_if (not (is_session_active redis now payload.sid)) 401 session_expired
    user ← or_raise (find_user users payload.sub) 401 user_inactive
    raise_if (not user.is_active) 401 user_inactive
    ok (user, touch_session settings redis now payload.sid)

-- `require_roles`
unfoldable pub require_roles : List Role → User → Result User
require_roles names user = do raise_if (not (has_role user names)) 403 role_not_allowed; ok user

pub record ApiClient : Type 0 where
  pub id : ℕ
  pub name : Text
  pub description : Option Text
  pub client_id : Text
  pub secret_hash : Text
  pub secret_version : ℕ
  pub scopes : List Text
  pub is_active : Bool
  pub created_by : Option ℕ
  pub last_used_at : Option ℕ

unfoldable pub find_client : List ApiClient → ℕ → Option ApiClient
find_client [] id = none
find_client (c ∷ clients) id =
    let rest = find_client clients id in if c.id == id then some c else rest

unfoldable pub has_text : Text → List Text → Bool
has_text t ts = any (text_eq t) ts

-- `get_current_client`, on the claims of a bearer token, if the header has one.
unfoldable pub get_current_client : List ApiClient → List Text → Option Claims → Result ApiClient
unfolding find_client has_text
get_current_client clients required token = do
  payload ← or_raise token 401 not_authenticated
  raise_if (not (text_eq payload.token_type (text "client"))) 401 wrong_token_type
  client ← or_raise (find_client clients payload.sub) 401 client_revoked
  raise_if (not client.is_active || not (payload.ver == client.secret_version)) 401 client_revoked
  let granted = filter (λ s. has_text s client.scopes) payload.scope
  raise_if (any (λ s. not (has_text s granted)) required) 403 scopes_missing
  ok client

module _ {S : Type 0} ⦃r : RedisStore S⦄ where
  -- `issue_tokens`: the store once a session has been opened.
  unfoldable pub issue_tokens : AuthSettings → S → ℕ → ℕ → Text → Text → S
  issue_tokens settings redis now user_id session_id jti =
      touch_session settings (register_refresh_jti settings redis now user_id jti) now session_id

unfoldable pub or_new : Text → Text → Text
or_new sid fresh = if is_nonempty sid then sid else fresh

module _ {S : Type 0} ⦃r : RedisStore S⦄ where
  -- The end of `refresh`: the rotation.
  unfoldable pub rotate : AuthSettings → S → ℕ → ℕ → Text → Text → Text → S
  rotate settings redis now user_id jti sid new_jti =
      touch_session settings
        (register_refresh_jti settings (revoke_refresh_jti settings redis now user_id jti) now
          user_id new_jti)
        now sid

unfoldable pub check_user : List User → ℕ → Result User
check_user users id = do
  user ← or_raise (find_user users id) 401 user_inactive
  raise_if (not user.is_active) 401 user_inactive
  ok user

module _ {S : Type 0} ⦃r : RedisStore S⦄ where
  -- `refresh` of api/v1/auth.py: the user or the exception, and the store. `new_jti` and `new_sid` are
  -- the identifiers that are drawn in the call.
  unfoldable pub refresh : AuthSettings → List User → S → ℕ → Claims → Text → Text → Result User × S
  unfolding rotate or_new check_user
  refresh settings users redis now payload new_jti new_sid =
      if not (text_eq payload.token_type (text "refresh"))
      then (err (http 401 wrong_token_type), redis)
      else if (payload.sub == 0)
          || not (is_nonempty payload.jti)
          || not (is_refresh_jti_valid redis now payload.sub payload.jti)
      then (err (http 401 refresh_invalid), redis)
      else if not (is_session_active redis now payload.sid)
      then (
        err (http 401 session_expired),
        revoke_refresh_jti settings redis now payload.sub payload.jti,
      )
      else elim (check_user users payload.sub) [
        | err e ↦ (err e, redis)
        | ok user ↦ (
          ok user,
          rotate settings redis now payload.sub payload.jti (or_new payload.sid new_sid) new_jti,
        )
      ]

unfoldable pub at_least : Option ℕ → ℕ → Bool
at_least none limit = false
at_least (some n) limit = leb limit n

backoff : Option ℕ → ℕ → ℕ
backoff none limit = 0
backoff (some n) limit =
    if leb limit n then (if ltb (2 ^ (n - limit)) 30 then 2 ^ (n - limit) else 30) else 0

module _ {S : Type 0} ⦃r : RedisStore S⦄ where
  -- `check_brute_force`: the seconds that the attempt is delayed, if it is not rejected.
  unfoldable pub check_brute_force : AuthSettings → S → ℕ → Text → Text → Result ℕ
  unfolding at_least backoff
  check_brute_force settings redis now identity ip = do
    raise_if (at_least (get redis now (fail_ip ip)) settings.login_max_attempts_per_ip) 429
        too_many_from_ip
    raise_if (at_least (get redis now (fail_user identity)) settings.login_lockout_attempts) 429
        account_locked
    ok (backoff (get redis now (fail_user identity)) settings.login_max_attempts_per_user)

  unfoldable pub record_login_failure : AuthSettings → S → ℕ → Text → Text → S
  record_login_failure settings redis now identity ip =
      incr_expire (incr_expire redis now (fail_user identity) settings.login_window_seconds) now
        (fail_ip ip) settings.login_window_seconds

  unfoldable pub clear_login_failures : S → Text → Text → S
  clear_login_failures redis identity ip = delete (delete redis (fail_user identity)) (fail_ip ip)
