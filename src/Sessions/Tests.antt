-- ===== src/Sessions/Tests.antt =====
-- Logins, refreshes and revocations of backend/app/core/security.py on concrete stores.
use registrator_ofid.Base.{List, ◌≡◌, refl, true, false, ◌==◌, [], ◌∷◌, none, some, arith, All}
use registrator_ofid.Base.Text.{text, text_eq}
use registrator_ofid.Http.{is_ok}
use registrator_ofid.Workflow.{find_user}
use registrator_ofid.Redis.Memory.{Entry, memory, lookup, put}
use registrator_ofid.Redis.{same_key}
use registrator_ofid.Sessions.{
  AuthSettings, Claims, register_refresh_jti, is_refresh_jti_valid, touch_session,
  is_session_active, refresh, check_brute_force,
}
use registrator_ofid.Samples.{student}
use registrator_ofid.Sessions.{
  ApiClient, find_client, has_text, get_current_client, revoke_all_refresh_tokens, issue_tokens,
}
use registrator_ofid.Sessions.Refresh.{refresh_once}
use registrator_ofid.Sessions.Lockout.{failures, guessing_locks}
use registrator_ofid.Sessions.Scopes.{get_current_client_scopes}
use registrator_ofid.Sessions.Revoke.{revoke_all_refresh_tokens_ends}

abbrev settings : AuthSettings
settings = record {
  jwt_refresh_ttl_days = 7;
  session_idle_timeout_minutes = 30;
  login_window_seconds = 900;
  login_max_attempts_per_ip = 30;
  login_max_attempts_per_user = 5;
  login_lockout_attempts = 2;
}

-- The student's session, opened at second 1000.
abbrev store : List Entry
store = issue_tokens {S = List Entry} settings [] 1000 1 (text "s1") (text "j1")

abbrev access_token : Claims
access_token = record {
  sub = 1;
  token_type = text "access";
  jti = text "a";
  sid = text "s1";
  ver = 0;
  scope = [];
}

abbrev refresh_token : Claims
refresh_token = record access_token { token_type = text "refresh"; jti = text "j1" }

refresh_once_example :
    is_ok
      (refresh settings
        (student ∷ [])
        (refresh settings (student ∷ []) store 1200 refresh_token (text "j2") (text "s2")).1
        1201
        refresh_token
        (text "j3")
        (text "s3")).0
    ≡ false
unfolding refresh is_refresh_jti_valid lookup issue_tokens touch_session put same_key
    register_refresh_jti is_session_active find_user
refresh_once_example =
    refresh_once settings (student ∷ []) (student ∷ []) store 1200 1201 refresh_token (text "j2")
      (text "s2") (text "j3") (text "s3") student refl (omega arith)

locks_example :
    is_ok (
      check_brute_force settings
        (failures {S = List Entry} settings []
          (text "ali")
          ((10, text "h1") ∷ (20, text "h2") ∷ []))
        30
        (text "ali")
        (text "h3"))
    ≡ false
locks_example =
    guessing_locks {S = List Entry} settings [] 10 30 (text "ali") (text "h1") (text "h3")
      ((20, text "h2") ∷ []) (omega arith) (omega arith, omega arith)

abbrev partner : ApiClient
partner = record {
  id = 4;
  name = text "Portal";
  description = none;
  client_id = text "royd";
  secret_hash = text "h1";
  secret_version = 2;
  scopes = text "requests:read" ∷ [];
  is_active = true;
  created_by = some 9;
  last_used_at = none;
}

abbrev partner_token : Claims
partner_token = record {
  sub = 4;
  token_type = text "client";
  jti = text "c";
  sid = [];
  ver = 2;
  scope = text "requests:read" ∷ text "requests:write" ∷ [];
}

scopes_example :
    (text_eq (text "client") (text "client") ≡ true)
    × (find_client (partner ∷ []) 4 ≡ some partner)
    × (true ≡ true)
    × ((2 == 2) ≡ true)
    × All
        (λ s. (has_text s partner_token.scope ≡ true) × (has_text s partner.scopes ≡ true))
        (text "requests:read" ∷ [])
unfolding get_current_client
scopes_example =
    get_current_client_scopes (partner ∷ []) (text "requests:read" ∷ []) partner_token partner refl

revoked_example :
    (is_refresh_jti_valid (revoke_all_refresh_tokens store 1200 1).0 1300 1 (text "j1") ≡ false)
    × (is_refresh_jti_valid (revoke_all_refresh_tokens store 1200 1).0 1300 2 (text "j1")
        ≡ is_refresh_jti_valid store 1300 2 (text "j1"))
revoked_example = revoke_all_refresh_tokens_ends store 1200 1300 1 2 (text "j1") (omega arith) refl
