-- ===== src/Clients/Tests.antt =====
-- API clients of backend/app/services/api_client_service.py on concrete rows.
use registrator_ofid.Base.{◌≡◌, refl, true, false, [], ◌∷◌, ◌++◌, none, some, arith}
use registrator_ofid.Base.Text.{text, strip}
use registrator_ofid.Http.{ok, err, http, is_ok, scopes_missing}
use registrator_ofid.Sessions.{ApiClient, Claims, find_client, get_current_client, has_text}
use registrator_ofid.Clients.{ClientEnv, ClientState, Fresh, rotate, create_client_token, create}
use registrator_ofid.Clients.Token.{
  TokenForm, issue_token, issued, oauth_error, invalid_client, invalid_scope,
}
use registrator_ofid.Clients.Rotated.{rotate_ends, verdict}

abbrev env : ClientEnv
env = record { now = 50; hash_client_secret = λ s. text "#" ++ s }

abbrev fresh : Fresh
fresh = record { client_id = text "royd_2"; secret = text "new"; key = 8 }

abbrev portal : ApiClient
portal = record {
  id = 4;
  name = text "Portal";
  description = none;
  client_id = text "royd_1";
  secret_hash = text "#old";
  secret_version = 1;
  scopes = text "requests:read" ∷ [];
  is_active = true;
  created_by = some 9;
  last_used_at = none;
}

abbrev rotated : ApiClient
rotated = record portal { secret_hash = text "#new"; secret_version = 2 }

abbrev state : ClientState
state = record { clients = portal ∷ []; audit_logs = [] }

abbrev form : TokenForm
form = record {
  grant_type = some (text "client_credentials");
  scope = none;
  client_id = some (text "royd_1");
  client_secret = some (text "old");
}

abbrev old_token : Claims
old_token = create_client_token portal (text "requests:read" ∷ []) (text "j1")

issued_once : (issue_token env (portal ∷ []) none form (text "j1")).0 ≡ issued old_token
unfolding issue_token
issued_once = refl

old_secret :
    (issue_token env (rotated ∷ []) none form (text "j1")).0 ≡ oauth_error (invalid_client false)
unfolding issue_token
old_secret = refl

more_scopes :
    (issue_token env
      (portal ∷ [])
      none
      (record form { scope = some (text " requests:write ") })
      (text "j1")).0
    ≡ oauth_error (invalid_scope (text "requests:write" ∷ []))
unfolding issue_token
more_scopes = refl

name_twice :
    is_ok (create env state 9 fresh (text " Portal ") none (text "requests:read" ∷ [])) ≡ false
unfolding create strip
name_twice = refl

rotate_example :
    (is_ok (get_current_client (rotated ∷ []) (text "requests:read" ∷ []) (some old_token)) ≡ false)
    × (get_current_client
          (rotated ∷ [])
          (text "requests:read" ∷ [])
          (some (create_client_token rotated (text "requests:read" ∷ []) (text "j2")))
        ≡ verdict true portal.scopes
            (text "requests:read" ∷ [])
            (text "requests:read" ∷ [])
            rotated)
unfolding find_client rotate create_client_token
rotate_example =
    rotate_ends env state (record { clients = rotated ∷ []; audit_logs = _ }) 9 4 fresh portal
      rotated (text "new") (text "requests:read" ∷ []) old_token (text "requests:read" ∷ [])
      (text "j2") refl refl refl (omega arith)

let_through :
    verdict true portal.scopes (text "requests:read" ∷ []) (text "requests:read" ∷ []) rotated
    ≡ ok rotated
unfolding has_text
let_through = refl

out_of_scope :
    verdict true portal.scopes (text "requests:read" ∷ []) (text "requests:write" ∷ []) rotated
    ≡ err (http 403 scopes_missing)
unfolding has_text
out_of_scope = refl
