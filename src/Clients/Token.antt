-- ===== src/Clients/Token.antt =====
-- The token endpoint: `issue_token` of backend/app/api/v1/integration.py.
use registrator_ofid.Base.{
  Bool, true, false, not, ◌||◌, List, [], ◌∷◌, Option, none, some, if◌then◌else◌, filter,
}
use registrator_ofid.Base.Text.{Text, text, text_eq, is_nonempty, or_empty, split}
use registrator_ofid.Sessions.{ApiClient, Claims, has_text}
use registrator_ofid.Clients.{
  ClientEnv, all_scopes, authenticate_client, save_client, create_client_token,
}

-- The errors of the token endpoint; `invalid_client` knows whether the credentials were in the
-- header, and `invalid_scope` has the scopes that are not granted, which its message sorts.
pub data OauthError : Type 0 where
  grant_type_missing unsupported_grant_type credentials_missing : OauthError
  invalid_client : Bool → OauthError
  invalid_scope : List Text → OauthError

pub record TokenForm : Type 0 where
  pub grant_type : Option Text
  pub scope : Option Text
  pub client_id : Option Text
  pub client_secret : Option Text

pub data TokenResponse : Type 0 where
  oauth_error : OauthError → TokenResponse
  issued : Claims → TokenResponse

unfoldable pub requested_scopes : Option Text → List Text → List Text
unfolding split
requested_scopes scope own = if is_nonempty (or_empty scope) then split (or_empty scope) else own

unfoldable pub grant :
    List ApiClient → ApiClient → List Text → Text → TokenResponse × List ApiClient
unfolding has_text save_client create_client_token
grant clients client requested jti =
    let extra = filter (λ s. not (has_text s client.scopes)) requested in
    elim extra [
      | [] ↦ (
        issued (create_client_token client (filter (λ s. has_text s requested) all_scopes) jti),
        save_client clients client,
      )
      | s ∷ rest ↦ (oauth_error (invalid_scope (s ∷ rest)), clients)
    ]

with_basic : Option (Text × Text) → TokenForm → TokenForm
with_basic none form = form
with_basic (some (id, secret)) form = record form {
  client_id = some id;
  client_secret = some secret;
}

has_basic : Option (Text × Text) → Bool
has_basic none = false
has_basic (some credentials) = true

exchange : ClientEnv → List ApiClient → Bool → TokenForm → Text → TokenResponse × List ApiClient
unfolding authenticate_client grant requested_scopes
exchange env clients basic form jti =
    elim (authenticate_client env clients (or_empty form.client_id) (or_empty form.client_secret)) [
      | none ↦ (oauth_error (invalid_client basic), clients)
      | some client ↦ grant clients client (requested_scopes form.scope client.scopes) jti
    ]

-- `issue_token`: the answer and the rows.
unfoldable pub issue_token :
    ClientEnv
    → List ApiClient
    → Option (Text × Text)
    → TokenForm
    → Text
    → TokenResponse × List ApiClient
unfolding exchange with_basic has_basic
issue_token env clients basic sent jti =
    let form = with_basic basic sent in
    if not (is_nonempty (or_empty form.grant_type))
    then (oauth_error grant_type_missing, clients)
    else if not (text_eq (or_empty form.grant_type) (text "client_credentials"))
    then (oauth_error unsupported_grant_type, clients)
    else if not (is_nonempty (or_empty form.client_id))
        || not (is_nonempty (or_empty form.client_secret))
    then (oauth_error credentials_missing, clients)
    else exchange env clients (has_basic basic) form jti
