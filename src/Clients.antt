-- ===== src/Clients.antt =====
-- API clients: backend/app/services/api_client_service.py, api/v1/api_clients.py and the token endpoint
-- of api/v1/integration.py. A name and a `client_id` are unique, so that a select finds one row; the
-- header with Basic credentials is taken as decoded, SHA-256 is left to the caller, and `fresh` is
-- what a call draws.
pub mod Token
pub mod Rotated
mod Tests
use registrator_ofid.Base.{
  ℕ, zero, suc, ◌+◌, Bool, true, false, not, ◌&&◌, ◌||◌, ◌==◌, List, [], ◌∷◌, ◌++◌, Option, none,
  some, if◌then◌else◌, filter, any,
}
use registrator_ofid.Base.Text.{Text, text, text_eq, is_nonempty, or_empty, strip, is_space}
use registrator_ofid.Http.{
  Result, ok, err, http, ◌>>=◌, ◌>>◌, raise_if, or_raise, client_name_taken, client_missing,
}
use registrator_ofid.Sessions.{ApiClient, Claims, find_client, has_text}

-- `ApiClient.SCOPES`
abbrev pub all_scopes : List Text
all_scopes = text "requests:read" ∷ text "requests:write" ∷ text "catalogs:read" ∷ []

-- The identifier and the secret of `new_client_credentials`, and the key of a new row.
pub record Fresh : Type 0 where
  pub client_id : Text
  pub secret : Text
  pub key : ℕ

pub record ClientEnv : Type 0 where
  pub now : ℕ
  pub hash_client_secret : Text → Text

-- `_snapshot`
pub record Snapshot : Type 0 where
  pub name : Text
  pub description : Option Text
  pub scopes : List Text
  pub is_active : Bool

pub data ClientAudit : Type 0 where
  client_created : Text → Snapshot → ClientAudit
  client_updated : Snapshot → Snapshot → ClientAudit
  secret_rotated : ℕ → ClientAudit

-- The rows of `api_clients`, and what was logged: the actor, the row and the values.
pub record ClientState : Type 0 where
  pub clients : List ApiClient
  pub audit_logs : List (ℕ × ℕ × ClientAudit)

-- The fields of an update that are set: a description may be cleared.
pub record ClientChanges : Type 0 where
  pub name : Option Text
  pub description : Option (Option Text)
  pub scopes : Option (List Text)
  pub is_active : Option Bool

other_than : Option ℕ → ℕ → Bool
other_than none id = true
other_than (some excluded) id = not (id == excluded)

-- `_assert_name_free`
unfoldable pub name_taken : List ApiClient → Text → Option ℕ → Bool
unfolding other_than
name_taken clients name exclude_id =
    any (λ c. text_eq c.name name && other_than exclude_id c.id) clients

unfoldable pub new_client : ClientEnv → Fresh → Text → Option Text → List Text → ℕ → ApiClient
new_client env fresh name description scopes created_by = record {
  id = fresh.key;
  name = name;
  description = description;
  client_id = fresh.client_id;
  secret_hash = env.hash_client_secret fresh.secret;
  secret_version = 1;
  scopes = scopes;
  is_active = true;
  created_by = some created_by;
  last_used_at = none;
}

-- The new row, with the secret, which is in the answer and nowhere else.
unfoldable pub create_client :
    ClientEnv
    → List ApiClient
    → Fresh
    → Text
    → Option Text
    → List Text
    → ℕ
    → Result (ApiClient × Text)
unfolding new_client name_taken
create_client env clients fresh name description scopes created_by = do
  raise_if (name_taken clients name none) 409 client_name_taken
  ok (new_client env fresh name description scopes created_by, fresh.secret)

abbrev pub or_kept {ℓ} : {A : Type ℓ} → Option A → A → A
or_kept none a = a
or_kept (some b) a = b

name_clash : List ApiClient → ApiClient → Option Text → Bool
unfolding name_taken
name_clash clients client none = false
name_clash clients client (some name) =
    not (text_eq name client.name) && name_taken clients name (some client.id)

unfoldable pub update_client : List ApiClient → ApiClient → ClientChanges → Result ApiClient
unfolding name_clash
update_client clients client changes = do
  raise_if (name_clash clients client changes.name) 409 client_name_taken
  ok (record client {
    name = or_kept changes.name client.name;
    description = or_kept changes.description client.description;
    scopes = or_kept changes.scopes client.scopes;
    is_active = or_kept changes.is_active client.is_active;
  })

unfoldable pub rotate_secret : ClientEnv → Fresh → ApiClient → ApiClient
rotate_secret env fresh client = record client {
  secret_hash = env.hash_client_secret fresh.secret;
  secret_version = client.secret_version + 1;
}

unfoldable pub get_client : List ApiClient → ℕ → Result ApiClient
unfolding find_client
get_client clients id = or_raise (find_client clients id) 404 client_missing

unfoldable pub find_by_client_id : List ApiClient → Text → Option ApiClient
find_by_client_id [] client_id = none
find_by_client_id (c ∷ clients) client_id =
    let rest = find_by_client_id clients client_id in
    if text_eq c.client_id client_id then some c else rest

usable : ClientEnv → Text → ApiClient → Bool
usable env secret client =
    client.is_active && text_eq (env.hash_client_secret secret) client.secret_hash

unfoldable pub authenticate_client : ClientEnv → List ApiClient → Text → Text → Option ApiClient
unfolding usable find_by_client_id
authenticate_client env clients client_id secret = elim (find_by_client_id clients client_id) [
  | none ↦ none
  | some client ↦
      if usable env secret client
      then some (record client { last_used_at = some env.now })
      else none
]

unfoldable pub save_client : List ApiClient → ApiClient → List ApiClient
save_client [] client = []
save_client (c ∷ clients) client =
    let rest = save_client clients client in
    if c.id == client.id then client ∷ clients else c ∷ rest

unfoldable pub snapshot : ApiClient → Snapshot
snapshot client = record {
  name = client.name;
  description = client.description;
  scopes = client.scopes;
  is_active = client.is_active;
}

-- The three calls of an administrator.
unfoldable pub create :
    ClientEnv
    → ClientState
    → ℕ
    → Fresh
    → Text
    → Option Text
    → List Text
    → Result ((ApiClient × Text) × ClientState)
unfolding create_client snapshot
create env st actor fresh name description scopes = do
  (client, secret) ← create_client env st.clients fresh (strip name) description scopes actor
  ok (
    (client, secret),
    record {
      clients = st.clients ++ client ∷ [];
      audit_logs =
          st.audit_logs
          ++ (actor, client.id, client_created client.client_id (snapshot client)) ∷ [];
    },
  )

stripped : Option Text → Option Text
stripped none = none
stripped (some name) = some (strip name)

unfoldable pub update : ClientState → ℕ → ℕ → ClientChanges → Result (ApiClient × ClientState)
unfolding get_client update_client snapshot stripped
update st actor id changes = do
  client ← get_client st.clients id
  changed ← update_client st.clients client (record changes { name = stripped changes.name })
  ok (
    changed,
    record {
      clients = save_client st.clients changed;
      audit_logs =
          st.audit_logs ++ (actor, id, client_updated (snapshot client) (snapshot changed)) ∷ [];
    },
  )

unfoldable pub rotate :
    ClientEnv → ClientState → ℕ → Fresh → ℕ → Result ((ApiClient × Text) × ClientState)
unfolding get_client rotate_secret save_client
rotate env st actor fresh id = do
  client ← get_client st.clients id
  let rotated = rotate_secret env fresh client
  ok (
    (rotated, fresh.secret),
    record {
      clients = save_client st.clients rotated;
      audit_logs = st.audit_logs ++ (actor, id, secret_rotated rotated.secret_version) ∷ [];
    },
  )

-- `create_client_token`; `jti` is drawn.
unfoldable pub create_client_token : ApiClient → List Text → Text → Claims
create_client_token client scopes jti = record {
  sub = client.id;
  token_type = text "client";
  jti = jti;
  sid = [];
  ver = client.secret_version;
  scope = scopes;
}
