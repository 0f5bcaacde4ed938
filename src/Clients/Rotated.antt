-- ===== src/Clients/Rotated.antt =====
-- Rotation of the secret of an API client: backend/app/services/api_client_service.py.
use registrator_ofid.Base.{
  ℕ, ◌+◌, ◌≤◌, ◌≡◌, refl, sym, ap, ◌∙◌, Bool, true, false, not, ◌&&◌, ◌==◌, List, [], ◌∷◌, some,
  arith, Bool-cases, inl, inr, if◌then◌else◌, any, filter,
}
use registrator_ofid.Base.Text.{Text}
use registrator_ofid.Http.{Result, ok, err, http, is_ok, client_revoked, scopes_missing}
use registrator_ofid.Sessions.{ApiClient, Claims, find_client, get_current_client, has_text}
use registrator_ofid.Sessions.Scopes.{has_text-filter}
use registrator_ofid.Clients.{
  ClientEnv, ClientState, Fresh, rotate, rotate_secret, get_client, save_client,
  create_client_token,
}

found_id :
    (clients : List ApiClient) (id : ℕ) (client : ApiClient)
    → find_client clients id ≡ some client
    → client.id ≡ id
unfolding find_client
found_id [] id client h = absurd (ground arith)
found_id (c ∷ clients) id client h = elim (Bool-cases (c.id == id)) [
  | inl is ↦ let same : c ≡ client = ground arith in ap (λ o. o.id) (sym same) ∙ ground arith
  | inr other ↦ found_id clients id client (ground arith)
]

save_client_hit :
    (c changed : ApiClient) (clients : List ApiClient)
    → (c.id == changed.id) ≡ true
    → save_client (c ∷ clients) changed ≡ changed ∷ clients
unfolding save_client
save_client_hit c changed clients h = rw (save_client, h) refl

save_client_miss :
    (c changed : ApiClient) (clients : List ApiClient)
    → (c.id == changed.id) ≡ false
    → save_client (c ∷ clients) changed ≡ c ∷ save_client clients changed
unfolding save_client
save_client_miss c changed clients h = rw (save_client, h) refl

find_client-save_client :
    (clients : List ApiClient) (client changed : ApiClient)
    → find_client clients changed.id ≡ some client
    → find_client (save_client clients changed) changed.id ≡ some changed
unfolding find_client
find_client-save_client [] client changed h = absurd (ground arith)
find_client-save_client (c ∷ clients) client changed h = elim (Bool-cases (c.id == changed.id)) [
  | inl hit ↦
      ap (λ o. find_client o changed.id) (save_client_hit c changed clients hit) ∙ ground arith
  | inr miss ↦
      ap (λ o. find_client o changed.id) (save_client_miss c changed clients miss)
      ∙ ground (arith, find_client-save_client clients client changed)
]

version_refused :
    (clients : List ApiClient) (required : List Text) (token : Claims) (client : ApiClient)
    → find_client clients token.sub ≡ some client
    → (token.ver == client.secret_version) ≡ false
    → is_ok (get_current_client clients required (some token)) ≡ false
unfolding get_current_client
version_refused clients required token client f stale = ground arith

-- What a client with certain rights is told on a call with a token of certain scopes.
abbrev pub verdict : Bool → List Text → List Text → List Text → ApiClient → Result ApiClient
verdict active own scopes required client =
    if active
    then (if any (λ s. not (has_text s scopes && has_text s own)) required
        then err (http 403 scopes_missing)
        else ok client)
    else err (http 401 client_revoked)

any_same : (p q : Text → Bool) (ts : List Text) → ((t : Text) → p t ≡ q t) → any p ts ≡ any q ts
any_same p q [] same = refl
any_same p q (t ∷ ts) same = ground (arith, same t, any_same p q ts same)

own_token :
    (clients : List ApiClient) (client : ApiClient) (required scopes : List Text) (jti : Text)
    → find_client clients client.id ≡ some client
    → get_current_client clients required (some (create_client_token client scopes jti))
      ≡ verdict client.is_active client.scopes scopes required client
unfolding get_current_client create_client_token
own_token clients client required scopes jti f =
    let lacks =
      any_same (λ s. not (has_text s (filter (λ t. has_text t client.scopes) scopes)))
        (λ s. not (has_text s scopes && has_text s client.scopes)) required
        (λ s. ap not (has_text-filter s client.scopes scopes)) in
    ground (arith, f, lacks)

-- Rotating a secret ends the tokens of the old one: once an administrator has rotated the secret of a
-- client, every token of that client with a version up to the old one is refused, whatever scopes the
-- call asks for; a token that is made for the rotated client is let through exactly if the client is
-- active and each scope that the call asks for is among those of the token and those of the client;
-- otherwise it is refused with 401 and 403.
pub rotate_ends :
    (env : ClientEnv) (st after : ClientState) (actor id : ℕ) (fresh : Fresh)
    (client rotated : ApiClient) (secret : Text) (required : List Text) (token : Claims)
    (scopes : List Text) (jti : Text)
    → find_client st.clients id ≡ some client
    → rotate env st actor fresh id ≡ ok ((rotated, secret), after)
    → token.sub ≡ id
    → token.ver ≤ client.secret_version
    → (is_ok (get_current_client after.clients required (some token)) ≡ false)
      × (get_current_client after.clients required (some (create_client_token rotated scopes jti))
          ≡ verdict client.is_active client.scopes scopes required rotated)
unfolding rotate get_client rotate_secret
rotate_ends env st after actor id fresh client rotated secret required token scopes jti f h sub
      old =
    let is : rotate_secret env fresh client ≡ rotated = ground arith in
    let saved : save_client st.clients rotated ≡ after.clients = ground arith in
    let own : rotated.id ≡ id = ap (λ o. o.id) (sym is) ∙ found_id st.clients id client f in
    let version : rotated.secret_version ≡ client.secret_version + 1 =
      ap (λ o. o.secret_version) (sym is) in
    let active : rotated.is_active ≡ client.is_active = ap (λ o. o.is_active) (sym is) in
    let own_scopes : rotated.scopes ≡ client.scopes = ap (λ o. o.scopes) (sym is) in
    let found : find_client after.clients rotated.id ≡ some rotated =
      ap (λ o. find_client o rotated.id) (sym saved)
      ∙ find_client-save_client st.clients client rotated (ap (find_client st.clients) own ∙ f) in
    (
      version_refused after.clients required token rotated
          (ap (find_client after.clients) (sub ∙ sym own) ∙ found) (ground arith),
      own_token after.clients rotated required scopes jti found
          ∙ ap (λ a. verdict a rotated.scopes scopes required rotated) active
          ∙ ap (λ o. verdict client.is_active o scopes required rotated) own_scopes,
    )
