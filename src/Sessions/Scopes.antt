-- ===== src/Sessions/Scopes.antt =====
-- What an API client may do: `get_current_client` of backend/app/core/security.py.
use registrator_ofid.Base.{
  ◌≡◌, refl, sym, ap, ◌∙◌, subst, true, false, not, ◌&&◌, ◌==◌, List, [], ◌∷◌, some, filter, arith,
  Bool-cases, Option-cases, inl, inr, All, any,
}
use registrator_ofid.Base.Text.{Text, text, text_eq}
use registrator_ofid.Http.{ok}
use registrator_ofid.Sessions.{Claims}
use registrator_ofid.Sessions.{ApiClient, find_client, has_text, get_current_client}

All-had :
    (granted required : List Text)
    → any (λ s. not (has_text s granted)) required ≡ false
    → All (λ s. has_text s granted ≡ true) required
All-had granted [] h = tt
All-had granted (s ∷ required) h = (ground arith, All-had granted required (ground arith))

text_eq_trans : (s t u : Text) → text_eq s t ≡ true → text_eq s u ≡ text_eq t u
text_eq_trans [] [] u h = refl
text_eq_trans [] (d ∷ t) u h = absurd (ground arith)
text_eq_trans (c ∷ s) [] u h = absurd (ground arith)
text_eq_trans (c ∷ s) (d ∷ t) [] h = refl
text_eq_trans (c ∷ s) (d ∷ t) (e ∷ u) h = ground (arith, text_eq_trans s t u)

has_text_cong :
    (s t : Text) (own : List Text) → text_eq s t ≡ true → has_text s own ≡ has_text t own
unfolding has_text
has_text_cong s t [] h = refl
has_text_cong s t (o ∷ own) h = ground (arith, text_eq_trans s t o h, has_text_cong s t own h)

-- A scope that is in both lists, spelled alike.
kept_in_both :
    (s : Text) (own ts : List Text)
    → has_text s (filter (λ t. has_text t own) ts) ≡ true
    → (has_text s ts ≡ true) × (has_text s own ≡ true)
unfolding has_text
kept_in_both s own [] h = absurd (ground arith)
kept_in_both s own (t ∷ ts) h = elim (Bool-cases (has_text t own)) [
  | inl hit ↦ elim (Bool-cases (text_eq s t)) [
    | inl is ↦ (ground arith, has_text_cong s t own is ∙ hit)
    | inr other ↦ let (i, o) = kept_in_both s own ts (ground arith) in (ground arith, o)
  ]
  | inr miss ↦ let (i, o) = kept_in_both s own ts (ground arith) in (ground arith, o)
]

-- The scopes of a token, cut down to those of its client.
pub has_text-filter :
    (s : Text) (own ts : List Text)
    → has_text s (filter (λ t. has_text t own) ts) ≡ (has_text s ts && has_text s own)
unfolding has_text
has_text-filter s own [] = refl
has_text-filter s own (t ∷ ts) = elim (Bool-cases (text_eq s t)) [
  | inl is ↦ ground (arith, has_text_cong s t own is, has_text-filter s own ts)
  | inr other ↦ ground (arith, has_text-filter s own ts)
]

both-All :
    (own ts required : List Text)
    → All (λ s. has_text s (filter (λ t. has_text t own) ts) ≡ true) required
    → All (λ s. (has_text s ts ≡ true) × (has_text s own ≡ true)) required
both-All own ts [] h = tt
both-All own ts (s ∷ required) h = (kept_in_both s own ts h.0, both-All own ts required h.1)

-- A call that is let through as an API client carries a client token of the client's present secret,
-- the client is active, and each scope that the call requires is in the token and still granted to
-- the client.
pub get_current_client_scopes :
    (clients : List ApiClient) (required : List Text) (token : Claims) (client : ApiClient)
    → get_current_client clients required (some token) ≡ ok client
    → (text_eq token.token_type (text "client") ≡ true)
      × (find_client clients token.sub ≡ some client)
      × (client.is_active ≡ true)
      × ((token.ver == client.secret_version) ≡ true)
      × All (λ s. (has_text s token.scope ≡ true) × (has_text s client.scopes ≡ true)) required
unfolding get_current_client
get_current_client_scopes clients required token client h =
    elim (Option-cases (find_client clients token.sub)) [
      | inl missing ↦ absurd (ground arith)
      | inr (c, found) ↦
          let is_client : c ≡ client = ground arith in
          let none_missing : any
                (λ s. not (has_text s (filter (λ t. has_text t c.scopes) token.scope))) required
              ≡ false =
            ground arith in
          (
            ground arith,
            found ∙ ap some is_client,
            ap (λ o. o.is_active) (sym is_client) ∙ ground arith,
            ap (λ o. token.ver == o.secret_version) (sym is_client) ∙ ground arith,
            subst
                (λ o.
                  All (λ s. (has_text s token.scope ≡ true) × (has_text s o.scopes ≡ true))
                    required)
                is_client
                (both-All c.scopes token.scope required (All-had _ required none_missing)),
          )
    ]
