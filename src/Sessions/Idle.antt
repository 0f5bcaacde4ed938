-- ===== src/Sessions/Idle.antt =====
-- The idle timeout of a session of backend/app/core/security.py.
use registrator_ofid.Base.{
  ℕ, ◌+◌, ◌≡◌, refl, sym, ap, ◌∙◌, true, false, ltb, List, some, is_some, arith, Bool-cases,
  Option-cases, inl, inr,
}
use registrator_ofid.Base.Text.{Text, text, text_eq, is_nonempty}
use registrator_ofid.Http.{ok}
use registrator_ofid.Models.User.{User}
use registrator_ofid.Workflow.{find_user}
use registrator_ofid.Redis.{Key, session_seen, same_key, RedisStore, get, setex}
use registrator_ofid.Redis.Keys.{is_some-while}
use registrator_ofid.Sessions.{
  AuthSettings, Claims, idle_ttl, touch_session, is_session_active, get_current_user,
}

module _ {S : Type 0} ⦃r : RedisStore S⦄ where
  touch_sets :
      (settings : AuthSettings) (redis : S) (now : ℕ) (sid : Text)
      → is_nonempty sid ≡ true
      → touch_session settings redis now sid
        ≡ setex redis now (session_seen sid) (idle_ttl settings) 1
  unfolding touch_session
  touch_sets settings redis now sid h = rw h refl

  active_is :
      (redis : S) (now : ℕ) (sid : Text)
      → is_nonempty sid ≡ true
      → is_session_active redis now sid ≡ is_some (get redis now (session_seen sid))
  unfolding is_session_active
  active_is redis now sid h = rw h refl

  -- A call that touches a session opens it for exactly the idle timeout.
  pub touched_until :
      (settings : AuthSettings) (redis : S) (now later : ℕ) (sid : Text)
      → is_nonempty sid ≡ true
      → is_session_active (touch_session settings redis now sid) later sid
        ≡ ltb later (now + idle_ttl settings)
  touched_until settings redis now later sid named =
      ap (λ q. is_session_active q later sid) (touch_sets settings redis now sid named)
      ∙ active_is _ later sid named
      ∙ ap is_some (r.read-write redis now later (session_seen sid) (idle_ttl settings) 1)
      ∙ is_some-while (ltb later (now + idle_ttl settings)) 1

  -- Touching a session changes no other key.
  pub touch_session_other :
      (settings : AuthSettings) (redis : S) (now later : ℕ) (sid : Text) (k : Key)
      → same_key (session_seen sid) k ≡ false
      → get (touch_session settings redis now sid) later k ≡ get redis later k
  unfolding touch_session
  touch_session_other settings redis now later sid k apart = elim (Bool-cases (is_nonempty sid)) [
    | inl named ↦
        ap (λ q. get q later k) (touch_sets settings redis now sid named)
        ∙ r.read-write_other redis now later (session_seen sid) k (idle_ttl settings) 1 apart
    | inr empty ↦ rw (empty, touch_session) refl
  ]

  -- An authenticated call with a token of a session was made while the session was active, by an active
  -- user, with an access token; and it leaves the session active for exactly the idle timeout.
  get_current_user_slides :
      (settings : AuthSettings) (users : List User) (redis redis' : S) (now later : ℕ)
      (token : Claims) (user : User)
      → is_nonempty token.sid ≡ true
      → get_current_user settings users redis now (some token) ≡ ok (user, redis')
      → (text_eq token.token_type (text "access") ≡ true)
        × (is_session_active redis now token.sid ≡ true)
        × (find_user users token.sub ≡ some user)
        × (user.is_active ≡ true)
        × (is_session_active redis' later token.sid ≡ ltb later (now + idle_ttl settings))
  unfolding get_current_user
  get_current_user_slides settings users redis redis' now later token user named h =
      elim (Option-cases (find_user users token.sub)) [
        | inl missing ↦ absurd (ground arith)
        | inr (u, found) ↦
            let slid : redis' ≡ touch_session settings redis now token.sid = ground arith in
            let is_user : u ≡ user = ground arith in
            (
              ground arith,
              ground arith,
              found ∙ ap some is_user,
              ap (λ v. v.is_active) (sym is_user) ∙ ground arith,
              ap (λ q. is_session_active q later token.sid) slid
                  ∙ touched_until settings redis now later token.sid named,
            )
      ]
