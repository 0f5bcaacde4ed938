-- ===== src/Sessions/Lockout.antt =====
-- Repeated failures to log in, under backend/app/core/security.py.
use registrator_ofid.Base.{
  ℕ, suc, ◌+◌, ◌≤◌, ◌<◌, ◌≡◌, refl, ap, ◌∙◌, true, false, lt→ltb, le→leb, List, [], ◌∷◌, Option,
  none, some, length, arith,
}
use registrator_ofid.Base.Text.{Text}
use registrator_ofid.Http.{is_ok}
use registrator_ofid.Redis.{
  fail_user, fail_ip, key_tag, key_user, key_step, key_text, same_key, RedisStore, get, counted,
}
use registrator_ofid.Redis.Keys.{kept_while}
use registrator_ofid.Sessions.{AuthSettings, check_brute_force, record_login_failure, at_least}

-- Each moment, `last` included, is within the window of the one before it.
abbrev pub Paced : ℕ → ℕ → List (ℕ × Text) → ℕ → Type 0
Paced window before [] last = last < before + window
Paced window before ((at, ip) ∷ rest) last = (at < before + window) × Paced window at rest last

reached :
    (settings : AuthSettings) {o : Option ℕ} (before : Option ℕ) (n : ℕ)
    → settings.login_lockout_attempts ≤ suc n
    → o ≡ some (counted before + n)
    → at_least o settings.login_lockout_attempts ≡ true
unfolding at_least counted
reached settings {o} none n enough e =
    ap (λ p. at_least p settings.login_lockout_attempts) e ∙ le→leb _ _ (omega (arith, enough))
reached settings {o} (some m) n enough e =
    ap (λ p. at_least p settings.login_lockout_attempts) e ∙ le→leb _ _ (omega (arith, enough))

module _ {S : Type 0} ⦃r : RedisStore S⦄ where
  -- The store after failures to log in to one account, each at a moment and from an address.
  abbrev pub failures : AuthSettings → S → Text → List (ℕ × Text) → S
  failures settings redis identity [] = redis
  failures settings redis identity ((at, ip) ∷ rest) =
      failures settings (record_login_failure settings redis at identity ip) identity rest

  count_after :
      (settings : AuthSettings) (redis : S) (at later : ℕ) (identity ip : Text)
      → later < at + settings.login_window_seconds
      → get (record_login_failure settings redis at identity ip) later (fail_user identity)
        ≡ some (counted (get redis at (fail_user identity)))
  unfolding record_login_failure same_key key_tag key_user key_step key_text
  count_after settings redis at later identity ip soon =
      r.read-count_other _ at later (fail_ip ip) (fail_user identity) settings.login_window_seconds
        refl
      ∙ r.read-count redis at later (fail_user identity) settings.login_window_seconds
      ∙ kept_while _ (counted (get redis at (fail_user identity)))
          (lt→ltb later (at + settings.login_window_seconds) soon)

  failures_count :
      (settings : AuthSettings) (redis : S) (at last : ℕ) (identity ip : Text)
      (rest : List (ℕ × Text))
      → Paced settings.login_window_seconds at rest last
      → get (failures settings redis identity ((at, ip) ∷ rest)) last (fail_user identity)
        ≡ some (counted (get redis at (fail_user identity)) + length rest)
  unfolding counted
  failures_count settings redis at last identity ip [] paced =
      count_after settings redis at last identity ip paced ∙ ap some (omega arith)
  failures_count settings redis at last identity ip ((at', ip') ∷ rest) paced =
      failures_count settings (record_login_failure settings redis at identity ip) at' last identity
        ip' rest paced.1
      ∙ ap some (rw (count_after settings redis at at' identity ip paced.0) (omega arith))

  -- Once the failures to log in to an account, each within the window of the one before, have reached
  -- the limit, every further attempt within the window of the last one is refused, from any address.
  pub guessing_locks :
      (settings : AuthSettings) (redis : S) (at now : ℕ) (identity ip here : Text)
      (rest : List (ℕ × Text))
      → settings.login_lockout_attempts ≤ suc (length rest)
      → Paced settings.login_window_seconds at rest now
      → is_ok (
          check_brute_force settings
            (failures settings redis identity ((at, ip) ∷ rest))
            now
            identity
            here)
        ≡ false
  unfolding check_brute_force at_least counted
  guessing_locks settings redis at now identity ip here rest enough paced =
      let count = failures_count settings redis at now identity ip rest paced in
      let locked : at_least
            (get (failures settings redis identity ((at, ip) ∷ rest)) now (fail_user identity))
            settings.login_lockout_attempts
          ≡ true =
        reached settings (get redis at (fail_user identity)) (length rest) enough count in
      ground arith
