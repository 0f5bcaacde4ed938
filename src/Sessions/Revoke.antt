-- ===== src/Sessions/Revoke.antt =====
-- `revoke_all_refresh_tokens` of backend/app/core/security.py.
use registrator_ofid.Base.{
  ℕ, ◌≤◌, ◌≡◌, refl, ap, ◌∙◌, subst, false, ◌==◌, List, [], ◌∷◌, Option, none, some, is_some, arith,
  Bool-cases, inl, inr, In, if◌then◌else◌,
}
use registrator_ofid.Base.Text.{Text}
use registrator_ofid.Redis.{
  Key, refresh_active, refresh_blocked, key_tag, key_user, key_step, key_text, same_key, RedisStore,
  get, exists, delete,
}
use registrator_ofid.Redis.Keys.{same_key-eq}
use registrator_ofid.Sessions.{is_refresh_jti_valid, revoke_all_refresh_tokens, delete_all}

apart_active :
    (user other : ℕ) (jti jti' : Text)
    → (other == user) ≡ false
    → same_key (refresh_active user jti') (refresh_active other jti) ≡ false
unfolding same_key key_tag key_user key_step key_text
apart_active user other jti jti' h = ground arith

missing_found : {o : Option ℕ} → o ≡ none → is_some o ≡ false
missing_found e = ap is_some e

missing_none : (o : Option ℕ) → is_some o ≡ false → o ≡ none
missing_none none h = refl
missing_none (some n) h = absurd (ground arith)

module _ {S : Type 0} ⦃r : RedisStore S⦄ where
  -- Deleting keys makes none of them reappear, and those among them are gone.
  delete_one :
      (redis : S) (now : ℕ) (k l : Key) → get redis now l ≡ none → get (delete redis k) now l ≡ none
  delete_one redis now k l h = elim (Bool-cases (same_key k l)) [
    | inl is ↦
        subst (λ o. get (delete redis k) now o ≡ none) (same_key-eq k l is)
          (r.read-drop redis now k)
    | inr apart ↦ r.read-drop_other redis now k l apart ∙ h
  ]

  delete_all_keeps_none :
      (ks : List Key) (redis : S) (now : ℕ) (l : Key)
      → get redis now l ≡ none
      → get (delete_all redis ks) now l ≡ none
  unfolding delete_all
  delete_all_keeps_none [] redis now l h = h
  delete_all_keeps_none (k ∷ ks) redis now l h =
      delete_all_keeps_none ks (delete redis k) now l (delete_one redis now k l h)

  delete_all_drops :
      (ks : List Key) (redis : S) (now : ℕ) (l : Key)
      → In l ks
      → get (delete_all redis ks) now l ≡ none
  unfolding delete_all
  delete_all_drops [] redis now l i = absurd i
  delete_all_drops (k ∷ ks) redis now l i = elim i [
    | inl e ↦
        delete_all_keeps_none ks (delete redis k) now l
          (subst (λ o. get (delete redis o) now l ≡ none) e (r.read-drop redis now l))
    | inr later ↦ delete_all_drops ks (delete redis k) now l later
  ]

  delete_all_other :
      (ks : List Key) (redis : S) (now : ℕ) (l : Key)
      → ((k : Key) → In k ks → same_key k l ≡ false)
      → get (delete_all redis ks) now l ≡ get redis now l
  unfolding delete_all
  delete_all_other [] redis now l apart = refl
  delete_all_other (k ∷ ks) redis now l apart =
      delete_all_other ks (delete redis k) now l (λ q i. apart q (inr i))
      ∙ r.read-drop_other redis now k l (apart k (inl refl))

  gone :
      (redis : S) (now later user : ℕ) (jti : Text)
      → now ≤ later
      → exists (revoke_all_refresh_tokens redis now user).0 later (refresh_active user jti) ≡ false
  unfolding revoke_all_refresh_tokens
  gone redis now later user jti after =
      elim (Bool-cases (exists redis later (refresh_active user jti))) [
        | inl there ↦ missing_found (
            delete_all_drops (r.scan redis now user) redis later (refresh_active user jti)
              (r.scan_finds redis now later user jti after there))
        | inr missing ↦ missing_found (
            delete_all_keeps_none (r.scan redis now user) redis later (refresh_active user jti)
              (missing_none _ missing))
      ]

  pub revoke_all_refresh_tokens_other :
      (redis : S) (now later user : ℕ) (l : Key)
      → ((jti : Text) → same_key (refresh_active user jti) l ≡ false)
      → get (revoke_all_refresh_tokens redis now user).0 later l ≡ get redis later l
  unfolding revoke_all_refresh_tokens
  revoke_all_refresh_tokens_other redis now later user l apart =
      delete_all_other (r.scan redis now user) redis later l (λ k i.
        let (jti, e) = r.scan_only redis now user k i in ap (λ q. same_key q l) e ∙ apart jti)

  -- From the moment at which all refresh tokens of a user are revoked, none of them is valid any more,
  -- and those of every other user are valid as before.
  pub revoke_all_refresh_tokens_ends :
      (redis : S) (now later user other : ℕ) (jti : Text)
      → now ≤ later
      → (other == user) ≡ false
      → (is_refresh_jti_valid (revoke_all_refresh_tokens redis now user).0 later user jti ≡ false)
        × (is_refresh_jti_valid (revoke_all_refresh_tokens redis now user).0 later other jti
            ≡ is_refresh_jti_valid redis later other jti)
  unfolding is_refresh_jti_valid same_key key_tag key_user key_step key_text
  revoke_all_refresh_tokens_ends redis now later user other jti after apart =
      let none_left = gone redis now later user jti after in
      let blocked =
        ap is_some (
          revoke_all_refresh_tokens_other redis now later user (refresh_blocked jti) (λ j. refl)) in
      let theirs = ap is_some (
        revoke_all_refresh_tokens_other redis now later user (refresh_active other jti)
          (λ j. apart_active user other jti j apart)) in
      (
        ground arith,
        ap
              (λ b.
                if b
                then false
                else exists (revoke_all_refresh_tokens redis now user).0 later
                    (refresh_active other jti))
              blocked
            ∙ ap (λ b. if exists redis later (refresh_blocked jti) then false else b) theirs,
      )
