-- ===== src/Workflow/Access.antt =====
-- Who may do what: the checks of backend/app/services/request_service.py, and what they let through.
use registrator_ofid.Base.{
  ℕ, ◌≡◌, refl, sym, ap, ◌∙◌, ◌↔◌, ◌⊎◌, inl, inr, true, false, not, ◌&&◌, List, [], ◌∷◌, Option,
  none, some, arith, Bool-cases, ◌==◌, ==_iff, In, subst,
}
use registrator_ofid.Http.{ok, >>=-eq-ok, or_raise, request_missing, ok_inj}
use registrator_ofid.Models.User.{User, has_role, read_only}
use registrator_ofid.Models.User
use registrator_ofid.Models.Request.{Request}
use registrator_ofid.Workflow.{is_id, assert_can_view, find_request, get_request_for_user}

-- A student sees what they wrote, and a staff member what is theirs to handle; every other role
-- sees every request.
abbrev pub CanSee : Request → User → Type 0
CanSee req user =
    ((has_role user (User.student ∷ []) ≡ false) ⊎ (req.student_id ≡ user.id))
    × ((has_role user (User.staff ∷ []) ≡ false) ⊎ (req.assigned_to ≡ some user.id))

pub is_id-some : (o : Option ℕ) (i : ℕ) → (is_id o i ≡ true) ↔ (o ≡ some i)
is_id-some none i = (λ h. ground arith, λ h. ground arith)
is_id-some (some j) i = (λ h. ap some ((==_iff j i).0 h), λ h. ground arith)

assert_can_view_iff :
    (req : Request) (user : User) → (assert_can_view req user ≡ ok tt) ↔ CanSee req user
unfolding assert_can_view
assert_can_view_iff req user = (
  λ h. (
    elim (Bool-cases (has_role user (User.student ∷ []))) [
      | inl is ↦ inr (ground arith)
      | inr is_not ↦ inl is_not
    ],
    elim (Bool-cases (has_role user (User.staff ∷ []))) [
      | inl is ↦ inr ((is_id-some req.assigned_to user.id).0 (ground arith))
      | inr is_not ↦ inl is_not
    ],
  ),
  λ (author, handler).
      let mine : (has_role user (User.staff ∷ []) && not (is_id req.assigned_to user.id)) ≡ false =
        elim handler [
          | inl e ↦ ground arith
          | inr e ↦ ground (arith, (is_id-some req.assigned_to user.id).1 e)
        ] in
      ground arith,
)

pub found_here :
    (q : Request) (rs : List Request) (id : ℕ)
    → (q.id == id) ≡ true
    → find_request (q ∷ rs) id ≡ some q
unfolding find_request
found_here q rs id h = rw h refl

pub found_later :
    (q : Request) (rs : List Request) (id : ℕ)
    → (q.id == id) ≡ false
    → find_request (q ∷ rs) id ≡ find_request rs id
unfolding find_request
found_later q rs id h = rw h refl

unwrap : {a b : Request} → some a ≡ some b → a ≡ b
unwrap e = cc

clash : {a : Request} {o : Option Request} → o ≡ some a → o ≡ none → ⊥
clash e f = cc

-- The keys of the rows differ.
abbrev pub HasKeys : List Request → Type 0
HasKeys [] = Unit {0}
HasKeys (r ∷ rs) = (find_request rs r.id ≡ none) × HasKeys rs

pub find_request-In :
    (rs : List Request) (id : ℕ) (r : Request) → find_request rs id ≡ some r → In r rs × (r.id ≡ id)
unfolding find_request
find_request-In [] id r h = absurd (ground arith)
find_request-In (q ∷ rs) id r h = elim (Bool-cases (q.id == id)) [
  | inl hit ↦
      let e : some q ≡ some r = sym (found_here q rs id hit) ∙ h in
      (inl (sym (unwrap e)), ap (λ o. o.id) (sym (unwrap e)) ∙ (==_iff q.id id).0 hit)
  | inr miss ↦
      let (i, e) = find_request-In rs id r (sym (found_later q rs id miss) ∙ h) in (inr i, e)
]

find_request_keyed :
    (rs : List Request) (r : Request) → HasKeys rs → In r rs → find_request rs r.id ≡ some r
find_request_keyed [] r k i = absurd i
find_request_keyed (q ∷ rs) r k i = elim i [
  | inl e ↦
      subst (λ o. find_request (o ∷ rs) r.id ≡ some r) e
        (found_here r rs r.id ((==_iff r.id r.id).1 refl))
  | inr later ↦ elim (Bool-cases (q.id == r.id)) [
    | inl hit ↦ absurd (
        clash (ap (find_request rs) ((==_iff q.id r.id).0 hit) ∙ find_request_keyed rs r k.1 later)
          k.0)
    | inr miss ↦ found_later q rs r.id miss ∙ find_request_keyed rs r k.1 later
  ]
]

pub get_request_for_user_found :
    (rs : List Request) (id : ℕ) (user : User) (r : Request)
    → get_request_for_user rs id user ≡ ok r
    → (find_request rs id ≡ some r) × (r.id ≡ id)
unfolding get_request_for_user
get_request_for_user_found rs id user r h =
    let (q, e, rest) = >>=-eq-ok (or_raise (find_request rs id) 404 request_missing) _ h in
    let (u, seen, same_row) = >>=-eq-ok (assert_can_view q user) _ rest in
    let found : find_request rs id ≡ some q = ground arith in
    subst (λ o. (find_request rs id ≡ some o) × (o.id ≡ id)) (ok_inj same_row)
      (found, (find_request-In rs id q found).1)

-- The lookup of a request for a user returns exactly the row with the wanted key, and it only when
-- the user may see it.
pub get_request_for_user_iff :
    (rs : List Request) (id : ℕ) (user : User) (r : Request)
    → HasKeys rs
    → (get_request_for_user rs id user ≡ ok r) ↔ (In r rs × (r.id ≡ id) × CanSee r user)
unfolding get_request_for_user
get_request_for_user_iff rs id user r keys = (
  λ h.
      let (q, e, rest) = >>=-eq-ok (or_raise (find_request rs id) 404 request_missing) _ h in
      let (u, seen, same_row) = >>=-eq-ok (assert_can_view q user) _ rest in
      let (i, k) = find_request-In rs id q (ground arith) in
      subst (λ o. In o rs × (o.id ≡ id) × CanSee o user) (ok_inj same_row)
        (i, k, (assert_can_view_iff q user).0 seen),
  λ (i, k, sees).
      let found : find_request rs id ≡ some r =
        ap (find_request rs) (sym k) ∙ find_request_keyed rs r keys i in
      let seen = (assert_can_view_iff r user).1 sees in ground arith,
)
