-- ===== src/Http.antt =====
-- The exceptions that the services raise, and the results of calls that may raise one. A detail is
-- named for its message; the numbers are the HTTP statuses of the source.
use mathlib.Core.Bool.{Bool, true, false}
use mathlib.Core.Option.{Option, none, some}
use Prim.Native.Nat.{ℕ}
use mathlib.Core.Path.{◌≡◌, refl}
use mathlib.Core.Logic.{◌⊎◌, inl, inr}
use registrator_ofid.Base.Text.{Text}

pub data Detail : Type 0 where
  -- routing_service.py
  no_handler_for_faculty : Option Text → Detail
  no_general_manager student_has_no_faculty : Detail
  -- catalog_service.py
  own_parent request_type_missing parent_not_root auto_reply_text_missing : Detail
  assignee_not_allowed assignee_not_eligible kind_change : Detail
  service_missing service_inactive not_a_service type_inactive type_mismatch : Detail
  file_not_for_auto_reply too_many_answer_files file_missing : Detail
  -- request_service.py
  request_closed request_missing forbidden read_only_role : Detail
  assignee_missing assignee_wrong_role unknown_status : Detail
  close_by_answer transition_not_allowed not_your_request : Detail
  return_reason_missing answer_text_missing not_returned : Detail
  -- requests.py
  students_only no_internal_notes : Detail
  -- requests.py: a filter by a status that does not exist
  request_file_missing : Detail
  unknown_filter : Text → Detail
  -- reports.py
  period_reversed period_too_long : Detail
  -- file_service.py
  content_mismatch invalid_webp invalid_path empty_file stored_file_missing : Detail
  file_too_large : ℕ → Detail
  unsupported_type : Text → Detail
  -- security.py and auth.py
  not_authenticated wrong_token_type invalid_token refresh_invalid session_expired : Detail
  user_inactive role_not_allowed client_revoked scopes_missing : Detail
  too_many_from_ip account_locked : Detail
  -- auth_service.py and auth.py
  bad_credentials account_inactive login_refused wrong_code : Detail
  no_password current_password_wrong same_password link_invalid : Detail
  totp_enabled_already totp_not_enabled password_wrong : Detail
  -- api_client_service.py
  client_name_taken client_missing : Detail
  student_id_missing : Detail

pub data Error : Type 0 where
  http : ℕ → Detail → Error
  -- The `ValueError` of `add_working_time`, which nothing catches.
  value_error : Error
  -- The `NoResultFound` of `scalar_one`.
  no_result : Error
  -- The `TypeError` of `hmac.compare_digest` on a text that is not ASCII, which nothing catches.
  type_error : Error
  -- An `AuthError` that nothing turns into a response.
  auth_error : Detail → Error

-- What a call gives: the exception it raised, or its value.
pub data Result {ℓ} (Value : Type ℓ) : Type ℓ where
  err : Error → Result Value
  ok : Value → Result Value

infixl 5 ◌>>=◌
abbrev pub ◌>>=◌ {ℓ κ} :
    {V : Type ℓ} {W : Type κ} (call : Result V) (rest : V → Result W) → Result W
err problem >>= rest = err problem
ok value >>= rest = rest value

-- `if test: raise HTTPException(code, detail)`
abbrev pub raise_if : Bool → ℕ → Detail → Result (Unit {0})
raise_if true code detail = err (http code detail)
raise_if false code detail = ok tt

infixl 5 ◌>>◌
abbrev pub ◌>>◌ {ℓ} : {W : Type ℓ} (check : Result (Unit {0})) (rest : Result W) → Result W
check >> rest = check >>= λ done. rest

abbrev pub or_raise {ℓ} : {A : Type ℓ} → Option A → ℕ → Detail → Result A
or_raise none code detail = err (http code detail)
or_raise (some a) code detail = ok a

abbrev pub or_value_error {ℓ} : {A : Type ℓ} → Option A → Result A
or_value_error none = err value_error
or_value_error (some a) = ok a

-- A chain of calls that returned: its first call did, and the rest did on its value.
pub >>=-eq-ok {ℓ κ} :
    {V : Type ℓ} {W : Type κ} (call : Result V) (rest : V → Result W) {w : W}
    → (call >>= rest) ≡ ok w
    → (v : V) × (call ≡ ok v) × (rest v ≡ ok w)
>>=-eq-ok (err problem) rest returned = cc
>>=-eq-ok (ok value) rest returned = (value, refl, returned)

pub ok_inj {ℓ} : {V : Type ℓ} {v w : V} → ok v ≡ ok w → v ≡ w
ok_inj same = cc

pub >>=_same {ℓ κ} :
    {V : Type ℓ} {W : Type κ} (call : Result V) (f g : V → Result W)
    → ((v : V) → f v ≡ g v)
    → (call >>= f) ≡ (call >>= g)
>>=_same (err problem) f g same = refl
>>=_same (ok value) f g same = same value

pub >>=_assoc {ℓ κ ι} :
    {U : Type ℓ} {V : Type κ} {W : Type ι} (call : Result U) (f : U → Result V) (g : V → Result W)
    → (call >>= f >>= g) ≡ (call >>= λ u. f u >>= g)
>>=_assoc (err problem) f g = refl
>>=_assoc (ok value) f g = refl

pub Result-cases {ℓ} :
    {A : Type ℓ} (r : Result A) → ((a : A) × (r ≡ ok a)) ⊎ ((e : Error) × (r ≡ err e))
Result-cases (ok a) = inl (a, refl)
Result-cases (err e) = inr (e, refl)

abbrev pub is_ok {ℓ} : {A : Type ℓ} → Result A → Bool
is_ok (ok a) = true
is_ok (err e) = false
