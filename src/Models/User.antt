-- ===== src/Models/User.antt =====
-- backend/app/models: role.py, user.py and profile.py. A user with its role and its profile rows; the
-- columns that no modelled operation reads are left out.
use registrator_ofid.Base.{
  ℕ, Bool, true, false, ◌≡◌, refl, arith, List, [], ◌∷◌, ◌==◌, any, Option, none, some,
}
use registrator_ofid.Base.Text.{Text}

pub data Role : Type 0 where
  student registrator staff admin leadership : Role

role_rank : Role → ℕ
role_rank student = 0
role_rank registrator = 1
role_rank staff = 2
role_rank admin = 3
role_rank leadership = 4

unfoldable pub same_role : Role → Role → Bool
unfolding role_rank
same_role a b = role_rank a == role_rank b

abbrev pub sees_all_requests : List Role
sees_all_requests = registrator ∷ admin ∷ leadership ∷ []

abbrev pub can_triage : List Role
can_triage = registrator ∷ admin ∷ []

abbrev pub can_transition : List Role
can_transition = staff ∷ registrator ∷ admin ∷ []

abbrev pub sees_internal_roles : List Role
sees_internal_roles = staff ∷ registrator ∷ admin ∷ leadership ∷ []

abbrev pub read_only : List Role
read_only = leadership ∷ []

pub record Student : Type 0 where
  pub external_student_id : Option Text
  pub faculty_id : Option ℕ
  pub department_id : Option ℕ

pub record Employee : Type 0 where
  pub faculty_id : Option ℕ
  pub department_id : Option ℕ
  pub is_general_manager : Bool

pub record User : Type 0 where
  pub id : ℕ
  pub full_name : Text
  pub email : Option Text
  pub role : Option Role
  pub is_active : Bool
  pub student_profile : Option Student
  pub employee_profile : Option Employee

-- `User.has_role`
role_in : Option Role → List Role → Bool
role_in none names = false
role_in (some r) names = any (same_role r) names

unfoldable pub has_role : User → List Role → Bool
unfolding role_in same_role
has_role u names = role_in u.role names

one_role_in : (o : Option Role) → role_in o (student ∷ []) ≡ true → role_in o (staff ∷ []) ≡ false
unfolding role_in same_role role_rank
one_role_in none h = refl
one_role_in (some student) h = refl
one_role_in (some registrator) h = refl
one_role_in (some staff) h = absurd (ground arith)
one_role_in (some admin) h = refl
one_role_in (some leadership) h = refl

pub one_role : (u : User) → has_role u (student ∷ []) ≡ true → has_role u (staff ∷ []) ≡ false
unfolding has_role
one_role u h = one_role_in u.role h

registrator_alone_in :
    (o : Option Role)
    → role_in o (registrator ∷ []) ≡ true
    → (role_in o (student ∷ []) ≡ false) × (role_in o (staff ∷ []) ≡ false)
unfolding role_in same_role role_rank
registrator_alone_in none h = absurd (ground arith)
registrator_alone_in (some student) h = absurd (ground arith)
registrator_alone_in (some registrator) h = (refl, refl)
registrator_alone_in (some staff) h = absurd (ground arith)
registrator_alone_in (some admin) h = absurd (ground arith)
registrator_alone_in (some leadership) h = absurd (ground arith)

pub registrator_alone :
    (u : User)
    → has_role u (registrator ∷ []) ≡ true
    → (has_role u (student ∷ []) ≡ false) × (has_role u (staff ∷ []) ≡ false)
unfolding has_role
registrator_alone u h = registrator_alone_in u.role h

-- The passthrough properties `faculty_id` and `department_id`, of whichever profile exists.
profile_faculty : Option Student → Option Employee → Option ℕ
profile_faculty (some s) _ = s.faculty_id
profile_faculty none (some e) = e.faculty_id
profile_faculty none none = none

profile_department : Option Student → Option Employee → Option ℕ
profile_department (some s) _ = s.department_id
profile_department none (some e) = e.department_id
profile_department none none = none

unfoldable pub faculty_id : User → Option ℕ
unfolding profile_faculty
faculty_id u = profile_faculty u.student_profile u.employee_profile

unfoldable pub department_id : User → Option ℕ
unfolding profile_department
department_id u = profile_department u.student_profile u.employee_profile
