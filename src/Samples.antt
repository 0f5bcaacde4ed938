-- ===== src/Samples.antt =====
-- Concrete data of backend/app on which the tests of the other modules run.
use registrator_ofid.Base.{
  zero, suc, ◌/◌, ◌≤◌, subst, ℕ, ◌+◌, ◌*◌, ◌≡◌, refl, arith, true, false, [], ◌∷◌, Option, none,
  some,
}
use native.Mathlib.Nat.{div-le_of_le-mul}
use registrator_ofid.Reports.{Rounding}
use registrator_ofid.Reports.Shares.{StaysBelow}
use registrator_ofid.Base.Text.{text}
use registrator_ofid.Http.{Result, ok, err, is_ok}
use registrator_ofid.Calendar.{SlaCalendar, day_us, hour_us}
use registrator_ofid.Models.Status.{in_progress, returned}
use registrator_ofid.Models.User.{User, Employee, Student}
use registrator_ofid.Models.User
use registrator_ofid.Models.Category.{RequestCategory, faculty_manager}
use registrator_ofid.Models.Request.{Request, RequestHistory}
use registrator_ofid.Models.Db.{Db}

-- Five hours east of UTC, from Monday to Friday, with New Year's day off.
abbrev pub office : SlaCalendar
office = record {
  offset = 5 * hour_us;
  workdays = 0 ∷ 1 ∷ 2 ∷ 3 ∷ 4 ∷ [];
  fixed_holidays = (1, 1) ∷ [];
  dated_holidays = [];
}

-- Open every day, and never.
abbrev pub always : SlaCalendar
always = record {
  offset = 0;
  workdays = 0 ∷ 1 ∷ 2 ∷ 3 ∷ 4 ∷ 5 ∷ 6 ∷ [];
  fixed_holidays = [];
  dated_holidays = [];
}

abbrev pub never : SlaCalendar
never = record { offset = 0; workdays = []; fixed_holidays = []; dated_holidays = [] }

-- A Friday at 12:00 UTC.
abbrev pub friday_noon : ℕ
friday_noon = 739_001 * day_us + 12 * hour_us

abbrev pub student : User
student = record {
  id = 1;
  full_name = text "Ali Valiyev";
  email = some (text "ali@example.uz");
  role = some User.student;
  is_active = true;
  student_profile =
      some (record { external_student_id = none; faculty_id = some 3; department_id = some 7 });
  employee_profile = none;
}

abbrev pub employee : ℕ → User.Role → Option ℕ → User
employee id role department = record {
  id = id;
  full_name = text "Xodim";
  email = none;
  role = some role;
  is_active = true;
  student_profile = none;
  employee_profile =
      some (record { faculty_id = some 3; department_id = department; is_general_manager = false });
}

abbrev pub staff_member : User
staff_member = employee 2 User.staff (some 7)

abbrev pub registrar : User
registrar = employee 4 User.registrator none

abbrev pub rector : User
rector = employee 5 User.leadership none

abbrev pub filed_entry : RequestHistory
filed_entry = record {
  request_id = 9;
  changed_by = some 1;
  old_status = none;
  new_status = in_progress;
  comment = none;
  created_at = friday_noon;
}

-- In work since Friday noon, with 24 hours of working time.
abbrev pub open_request : Request
open_request = record {
  id = 9;
  tracking_no = text "REQ-2024-00001";
  student_id = 1;
  category_id = 11;
  title = text "Stipendiya";
  description = text "Ariza";
  status = in_progress;
  priority = text "normal";
  assigned_to = some 2;
  faculty_id = some 3;
  department_id = some 7;
  sla_deadline = friday_noon + 3 * day_us;
  closed_at = none;
  sla_warned_at = none;
  sla_breached_at = none;
  sla_paused_at = none;
  client_ref = none;
  api_client_id = none;
  answer_text = none;
  answer_description = none;
  answered_at = none;
  answered_by = none;
  created_at = friday_noon;
  history = filed_entry ∷ [];
  files = [];
  messages = [];
}

-- The same request, returned to the student an hour later.
abbrev pub returned_request : Request
returned_request = record open_request {
  status = returned;
  sla_paused_at = some (friday_noon + hour_us);
  history =
      filed_entry
      ∷ record filed_entry { old_status = some in_progress; new_status = returned }
      ∷ [];
}

abbrev pub request_type : RequestCategory
request_type = record {
  id = 10;
  parent_id = none;
  name = text "Moliya";
  description = none;
  sla_hours = 24;
  priority = text "normal";
  routing = faculty_manager;
  auto_reply_text = none;
  auto_reply_description = none;
  assignee_id = none;
  is_active = true;
  icon = none;
}

abbrev pub service_type : RequestCategory
service_type = record request_type { id = 11; parent_id = some 10; name = text "Stipendiya" }

abbrev pub sample_db : Db
sample_db = record {
  users = student ∷ staff_member ∷ registrar ∷ rector ∷ [];
  faculty_names = (3, text "Fizika") ∷ [];
  department_heads = (7, some 4) ∷ [];
  department_names = (7, text "Optika") ∷ [];
  categories = request_type ∷ service_type ∷ [];
  auto_reply_files = [];
  requests = open_request ∷ [];
}

-- The value of a call that is known to return one.
abbrev pub value_of {ℓ} : {A : Type ℓ} → A → Result A → A
value_of default (ok a) = a
value_of default (err e) = default

pub value_of_ok {ℓ} :
    {A : Type ℓ} (default : A) (call : Result A)
    → is_ok call ≡ true
    → call ≡ ok (value_of default call)
value_of_ok default (ok a) h = refl
value_of_ok default (err e) h = absurd (ground arith)

-- Rounding down.
abbrev pub down : Rounding
down n zero = 0
down n (suc d) = 10 * n / suc d

pub down-StaysBelow : StaysBelow down
down-StaysBelow n d k h =
    div-le_of_le-mul (suc d) (subst (λ m. 10 * n ≤ m) (same_product d k) (omega (arith, h)))
  where
    same_product : (d k : ℕ) → 10 * (k * suc d) ≡ suc d * (10 * k)
    same_product d k = grind arith
