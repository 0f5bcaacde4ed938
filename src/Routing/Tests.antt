-- ===== src/Routing/Tests.antt =====
-- Runs of backend/app/services/routing_service.py on a small database.
use registrator_ofid.Base.{◌≡◌, refl, none, some}
use registrator_ofid.Http.{ok, http, no_handler_for_faculty, no_general_manager}
use registrator_ofid.Samples.{student, staff_member, sample_db, service_type}
use registrator_ofid.Models.User
use registrator_ofid.Models.User.{User}
use registrator_ofid.Models.Category.{RequestCategory, general_manager, is_general}
use registrator_ofid.Routing.{
  resolve_handler, faculty_name, bound_employees, find_staff_for, is_bound, is_of_department,
  least_loaded, resolve_handler_for_student,
}
use registrator_ofid.Routing.Tiers.{student_tiers, general_tiers}
use registrator_ofid.Routing.Handler.{Routed, resolve_handler_faculty, resolve_handler_general}

faculty_example :
    Routed sample_db
      (student_tiers 3 (some 7))
      (http 409 (no_handler_for_faculty (faculty_name sample_db.faculty_names 3)))
      (resolve_handler sample_db student service_type)
unfolding is_general User.faculty_id User.department_id
faculty_example = resolve_handler_faculty sample_db student service_type 3 refl refl

-- It is the staff member of the student's department.
runs_on_sample : resolve_handler sample_db student service_type ≡ ok staff_member
unfolding resolve_handler is_general resolve_handler_for_student User.faculty_id find_staff_for
    User.department_id bound_employees is_bound User.has_role is_of_department least_loaded
runs_on_sample = refl

abbrev general_service : RequestCategory
general_service = record service_type { routing = general_manager; assignee_id = some 4 }

general_example :
    Routed sample_db
      (general_tiers (some 4))
      (http 409 no_general_manager)
      (resolve_handler sample_db student general_service)
unfolding is_general
general_example = resolve_handler_general sample_db student general_service refl

abbrev newcomer : User
newcomer = record student { student_profile = none }
