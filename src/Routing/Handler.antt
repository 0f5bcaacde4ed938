-- ===== src/Routing/Handler.antt =====
-- `resolve_handler` of backend/app/services/routing_service.py, on every branch.
use registrator_ofid.Base.{ℕ, ◌≡◌, refl, Bool, true, false, List, Option, none, some}
use registrator_ofid.Http.{
  Result, Detail, Error, ok, err, http, no_handler_for_faculty, no_general_manager, or_raise,
}
use registrator_ofid.Models.User.{User, Role}
use registrator_ofid.Models.User
use registrator_ofid.Models.Category.{RequestCategory, is_general}
use registrator_ofid.Models.Db.{Db}
use registrator_ofid.Routing.{faculty_name, resolve_handler_for_student, resolve_handler}
use registrator_ofid.Routing.Tiers.{
  Picks, AllEmpty, Found, student_tiers, general_tiers, route_by_faculty-Found, general-Found,
}

-- How a routing call may end when it searches some tiers: with the best user of the first tier that
-- is not empty, or with one given error if they are all empty.
abbrev pub Routed : Db → List (User → Bool) → Error → Result User → Type 0
Routed db tiers e (ok u) = Picks db tiers u
Routed db tiers e (err e') = AllEmpty db tiers × (e' ≡ e)

or_raise-Routed :
    (db : Db) (tiers : List (User → Bool)) (detail : Detail) (o : Option User)
    → Found db tiers o
    → Routed db tiers (http 409 detail) (or_raise o 409 detail)
or_raise-Routed db tiers detail none f = (f, refl)
or_raise-Routed db tiers detail (some u) f = f

-- A request under a service that is not for general issues goes, for a student with a faculty, to the
-- least loaded user (ties to the smallest id) of the first of these groups that is not empty: the
-- active staff of the student's faculty and department, if the department is known; the active
-- staff of the faculty; its active registrators. If all are empty, the call raises the 409 that
-- names the faculty.
pub resolve_handler_faculty :
    (db : Db) (student : User) (service : RequestCategory) (faculty : ℕ)
    → is_general service.routing ≡ false
    → User.faculty_id student ≡ some faculty
    → Routed db
        (student_tiers faculty (User.department_id student))
        (http 409 (no_handler_for_faculty (faculty_name db.faculty_names faculty)))
        (resolve_handler db student service)
unfolding resolve_handler resolve_handler_for_student
resolve_handler_faculty db student service faculty other known =
    rw (other, known)
      (or_raise-Routed db _ _ _ (route_by_faculty-Found db faculty (User.department_id student)))

-- A request under a service for general issues goes, whatever the student's faculty, to the employee
-- chosen on the service if that is an active staff member or registrator, and otherwise to the least
-- loaded (ties to the smallest id) of the active staff and registrators who are marked as general
-- managers; if there is none, the call raises the 409 for that.
pub resolve_handler_general :
    (db : Db) (student : User) (service : RequestCategory)
    → is_general service.routing ≡ true
    → Routed db
        (general_tiers service.assignee_id)
        (http 409 no_general_manager)
        (resolve_handler db student service)
unfolding resolve_handler
resolve_handler_general db student service general =
    rw general (or_raise-Routed db _ _ _ (general-Found db service.assignee_id))
