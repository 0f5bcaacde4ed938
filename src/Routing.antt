-- ===== src/Routing.antt =====
-- backend/app/services/routing_service.py: who receives a new request.
pub mod Best
pub mod Tiers
pub mod Handler
mod Tests
use registrator_ofid.Base.{
  ℕ, Bool, true, false, ◌&&◌, ◌||◌, ◌==◌, ltb, List, [], ◌∷◌, Option, none, some, if◌then◌else◌,
  filter, length,
}
use registrator_ofid.Base.Text.{Text}
use registrator_ofid.Http.{
  Result, ◌>>=◌, or_raise, no_handler_for_faculty, no_general_manager, student_has_no_faculty,
}
use registrator_ofid.Models.Status.{Status, is_in, open_statuses}
use registrator_ofid.Models.User.{User, Employee, Role, has_role}
use registrator_ofid.Models.User
use registrator_ofid.Models.Category.{RequestCategory, is_general}
use registrator_ofid.Models.Request.{Request}
use registrator_ofid.Models.Db.{Db}

-- `option == id`, where a missing value equals nothing.
abbrev pub is_id : Option ℕ → ℕ → Bool
is_id none id = false
is_id (some i) id = i == id

-- `_open_load`: the open requests of one candidate.
unfoldable pub open_load : List Request → ℕ → ℕ
open_load requests user_id =
    length (filter (λ r. is_id r.assigned_to user_id && is_in r.status open_statuses) requests)

-- The order of the keys `(load.get(c.id, 0), c.id)`.
key_lt : List Request → User → User → Bool
unfolding open_load
key_lt requests c d =
    ltb (open_load requests c.id) (open_load requests d.id)
    || ((open_load requests c.id == open_load requests d.id) && ltb c.id d.id)

-- `min`, which keeps the first of two candidates with one key.
min_from : List Request → User → List User → User
min_from requests best [] = best
min_from requests best (c ∷ cs) = min_from requests (if key_lt requests c best then c else best) cs

-- `_least_loaded`
unfoldable pub least_loaded : Db → List User → Option User
unfolding min_from key_lt
least_loaded db [] = none
least_loaded db (c ∷ []) = some c
least_loaded db (c ∷ d ∷ rest) = some (min_from db.requests c (d ∷ rest))

works_in : Option Employee → ℕ → Bool
works_in none faculty = false
works_in (some e) faculty = is_id e.faculty_id faculty

works_at : Option Employee → ℕ → Bool
works_at none department = false
works_at (some e) department = is_id e.department_id department

is_general_manager : Option Employee → Bool
is_general_manager none = false
is_general_manager (some e) = e.is_general_manager

-- The `where` of `_bound_employees`.
unfoldable pub is_bound : Role → ℕ → User → Bool
unfolding works_in
is_bound role faculty u =
    has_role u (role ∷ []) && u.is_active && works_in u.employee_profile faculty

-- `_bound_employees`; the department that it pairs with each user is that of the profile.
unfoldable pub bound_employees : Db → Role → ℕ → List User
bound_employees db role faculty = filter (is_bound role faculty) db.users

unfoldable pub is_of_department : ℕ → User → Bool
unfolding works_at
is_of_department department u = works_at u.employee_profile department

unfoldable pub find_staff_for : Db → ℕ → Option ℕ → Option User
find_staff_for db faculty none = least_loaded db (bound_employees db User.staff faculty)
find_staff_for db faculty (some department) =
    elim (filter (is_of_department department) (bound_employees db User.staff faculty)) [
      | [] ↦ least_loaded db (bound_employees db User.staff faculty)
      | c ∷ cs ↦ least_loaded db (c ∷ cs)
    ]

unfoldable pub find_registrator_for_faculty : Db → ℕ → Option User
find_registrator_for_faculty db faculty =
    least_loaded db (bound_employees db User.registrator faculty)

-- The roles that routing hands requests to.
abbrev pub handler_roles : List Role
handler_roles = User.staff ∷ User.registrator ∷ []

-- The `where` of `find_general_manager`.
unfoldable pub manages_general : User → Bool
unfolding is_general_manager
manages_general u = has_role u handler_roles && u.is_active && is_general_manager u.employee_profile

unfoldable pub find_general_manager : Db → Option User
find_general_manager db = least_loaded db (filter manages_general db.users)

-- The `where` of `find_service_assignee`.
unfoldable pub can_receive : ℕ → User → Bool
can_receive assignee_id u = (u.id == assignee_id) && u.is_active && has_role u handler_roles

first_that : (User → Bool) → List User → Option User
first_that p [] = none
first_that p (u ∷ us) = if p u then some u else first_that p us

unfoldable pub find_service_assignee : Db → ℕ → Option User
unfolding first_that
find_service_assignee db assignee_id = first_that (can_receive assignee_id) db.users

unfoldable pub faculty_name : List (ℕ × Text) → ℕ → Option Text
faculty_name [] id = none
faculty_name ((i, name) ∷ rest) id = if i == id then some name else faculty_name rest id

unfoldable pub or_else : Option User → Option User → Option User
or_else none second = second
or_else (some u) second = some u

route_by_faculty : Db → ℕ → Option ℕ → Result User
unfolding faculty_name or_else
route_by_faculty db faculty department =
    or_raise
      (or_else (find_staff_for db faculty department) (find_registrator_for_faculty db faculty)) 409
      (no_handler_for_faculty (faculty_name db.faculty_names faculty))

unfoldable pub resolve_handler_for_student : Db → User → Result User
unfolding route_by_faculty
resolve_handler_for_student db student = do
  faculty ← or_raise (User.faculty_id student) 409 student_has_no_faculty
  route_by_faculty db faculty (User.department_id student)

-- The employee chosen on the service, if any is and may take requests.
unfoldable pub service_assignee : Db → Option ℕ → Option User
service_assignee db none = none
service_assignee db (some assignee_id) = find_service_assignee db assignee_id

unfoldable pub resolve_handler : Db → User → RequestCategory → Result User
unfolding service_assignee or_else
resolve_handler db student service =
    if is_general service.routing
    then or_raise (or_else (service_assignee db service.assignee_id) (find_general_manager db)) 409
        no_general_manager
    else resolve_handler_for_student db student
