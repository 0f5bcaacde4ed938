-- ===== src/Workflow.antt =====
-- backend/app/services/request_service.py: what is done to a request after it was filed. Each call
-- reads the clock once, as `now`; a call that raises leaves the row as it was, since the transaction
-- is rolled back.

pub mod Sound
pub mod Moves
pub mod Clock
pub mod Access
pub mod Permitted
pub mod Kept
mod Tests
use registrator_ofid.Base.{
  ℕ, Bool, false, not, ◌&&◌, ◌==◌, List, [], ◌∷◌, ◌++◌, Option, none, some, if◌then◌else◌, ltb,
  is_some,
}
use registrator_ofid.Base.Text.{Text, text, strip, is_nonempty, or_empty}
use registrator_ofid.Http.{
  Result, ok, ◌>>=◌, ◌>>◌, raise_if, or_raise, or_value_error, request_closed, forbidden,
  read_only_role, assignee_missing, assignee_wrong_role, unknown_status, close_by_answer,
  transition_not_allowed, not_your_request, return_reason_missing, answer_text_missing,
  not_returned, request_missing,
}
use registrator_ofid.Calendar.{SlaCalendar, working_time_between, add_working_time}
use registrator_ofid.Models.Status.{
  Status, new, accepted, in_progress, completed, rejected, returned, unknown, same, is_in,
  all_statuses, closed_statuses,
}
use registrator_ofid.Models.User.{User, has_role, read_only}
use registrator_ofid.Models.User
use registrator_ofid.Models.Request.{Request, RequestHistory}

-- `_ALLOWED_TRANSITIONS`
unfoldable pub allowed_transitions : Status → List Status
allowed_transitions new = in_progress ∷ returned ∷ []
allowed_transitions accepted = in_progress ∷ returned ∷ []
allowed_transitions in_progress = returned ∷ []
allowed_transitions returned = in_progress ∷ []
allowed_transitions completed = []
allowed_transitions rejected = []
allowed_transitions (unknown _) = []

-- `_COMMENT_REQUIRED`
abbrev pub comment_required : List Status
comment_required = returned ∷ []

abbrev pub or_text : Option Text → Text → Text
or_text none default = default
or_text (some t) default = if is_nonempty t then t else default

-- `option == id`
abbrev pub is_id : Option ℕ → ℕ → Bool
is_id none id = false
is_id (some i) id = i == id

unfoldable pub assert_open : Request → Result (Unit {0})
assert_open req = raise_if (is_in req.status closed_statuses) 409 request_closed

unfoldable pub find_user : List User → ℕ → Option User
find_user [] id = none
find_user (u ∷ users) id = if u.id == id then some u else find_user users id

-- `db.add(RequestHistory(...))`
unfoldable pub add_history : Request → Option ℕ → Option Status → Status → Option Text → ℕ → Request
add_history req changed_by old_status new_status comment now = record req {
  history = req.history ++ entry ∷ [];
}
  where
    entry : RequestHistory
    entry = record {
      request_id = req.id;
      changed_by = changed_by;
      old_status = old_status;
      new_status = new_status;
      comment = comment;
      created_at = now;
    }

-- `_resolve_assignee`
unfoldable pub resolve_assignee : List User → ℕ → Result User
unfolding find_user
resolve_assignee users assignee_id = do
  assignee ← or_raise (find_user users assignee_id) 400 assignee_missing
  raise_if (not assignee.is_active) 400 assignee_missing
  raise_if (not (has_role assignee (User.staff ∷ User.registrator ∷ []))) 400 assignee_wrong_role
  ok assignee

-- `_assert_can_view`
unfoldable pub assert_can_view : Request → User → Result (Unit {0})
assert_can_view req user = do
  raise_if (has_role user (User.student ∷ []) && not (req.student_id == user.id)) 403 forbidden
  raise_if (has_role user (User.staff ∷ []) && not (is_id req.assigned_to user.id)) 403 forbidden

unfoldable pub find_request : List Request → ℕ → Option Request
find_request [] id = none
find_request (r ∷ requests) id = if r.id == id then some r else find_request requests id

unfoldable pub get_request_for_user : List Request → ℕ → User → Result Request
unfolding find_request assert_can_view
get_request_for_user requests request_id user = do
  req ← or_raise (find_request requests request_id) 404 request_missing
  assert_can_view req user
  ok req

-- `_assert_handler`
unfoldable pub assert_handler : Request → User → Result (Unit {0})
assert_handler req actor = do
  raise_if (has_role actor read_only) 403 read_only_role
  raise_if (has_role actor (User.staff ∷ []) && not (is_id req.assigned_to actor.id)) 403
      not_your_request

unfoldable pub assert_can_answer : Request → User → Result (Unit {0})
unfolding assert_handler assert_open
assert_can_answer req actor = do assert_handler req actor; assert_open req

-- The deadline of a request that is resumed, while some of its working time was left.
unfoldable pub restart : SlaCalendar → ℕ → Request → ℕ → Result Request
restart cal now req remaining = do
  deadline ← or_value_error (add_working_time cal now remaining)
  ok (record req { sla_deadline = deadline; sla_warned_at = none; sla_breached_at = none })

unfoldable pub resume : SlaCalendar → ℕ → Request → Option ℕ → Result Request
unfolding restart
resume cal now req none = ok (record req { sla_paused_at = none })
resume cal now req (some paused_at) = do
  let remaining = working_time_between cal paused_at req.sla_deadline
  req' ← if ltb 0 remaining then restart cal now req remaining else ok req
  ok (record req' { sla_paused_at = none })

-- The branches of `_apply_status` that stop and restart the SLA clock.
unfoldable pub move_clock : SlaCalendar → ℕ → Request → Status → Result Request
unfolding resume
move_clock cal now req new_status =
    if same new_status returned && not (is_some req.sla_paused_at)
    then ok (record req { sla_paused_at = some now })
    else if same req.status returned && not (same new_status returned)
    then resume cal now req req.sla_paused_at
    else ok req

-- `_apply_status`
unfoldable pub apply_status : SlaCalendar → ℕ → Request → Status → Result Request
unfolding move_clock
apply_status cal now req new_status = do
  req' ← move_clock cal now req new_status
  ok (record req' {
    status = new_status;
    closed_at = if is_in new_status closed_statuses then some now else req'.closed_at;
  })

-- The assignee and, where they are given, the faculty and the department.
abbrev pub reassign : Request → User → Option ℕ → Option ℕ → Request
reassign req assignee faculty_id department_id = record req {
  assigned_to = some assignee.id;
  faculty_id = if is_some faculty_id then faculty_id else req.faculty_id;
  department_id = if is_some department_id then department_id else req.department_id;
}

-- The columns of the final answer.
abbrev pub with_answer : Request → ℕ → User → Text → Request
with_answer req now actor body = record req {
  answer_text = some (strip body);
  answered_at = some now;
  answered_by = some actor.id;
}

unfoldable pub assign_request :
    List User → ℕ → Request → User → ℕ → Option ℕ → Option ℕ → Option Text → Result Request
unfolding assert_open
assign_request users now req actor assignee_id faculty_id department_id comment = do
  raise_if (has_role actor read_only) 403 read_only_role
  assert_open req
  assignee ← resolve_assignee users assignee_id
  let req' = reassign req assignee faculty_id department_id
  let note = or_text comment (text "Mas'ul xodim: " ++ assignee.full_name)
  ok (add_history req' (some actor.id) (some req.status) req.status (some note) now)

unfoldable pub transition_request :
    SlaCalendar → ℕ → Request → User → Status → Option Text → Result Request
unfolding assert_handler
transition_request cal now req actor new_status comment = do
  raise_if (not (is_in new_status all_statuses)) 400 unknown_status
  raise_if (has_role actor read_only) 403 read_only_role
  raise_if (same new_status completed) 400 close_by_answer
  raise_if (not (is_in new_status (allowed_transitions req.status))) 400 transition_not_allowed
  assert_handler req actor
  raise_if (is_in new_status comment_required && not (is_nonempty (strip (or_empty comment)))) 422
      return_reason_missing
  req' ← apply_status cal now req new_status
  ok (add_history req' (some actor.id) (some req.status) new_status comment now)

unfoldable pub answer_request : SlaCalendar → ℕ → Request → User → Text → Result Request
unfolding assert_can_answer
answer_request cal now req actor body = do
  assert_can_answer req actor
  raise_if (not (is_nonempty (strip body))) 422 answer_text_missing
  let answered = with_answer req now actor body
  req' ← apply_status cal now answered completed
  ok (
      add_history req' (some actor.id) (some req.status) completed
        (some (text "Yakuniy javob yuborildi")) now)

unfoldable pub resubmit_request : SlaCalendar → ℕ → Request → User → Option Text → Result Request
resubmit_request cal now req student comment = do
  raise_if (not (req.student_id == student.id)) 403 forbidden
  raise_if (not (same req.status returned)) 409 not_returned
  req' ← apply_status cal now req in_progress
  let note = or_text comment (text "Talaba murojaatni to'ldirib qayta yubordi")
  ok (add_history req' (some student.id) (some returned) in_progress (some note) now)
