-- ===== src/Endpoints.antt =====
-- The handlers of backend/app/api/v1/requests.py that read or change one request. A handler that
-- raises leaves the database as it was; the disk keeps what was written to it.
pub mod Idempotent
pub mod Internal
pub mod Replies
pub mod Answer
pub mod Sent
pub mod Attaching
pub mod Answered
mod Tests
use registrator_ofid.Base.{
  ℕ, Bool, true, false, not, ◌&&◌, ◌==◌, ltb, List, [], ◌∷◌, ◌++◌, Option, none, some,
  if◌then◌else◌, length, map, is_some,
}
use registrator_ofid.Base.Text.{Text, text, text_eq, is_nonempty}
use registrator_ofid.Http.{
  Result, ok, err, http, ◌>>=◌, ◌>>◌, raise_if, or_raise, no_result, students_only, read_only_role,
  no_internal_notes, too_many_answer_files,
}
use registrator_ofid.Calendar.{SlaCalendar}
use registrator_ofid.Models.Status.{Status, status_label}
use registrator_ofid.Models.User.{
  User, has_role, can_triage, can_transition, sees_internal_roles, read_only,
}
use registrator_ofid.Models.User
use registrator_ofid.Models.Request.{Request, RequestFile}
use registrator_ofid.Models.Db.{Db}
use registrator_ofid.Sessions.{require_roles}
use registrator_ofid.Filing.{Context}
use registrator_ofid.Workflow.{
  find_request, get_request_for_user, assign_request, transition_request, answer_request,
  assert_can_answer, assert_open,
}
use registrator_ofid.Catalog.{max_answer_files}
use registrator_ofid.Files.{Storage, Upload, Disk, Download}
use registrator_ofid.Views.{RequestDetail, MessageOut, for_viewer}
use registrator_ofid.Work.{
  Env, Work, log_action, publish, notify_user, status_changed, no_value, assignee_value,
  status_value, answer_value, request_assign, request_transition, request_answer, request_status,
}
use registrator_ofid.Actions.{
  RequestCreate, file_request, resubmit_returned, notify_assigned, answer_lines, answer_event,
  line_of, save_row,
}
use registrator_ofid.Thread.{Attached, attach_file, post_message, request_file_response}

unfoldable pub sees_internal : User → Bool
sees_internal user = has_role user sees_internal_roles

unfoldable pub reloaded : Option Request → Result Request
reloaded none = err no_result
reloaded (some req) = ok req

-- `_detail_for`, with `reload_detail`.
unfoldable pub detail_for : Env → Work → ℕ → User → Result RequestDetail
unfolding reloaded sees_internal
detail_for env work request_id user = do
  req ← reloaded (find_request work.db.requests request_id)
  ok (for_viewer work.db env.now req (sees_internal user))

-- A response with the session that was committed before it.
pub record Replied (A : Type 0) : Type 0 where
  pub status_code : ℕ
  pub work : Work
  pub body : A

unfoldable pub reply_with : Env → ℕ → Work → ℕ → User → Result (Replied RequestDetail)
unfolding detail_for
reply_with env status_code work request_id user = do
  detail ← detail_for env work request_id user
  ok (record { status_code = status_code; work = work; body = detail })

-- `a == b` on a nullable column, where no row has `NULL` for an equal.
unfoldable pub has_ref : Option Text → Text → Bool
has_ref none ref = false
has_ref (some r) ref = text_eq r ref

-- `find_by_client_ref`; a unique index keeps it to one row at most.
unfoldable pub find_by_client_ref : List Request → ℕ → Text → Option Request
unfolding has_ref
find_by_client_ref [] student_id ref = none
find_by_client_ref (r ∷ rs) student_id ref =
    let rest = find_by_client_ref rs student_id ref in
    if (r.student_id == student_id) && has_ref r.client_ref ref then some r else rest

-- The lookup under `if idempotency_key:`.
unfoldable pub already_filed : Work → User → Option Text → Option Request
unfolding find_by_client_ref
already_filed work user none = none
already_filed work user (some []) = none
already_filed work user (some (c ∷ key)) = find_by_client_ref work.db.requests user.id (c ∷ key)

unfoldable pub file_new :
    Env
    → Work
    → Context
    → User
    → RequestCreate
    → Option Text
    → Result (Replied RequestDetail) × Option ℕ
file_new env work ctx user form key =
    let (filed, counter) = file_request env work ctx user form key none in
    ((do (work', req) ← filed; reply_with env 201 work' req.id user), counter)

-- `create`, with the counter of tracking numbers after it.
unfoldable pub create :
    Env
    → Work
    → Context
    → User
    → RequestCreate
    → Option Text
    → Result (Replied RequestDetail) × Option ℕ
unfolding file_new already_filed reply_with
create env work ctx user form key =
    if has_role user (User.student ∷ [])
    then elim (already_filed work user key) [
      | some existing ↦ (reply_with env 200 work existing.id user, ctx.counter)
      | none ↦ file_new env work ctx user form key
    ]
    else (err (http 403 students_only), ctx.counter)

unfoldable pub get_detail : Env → Work → ℕ → User → Result RequestDetail
unfolding sees_internal
get_detail env work request_id user = do
  req ← get_request_for_user work.db.requests request_id user
  ok (for_viewer work.db env.now req (sees_internal user))

pub record RequestAssign : Type 0 where
  pub assignee_id : ℕ
  pub faculty_id : Option ℕ
  pub department_id : Option ℕ
  pub comment : Option Text

unfoldable pub assign : Env → Work → ℕ → RequestAssign → User → Result (Replied RequestDetail)
unfolding reply_with
assign env work request_id form user = do
  actor ← require_roles can_triage user
  req ← get_request_for_user work.db.requests request_id actor
  assigned ←
      assign_request work.db.users env.now req actor form.assignee_id form.faculty_id
        form.department_id form.comment
  let logged =
      log_action (save_row work assigned) (some actor.id) request_assign (some req.id) no_value
        (assignee_value form.assignee_id)
  let told = notify_assigned env logged assigned form.assignee_id
  reply_with env 200 told req.id actor

unfoldable pub transition :
    Env → SlaCalendar → Work → ℕ → Status → Option Text → User → Result (Replied RequestDetail)
unfolding reply_with
transition env cal work request_id status comment user = do
  actor ← require_roles can_transition user
  req ← get_request_for_user work.db.requests request_id actor
  moved ← transition_request cal env.now req actor status comment
  let logged =
      log_action (save_row work moved) (some actor.id) request_transition (some req.id)
        (status_value req.status) (status_value status)
  let lines =
      (text "Murojaatingiz holati o'zgardi: "
        ++ status_label (some req.status)
        ++ text " → "
        ++ status_label (some status)
        ++ text ".")
      ∷ map (λ c. text "Izoh: " ++ c) (line_of comment)
  let told =
      notify_user env logged req.student_id request_status
        (text "Murojaat holati: " ++ req.tracking_no) lines moved (text "/student/requests")
  let published = publish env told moved (status_changed req.status comment none)
  reply_with env 200 published req.id actor

unfoldable pub resubmit :
    Env → SlaCalendar → Work → ℕ → Option Text → User → Result (Replied RequestDetail)
unfolding reply_with
resubmit env cal work request_id comment user = do
  student ← require_roles (User.student ∷ []) user
  req ← get_request_for_user work.db.requests request_id student
  (work', moved) ← resubmit_returned env cal work req student comment
  reply_with env 200 work' req.id student

unfoldable pub add_message : Env → Work → ℕ → Text → Bool → User → Result (Replied MessageOut)
unfolding sees_internal
add_message env work request_id content is_internal user = do
  req ← get_request_for_user work.db.requests request_id user
  raise_if (has_role user read_only) 403 read_only_role
  raise_if (is_internal && not (sees_internal user)) 403 no_internal_notes
  if is_internal then ok tt else assert_open req
  let (work', out) = post_message env work req user content is_internal
  ok (record { status_code = 201; work = work'; body = out })

-- `upload_file`, with the disk after it.
unfoldable pub upload_file :
    Env → Storage → Work → Disk → ℕ → Upload → User → Result (Replied RequestFile × Disk)
upload_file env storage work disk request_id upload user = do
  req ← get_request_for_user work.db.requests request_id user
  raise_if (has_role user read_only) 403 read_only_role
  assert_open req
  a ← attach_file env storage work disk req user upload false
  ok (record { status_code = 201; work = a.work; body = a.file }, a.disk)

unfoldable pub download_file : Storage → Work → Disk → ℕ → ℕ → User → Result Download
download_file storage work disk request_id file_id user = do
  req ← get_request_for_user work.db.requests request_id user
  request_file_response storage disk req file_id
