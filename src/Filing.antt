-- ===== src/Filing.antt =====
-- `create_request` of backend/app/services/request_service.py: a student files a request.
pub mod Row
pub mod Filed
mod Tests
use registrator_ofid.Base.{
  ℕ, Bool, true, false, List, [], ◌∷◌, ◌++◌, Option, none, some, if◌then◌else◌, map, is_some,
}
use registrator_ofid.Base.Text.{Text, text, strip}
use registrator_ofid.Http.{Result, ok, err, ◌>>=◌, or_value_error}
use registrator_ofid.Calendar.{SlaCalendar, sla_deadline_from}
use registrator_ofid.Models.Status.{Status, new, in_progress, completed}
use registrator_ofid.Models.User.{User}
use registrator_ofid.Models.User
use registrator_ofid.Models.Category.{RequestCategory, AutoReplyFile, is_auto_reply, is_general}
use registrator_ofid.Models.Request.{Request, RequestFile}
use registrator_ofid.Models.Db.{Db}
use registrator_ofid.Catalog.{resolve_service, list_auto_reply_files}
use registrator_ofid.Routing.{resolve_handler}
use registrator_ofid.Tracking.{generate_tracking_no}
use registrator_ofid.Workflow.{add_history}

-- What the client submits, and the idempotency key and API client that it comes with.
pub record Submission : Type 0 where
  pub category_id : ℕ
  pub service_type_id : Option ℕ
  pub title : Text
  pub description : Text
  pub client_ref : Option Text
  pub api_client_id : Option ℕ

-- What the call reads from its surroundings: the calendar, the clock and its year, the key of the new
-- row and of the row for each file of an automatic answer, and the year's counter in Redis.
pub record Context : Type 0 where
  pub calendar : SlaCalendar
  pub now : ℕ
  pub year : ℕ
  pub new_id : ℕ
  pub new_file_id : ℕ → ℕ
  pub counter : Option ℕ

-- The handler, unless the service answers itself.
unfoldable pub handler_for : Db → User → RequestCategory → Result (Option User)
handler_for db student category =
    if is_auto_reply category.routing
    then ok none
    else (do handler ← resolve_handler db student category; ok (some handler))

-- The service, and its handler.
unfoldable pub choose : Db → User → Submission → Result (RequestCategory × Option User)
choose db student form = do
  category ← resolve_service db form.category_id form.service_type_id
  assignee ← handler_for db student category
  ok (category, assignee)

unfoldable pub answer_file : Context → AutoReplyFile → RequestFile
answer_file ctx f = record {
  id = ctx.new_file_id f.id;
  uploaded_by = f.uploaded_by;
  file_path = f.file_path;
  file_name = f.file_name;
  file_size = f.file_size;
  mime_type = f.mime_type;
  is_answer = true;
  created_at = ctx.now;
}

unfoldable pub id_of : Option User → Option ℕ
id_of none = none
id_of (some u) = some u.id

unfoldable pub new_request :
    Context → User → RequestCategory → Option User → Submission → Text → ℕ → Request
unfolding id_of
new_request ctx student category assignee form tracking_no deadline = record {
  id = ctx.new_id;
  tracking_no = tracking_no;
  student_id = student.id;
  category_id = category.id;
  title = strip form.title;
  description = strip form.description;
  status = in_progress;
  priority = category.priority;
  assigned_to = id_of assignee;
  faculty_id = User.faculty_id student;
  department_id = User.department_id student;
  sla_deadline = deadline;
  closed_at = none;
  sla_warned_at = none;
  sla_breached_at = none;
  sla_paused_at = none;
  client_ref = form.client_ref;
  api_client_id = form.api_client_id;
  answer_text = none;
  answer_description = none;
  answered_at = none;
  answered_by = none;
  created_at = ctx.now;
  history = [];
  files = [];
  messages = [];
}

unfoldable pub answer_at_once : Db → Context → RequestCategory → Request → Request
unfolding answer_file
answer_at_once db ctx category req = record req {
  status = completed;
  answer_text = category.auto_reply_text;
  answer_description = category.auto_reply_description;
  answered_at = some ctx.now;
  closed_at = some ctx.now;
  files = map (answer_file ctx) (list_auto_reply_files db category);
}

unfoldable pub routed_comment : RequestCategory → Option User → Text
routed_comment category none = text "Avtomatik javob berildi"
routed_comment category (some u) =
    if is_general category.routing
    then text "Umumiy masalalar bo'yicha menejerga avtomatik yo'naltirildi. Mas'ul xodim: "
      ++ u.full_name
    else text "Avtomatik yo'naltirildi. Mas'ul xodim: " ++ u.full_name

-- The row of the request before its history.
unfoldable pub settle :
    Db → Context → User → RequestCategory → Option User → Submission → Text → ℕ → Request
unfolding new_request answer_at_once
settle db ctx student category assignee form tracking_no deadline =
    let filed = new_request ctx student category assignee form tracking_no deadline in
    if is_auto_reply category.routing then answer_at_once db ctx category filed else filed

-- Its two first history entries: filed, and then routed or answered.
unfoldable pub with_history : Context → User → RequestCategory → Option User → Request → Request
unfolding routed_comment
with_history ctx student category assignee req =
    let sent =
      add_history req (some student.id) none new (some (text "Murojaat yuborildi")) ctx.now in
    add_history sent none (some new) req.status (some (routed_comment category assignee)) ctx.now

unfoldable pub build_request :
    Db → Context → User → RequestCategory → Option User → Submission → Text → Result Request
build_request db ctx student category assignee form tracking_no = do
  deadline ← or_value_error (sla_deadline_from ctx.calendar ctx.now category.sla_hours)
  ok (
      with_history ctx student category assignee
        (settle db ctx student category assignee form tracking_no deadline))

unfoldable pub with_row : Db → Result Request → Result (Db × Request)
with_row db (ok req) = ok (record db { requests = db.requests ++ req ∷ [] }, req)
with_row db (err e) = err e

-- `create_request`, with the counter after the call: a call that fails later has still taken a number.
unfoldable pub create_request : Db → Context → User → Submission → Result (Db × Request) × Option ℕ
unfolding with_row
create_request db ctx student form = elim (choose db student form) [
  | err e ↦ (err e, ctx.counter)
  | ok (category, assignee) ↦
      let (tracking_no, counter) = generate_tracking_no db.requests ctx.year ctx.counter in
      (with_row db (build_request db ctx student category assignee form tracking_no), counter)
]
