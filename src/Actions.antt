-- ===== src/Actions.antt =====
-- The actions of backend/app/api/v1/requests.py that a student takes, there or through an API client:
-- each one audits, notifies and publishes an event; the caller commits.
pub mod Kept
use registrator_ofid.Base.{
  ℕ, zero, suc, ◌+◌, Bool, true, false, not, ◌&&◌, ◌==◌, List, [], ◌∷◌, ◌++◌, Option, none, some,
  if◌then◌else◌, filter, map, length, take, any,
}
use registrator_ofid.Base.Text.{Text, text, strip, is_nonempty, or_empty}
use registrator_ofid.Http.{
  Result, ok, err, ◌>>=◌, ◌>>◌, raise_if, or_raise, stored_file_missing, request_file_missing,
}
use registrator_ofid.Calendar.{SlaCalendar}
use registrator_ofid.Models.Status.{Status, new, completed, returned, same}
use registrator_ofid.Models.User.{User, has_role}
use registrator_ofid.Models.User
use registrator_ofid.Models.Request.{Request, RequestFile, Message}
use registrator_ofid.Models.Db.{Db}
use registrator_ofid.Sessions.{ApiClient}
use registrator_ofid.Filing.{Submission, Context, create_request}
use registrator_ofid.Workflow.{find_user, resubmit_request, is_id}
use registrator_ofid.Sla.{replace, add_id}
use registrator_ofid.Files.{
  Storage, Upload, Stored, Disk, Download, save_upload, stored_file_response,
}
use registrator_ofid.Views.{MessageOut}
use registrator_ofid.Work.{
  Env, Work, AnswerEvent, FileEntry, log_action, create_notification, publish, notify_user, created,
  status_changed, message_created, file_added, no_value, filed_value, status_value, file_value,
  request_create, request_resubmit, request_file_upload, request_assigned, request_status,
  request_message,
}

unfoldable pub file_entry : RequestFile → FileEntry
file_entry f = record {
  id = f.id;
  file_name = f.file_name;
  file_size = f.file_size;
  mime_type = f.mime_type;
}

-- `[text] if text else []`
abbrev pub line_of : Option Text → List Text
line_of none = []
line_of (some []) = []
line_of (some (c ∷ s)) = (c ∷ s) ∷ []

-- `_answer_lines`
unfoldable pub answer_lines : Request → Text → List Text
answer_lines req lead = lead ∷ line_of req.answer_description ++ or_empty req.answer_text ∷ []

-- `_answer_event`
unfoldable pub answer_event : Request → Option Text → List RequestFile → AnswerEvent
unfolding file_entry
answer_event req answered_by_name files = record {
  text = req.answer_text;
  description = req.answer_description;
  answered_at = req.answered_at;
  answered_by_name = answered_by_name;
  files = map file_entry files;
}

-- `_publish_file_added`
unfoldable pub publish_file_added : Env → Work → Request → RequestFile → Work
unfolding file_entry
publish_file_added env work req f =
    publish env work req (file_added (file_entry f) (f.uploaded_by == req.student_id) f.is_answer)

unfoldable pub publish_files : Env → Work → Request → List RequestFile → Work
unfolding publish_file_added
publish_files env work req [] = work
publish_files env work req (f ∷ fs) = publish_files env (publish_file_added env work req f) req fs

unfoldable pub notify_assignee : Env → Work → Request → Option User → Work
notify_assignee env work req none = work
notify_assignee env work req (some assignee) =
    notify_user env work assignee.id request_assigned (text "Yangi murojaat: " ++ req.tracking_no)
      ((text "Sizga '" ++ req.title ++ text "' murojaati biriktirildi.") ∷ []) req
      (if has_role assignee (User.staff ∷ [])
        then text "/staff/requests"
        else text "/registrator/requests")

-- `_notify_assigned`
unfoldable pub notify_assigned : Env → Work → Request → ℕ → Work
unfolding notify_assignee
notify_assigned env work req assignee_id =
    notify_assignee env work req (find_user work.db.users assignee_id)

-- `if req.assigned_to:`, which is neither `None` nor 0.
unfoldable pub notify_handler : Env → Work → Request → Option ℕ → Work
notify_handler env work req none = work
notify_handler env work req (some zero) = work
notify_handler env work req (some (suc i)) = notify_assigned env work req (suc i)

-- The student learns of an automatic answer as of a handler's.
unfoldable pub announce_answer : Env → Work → Request → Work
unfolding publish_files answer_lines answer_event
announce_answer env work req =
    let answer_files = filter (λ f. f.is_answer) req.files in
    let told =
      notify_user env work req.student_id request_status
        (text "Murojaatingizga javob berildi: " ++ req.tracking_no)
        (answer_lines req (text "'" ++ req.title ++ text "' murojaatingiz bo'yicha javob:")) req
        (text "/student/requests") in
    publish env (publish_files env told req answer_files) req
      (status_changed new none (some (answer_event req none answer_files)))

-- `file_request` once the row is made.
unfoldable pub announce_filed : Env → Work → User → Option Text → Request → Work
unfolding notify_handler announce_answer
announce_filed env work student client req =
    let logged =
      log_action work (some student.id) request_create (some req.id) no_value (
        filed_value req.tracking_no req.title req.assigned_to (same req.status completed) client) in
    let told = notify_handler env logged req req.assigned_to in
    let published = publish env told req created in
    if same req.status completed then announce_answer env published req else published

-- What a submission carries besides its texts: the API client that files it for the student.
unfoldable pub client_key : Option ApiClient → Option ℕ
client_key none = none
client_key (some c) = some c.id

unfoldable pub client_name : Option ApiClient → Option Text
client_name none = none
client_name (some c) = some c.client_id

-- `data: RequestCreate`
pub record RequestCreate : Type 0 where
  pub category_id : ℕ
  pub service_type_id : Option ℕ
  pub title : Text
  pub description : Text

unfoldable pub submission : RequestCreate → Option Text → Option ApiClient → Submission
unfolding client_key
submission form client_ref client = record {
  category_id = form.category_id;
  service_type_id = form.service_type_id;
  title = form.title;
  description = form.description;
  client_ref = client_ref;
  api_client_id = client_key client;
}

-- `file_request`, with the counter of tracking numbers in Redis after the call.
unfoldable pub file_request :
    Env
    → Work
    → Context
    → User
    → RequestCreate
    → Option Text
    → Option ApiClient
    → Result (Work × Request) × Option ℕ
unfolding announce_filed client_name submission
file_request env work ctx student form client_ref client =
    let (filed, counter) = create_request work.db ctx student (submission form client_ref client) in
    (
      (do
        (db, req) ← filed
        ok (announce_filed env (record work { db = db }) student (client_name client) req, req)),
      counter,
    )

-- Writes a row of a request back.
unfoldable pub save_row : Work → Request → Work
save_row work req = record work { db = record work.db { requests = replace req work.db.requests } }

unfoldable pub tell_resubmitted : Env → Work → Request → Option Text → Option ℕ → Work
tell_resubmitted env work req comment none = work
tell_resubmitted env work req comment (some zero) = work
tell_resubmitted env work req comment (some (suc i)) =
    notify_user env work (suc i) request_status
      (text "Murojaat qayta yuborildi: " ++ req.tracking_no)
      ((text "Talaba '" ++ req.title ++ text "' murojaatini to'ldirib qayta yubordi.")
        ∷ map (λ c. text "Izoh: " ++ c) (line_of comment))
      req (text "/registrator/requests")

-- `resubmit_returned`, which gives the row back as it is then.
unfoldable pub resubmit_returned :
    Env → SlaCalendar → Work → Request → User → Option Text → Result (Work × Request)
unfolding save_row tell_resubmitted
resubmit_returned env cal work req student comment = do
  moved ← resubmit_request cal env.now req student comment
  let logged =
      log_action (save_row work moved) (some student.id) request_resubmit (some req.id)
        (status_value returned) (status_value moved.status)
  let told = tell_resubmitted env logged moved comment moved.assigned_to
  ok (publish env told moved (status_changed returned comment none), moved)
