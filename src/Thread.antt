-- ===== src/Thread.antt =====
-- The messages and files of a request: `post_message`, `attach_file` and `request_file_response` of
-- backend/app/api/v1/requests.py.
use registrator_ofid.Base.{
  ℕ, zero, suc, ◌+◌, Bool, ◌==◌, List, [], ◌∷◌, ◌++◌, Option, none, some, if◌then◌else◌, length,
  take,
}
use registrator_ofid.Base.Text.{Text, text, strip}
use registrator_ofid.Http.{Result, ok, ◌>>=◌, or_raise, request_file_missing}
use registrator_ofid.Models.User.{User}
use registrator_ofid.Models.Request.{Request, RequestFile, Message}
use registrator_ofid.Sla.{add_id}
use registrator_ofid.Files.{
  Storage, Upload, Stored, Disk, Download, save_upload, stored_file_response,
}
use registrator_ofid.Views.{MessageOut}
use registrator_ofid.Work.{
  Env, Work, log_action, create_notification, publish, message_created, no_value, file_value,
  request_file_upload, request_message,
}
use registrator_ofid.Actions.{save_row, publish_file_added}

-- How many rows a table has that belongs to the requests.
unfoldable pub count_rows : (Request → ℕ) → List Request → ℕ
count_rows rows [] = 0
count_rows rows (r ∷ rs) = rows r + count_rows rows rs

-- `if req.assigned_to and req.assigned_to != sender.id`
other_handler : Option ℕ → User → List ℕ
other_handler none sender = []
other_handler (some zero) sender = []
other_handler (some (suc i)) sender = if suc i == sender.id then [] else suc i ∷ []

-- The set `recipients`: the student and the handler, without the sender.
unfoldable pub message_recipients : Request → User → List ℕ
unfolding other_handler
message_recipients req sender =
    if sender.id == req.student_id
    then other_handler req.assigned_to sender
    else add_id req.student_id (other_handler req.assigned_to sender)

unfoldable pub notify_each : Env → Work → Request → Text → List ℕ → Work
notify_each env work req body [] = work
notify_each env work req body (id ∷ ids) =
    notify_each env
      (create_notification env work id request_message (text "Yangi xabar: " ++ req.tracking_no)
        body req)
      req body ids

unfoldable pub new_note : Env → Work → User → Text → Bool → Message
unfolding count_rows
new_note env work sender content is_internal = record {
  id = env.new_key (count_rows (λ r. length r.messages) work.db.requests);
  sender_id = sender.id;
  content = strip content;
  is_internal = is_internal;
  created_at = env.now;
}

-- `post_message`
unfoldable pub post_message : Env → Work → Request → User → Text → Bool → Work × MessageOut
unfolding save_row notify_each message_recipients new_note
post_message env work req sender content is_internal =
    let msg = new_note env work sender content is_internal in
    let posted = save_row work (record req { messages = req.messages ++ msg ∷ [] }) in
    let told = notify_each env posted req (take 200 content) (message_recipients req sender) in
    let published = publish env told req (
      message_created msg.id msg.content sender.full_name sender.role
        (sender.id == req.student_id)) in
    (
      (if is_internal then posted else published),
      record { row = msg; sender_name = some sender.full_name; sender_role = sender.role },
    )

-- What a call leaves that attached a file: the session, the disk, the request and the file's row.
pub record Attached : Type 0 where
  pub work : Work
  pub disk : Disk
  pub request : Request
  pub file : RequestFile

unfoldable pub new_file : Env → Work → User → Bool → Stored → RequestFile
unfolding count_rows
new_file env work uploader is_answer meta = record {
  id = env.new_key (count_rows (λ r. length r.files) work.db.requests);
  uploaded_by = uploader.id;
  file_path = meta.file_path;
  file_name = meta.file_name;
  file_size = meta.file_size;
  mime_type = meta.mime_type;
  is_answer = is_answer;
  created_at = env.now;
}

unfoldable pub add_file : Env → Work → Request → User → Bool → Disk × Stored → Attached
unfolding save_row new_file
add_file env work req uploader is_answer (disk, meta) =
    let row = new_file env work uploader is_answer meta in
    let req' = record req { files = req.files ++ row ∷ [] } in
    let logged =
      log_action (save_row work req') (some uploader.id) request_file_upload (some req.id) no_value
        (file_value meta.file_name meta.file_size) in
    record { work = publish_file_added env logged req row; disk = disk; request = req'; file = row }

-- `attach_file`
unfoldable pub attach_file :
    Env → Storage → Work → Disk → Request → User → Upload → Bool → Result Attached
unfolding add_file
attach_file env storage work disk req uploader upload is_answer = do
  let token = env.file_token (count_rows (λ r. length r.files) work.db.requests)
  saved ← save_upload storage disk token upload req.id
  ok (add_file env work req uploader is_answer saved)

unfoldable pub find_request_file : List RequestFile → ℕ → Option RequestFile
find_request_file [] id = none
find_request_file (f ∷ fs) id = if f.id == id then some f else find_request_file fs id

-- `request_file_response`
unfoldable pub request_file_response : Storage → Disk → Request → ℕ → Result Download
unfolding find_request_file
request_file_response storage disk req file_id = do
  f ← or_raise (find_request_file req.files file_id) 404 request_file_missing
  stored_file_response storage disk f.file_path f.mime_type f.file_name
