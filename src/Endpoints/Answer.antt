-- ===== src/Endpoints/Answer.antt =====
-- `answer` of backend/app/api/v1/requests.py: the final answer, with its files. The disk keeps what was
-- written to it when a later step raises.
use registrator_ofid.Base.{ℕ, true, ltb, List, [], ◌∷◌, ◌++◌, none, some, length, map}
use registrator_ofid.Base.Text.{Text, text}
use registrator_ofid.Http.{Result, ok, err, ◌>>=◌, ◌>>◌, raise_if, too_many_answer_files}
use registrator_ofid.Calendar.{SlaCalendar}
use registrator_ofid.Models.Status.{Status}
use registrator_ofid.Models.User.{User, can_transition}
use registrator_ofid.Models.Request.{Request, RequestFile}
use registrator_ofid.Sessions.{require_roles}
use registrator_ofid.Workflow.{get_request_for_user, answer_request, assert_can_answer}
use registrator_ofid.Catalog.{max_answer_files}
use registrator_ofid.Files.{Storage, Upload, Disk}
use registrator_ofid.Views.{RequestDetail}
use registrator_ofid.Work.{
  Env, Work, log_action, publish, notify_user, status_changed, status_value, answer_value,
  request_answer, request_status,
}
use registrator_ofid.Actions.{answer_lines, answer_event, save_row}
use registrator_ofid.Thread.{attach_file}
use registrator_ofid.Endpoints.{Replied, reply_with}

-- The files of an answer, in their order: what the list comprehension leaves, and the disk, which
-- keeps the files before one that is refused.
pub record Attachments : Type 0 where
  pub work : Work
  pub request : Request
  pub files : List RequestFile

unfoldable pub with_file : RequestFile → Attachments → Attachments
with_file f a = record a { files = f ∷ a.files }

unfoldable pub attach_all :
    Env → Storage → User → List Upload → Work → Disk → Request → Result Attachments × Disk
unfolding with_file
attach_all env storage actor [] work disk req =
    (ok (record { work = work; request = req; files = [] }), disk)
attach_all env storage actor (u ∷ us) work disk req =
    elim (attach_file env storage work disk req actor u true) [
      | err e ↦ (err e, disk)
      | ok a ↦
          let (rest, disk') = attach_all env storage actor us a.work a.disk a.request in
          ((do more ← rest; ok (with_file a.file more)), disk')
    ]

-- `answer` from the moment when its files are stored.
unfoldable pub finish_answer :
    Env → SlaCalendar → Attachments → Status → Text → User → Result (Replied RequestDetail)
unfolding reply_with
finish_answer env cal attached old_status body actor = do
  answered ← answer_request cal env.now attached.request actor body
  let logged =
      log_action (save_row attached.work answered) (some actor.id) request_answer (some answered.id)
        (status_value old_status)
        (answer_value answered.status (map (λ f. f.file_name) attached.files))
  let told =
      notify_user env logged answered.student_id request_status
        (text "Murojaatingizga javob berildi: " ++ answered.tracking_no)
        (answer_lines answered
          (text "'" ++ answered.title ++ text "' murojaatingiz bo'yicha yakuniy javob:"))
        answered (text "/student/requests")
  let published = publish env told answered (
      status_changed old_status none
        (some (answer_event answered (some actor.full_name) attached.files)))
  reply_with env 200 published answered.id actor

-- The checks of `answer` before it stores a file.
unfoldable pub may_answer : Work → ℕ → List Upload → User → Result Request
may_answer work request_id uploads user = do
  actor ← require_roles can_transition user
  req ← get_request_for_user work.db.requests request_id actor
  assert_can_answer req actor
  raise_if (ltb max_answer_files (length uploads)) 422 too_many_answer_files
  ok req

-- `answer`, with the disk after it.
unfoldable pub answer :
    Env
    → SlaCalendar
    → Storage
    → Work
    → Disk
    → ℕ
    → Text
    → List Upload
    → User
    → Result (Replied RequestDetail) × Disk
unfolding may_answer attach_all finish_answer
answer env cal storage work disk request_id body uploads actor =
    elim (may_answer work request_id uploads actor) [
      | err e ↦ (err e, disk)
      | ok req ↦
          let (attached, disk') = attach_all env storage actor uploads work disk req in
          ((do a ← attached; finish_answer env cal a req.status body actor), disk')
    ]
