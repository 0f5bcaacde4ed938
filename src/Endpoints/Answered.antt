-- ===== src/Endpoints/Answered.antt =====
-- What `answer` of backend/app/api/v1/requests.py tells the student and the partner.
use registrator_ofid.Base.{ℕ, ◌≡◌, List, none, some, In}
use registrator_ofid.Base.Text.{Text, strip}
use registrator_ofid.Http.{◌>>=◌}
use registrator_ofid.Models.Status.{Status, completed}
use registrator_ofid.Models.User.{User}
use registrator_ofid.Models.Request.{Request, RequestFile}
use registrator_ofid.Outbox.{OutboxMessage, webhook}
use registrator_ofid.Workflow.{find_request}
use registrator_ofid.Workflow.Sound.{SameOwner}
use registrator_ofid.Files.{Upload}
use registrator_ofid.Work.{Env, Work, Notification, envelope, status_changed}
use registrator_ofid.Actions.{answer_event}
use registrator_ofid.Endpoints.Answer.{Attachments}
use registrator_ofid.Endpoints.Attaching.{AreFilesOf}

-- The row of a request whose answer was sent: it is closed, belongs to the student it belonged to, and
-- has the text of the answer, without spaces around it, with its time and its author.
abbrev pub CarriesAnswer : ℕ → User → Text → Request → Type 0
CarriesAnswer now actor body r =
    (r.answer_text ≡ some (strip body))
    × (r.answered_at ≡ some now)
    × (r.answered_by ≡ some actor.id)

-- What an answer leaves behind: the request is stored as completed, with the text that was sent; its
-- student is notified; and the partner is sent this answer with a file for each upload.
pub record Told (env : Env) (work : Work) (request_id : ℕ) (body : Text) (uploads : List Upload)
    (actor : User) (after : Work) : Type 0 where
  pub before : Request
  pub found : find_request work.db.requests request_id ≡ some before
  pub answered : Request
  pub closed : answered.status ≡ completed
  pub carried : CarriesAnswer env.now actor body answered
  pub stored : find_request after.db.requests request_id ≡ some answered
  pub notice : Notification
  pub noticed : In notice after.notifications
  pub to_student : notice.user_id ≡ before.student_id
  pub about : notice.request_id ≡ request_id
  pub files : List RequestFile
  pub all_files : AreFilesOf actor uploads files
  pub message : OutboxMessage
  pub queued : In message after.outbox
  pub place : ℕ
  pub event :
      message.payload
      ≡ webhook (
          envelope env place after.db answered (
            status_changed before.status none
              (some (answer_event answered (some actor.full_name) files))))

-- The same of the part of `answer` after its files.
record Finished (env : Env) (a : Attachments) (old_status : Status) (body : Text) (actor : User)
    (after : Work) : Type 0 where
  answered : Request
  owner : SameOwner a.request answered
  closed : answered.status ≡ completed
  carried : CarriesAnswer env.now actor body answered
  stored : find_request after.db.requests answered.id ≡ some answered
  notice : Notification
  noticed : In notice after.notifications
  to_student : notice.user_id ≡ answered.student_id
  about : notice.request_id ≡ answered.id
  message : OutboxMessage
  queued : In message after.outbox
  place : ℕ
  event :
      message.payload
      ≡ webhook (
          envelope env place after.db answered (
            status_changed old_status none
              (some (answer_event answered (some actor.full_name) a.files))))
