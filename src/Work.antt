-- ===== src/Work.antt =====
-- What a call on a request writes besides the request: audit_service.py, notification_service.py,
-- events.py and email_templates.py of backend/app/services. All of it belongs to the transaction of
-- the call, but for the pushes to open web sockets.
use registrator_ofid.Base.{
  ℕ, Bool, ◌==◌, List, [], ◌∷◌, ◌++◌, Option, none, some, if◌then◌else◌, length, take, reverse,
}
use registrator_ofid.Base.Text.{Text, text}
use registrator_ofid.Models.Status.{Status, status_label}
use registrator_ofid.Models.User.{User, Role, Student}
use registrator_ofid.Models.Request.{Request}
use registrator_ofid.Models.Db.{Db}
use registrator_ofid.Tracking.{decimal}
use registrator_ofid.Workflow.{find_user}
use registrator_ofid.Outbox.{
  OutboxMessage, OutboxSettings, Envelope, enqueue_email, enqueue_webhook,
}

-- `old_value` and `new_value` of an audit entry, by what is recorded.
pub data AuditValue : Type 0 where
  no_value : AuditValue
  -- `tracking_no`, `title`, `assigned_to`, `auto_answered` and `api_client`; `auto_routed` is true.
  filed_value : Text → Text → Option ℕ → Bool → Option Text → AuditValue
  assignee_value : ℕ → AuditValue
  status_value : Status → AuditValue
  -- `status` and the names of the `files`.
  answer_value : Status → List Text → AuditValue
  -- `file_name` and `size`.
  file_value : Text → ℕ → AuditValue

pub data AuditAction : Type 0 where
  request_create request_assign request_transition request_answer request_resubmit : AuditAction
  request_file_upload : AuditAction

pub record AuditLog : Type 0 where
  pub user_id : Option ℕ
  pub action : AuditAction
  pub entity_id : Option ℕ
  pub old_value : AuditValue
  pub new_value : AuditValue

pub data NotificationType : Type 0 where
  request_assigned request_status request_message : NotificationType

-- A notification in the application, unread, whose `payload` names a request.
pub record Notification : Type 0 where
  pub id : ℕ
  pub user_id : ℕ
  pub kind : NotificationType
  pub title : Text
  pub body : Text
  pub request_id : ℕ
  pub tracking_no : Text
  pub created_at : ℕ

pub record FileEntry : Type 0 where
  pub id : ℕ
  pub file_name : Text
  pub file_size : ℕ
  pub mime_type : Text

-- The `answer` block of an event.
pub record AnswerEvent : Type 0 where
  pub text : Option Text
  pub description : Option Text
  pub answered_at : Option ℕ
  pub answered_by_name : Option Text
  pub files : List FileEntry

-- The arguments of `publish` that depend on the event.
pub data Extra : Type 0 where
  created : Extra
  -- `old_status`, `comment` and `answer`.
  status_changed : Status → Option Text → Option AnswerEvent → Extra
  -- `id`, `content`, `sender_name`, `sender_role` and `from_student`.
  message_created : ℕ → Text → Text → Option Role → Bool → Extra
  -- The file, `from_student` and `is_answer`.
  file_added : FileEntry → Bool → Bool → Extra

pub record EventData : Type 0 where
  pub request_id : ℕ
  pub tracking_no : Text
  pub client_ref : Option Text
  pub student_hemis_id : Option Text
  pub status : Status
  pub label : Text
  pub sla_deadline : ℕ
  pub extra : Extra

unfoldable pub event_name : Extra → Text
event_name created = text "request.created"
event_name (status_changed _ _ _) = text "request.status_changed"
event_name (message_created _ _ _ _ _) = text "request.message_created"
event_name (file_added _ _ _) = text "request.file_added"

-- What a call has of its surroundings: settings, the clock, the keys that the database gives to the
-- next row of a table with so many rows, the random names of an envelope and of a stored file, by the
-- rows that there are; and the JSON of an event,
-- the text of a moment and the page that the template makes of a title, lines and a link.
pub record Env : Type 0 where
  pub outbox_settings : OutboxSettings
  pub public_base_url : Text
  pub now : ℕ
  pub new_key : ℕ → ℕ
  pub envelope_id : ℕ → Text
  pub file_token : ℕ → Text
  pub json : EventData → Text
  pub isoformat : ℕ → Text
  pub html : Text → List Text → Text → Text

-- The database session of a call: the tables, and what was pushed to whom meanwhile.
pub record Work : Type 0 where
  pub db : Db
  pub audit_logs : List AuditLog
  pub notifications : List Notification
  pub outbox : List OutboxMessage
  pub pushed : List (ℕ × Notification)

unfoldable pub log_action :
    Work → Option ℕ → AuditAction → Option ℕ → AuditValue → AuditValue → Work
log_action work user_id action entity_id old_value new_value = record work {
  audit_logs =
      work.audit_logs
      ++ record {
        user_id = user_id;
        action = action;
        entity_id = entity_id;
        old_value = old_value;
        new_value = new_value;
      }
        ∷ [];
}

-- `create_notification`; `manager.push` sends the new row to the user's sockets.
unfoldable pub create_notification :
    Env → Work → ℕ → NotificationType → Text → Text → Request → Work
create_notification env work user_id kind title body req =
    let row : Notification = record {
      id = env.new_key (length work.notifications);
      user_id = user_id;
      kind = kind;
      title = title;
      body = body;
      request_id = req.id;
      tracking_no = req.tracking_no;
      created_at = env.now;
    } in
    record work {
      notifications = work.notifications ++ row ∷ [];
      pushed = work.pushed ++ (user_id, row) ∷ [];
    }

profile_hemis_id : Option Student → Option Text
profile_hemis_id none = none
profile_hemis_id (some s) = s.external_student_id

hemis_id : Option User → Option Text
unfolding profile_hemis_id
hemis_id none = none
hemis_id (some u) = profile_hemis_id u.student_profile

unfoldable pub event_data : Db → Request → Extra → EventData
unfolding hemis_id
event_data db req extra = record {
  request_id = req.id;
  tracking_no = req.tracking_no;
  client_ref = req.client_ref;
  student_hemis_id = hemis_id (find_user db.users req.student_id);
  status = req.status;
  label = status_label (some req.status);
  sla_deadline = req.sla_deadline;
  extra = extra;
}

unfoldable pub envelope : Env → ℕ → Db → Request → Extra → Envelope
unfolding event_data event_name
envelope env count db req extra = record {
  id = env.envelope_id count;
  event = event_name extra;
  occurred_at = env.isoformat env.now;
  data_json = env.json (event_data db req extra);
}

-- `publish`
unfoldable pub publish : Env → Work → Request → Extra → Work
unfolding envelope
publish env work req extra = record work {
  outbox =
      enqueue_webhook env.outbox_settings work.outbox (env.new_key (length work.outbox)) env.now
        (envelope env (length work.outbox) work.db req extra);
}

drop_slashes : Text → Text
drop_slashes [] = []
drop_slashes (c ∷ s) = let rest = drop_slashes s in if c == b'/' then rest else c ∷ s

unfoldable pub request_link : Env → ℕ → Text → Text
unfolding drop_slashes
request_link env request_id role_base =
    reverse (drop_slashes (reverse env.public_base_url)) ++ role_base ++ b'/' ∷ decimal request_id

-- `sep.join(lines)`
unfoldable pub join : Text → List Text → Text
join sep [] = []
join sep (l ∷ []) = l
join sep (l ∷ m ∷ rest) = l ++ sep ++ join sep (m ∷ rest)

-- `render`, for a message with a link.
unfoldable pub render : Env → Text → List Text → Text → Text × Text
unfolding join
render env title lines link =
    (join (10 ∷ 10 ∷ []) (title ∷ lines ++ link ∷ []), env.html title lines link)

-- The email of `_notify_user` (api/v1/requests.py), to a user who has an address.
unfoldable pub send_to : Env → Work → Text → Text → List Text → Request → Text → Work
unfolding render request_link
send_to env work [] title lines req base = work
send_to env work (c ∷ address) title lines req base =
    let (body, html) = render env title lines (request_link env req.id base) in
    record work {
      outbox =
          enqueue_email work.outbox (env.new_key (length work.outbox)) env.now
            (record { to = c ∷ address; subject = title; body = body; html = some html });
    }

unfoldable pub email_to : Env → Work → Option User → Text → List Text → Request → Text → Work
unfolding send_to
email_to env work none title lines req base = work
email_to env work (some u) title lines req base = elim u.email [
  | none ↦ work
  | some address ↦ send_to env work address title lines req base
]

-- `_notify_user`
unfoldable pub notify_user :
    Env → Work → ℕ → NotificationType → Text → List Text → Request → Text → Work
unfolding create_notification email_to
notify_user env work user_id kind title lines req base =
    let told =
      create_notification env work user_id kind title (take 500 (join (32 ∷ []) lines)) req in
    email_to env told (find_user told.db.users user_id) title lines req base
