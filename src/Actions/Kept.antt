-- ===== src/Actions/Kept.antt =====
-- The notifications, emails and events of backend/app/api/v1/requests.py leave the tables as they are.
use registrator_ofid.Base.{
  ℕ, zero, suc, ◌≡◌, refl, ◌∙◌, Bool, true, false, List, [], ◌∷◌, Option, none, some, filter,
  if◌then◌else◌, Option-cases, inl, inr,
}
use registrator_ofid.Base.Text.{Text}
use registrator_ofid.Models.Status.{same, completed}
use registrator_ofid.Models.User.{User}
use registrator_ofid.Models.Request.{Request, RequestFile}
use registrator_ofid.Models.Db.{Db}
use registrator_ofid.Work.{
  Env, Work, NotificationType, publish, create_notification, notify_user, email_to, send_to,
  log_action, request_status,
}
use registrator_ofid.Actions.{
  publish_file_added, publish_files, notify_assignee, notify_assigned, notify_handler,
  announce_answer, announce_filed,
}

send_to-db :
    (env : Env) (work : Work) (address title : Text) (lines : List Text) (req : Request)
    (base : Text)
    → (send_to env work address title lines req base).db ≡ work.db
unfolding send_to
send_to-db env work [] title lines req base = refl
send_to-db env work (c ∷ address) title lines req base = refl

email_to-db :
    (env : Env) (work : Work) (u : Option User) (title : Text) (lines : List Text) (req : Request)
    (base : Text)
    → (email_to env work u title lines req base).db ≡ work.db
unfolding email_to
email_to-db env work none title lines req base = refl
email_to-db env work (some u) title lines req base = elim (Option-cases u.email) [
  | inl e ↦ rw e refl
  | inr (address, e) ↦ rw e (send_to-db env work address title lines req base)
]

pub notify_user-db :
    (env : Env) (work : Work) (id : ℕ) (kind : NotificationType) (title : Text) (lines : List Text)
    (req : Request) (base : Text)
    → (notify_user env work id kind title lines req base).db ≡ work.db
unfolding notify_user create_notification
notify_user-db env work id kind title lines req base = email_to-db env _ _ title lines req base

publish_files-db :
    (env : Env) (work : Work) (req : Request) (fs : List RequestFile)
    → (publish_files env work req fs).db ≡ work.db
unfolding publish_files publish_file_added publish
publish_files-db env work req [] = refl
publish_files-db env work req (f ∷ fs) =
    publish_files-db env (publish_file_added env work req f) req fs

notify_assignee-db :
    (env : Env) (work : Work) (req : Request) (u : Option User)
    → (notify_assignee env work req u).db ≡ work.db
unfolding notify_assignee
notify_assignee-db env work req none = refl
notify_assignee-db env work req (some u) = notify_user-db env work u.id _ _ _ req _

notify_handler-db :
    (env : Env) (work : Work) (req : Request) (o : Option ℕ)
    → (notify_handler env work req o).db ≡ work.db
unfolding notify_handler notify_assigned
notify_handler-db env work req none = refl
notify_handler-db env work req (some zero) = refl
notify_handler-db env work req (some (suc i)) = notify_assignee-db env work req _

announce_answer-db :
    (env : Env) (work : Work) (req : Request) → (announce_answer env work req).db ≡ work.db
unfolding announce_answer publish
announce_answer-db env work req =
    publish_files-db env _ req (filter (λ f. f.is_answer) req.files)
    ∙ notify_user-db env work req.student_id request_status _ _ req _

choice-db : (b : Bool) (x y : Work) {db : Db} → x.db ≡ db → y.db ≡ db → (if b then x else y).db ≡ db
choice-db true x y e f = e
choice-db false x y e f = f

pub announce_filed-db :
    (env : Env) (work : Work) (student : User) (client : Option Text) (req : Request)
    → (announce_filed env work student client req).db ≡ work.db
unfolding announce_filed publish log_action
announce_filed-db env work student client req =
    choice-db (same req.status completed) _ _
      (announce_answer-db env _ req ∙ notify_handler-db env _ req req.assigned_to)
      (notify_handler-db env _ req req.assigned_to)
