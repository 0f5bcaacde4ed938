-- ===== src/Lifecycle/Authors.antt =====
-- Who changes a request of backend/app/services/request_service.py, as its history tells.
use registrator_ofid.Base.{ℕ, ◌≡◌, ◌⊎◌, false, [], ◌∷◌, ◌++◌, Option, none, some}
use registrator_ofid.Base.Text.{Text}
use registrator_ofid.Models.Status.{Status, returned}
use registrator_ofid.Models.User.{User, has_role, read_only}
use registrator_ofid.Models.User
use registrator_ofid.Models.Request.{Request, RequestHistory}
use registrator_ofid.Models.Db.{Db}
use registrator_ofid.Workflow.Sound.{SameOwner}

-- Who may have changed a request from `r` to `r'`, and so be named by an entry of its history.
pub data IsAuthor (r r' : Request) (by : Option ℕ) : Type 0 where
  -- The sweep, which is no user, and leaves the status, the handler and the answer alone.
  by_clock :
      by ≡ none
      → r'.status ≡ r.status
      → r'.assigned_to ≡ r.assigned_to
      → r'.answer_text ≡ r.answer_text
      → IsAuthor r r' by
  -- The student whose request it is, while it was returned to them; the handler and the answer stay.
  by_student :
      by ≡ some r.student_id
      → r.status ≡ returned
      → r'.assigned_to ≡ r.assigned_to
      → r'.answer_text ≡ r.answer_text
      → IsAuthor r r' by
  -- An employee whose role does not only read, and who is the handler, if a member of the staff.
  by_handler :
      (u : User)
      → by ≡ some u.id
      → has_role u read_only ≡ false
      → (has_role u (User.staff ∷ []) ≡ false) ⊎ (r.assigned_to ≡ some u.id)
      → r'.assigned_to ≡ r.assigned_to
      → IsAuthor r r' by
  -- An employee whose role does not only read, and who changed no more than the handler.
  by_assigner :
      (u : User)
      → by ≡ some u.id
      → has_role u read_only ≡ false
      → r'.status ≡ r.status
      → r'.answer_text ≡ r.answer_text
      → IsAuthor r r' by

-- One more entry of the history, from the old status to the new one, that names who may have done it.
pub record IsRecorded (r r' : Request) : Type 0 where
  pub same_row : SameOwner r r'
  pub entry : RequestHistory
  pub appended : r'.history ≡ r.history ++ entry ∷ []
  pub from_status : entry.old_status ≡ some r.status
  pub to_status : entry.new_status ≡ r'.status
  pub author : IsAuthor r r' entry.changed_by

entry_for :
    (m : Request) (by : Option ℕ) (old s : Status) (c : Option Text) (now : ℕ) → RequestHistory
entry_for m by old s c now = record {
  request_id = m.id;
  changed_by = by;
  old_status = some old;
  new_status = s;
  comment = c;
  created_at = now;
}
