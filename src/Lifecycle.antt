-- ===== src/Lifecycle.antt =====
-- Every way in which backend/app/services changes the row of a filed request: the calls of
-- request_service.py and one round of the sweep of sla_service.py.
pub mod Sound
pub mod Final
pub mod Authors
mod Tests
use registrator_ofid.Base.{ℕ, ◌≡◌, Bool, true, Option, List}
use registrator_ofid.Base.Text.{Text}
use registrator_ofid.Http.{ok}
use registrator_ofid.Calendar.{SlaCalendar}
use registrator_ofid.Models.Status.{Status}
use registrator_ofid.Models.User.{User}
use registrator_ofid.Models.Request.{Request}
use registrator_ofid.Models.Db.{Db}
use registrator_ofid.Workflow.{assign_request, transition_request, answer_request, resubmit_request}
use registrator_ofid.Sla.{is_due, sweep_one, Notified}

pub data Step (r r' : Request) : Type 0 where
  transitioned :
      (cal : SlaCalendar) (now : ℕ) (actor : User) (s : Status) (c : Option Text)
      → transition_request cal now r actor s c ≡ ok r'
      → Step r r'
  answered :
      (cal : SlaCalendar) (now : ℕ) (actor : User) (body : Text)
      → answer_request cal now r actor body ≡ ok r'
      → Step r r'
  resubmitted :
      (cal : SlaCalendar) (now : ℕ) (student : User) (c : Option Text)
      → resubmit_request cal now r student c ≡ ok r'
      → Step r r'
  assigned :
      (users : List User) (now : ℕ) (actor : User) (id : ℕ) (f d : Option ℕ) (c : Option Text)
      → assign_request users now r actor id f d c ≡ ok r'
      → Step r r'
  swept :
      (db : Db) (now warn_before : ℕ)
      → is_due now warn_before r ≡ true
      → r' ≡ (sweep_one db now r).request
      → Step r r'

-- Any number of such changes.
pub data Reach (r : Request) : Request → Type 0 where
  here : Reach r r
  next : {s t : Request} → Reach r s → Step s t → Reach r t
