-- ===== src/Workflow/Kept.antt =====
-- What `_apply_status` of backend/app/services/request_service.py leaves alone in a row.
use registrator_ofid.Base.{ℕ, ◌≡◌, inl, inr, arith, Option, none, some, Bool-cases}
use registrator_ofid.Http.{ok, >>=-eq-ok}
use registrator_ofid.Calendar.{SlaCalendar}
use registrator_ofid.Models.Status.{Status, returned, same}
use registrator_ofid.Models.Request.{Request}
use registrator_ofid.Workflow.{apply_status, move_clock, resume}

-- The answer, the history and the handler are the same.
pub record SameWork (req r : Request) : Type 0 where
  pub answer_text : r.answer_text ≡ req.answer_text
  pub answered_at : r.answered_at ≡ req.answered_at
  pub answered_by : r.answered_by ≡ req.answered_by
  pub history : r.history ≡ req.history
  pub assigned_to : r.assigned_to ≡ req.assigned_to

resume-SameWork :
    (cal : SlaCalendar) (now : ℕ) (req r : Request) (p : Option ℕ)
    → resume cal now req p ≡ ok r
    → SameWork req r
unfolding resume
resume-SameWork cal now req r none h = ground arith
resume-SameWork cal now req r (some p) h = ground arith

move_clock-SameWork :
    (cal : SlaCalendar) (now : ℕ) (req r : Request) (s : Status)
    → move_clock cal now req s ≡ ok r
    → SameWork req r
unfolding move_clock
move_clock-SameWork cal now req r s h = elim (Bool-cases (same s returned)) [
  | inl to ↦ ground arith
  | inr away ↦ elim (Bool-cases (same req.status returned)) [
    | inl from ↦ resume-SameWork cal now req r req.sla_paused_at (ground arith)
    | inr other ↦ ground arith
  ]
]

pub apply_status-SameWork :
    (cal : SlaCalendar) (now : ℕ) (req r : Request) (s : Status)
    → apply_status cal now req s ≡ ok r
    → SameWork req r
unfolding apply_status
apply_status-SameWork cal now req r s h =
    let (q, e, made) = >>=-eq-ok (move_clock cal now req s) _ h in
    let kept = move_clock-SameWork cal now req q s e in ground arith
