-- ===== src/Workflow/Clock.antt =====
-- The SLA clock in `_apply_status` of backend/app/services/request_service.py: it stops while a request
-- is returned, and the office has as much working time after the pause as before it.
use registrator_ofid.Base.{
  ℕ, ◌≡◌, ◌<◌, refl, sym, ap, ◌∙◌, subst, ◌⊎◌, inl, inr, true, false, Option, none, some, arith,
  Bool-cases, Option-cases, ltb, ltb→lt,
}
use registrator_ofid.Base.Text.{Text}
use registrator_ofid.Http.{ok, >>=-eq-ok}
use registrator_ofid.Calendar.{SlaCalendar, working_time_between, add_working_time}
use registrator_ofid.Calendar.Add.{working_time_between-add_working_time}
use registrator_ofid.Models.Status.{Status, in_progress, returned, same}
use registrator_ofid.Models.User.{User}
use registrator_ofid.Models.Request.{Request}
use registrator_ofid.Workflow.{
  apply_status, move_clock, resume, restart, add_history, resubmit_request,
}
use registrator_ofid.Workflow.Moves.{resubmit_request-Resubmitted}

-- How the clock of `req` restarts at `now` in `r`, when it was stopped at `p`: with the working time
-- that was left then, and the notices of the old deadline forgotten; or, if none was left, with the
-- old deadline.
abbrev pub Restarts : SlaCalendar → ℕ → ℕ → Request → Request → Type 0
Restarts cal now p req r =
    let left = working_time_between cal p req.sla_deadline in
    (r.sla_paused_at ≡ none)
    × (((0 < left)
          × (working_time_between cal now r.sla_deadline ≡ left)
          × (r.sla_warned_at ≡ none)
          × (r.sla_breached_at ≡ none))
        ⊎ ((left ≡ 0)
            × (r.sla_deadline ≡ req.sla_deadline)
            × (r.sla_warned_at ≡ req.sla_warned_at)
            × (r.sla_breached_at ≡ req.sla_breached_at)))

restart-facts :
    (cal : SlaCalendar) (now left : ℕ) (req r : Request)
    → restart cal now req left ≡ ok r
    → (working_time_between cal now r.sla_deadline ≡ left)
      × (r.sla_warned_at ≡ none)
      × (r.sla_breached_at ≡ none)
unfolding restart
restart-facts cal now left req r h = elim (Option-cases (add_working_time cal now left)) [
  | inl e ↦ absurd (ground arith)
  | inr (d, e) ↦ ground (arith, working_time_between-add_working_time cal now left e)
]

resume-Restarts :
    (cal : SlaCalendar) (now p : ℕ) (req r : Request)
    → resume cal now req (some p) ≡ ok r
    → Restarts cal now p req r
unfolding resume
resume-Restarts cal now p req r h =
    let left = working_time_between cal p req.sla_deadline in
    elim (Bool-cases (ltb 0 left)) [
      | inl some_left ↦
          let (q, e, made) = >>=-eq-ok (restart cal now req left) _ (rw (some_left, resume) at h) in
          let (measured, warned, breached) = restart-facts cal now left req q e in
          let positive : 0 < left = ltb→lt 0 left some_left in
          (ground arith, inl (positive, ground arith, ground arith, ground arith))
      | inr none_left ↦
          let empty : left ≡ 0 = ground arith in
          (ground arith, inr (empty, ground arith, ground arith, ground arith))
    ]

move_clock_resumes :
    (cal : SlaCalendar) (now : ℕ) (req : Request) (s : Status)
    → same req.status returned ≡ true
    → same s returned ≡ false
    → move_clock cal now req s ≡ resume cal now req req.sla_paused_at
unfolding move_clock
move_clock_resumes cal now req s was leaves = rw (leaves, was, move_clock) refl

-- Work that resumes with a status other than `returned` restarts the clock of a returned request.
apply_status-Restarts :
    (cal : SlaCalendar) (now p : ℕ) (req r : Request) (s : Status)
    → same req.status returned ≡ true
    → same s returned ≡ false
    → req.sla_paused_at ≡ some p
    → apply_status cal now req s ≡ ok r
    → Restarts cal now p req r
unfolding apply_status
apply_status-Restarts cal now p req r s was leaves paused h =
    let (q, e, made) = >>=-eq-ok (move_clock cal now req s) _ h in
    let stopped : move_clock cal now req s ≡ resume cal now req (some p) =
      move_clock_resumes cal now req s was leaves ∙ ap (resume cal now req) paused in
    let (cleared, clock) = resume-Restarts cal now p req q (sym stopped ∙ e) in
    (ground (arith, cleared), ground (arith, clock))

-- A student who sends a returned request back gets the working time that was left when it was
-- returned, measured on the office's calendar, and the warning and breach of the old deadline are
-- forgotten; when no time was left, the old deadline stands.
pub resubmit_request-Restarts :
    (cal : SlaCalendar) (now p : ℕ) (req : Request) (student : User) (c : Option Text) (r : Request)
    → req.sla_paused_at ≡ some p
    → resubmit_request cal now req student c ≡ ok r
    → Restarts cal now p req r
unfolding add_history same
resubmit_request-Restarts cal now p req student c r paused h =
    let d = resubmit_request-Resubmitted cal now req student c r h in
    let clock =
      apply_status-Restarts cal now p req d.moved in_progress d.was_returned refl paused
        d.applied in
    subst (Restarts cal now p req) (sym d.recorded) clock
