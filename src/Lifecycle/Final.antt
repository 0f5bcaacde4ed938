-- ===== src/Lifecycle/Final.antt =====
-- Closing a request of backend/app/services/request_service.py: only an answer does it, and nothing
-- changes a closed request.
use registrator_ofid.Base.{
  Bool-cases, inl, inr, ℕ, ◌≡◌, refl, sym, ap, ◌∙◌, true, false, Option, arith,
}
use registrator_ofid.Base.Text.{Text}
use registrator_ofid.Http.{ok}
use registrator_ofid.Calendar.{SlaCalendar}
use registrator_ofid.Models.Status.{Status, in_progress, returned, same, is_in, closed_statuses}
use registrator_ofid.Models.User.{User}
use registrator_ofid.Models.Request.{Request}
use registrator_ofid.Workflow.{answer_request, allowed_transitions, add_history}
use registrator_ofid.Workflow.Sound.{apply_status_sets}
use registrator_ofid.Workflow.Moves.{
  transition_request-Transitioned, answer_request-Answered, resubmit_request-Resubmitted,
  assign_request-Assigned,
}
use registrator_ofid.Models.Db.{Db}
use registrator_ofid.Sla.{is_due, sweep_one, mark, notify}
use registrator_ofid.Lifecycle.{Step}

nothing_from_closed :
    (was s : Status) → is_in was closed_statuses ≡ true → is_in s (allowed_transitions was) ≡ false
unfolding is_in same allowed_transitions
nothing_from_closed was s h = ground arith

not_returned : (s : Status) → is_in s closed_statuses ≡ true → same s returned ≡ false
unfolding is_in same
not_returned s h = ground arith

not_due :
    (now warn_before : ℕ) (r : Request)
    → is_in r.status closed_statuses ≡ true
    → is_due now warn_before r ≡ false
unfolding is_in same is_due
not_due now warn_before r h = ground arith

nothing_after_closed : {r r' : Request} → Step r r' → is_in r.status closed_statuses ≡ true → ⊥
nothing_after_closed {r} {r'} (Step.transitioned cal now actor s c h) k =
    let t = transition_request-Transitioned cal now r actor s c r' h in
    cc (t.allowed, nothing_from_closed r.status s k)
nothing_after_closed {r} {r'} (Step.answered cal now actor body h) k =
    cc (k, (answer_request-Answered cal now r actor body r' h).open_before)
nothing_after_closed {r} {r'} (Step.resubmitted cal now student c h) k =
    cc (
      (resubmit_request-Resubmitted cal now r student c r' h).was_returned,
      not_returned r.status k,
    )
nothing_after_closed {r} {r'} (Step.assigned users now actor id f d c h) k =
    cc (k, (assign_request-Assigned users now r actor id f d c r' h).open_before)
nothing_after_closed {r} (Step.swept db now warn_before due e) k =
    cc (due, not_due now warn_before r k)

-- Only an open request is changed by a call of the workflow or a round of the sweep: a closed one is
-- final.
pub closed_is_final : {r r' : Request} → Step r r' → is_in r.status closed_statuses ≡ false
closed_is_final {r} step = elim (Bool-cases (is_in r.status closed_statuses)) [
  | inl closed ↦ absurd (nothing_after_closed step closed)
  | inr running ↦ running
]

-- Some answer of some actor turns `r` into `r'`.
abbrev pub IsAnswer : Request → Request → Type 0
IsAnswer r r' =
    (cal : SlaCalendar) × (now : ℕ) × (actor : User) × (body : Text) × (answer_request cal now r
        actor body
      ≡ ok r')

stays_open :
    (was s : Status) → is_in s (allowed_transitions was) ≡ true → is_in s closed_statuses ≡ false
unfolding is_in same allowed_transitions
stays_open was s h = ground arith

due_open :
    (now warn_before : ℕ) (r : Request)
    → is_due now warn_before r ≡ true
    → is_in r.status closed_statuses ≡ false
unfolding is_in same is_due
due_open now warn_before r h = ground arith

swept_status : (db : Db) (now : ℕ) (r : Request) → (sweep_one db now r).request.status ≡ r.status
unfolding sweep_one mark notify add_history
swept_status db now r = ground arith

recorded_status :
    (m : Request) (by : Option ℕ) (old : Option Status) (s : Status) (c : Option Text) (now : ℕ)
    → (add_history m by old s c now).status ≡ m.status
unfolding add_history
recorded_status m by old s c now = refl

-- A call of the workflow or a round of the sweep that leaves a request closed is a final answer to it:
-- no transition, resubmission, assignment or sweep closes a request.
pub only_answers_close :
    {r r' : Request} → Step r r' → is_in r'.status closed_statuses ≡ true → IsAnswer r r'
unfolding is_in same
only_answers_close {r} {r'} (Step.transitioned cal now actor s c h) k =
    let t = transition_request-Transitioned cal now r actor s c r' h in
    let e : r'.status ≡ s =
      ap (λ q. q.status) t.recorded
      ∙ recorded_status t.moved _ _ s c now
      ∙ apply_status_sets cal now r t.moved s t.applied in
    absurd (cc (ap (λ q. is_in q closed_statuses) e, k, stays_open r.status s t.allowed))
only_answers_close {r} {r'} (Step.answered cal now actor body h) k = (cal, now, actor, body, h)
only_answers_close {r} {r'} (Step.resubmitted cal now student c h) k =
    let t = resubmit_request-Resubmitted cal now r student c r' h in
    let e : r'.status ≡ in_progress =
      ap (λ q. q.status) t.recorded
      ∙ recorded_status t.moved _ _ in_progress _ now
      ∙ apply_status_sets cal now r t.moved in_progress t.applied in
    absurd (cc (sym k ∙ ap (λ q. is_in q closed_statuses) e))
only_answers_close {r} {r'} (Step.assigned users now actor id f d c h) k =
    let t = assign_request-Assigned users now r actor id f d c r' h in
    let e : r'.status ≡ r.status =
      ap (λ q. q.status) t.recorded
      ∙ recorded_status t.moved _ _ r.status _ now
      ∙ ap (λ q. q.status) t.reassigned in
    absurd (cc (sym k ∙ ap (λ q. is_in q closed_statuses) e ∙ t.open_before))
only_answers_close {r} {r'} (Step.swept db now warn_before due e) k =
    let status = ap (λ q. is_in q closed_statuses) (ap (λ q. q.status) e ∙ swept_status db now r) in
    absurd (cc (sym k ∙ status ∙ due_open now warn_before r due))
