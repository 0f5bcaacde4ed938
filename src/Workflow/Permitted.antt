-- ===== src/Workflow/Permitted.antt =====
-- When `transition_request` of backend/app/services/request_service.py goes through.
use registrator_ofid.Base.{
  ℕ, ◌≡◌, refl, ◌↔◌, ◌⊎◌, inl, inr, Bool, true, false, not, ◌&&◌, Option, arith, Bool-cases,
}
use registrator_ofid.Base.Text.{Text, or_empty, has_ink, nonempty-strip, strip, is_nonempty}
use registrator_ofid.Http.{ok, is_ok, Result-cases}
use registrator_ofid.Calendar.{SlaCalendar}
use registrator_ofid.Models.Status.{
  Status, new, accepted, in_progress, rejected, unknown, completed, returned, same, is_in,
  all_statuses,
}
use registrator_ofid.Models.User.{User}
use registrator_ofid.Models.Request.{Request}
use registrator_ofid.Workflow.{
  allowed_transitions, comment_required, assert_handler, apply_status, move_clock,
  transition_request,
}
use registrator_ofid.Workflow.Moves.{MayHandle, transition_request-Transitioned}

-- The checks of a transition, as one predicate: the target is reachable from the status, the actor
-- may handle the request, and a return comes with a reason.
abbrev pub Permitted : Request → User → Status → Option Text → Type 0
Permitted req actor s c =
    MayHandle req actor
    × (is_in s (allowed_transitions req.status) ≡ true)
    × ((same s returned ≡ false) ⊎ (has_ink (or_empty c) ≡ true))

reasoned_iff :
    (s : Status) (c : Option Text)
    → ((is_in s comment_required && not (is_nonempty (strip (or_empty c)))) ≡ false)
      ↔ ((same s returned ≡ false) ⊎ (has_ink (or_empty c) ≡ true))
unfolding is_in
reasoned_iff s c =
    let ink = nonempty-strip (or_empty c) in
    (
      λ h. elim (Bool-cases (same s returned)) [ inl e ↦ inr (ground arith) | inr e ↦ inl e ],
      λ h. elim h [ inl e ↦ ground arith | inr e ↦ ground arith ],
    )

false-true : {b : Bool} → b ≡ false → b ≡ true → ⊥
false-true e f = cc

never_completed : (t : Status) → is_in completed (allowed_transitions t) ≡ false
unfolding is_in allowed_transitions same
never_completed new = refl
never_completed accepted = refl
never_completed in_progress = refl
never_completed completed = refl
never_completed rejected = refl
never_completed returned = refl
never_completed (unknown y) = refl

never_unknown : (x : Text) (t : Status) → is_in (unknown x) (allowed_transitions t) ≡ false
unfolding is_in allowed_transitions same
never_unknown x new = refl
never_unknown x accepted = refl
never_unknown x in_progress = refl
never_unknown x completed = refl
never_unknown x rejected = refl
never_unknown x returned = refl
never_unknown x (unknown y) = refl

known :
    (t s : Status)
    → is_in s (allowed_transitions t) ≡ true
    → (is_in s all_statuses ≡ true) × (same s completed ≡ false)
unfolding is_in allowed_transitions same
known t new h = ground arith
known t accepted h = ground arith
known t in_progress h = ground arith
known t completed h = absurd (false-true (never_completed t) h)
known t rejected h = ground arith
known t returned h = ground arith
known t (unknown x) h = absurd (false-true (never_unknown x t) h)

running :
    (cal : SlaCalendar) (now : ℕ) (req : Request) (s : Status)
    → same req.status returned ≡ false
    → (r : Request) × (apply_status cal now req s ≡ ok r)
unfolding apply_status move_clock
running cal now req s was = elim (Result-cases (apply_status cal now req s)) [
  | inl found ↦ found
  | inr (x, e) ↦ absurd (ground arith)
]

-- A transition of a request that is not returned goes through exactly when it is permitted.
pub transition_request_iff :
    (cal : SlaCalendar) (now : ℕ) (req : Request) (actor : User) (s : Status) (c : Option Text)
    → same req.status returned ≡ false
    → (is_ok (transition_request cal now req actor s c) ≡ true) ↔ Permitted req actor s c
unfolding transition_request assert_handler
transition_request_iff cal now req actor s c was = (
  λ h. elim (Result-cases (transition_request cal now req actor s c)) [
    | inl (r, e) ↦
        let d = transition_request-Transitioned cal now req actor s c r e in
        (d.handler, d.allowed, (reasoned_iff s c).0 d.reasoned)
    | inr (x, e) ↦ absurd (ground arith)
  ],
  λ (handler, allowed, reasoned).
      let quiet = (reasoned_iff s c).1 reasoned in
      let (is_known, is_no_answer) = known req.status s allowed in
      let (r, e) = running cal now req s was in ground (arith, handler.writes, handler.owns),
)
