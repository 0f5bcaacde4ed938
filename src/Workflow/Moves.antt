-- ===== src/Workflow/Moves.antt =====
-- What each call of backend/app/services/request_service.py did to the request, when it returned.
use registrator_ofid.Base.{
  ℕ, ◌≡◌, refl, inl, inr, true, false, not, ◌&&◌, List, [], ◌∷◌, ◌++◌, Option, some, arith, ◌==◌,
}
use registrator_ofid.Base.Text.{Text, text, or_empty, strip, is_nonempty}
use registrator_ofid.Http.{ok, Result-cases}
use registrator_ofid.Calendar.{SlaCalendar}
use registrator_ofid.Models.Status.{
  Status, in_progress, completed, returned, same, is_in, closed_statuses,
}
use registrator_ofid.Models.User.{User, has_role, read_only}
use registrator_ofid.Models.User
use registrator_ofid.Models.Request.{Request}
use registrator_ofid.Workflow.{
  is_id, allowed_transitions, comment_required, apply_status, add_history, assign_request,
  transition_request, answer_request, resubmit_request, resolve_assignee, or_text, with_answer,
  reassign,
}

-- The actor may work the request: not of a read-only role, and if a staff member, its assignee.
pub record MayHandle (req : Request) (actor : User) : Type 0 where
  pub writes : has_role actor read_only ≡ false
  pub owns : (has_role actor (User.staff ∷ []) && not (is_id req.assigned_to actor.id)) ≡ false

-- What a transition that returned has checked and done.
pub record Transitioned (cal : SlaCalendar) (now : ℕ) (req : Request) (actor : User) (s : Status)
    (c : Option Text) (r : Request) : Type 0 where
  pub handler : MayHandle req actor
  pub allowed : is_in s (allowed_transitions req.status) ≡ true
  pub reasoned : (is_in s comment_required && not (is_nonempty (strip (or_empty c)))) ≡ false
  pub moved : Request
  pub applied : apply_status cal now req s ≡ ok moved
  pub recorded : r ≡ add_history moved (some actor.id) (some req.status) s c now

pub transition_request-Transitioned :
    (cal : SlaCalendar) (now : ℕ) (req : Request) (actor : User) (s : Status) (c : Option Text)
    (r : Request)
    → transition_request cal now req actor s c ≡ ok r
    → Transitioned cal now req actor s c r
unfolding transition_request
transition_request-Transitioned cal now req actor s c r h =
    elim (Result-cases (apply_status cal now req s)) [
      | inl (m, e) ↦ record {
        handler = record { writes = ground arith; owns = ground arith };
        allowed = ground arith;
        reasoned = ground arith;
        moved = m;
        applied = e;
        recorded = ground arith;
      }
      | inr (x, e) ↦ absurd (ground arith)
    ]

-- What an answer that returned has checked and done.
pub record Answered (cal : SlaCalendar) (now : ℕ) (req : Request) (actor : User) (body : Text)
    (r : Request) : Type 0 where
  pub handler : MayHandle req actor
  pub open_before : is_in req.status closed_statuses ≡ false
  pub written : is_nonempty (strip body) ≡ true
  pub moved : Request
  pub applied : apply_status cal now (with_answer req now actor body) completed ≡ ok moved
  pub recorded :
      r
      ≡ add_history moved
          (some actor.id)
          (some req.status)
          completed
          (some (text "Yakuniy javob yuborildi"))
          now

pub answer_request-Answered :
    (cal : SlaCalendar) (now : ℕ) (req : Request) (actor : User) (body : Text) (r : Request)
    → answer_request cal now req actor body ≡ ok r
    → Answered cal now req actor body r
unfolding answer_request
answer_request-Answered cal now req actor body r h =
    elim (Result-cases (apply_status cal now (with_answer req now actor body) completed)) [
      | inl (m, e) ↦ record {
        handler = record { writes = ground arith; owns = ground arith };
        open_before = ground arith;
        written = ground arith;
        moved = m;
        applied = e;
        recorded = ground arith;
      }
      | inr (x, e) ↦ absurd (ground arith)
    ]

-- What a resubmission that returned has checked and done.
pub record Resubmitted (cal : SlaCalendar) (now : ℕ) (req : Request) (student : User)
    (c : Option Text) (r : Request) : Type 0 where
  pub owner : (req.student_id == student.id) ≡ true
  pub was_returned : same req.status returned ≡ true
  pub moved : Request
  pub note : Text
  pub applied : apply_status cal now req in_progress ≡ ok moved
  pub recorded : r ≡ add_history moved (some student.id) (some returned) in_progress (some note) now

pub resubmit_request-Resubmitted :
    (cal : SlaCalendar) (now : ℕ) (req : Request) (student : User) (c : Option Text) (r : Request)
    → resubmit_request cal now req student c ≡ ok r
    → Resubmitted cal now req student c r
unfolding resubmit_request
resubmit_request-Resubmitted cal now req student c r h =
    elim (Result-cases (apply_status cal now req in_progress)) [
      | inl (m, e) ↦ record {
        owner = ground arith;
        was_returned = ground arith;
        moved = m;
        note = or_text c (text "Talaba murojaatni to'ldirib qayta yubordi");
        applied = e;
        recorded = ground arith;
      }
      | inr (x, e) ↦ absurd (ground arith)
    ]

-- What an assignment that returned has checked and done.
pub record Assigned (users : List User) (now : ℕ) (req : Request) (actor : User) (id : ℕ)
    (r : Request) : Type 0 where
  pub writes : has_role actor read_only ≡ false
  pub open_before : is_in req.status closed_statuses ≡ false
  pub assignee : User
  pub resolved : resolve_assignee users id ≡ ok assignee
  pub moved : Request
  pub reassigned : moved ≡ record req {
    assigned_to = some assignee.id;
    faculty_id = moved.faculty_id;
    department_id = moved.department_id;
  }
  pub note : Text
  pub recorded : r ≡ add_history moved (some actor.id) (some req.status) req.status (some note) now

pub assign_request-Assigned :
    (users : List User) (now : ℕ) (req : Request) (actor : User) (id : ℕ) (f d : Option ℕ)
    → (c : Option Text) (r : Request) → assign_request users now req actor id f d c ≡ ok r
    → Assigned users now req actor id r
unfolding assign_request
assign_request-Assigned users now req actor id f d c r h =
    elim (Result-cases (resolve_assignee users id)) [
      | inl (u, e) ↦ record {
        writes = ground arith;
        open_before = ground arith;
        assignee = u;
        resolved = e;
        moved = reassign req u f d;
        reassigned = refl;
        note = or_text c (text "Mas'ul xodim: " ++ u.full_name);
        recorded = ground arith;
      }
      | inr (x, e) ↦ absurd (ground arith)
    ]
