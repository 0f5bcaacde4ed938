-- ===== src/Lifecycle/Sound.antt =====
-- No change of a request breaks its invariant.
use registrator_ofid.Base.{
  ℕ, ◌≡◌, refl, sym, ap, ◌∙◌, subst, Bool, true, false, List, Option, none, some, arith, is_some,
}
use registrator_ofid.Base.Text.{Text, has_ink-strip, nonempty-strip, strip, is_nonempty}
use registrator_ofid.Calendar.{SlaCalendar}
use registrator_ofid.Models.Status.{
  Status, in_progress, completed, returned, same, is_in, closed_statuses,
}
use registrator_ofid.Models.User.{User}
use registrator_ofid.Models.Request.{Request}
use registrator_ofid.Models.Db.{Db}
use registrator_ofid.Workflow.{allowed_transitions, with_answer}
use registrator_ofid.Workflow.Sound.{
  IsSettled, IsSound, Marked, Applied, add_history-IsSound, apply_status-Applied, Chain,
}
use registrator_ofid.Workflow.Moves.{
  Transitioned, transition_request-Transitioned, Answered, answer_request-Answered, Resubmitted,
  resubmit_request-Resubmitted, Assigned, assign_request-Assigned,
}
use registrator_ofid.Sla.{sweep_one, mark, notify, is_breached}
use registrator_ofid.Lifecycle.{Step, Reach}

abbrev marks : {req : Request} → IsSettled req → Marked req
marks v = record { paused = v.paused; warned = v.warned }

not_completed : (s : Status) → is_in s closed_statuses ≡ false → same s completed ≡ false
unfolding is_in same
not_completed s h = ground arith

-- A status that is not closed, reached from an open one.
opened-IsSettled :
    {now : ℕ} {s : Status} {req m : Request}
    → IsSettled req
    → Applied now s req m
    → is_in req.status closed_statuses ≡ false
    → is_in s closed_statuses ≡ false
    → IsSettled m
opened-IsSettled {now} {s} {req} {m} v a was will = record {
  closed =
      ap is_some a.closed_at
      ∙ rw will (v.closed ∙ was)
      ∙ sym (ap (λ t. is_in t closed_statuses) a.status ∙ will);
  answered =
      ap is_some a.answered_at
      ∙ v.answered
      ∙ not_completed req.status was
      ∙ sym (ap (λ t. same t completed) a.status ∙ not_completed s will);
  answer = rw (ap (λ t. same t completed) a.status ∙ not_completed s will) refl;
  paused = a.paused ∙ sym (ap (λ t. same t returned) a.status);
  warned = a.warned;
}

-- Completed, with an answer that is not blank.
completed-IsSettled :
    (now at : ℕ) (actor : User) (body : Text) (req m : Request)
    → Applied now completed (with_answer req at actor body) m
    → is_nonempty (strip body) ≡ true
    → IsSettled m
unfolding same is_in
completed-IsSettled now at actor body req m a written =
    ground (arith, has_ink-strip body, nonempty-strip body)

allowed_open :
    (was s : Status)
    → is_in s (allowed_transitions was) ≡ true
    → (is_in was closed_statuses ≡ false) × (is_in s closed_statuses ≡ false)
unfolding is_in same allowed_transitions
allowed_open was s h = ground arith

Transitioned-IsSound :
    {cal : SlaCalendar} {now : ℕ} {req r : Request} {actor : User} {s : Status} {c : Option Text}
    → IsSound req
    → Transitioned cal now req actor s c r
    → IsSound r
Transitioned-IsSound {cal} {now} {req} {r} {actor} {s} {c} v t =
    let a = apply_status-Applied cal now req t.moved s (marks v.settled) t.applied in
    let (was, will) = allowed_open req.status s t.allowed in
    subst IsSound (sym t.recorded) (
      add_history-IsSound t.moved (some actor.id) req.status s c now
        (opened-IsSettled v.settled a was will) a.status
        (subst (λ hs. Chain none hs (some req.status)) (sym a.history) v.trail))

Answered-IsSound :
    {cal : SlaCalendar} {now : ℕ} {req r : Request} {actor : User} {body : Text}
    → IsSound req
    → Answered cal now req actor body r
    → IsSound r
Answered-IsSound {cal} {now} {req} {r} {actor} {body} v t =
    let a =
      apply_status-Applied cal now (with_answer req now actor body) t.moved completed
        (record { paused = v.settled.paused; warned = v.settled.warned }) t.applied in
    subst IsSound (sym t.recorded) (
      add_history-IsSound t.moved (some actor.id) req.status completed _ now
        (completed-IsSettled now now actor body req t.moved a t.written) a.status
        (subst (λ hs. Chain none hs (some req.status)) (sym a.history) v.trail))

returned-eq : (s : Status) → same s returned ≡ true → s ≡ returned
unfolding same
returned-eq s h = ground arith

Resubmitted-IsSound :
    {cal : SlaCalendar} {now : ℕ} {req r : Request} {student : User} {c : Option Text}
    → IsSound req
    → Resubmitted cal now req student c r
    → IsSound r
unfolding is_in same
Resubmitted-IsSound {cal} {now} {req} {r} {student} {c} v t =
    let a = apply_status-Applied cal now req t.moved in_progress (marks v.settled) t.applied in
    let e = returned-eq req.status t.was_returned in
    subst IsSound (sym t.recorded) (
      add_history-IsSound t.moved (some student.id) returned in_progress _ now
        (opened-IsSettled v.settled a (ap (λ s. is_in s closed_statuses) e) refl) a.status
        (subst (λ hs. Chain none hs (some returned)) (sym a.history)
          (subst (λ s. Chain none req.history (some s)) e v.trail)))

Assigned-IsSound :
    {users : List User} {now : ℕ} {req r : Request} {actor : User} {id : ℕ}
    → IsSound req
    → Assigned users now req actor id r
    → IsSound r
Assigned-IsSound {users} {now} {req} {r} {actor} {id} v t = subst IsSound (sym t.recorded) (
    add_history-IsSound t.moved (some actor.id) req.status req.status _ now
      (subst IsSettled (sym t.reassigned) (settled_elsewhere v.settled))
      (ap (λ m. m.status) t.reassigned)
      (subst (λ m. Chain none m.history (some req.status)) (sym t.reassigned) v.trail))
  where
    settled_elsewhere :
        {a f d : Option ℕ}
        → IsSettled req
        → IsSettled (record req { assigned_to = a; faculty_id = f; department_id = d })
    settled_elsewhere w = record {
      closed = w.closed;
      answered = w.answered;
      answer = w.answer;
      paused = w.paused;
      warned = w.warned;
    }

mark-IsSound : (now : ℕ) (b : Bool) (m : Request) → IsSound m → IsSound (mark now b m)
unfolding mark
mark-IsSound now true m v = record {
  settled = record {
    closed = v.settled.closed;
    answered = v.settled.answered;
    answer = v.settled.answer;
    paused = v.settled.paused;
    warned = ground arith;
  };
  trail = v.trail;
}
mark-IsSound now false m v = record {
  settled = record {
    closed = v.settled.closed;
    answered = v.settled.answered;
    answer = v.settled.answer;
    paused = v.settled.paused;
    warned = ground arith;
  };
  trail = v.trail;
}

swept-IsSound : (db : Db) (now : ℕ) (r : Request) → IsSound r → IsSound (sweep_one db now r).request
unfolding sweep_one notify
swept-IsSound db now r v =
    mark-IsSound now (is_breached now r) _
      (add_history-IsSound r none r.status r.status _ now v.settled refl v.trail)

-- Any change of a request by a call of the workflow or a round of the sweep, with any actor, calendar
-- and time, keeps the invariant.
pub Step-IsSound : {r r' : Request} → Step r r' → IsSound r → IsSound r'
Step-IsSound {r} {r'} (Step.transitioned cal now actor s c h) v =
    Transitioned-IsSound v (transition_request-Transitioned cal now r actor s c r' h)
Step-IsSound {r} {r'} (Step.answered cal now actor body h) v =
    Answered-IsSound v (answer_request-Answered cal now r actor body r' h)
Step-IsSound {r} {r'} (Step.resubmitted cal now student c h) v =
    Resubmitted-IsSound v (resubmit_request-Resubmitted cal now r student c r' h)
Step-IsSound {r} {r'} (Step.assigned users now actor id f d c h) v =
    Assigned-IsSound v (assign_request-Assigned users now r actor id f d c r' h)
Step-IsSound (Step.swept db now warn_before due e) v =
    subst IsSound (sym e) (swept-IsSound db now _ v)

-- A request that satisfies the invariant satisfies it after any sequence of workflow calls and sweep
-- rounds: its dates, answer and pause agree with its status, and its history has no gap.
pub Reach-IsSound : {r r' : Request} → Reach r r' → IsSound r → IsSound r'
Reach-IsSound Reach.here v = v
Reach-IsSound (Reach.next before step) v = Step-IsSound step (Reach-IsSound before v)
