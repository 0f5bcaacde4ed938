-- ===== src/Workflow/Sound.antt =====
-- The invariant of a request row under backend/app/services/request_service.py.
use registrator_ofid.Base.{
  ℕ, ◌≡◌, refl, sym, ap, ◌∙◌, inl, inr, true, not, ◌||◌, List, [], ◌∷◌, ◌++◌, Option, none, some,
  arith, Bool-cases, if◌then◌else◌, is_some,
}
use registrator_ofid.Base.Text.{Text, or_empty, has_ink}
use registrator_ofid.Http.{ok, >>=-eq-ok}
use registrator_ofid.Calendar.{SlaCalendar}
use registrator_ofid.Models.Status.{Status, completed, returned, same, is_in, closed_statuses}
use registrator_ofid.Models.Request.{Request, RequestHistory}
use registrator_ofid.Workflow.{apply_status, move_clock, resume, add_history}

-- The entries lead from one status to another, each from where the last one ended.
abbrev pub Chain : Option Status → List RequestHistory → Option Status → Type 0
Chain s [] t = s ≡ t
Chain s (h ∷ hs) t = (h.old_status ≡ s) × Chain (some h.new_status) hs t

pub Chain-snoc :
    (s t : Option Status) (hs : List RequestHistory) (h : RequestHistory)
    → Chain s hs t
    → h.old_status ≡ t
    → Chain s (hs ++ h ∷ []) (some h.new_status)
Chain-snoc s t [] h c e = (e ∙ sym c, refl)
Chain-snoc s t (g ∷ hs) h c e = (c.0, Chain-snoc (some g.new_status) t hs h c.1 e)

-- The columns of a request agree with its status: `closed_at` is set exactly on closed requests, an
-- answer time exactly on completed ones, whose answer is not blank; the SLA clock is paused exactly
-- while the request is returned; and a breach mark comes with a warning mark.
pub record IsSettled (req : Request) : Type 0 where
  pub closed : is_some req.closed_at ≡ is_in req.status closed_statuses
  pub answered : is_some req.answered_at ≡ same req.status completed
  pub answer : (not (same req.status completed) || has_ink (or_empty req.answer_text)) ≡ true
  pub paused : is_some req.sla_paused_at ≡ same req.status returned
  pub warned : (not (is_some req.sla_breached_at) || is_some req.sla_warned_at) ≡ true

-- And its history leads from nothing to the current status without a gap.
pub record IsSound (req : Request) : Type 0 where
  pub settled : IsSettled req
  pub trail : Chain none req.history (some req.status)

-- A new entry that starts from the last status keeps the trail.
pub add_history-IsSound :
    (m : Request) (by : Option ℕ) (old s : Status) (c : Option Text) (now : ℕ)
    → IsSettled m
    → m.status ≡ s
    → Chain none m.history (some old)
    → IsSound (add_history m by (some old) s c now)
unfolding add_history
add_history-IsSound m by old s c now v e chain = record {
  settled = record {
    closed = v.closed;
    answered = v.answered;
    answer = v.answer;
    paused = v.paused;
    warned = v.warned;
  };
  trail = rw e (Chain-snoc none (some old) m.history _ chain refl);
}

-- The part of the invariant that the SLA clock keeps.
pub record Marked (req : Request) : Type 0 where
  pub paused : is_some req.sla_paused_at ≡ same req.status returned
  pub warned : (not (is_some req.sla_breached_at) || is_some req.sla_warned_at) ≡ true

-- What `_apply_status` changes, when it returns.
pub record Applied (now : ℕ) (s : Status) (req r : Request) : Type 0 where
  pub status : r.status ≡ s
  pub closed_at : r.closed_at ≡ (if is_in s closed_statuses then some now else req.closed_at)
  pub paused : is_some r.sla_paused_at ≡ same s returned
  pub warned : (not (is_some r.sla_breached_at) || is_some r.sla_warned_at) ≡ true
  pub history : r.history ≡ req.history
  pub answered_at : r.answered_at ≡ req.answered_at
  pub answer_text : r.answer_text ≡ req.answer_text
  pub id : r.id ≡ req.id
  pub assigned_to : r.assigned_to ≡ req.assigned_to

-- What the clock's branches leave alone, and that they keep the two marks in order.
record Moved (req r : Request) : Type 0 where
  closed_at : r.closed_at ≡ req.closed_at
  warned : (not (is_some r.sla_breached_at) || is_some r.sla_warned_at) ≡ true
  history : r.history ≡ req.history
  answered_at : r.answered_at ≡ req.answered_at
  answer_text : r.answer_text ≡ req.answer_text
  id : r.id ≡ req.id
  assigned_to : r.assigned_to ≡ req.assigned_to

resume-Moved :
    (cal : SlaCalendar) (now : ℕ) (req r : Request) (p : Option ℕ)
    → (not (is_some req.sla_breached_at) || is_some req.sla_warned_at) ≡ true
    → resume cal now req p ≡ ok r
    → Moved req r × (r.sla_paused_at ≡ none)
unfolding resume
resume-Moved cal now req r none w h = ground arith
resume-Moved cal now req r (some p) w h = ground arith

move_clock-Moved :
    (cal : SlaCalendar) (now : ℕ) (req r : Request) (s : Status)
    → Marked req
    → move_clock cal now req s ≡ ok r
    → Moved req r × (is_some r.sla_paused_at ≡ same s returned)
unfolding move_clock
move_clock-Moved cal now req r s v h = elim (Bool-cases (same s returned)) [
  | inl to ↦ ground arith
  | inr away ↦ elim (Bool-cases (same req.status returned)) [
    | inl from ↦
        let (m, e) = resume-Moved cal now req r req.sla_paused_at v.warned (ground arith) in
        (m, ap is_some e ∙ sym away)
    | inr other ↦ ground arith
  ]
]

pub apply_status-Applied :
    (cal : SlaCalendar) (now : ℕ) (req r : Request) (s : Status)
    → Marked req
    → apply_status cal now req s ≡ ok r
    → Applied now s req r
unfolding apply_status
apply_status-Applied cal now req r s v h =
    let (q, e, made) = >>=-eq-ok (move_clock cal now req s) _ h in
    let (m, p) = move_clock-Moved cal now req q s v e in ground arith

pub apply_status_sets :
    (cal : SlaCalendar) (now : ℕ) (req r : Request) (s : Status)
    → apply_status cal now req s ≡ ok r
    → r.status ≡ s
unfolding apply_status
apply_status_sets cal now req r s h =
    let (q, e, made) = >>=-eq-ok (move_clock cal now req s) _ h in ground arith

-- A row that is that of the same student.
abbrev pub SameOwner : Request → Request → Type 0
SameOwner req r = (r.id ≡ req.id) × (r.student_id ≡ req.student_id)

resume-SameOwner :
    (cal : SlaCalendar) (now : ℕ) (req r : Request) (p : Option ℕ)
    → resume cal now req p ≡ ok r
    → SameOwner req r
unfolding resume
resume-SameOwner cal now req r none h = ground arith
resume-SameOwner cal now req r (some p) h = ground arith

move_clock-SameOwner :
    (cal : SlaCalendar) (now : ℕ) (req r : Request) (s : Status)
    → move_clock cal now req s ≡ ok r
    → SameOwner req r
unfolding move_clock
move_clock-SameOwner cal now req r s h = elim (Bool-cases (same s returned)) [
  | inl to ↦ ground arith
  | inr away ↦ elim (Bool-cases (same req.status returned)) [
    | inl from ↦ resume-SameOwner cal now req r req.sla_paused_at (ground arith)
    | inr other ↦ ground arith
  ]
]

pub apply_status-SameOwner :
    (cal : SlaCalendar) (now : ℕ) (req r : Request) (s : Status)
    → apply_status cal now req s ≡ ok r
    → SameOwner req r
unfolding apply_status
apply_status-SameOwner cal now req r s h =
    let (q, e, made) = >>=-eq-ok (move_clock cal now req s) _ h in
    let kept = move_clock-SameOwner cal now req q s e in ground arith
