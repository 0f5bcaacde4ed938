-- ===== src/Filing/Row.antt =====
-- The row that `create_request` of backend/app/services/request_service.py inserts.
use registrator_ofid.Base.{
  ℕ, ◌≡◌, refl, subst, true, not, ◌||◌, [], Option, arith, Bool-cases, Option-cases, inl, inr,
}
use registrator_ofid.Base.Text.{Text, or_empty, has_ink}
use registrator_ofid.Http.{ok}
use registrator_ofid.Calendar.{sla_deadline_from}
use registrator_ofid.Models.Status.{same, is_in}
use registrator_ofid.Models.User.{User}
use registrator_ofid.Models.Category.{RequestCategory, is_auto_reply}
use registrator_ofid.Models.Request.{Request}
use registrator_ofid.Models.Db.{Db}
use registrator_ofid.Workflow.{add_history}
use registrator_ofid.Workflow.Sound.{IsSound, IsSettled}
use registrator_ofid.Filing.{Context, Submission, build_request, settle, with_history}

-- A service that answers by itself has an answer that is not blank.
abbrev pub CanAnswer : RequestCategory → Type 0
CanAnswer category =
    (not (is_auto_reply category.routing) || has_ink (or_empty category.auto_reply_text)) ≡ true

settle-IsSettled :
    (db : Db) (ctx : Context) (student : User) (category : RequestCategory) (assignee : Option User)
    → (form : Submission) (number : Text) (deadline : ℕ) → CanAnswer category
    → let r = settle db ctx student category assignee form number deadline in
      IsSettled r × (r.history ≡ [])
unfolding settle is_in same
settle-IsSettled db ctx student category assignee form number deadline can =
    elim (Bool-cases (is_auto_reply category.routing)) [
      | inl auto ↦
          rw (auto, settle)
            (
              record {
                closed = refl;
                answered = refl;
                answer = ground arith;
                paused = refl;
                warned = refl;
              },
              refl,
            )
      | inr routed ↦
          rw (routed, settle)
            (
              record {
                closed = refl;
                answered = refl;
                answer = refl;
                paused = refl;
                warned = refl;
              },
              refl,
            )
    ]

with_history-IsSound :
    (ctx : Context) (student : User) (category : RequestCategory) (assignee : Option User)
    (r : Request)
    → IsSettled r
    → r.history ≡ []
    → IsSound (with_history ctx student category assignee r)
unfolding with_history add_history
with_history-IsSound ctx student category assignee r v e = record {
  settled = record {
    closed = v.closed;
    answered = v.answered;
    answer = v.answer;
    paused = v.paused;
    warned = v.warned;
  };
  trail = rw e (refl, (refl, refl));
}

-- A request that is filed satisfies the invariant, its answer included where the service answers.
pub build_request-IsSound :
    (db : Db) (ctx : Context) (student : User) (category : RequestCategory) (assignee : Option User)
    → (form : Submission) (number : Text) (r : Request) → CanAnswer category
    → build_request db ctx student category assignee form number ≡ ok r
    → IsSound r
unfolding build_request
build_request-IsSound db ctx student category assignee form number r can h =
    elim (Option-cases (sla_deadline_from ctx.calendar ctx.now category.sla_hours)) [
      | inl e ↦ absurd (ground arith)
      | inr (d, e) ↦
          let (v, empty) = settle-IsSettled db ctx student category assignee form number d can in
          let row = settle db ctx student category assignee form number d in
          subst IsSound (ground arith)
            (with_history-IsSound ctx student category assignee row v empty)
    ]
