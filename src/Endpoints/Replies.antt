-- ===== src/Endpoints/Replies.antt =====
-- The detail that a handler of backend/app/api/v1/requests.py replies with, once it has committed.
use registrator_ofid.Base.{ℕ, ◌≡◌, refl, sym, ap, ◌∙◌, none, some, Option-cases, inl, inr}
use registrator_ofid.Http.{Result, Error, ok, err, >>=-eq-ok, ok_inj}
use registrator_ofid.Models.User.{User}
use registrator_ofid.Models.Request.{Request}
use registrator_ofid.Workflow.{find_request}
use registrator_ofid.Views.{RequestDetail, for_viewer}
use registrator_ofid.Work.{Env, Work}
use registrator_ofid.Endpoints.{Replied, sees_internal, reloaded, detail_for, reply_with}

-- The reply with the detail of a row that is there.
unfoldable pub reply_of : Env → ℕ → Work → User → Request → Replied RequestDetail
reply_of env code work user req = record {
  status_code = code;
  work = work;
  body = for_viewer work.db env.now req (sees_internal user);
}

pub reply_with_row :
    (env : Env) (code : ℕ) (work : Work) (id : ℕ) (user : User) (q : Request)
    → find_request work.db.requests id ≡ some q
    → reply_with env code work id user ≡ ok (reply_of env code work user q)
unfolding reply_with detail_for reloaded reply_of
reply_with_row env code work id user q found = rw found refl

pub clash : {A : Type 0} {r : Result A} {a : A} {e : Error} → r ≡ ok a → r ≡ err e → ⊥
clash e f = cc

no_row :
    (env : Env) (code : ℕ) (work : Work) (id : ℕ) (user : User) (reply : Replied RequestDetail)
    → find_request work.db.requests id ≡ none
    → reply_with env code work id user ≡ ok reply
    → ⊥
unfolding reply_with detail_for reloaded
no_row env code work id user reply missing h =
    let (d, detailed, rest) = >>=-eq-ok (detail_for env work id user) _ h in
    let (q, found, done) = >>=-eq-ok (reloaded (find_request work.db.requests id)) _ detailed in
    clash found (ap reloaded missing)

pub reply_with_found :
    (env : Env) (code : ℕ) (work : Work) (id : ℕ) (user : User) (reply : Replied RequestDetail)
    → reply_with env code work id user ≡ ok reply
    → (q : Request) × (find_request work.db.requests id ≡ some q)
      × (reply ≡ reply_of env code work user q)
reply_with_found env code work id user reply h =
    elim (Option-cases (find_request work.db.requests id)) [
      | inl missing ↦ absurd (no_row env code work id user reply missing h)
      | inr (q, found) ↦ (q, found, ok_inj (sym h ∙ reply_with_row env code work id user q found))
    ]
